-- ===== src/Indexer/Apply.antt =====
-- crates/hallouminate-domain/src/indexer/apply.rs: how a plan is carried out against the store. The
-- clock is an argument.
pub mod Passes
pub mod Errors
pub mod Events
pub mod Kept
pub mod Deletions
pub mod Evictions
pub mod Tallies
pub mod Lane
use hallouminate.Common.{Option, none, some, List, [], ◌∷◌, max}
use hallouminate.Indexer.ContentKey.{PreparedFile}
use hallouminate.Indexer.Run.{Action, Outcome, Run, pure, ◌>>=◌, ◌>>◌}
use hallouminate.Indexer.Stats.{no_stats}
use hallouminate.Indexer.Types.{FileSnapshot, Upsert, MtimeCandidate, IndexPlan}
use hallouminate.Indexer.Writer.{WriteRequest}
use hallouminate.Indexer.Requests.{EmptyFilePolicy, retain, evict, batches}
use hallouminate.Indexer.Steps.{
  RunCtx, take_request, write_batch, upsert_request, check_candidate, remove_snapshot,
}

abbrev pub push_some : {A : Type 0} → Option A → List A → List A
push_some none xs = xs
push_some (some x) xs = x ∷ xs

module _ {W : Type 0} (run : RunCtx W) where
  -- The loop over the requests of a batch.
  unfoldable pub take_requests : EmptyFilePolicy → List WriteRequest → Action (List PreparedFile)
  unfolding take_request
  take_requests policy [] = pure []
  take_requests policy (req ∷ reqs) =
      take_request run policy req >>= λ p. take_requests policy reqs >>= λ ps. pure (push_some p ps)

  unfoldable pub run_batches : EmptyFilePolicy → List (List WriteRequest) → Action (Unit {0})
  unfolding take_requests write_batch
  run_batches policy [] = pure tt
  run_batches policy (b ∷ bs) = take_requests policy b >>= write_batch run >> run_batches policy bs

  unfoldable pub upsert_requests : List Upsert → Action (List WriteRequest)
  unfolding upsert_request
  upsert_requests [] = pure []
  upsert_requests (u ∷ us) =
      upsert_request run u >>= λ req. upsert_requests us >>= λ reqs. pure (req ∷ reqs)

  unfoldable pub check_candidates : List MtimeCandidate → Action (List WriteRequest)
  unfolding check_candidate
  check_candidates [] = pure []
  check_candidates (c ∷ cs) =
      check_candidate run c >>= λ req. check_candidates cs >>= λ reqs. pure (push_some req reqs)

  unfoldable pub remove_snapshots : List FileSnapshot → Action (Unit {0})
  unfolding remove_snapshot
  remove_snapshots [] = pure tt
  remove_snapshots (s ∷ ss) = remove_snapshot run s >> remove_snapshots ss

  unfoldable pub run_in_batches : EmptyFilePolicy → List WriteRequest → Action (Unit {0})
  unfolding batches run_batches
  run_in_batches policy reqs = run_batches policy (batches run.key_first run.batch_size reqs)

  unfoldable pub apply_plan : IndexPlan → Action (Unit {0})
  unfolding upsert_requests run_in_batches check_candidates remove_snapshots
  apply_plan plan =
      upsert_requests plan.upserts
      >>= run_in_batches retain
      >> check_candidates plan.mtime_touches
      >>= run_in_batches evict
      >> remove_snapshots plan.deletes

-- The pass's own context: a batch holds at least one file.
abbrev pub clamped : {W : Type 0} → RunCtx W → RunCtx W
clamped run = record run { batch_size = max run.batch_size 1 }

abbrev pub start : Run
start = record { log = []; stats = no_stats }

-- A pass from the start: the calls it made, and its tallies or the first error.
unfoldable pub apply_with_lane : {W : Type 0} → RunCtx W → IndexPlan → Outcome (Unit {0})
unfolding apply_plan
apply_with_lane run plan = apply_plan (clamped run) plan start
