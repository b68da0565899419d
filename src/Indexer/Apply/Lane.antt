-- ===== src/Indexer/Apply/Lane.antt =====
-- The write lane of crates/hallouminate-domain/src/indexer/apply.rs: it is held around each store
-- write, and around nothing slower.
use hallouminate.Common.{◌≡◌, refl, Bool, true, false, Option, none, some, [], ◌∷◌}
use hallouminate.Indexer.Apply.{clamped, apply_with_lane}
use hallouminate.Indexer.Apply.Events.{Events, Deletions}
use hallouminate.Indexer.Apply.Deletions.{apply_with_lane-Post}
use hallouminate.Indexer.Run.{
  Log, Run, Outcome, done, stopped, Event, acquired, released, hashed, prepared, touched, deleted,
  batch_prepared, committed, written, failed, with_lane, Action,
}
use hallouminate.Indexer.Steps.{RunCtx}
use hallouminate.Indexer.Triples.{Triple, Post, ended, raised, ◌then◌, answer-Triple, held-Triple}
use hallouminate.Indexer.Types.{IndexPlan}
use hallouminate.Indexer.Writer.{Result}

-- The lane is free (`false`) or held; `none` is what the protocol forbids: to take a held lane, to
-- drop a free one, a store write on a free one, and slow work on a held one.
unfoldable pub lane_step : Event → Bool → Option Bool
lane_step acquired false = some true
lane_step released true = some false
lane_step (touched key ref mtime) true = some true
lane_step (deleted key ref) true = some true
lane_step (committed files) true = some true
lane_step (written stats) true = some true
lane_step (hashed f) false = some false
lane_step (prepared key f p) false = some false
lane_step (batch_prepared files) false = some false
lane_step (failed e) lane = some lane
lane_step e lane = none

abbrev pub lane_next : Event → Option Bool → Option Bool
unfolding lane_step
lane_next e none = none
lane_next e (some lane) = lane_step e lane

-- The lane after a log.
unfoldable pub lane_after : Log → Option Bool
unfolding lane_step
lane_after [] = some false
lane_after (e ∷ log) = lane_next e (lane_after log)

abbrev pub log_of : {A : Type 0} → Outcome A → Log
log_of (done a r) = r.log
log_of (stopped e r) = r.log

abbrev IsFree : Run → Type 0
IsFree r = lane_after r.log ≡ some false

abbrev IsHeld : Run → Type 0
IsHeld r = lane_after r.log ≡ some true

lane-Deletions : {W : Type 0} (run : RunCtx W) → Deletions run IsHeld (λ _. IsHeld)
unfolding lane_after
lane-Deletions run = record {
  deletes = λ key ref r _ i. rw i;
  delete_fails = λ key ref e r _ i. rw i;
}

module _ {W : Type 0} (run : RunCtx W) (acquire : Log → Result (Unit {0}))
    (laned : run.out.lane ≡ some acquire) where
  scope_some :
      {m : Action (Unit {0})}
      → Triple (λ _. IsHeld) (λ _. IsHeld) IsHeld m
      → Triple (λ _. IsFree) (λ _. IsFree) IsFree (with_lane (some acquire) m)
  unfolding with_lane lane_after
  scope_some t = answer-Triple acquire (λ _ r _ i. i) (λ e r _ i. rw i) then λ _.
      held-Triple (λ r i. rw i) t (λ _ r i. rw i) (λ e r i. rw i)

  lane-Events : Events run IsFree IsHeld (λ _ _. IsFree) (λ _. IsFree) (λ _. IsHeld)
  unfolding lane_after
  lane-Events = record {
    scope = λ t. rw laned (scope_some t);
    raises = λ e r _ i. rw i;
    hashes = λ f hash r _ i. rw i;
    hash_fails = λ f e r _ i. rw i;
    skips = λ key f reason r _ i. rw i;
    finds_empty = λ key f pf r _ empty i. rw i;
    keeps_empty = λ key f r i. i;
    prepares = λ key f pf r _ full i. rw i;
    touches = λ key ref mtime r _ i. rw i;
    touch_fails = λ key ref mtime e r _ i. rw i;
    embeds = λ fs work r _ i. rw i;
    embed_fails = λ fs e r _ i. rw i;
    commits = λ fs ws work r _ narrow i. rw i;
    commit_fails = λ fs e work r _ i. rw i;
  }

log_of-Post :
    (o : Outcome (Unit {0}))
    → Post (λ _. IsFree) (λ _. IsFree) o
    → lane_after (log_of o) ≡ some false
log_of-Post (done a r) (ended i) = i
log_of-Post (stopped e r) (raised i) = i

-- Of a pass that is given a lane, every store write happens under it, no file is read or hashed and
-- nothing is embedded under it, it is never asked for while it is held, and it is free in the end,
-- also after an error.
pub apply_with_lane-lane_after :
    {W : Type 0} (run : RunCtx W) (acquire : Log → Result (Unit {0})) (plan : IndexPlan)
    → run.out.lane ≡ some acquire
    → lane_after (log_of (apply_with_lane run plan)) ≡ some false
unfolding lane_after
apply_with_lane-lane_after run acquire plan laned = log_of-Post _ (
    apply_with_lane-Post run (lane-Events (clamped run) acquire laned)
      (lane-Deletions (clamped run)) refl plan)
