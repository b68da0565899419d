-- ===== src/Indexer/Apply/Passes.antt =====
-- `apply_with_lane` of crates/hallouminate-domain/src/indexer/apply.rs keeps what its steps keep: the
-- loops once and for all.
use hallouminate.Common.{ℕ, ◌≤◌, suc, Option, none, some, List, [], ◌∷◌, arith, length, All}
use hallouminate.Indexer.Apply.{
  push_some, take_requests, run_batches, run_in_batches, upsert_requests, check_candidates,
  remove_snapshots, apply_plan,
}
use hallouminate.Indexer.ContentKey.{PreparedFile}
use hallouminate.Indexer.Requests.{EmptyFilePolicy, retain, evict, batches}
use hallouminate.Indexer.Requests.Batches.{IsNarrow, batches-All, batches-IsNarrow}
use hallouminate.Indexer.Run.{Run}
use hallouminate.Indexer.Steps.{
  RunCtx, take_request, write_batch, upsert_request, check_candidate, remove_snapshot,
}
use hallouminate.Indexer.Triples.{Triple, Raised, ◌then◌, pure-Triple, given-Triple}
use hallouminate.Indexer.Types.{IndexPlan, Upsert, MtimeCandidate, FileSnapshot}
use hallouminate.Indexer.Writer.{WriteRequest}

-- What holds of a request, if there is one.
abbrev pub Given : (WriteRequest → Type 0) → Option WriteRequest → Type 0
Given P none = Unit
Given P (some req) = P req

Given-push_some :
    (P : WriteRequest → Type 0) (req : Option WriteRequest) (reqs : List WriteRequest)
    → Given P req
    → All P reqs
    → All P (push_some req reqs)
Given-push_some P none reqs h hs = hs
Given-push_some P (some req) reqs h hs = (h, hs)

All-true : {A : Type 0} (xs : List A) → All {0, 0} (λ _. Unit) xs
All-true [] = tt
All-true (x ∷ xs) = (tt, All-true xs)

push_some-IsNarrow :
    (n : ℕ) (p : Option PreparedFile) (ps : List PreparedFile)
    → IsNarrow n ps
    → length (push_some p ps) ≤ suc n
push_some-IsNarrow n none ps h = omega arith
push_some-IsNarrow n (some p) ps h = omega arith

module _ {W : Type 0} (run : RunCtx W) (I : Run → Type 0) (E : Raised) where
  -- A pass of requests under one policy, each of which satisfies `P`.
  module _ (policy : EmptyFilePolicy) (P : WriteRequest → Type 0)
      (take : (req : WriteRequest) → P req → Triple (λ _. I) E I (take_request run policy req))
      (write : (files : List PreparedFile)
        → length files ≤ run.batch_size
        → Triple (λ _. I) E I (write_batch run files)) where
    take_requests-Triple :
        (reqs : List WriteRequest)
        → All P reqs
        → Triple (λ files r. I r × IsNarrow (length reqs) files) E I (take_requests run policy reqs)
    unfolding take_requests
    take_requests-Triple [] h = pure-Triple I [] (λ r i. (i, omega arith))
    take_requests-Triple (req ∷ reqs) h = take req h.0 then λ p.
        take_requests-Triple reqs h.1 then λ ps.
        pure-Triple _ (push_some p ps)
          (λ r (i, narrow). (i, push_some-IsNarrow (length reqs) p ps narrow))

    run_batches-Triple :
        (bs : List (List WriteRequest))
        → All (All P) bs
        → All (IsNarrow run.batch_size) bs
        → Triple (λ _. I) E I (run_batches run policy bs)
    unfolding run_batches
    run_batches-Triple [] h narrow = pure-Triple I tt (λ r i. i)
    run_batches-Triple (b ∷ bs) h narrow =
        take_requests-Triple b h.0
        then (λ files. given-Triple (λ len. write files (omega (arith, len, narrow.0))))
        then λ _. run_batches-Triple bs h.1 narrow.1

    run_in_batches-Triple :
        (reqs : List WriteRequest)
        → All P reqs
        → Triple (λ _. I) E I (run_in_batches run policy reqs)
    unfolding run_in_batches
    run_in_batches-Triple reqs h =
        run_batches-Triple (batches run.key_first run.batch_size reqs)
          (batches-All P run.key_first run.batch_size reqs h)
          (batches-IsNarrow run.key_first run.batch_size reqs)

  -- What the steps of a pass keep; `P` holds of the candidates that fall through to a write.
  pub record Steps (P : WriteRequest → Type 0) (plan : IndexPlan) : Type 0 where
    pub upserts : All (λ u. Triple (λ _. I) E I (upsert_request run u)) plan.upserts
    pub retains : (req : WriteRequest) → Triple (λ _. I) E I (take_request run retain req)
    pub candidates :
        All
          (λ c. Triple (λ req r. I r × Given P req) E I (check_candidate run c))
          plan.mtime_touches
    pub evicts : (req : WriteRequest) → P req → Triple (λ _. I) E I (take_request run evict req)
    pub writes :
        (files : List PreparedFile)
        → length files ≤ run.batch_size
        → Triple (λ _. I) E I (write_batch run files)
    pub deletes : All (λ s. Triple (λ _. I) E I (remove_snapshot run s)) plan.deletes

  upsert_requests-Triple :
      (us : List Upsert)
      → All (λ u. Triple (λ _. I) E I (upsert_request run u)) us
      → Triple (λ _. I) E I (upsert_requests run us)
  unfolding upsert_requests
  upsert_requests-Triple [] h = pure-Triple I [] (λ r i. i)
  upsert_requests-Triple (u ∷ us) h = h.0 then λ req.
      upsert_requests-Triple us h.1 then λ reqs. pure-Triple I (req ∷ reqs) (λ r i. i)

  remove_snapshots-Triple :
      (ss : List FileSnapshot)
      → All (λ s. Triple (λ _. I) E I (remove_snapshot run s)) ss
      → Triple (λ _. I) E I (remove_snapshots run ss)
  unfolding remove_snapshots
  remove_snapshots-Triple [] h = pure-Triple I tt (λ r i. i)
  remove_snapshots-Triple (s ∷ ss) h = h.0 then λ _. remove_snapshots-Triple ss h.1

  module _ (P : WriteRequest → Type 0) where
    check_candidates-Triple :
        (cs : List MtimeCandidate)
        → All (λ c. Triple (λ req r. I r × Given P req) E I (check_candidate run c)) cs
        → Triple (λ reqs r. I r × All P reqs) E I (check_candidates run cs)
    unfolding check_candidates
    check_candidates-Triple [] h = pure-Triple I [] (λ r i. (i, tt))
    check_candidates-Triple (c ∷ cs) h = h.0 then λ req. given-Triple (λ p.
        check_candidates-Triple cs h.1 then λ reqs.
        pure-Triple _ (push_some req reqs) (λ r (i, ps). (i, Given-push_some P req reqs p ps)))

    -- A pass keeps what each of its steps keeps.
    pub apply_plan-Triple :
        (plan : IndexPlan) → Steps P plan → Triple (λ _. I) E I (apply_plan run plan)
    unfolding apply_plan
    apply_plan-Triple plan h =
        upsert_requests-Triple plan.upserts h.upserts
        then (λ reqs.
            run_in_batches-Triple retain (λ _. Unit) (λ req _. h.retains req) h.writes reqs
              (All-true reqs))
        then (λ _. check_candidates-Triple plan.mtime_touches h.candidates)
        then (λ reqs. given-Triple (run_in_batches-Triple evict P h.evicts h.writes reqs))
        then λ _. remove_snapshots-Triple plan.deletes h.deletes
