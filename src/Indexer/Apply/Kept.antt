-- ===== src/Indexer/Apply/Kept.antt =====
-- What the steps of crates/hallouminate-domain/src/indexer/apply.rs keep, where their events keep it.
use hallouminate.Common.{◌≤◌, ◌≡◌, true, false, none, some, List, [], ◌∷◌, length, All}
use hallouminate.Indexer.Apply.{clamped, start, apply_with_lane}
use hallouminate.Indexer.Apply.Passes.{Steps, Given, apply_plan-Triple}
use hallouminate.Indexer.ContentKey.{PreparedFile}
use hallouminate.Indexer.Requests.{EmptyFilePolicy, retain, evict, owner_among}
use hallouminate.Indexer.Run.{Run, hashed, prepared, batch_prepared, committed, written, note}
use hallouminate.Indexer.Stats.{record_unreadable}
use hallouminate.Indexer.Steps.{
  RunCtx, has_chunks, corpus_key_for_file, upsert_key, upsert_request, prepare_request, drop_empty,
  settle, take_request, tally_written, commit, write_batch, touch_rows, new_hash, fallen,
  check_candidate, remove_snapshot,
}
use hallouminate.Indexer.Triples.{
  Triple, Raised, Post, ◌then◌, pure-Triple, answer-Triple, raise-Triple, option-Triple, if-Triple,
  tell-Triple, tally-Triple, call-Triple,
}
use hallouminate.Indexer.Types.{CorpusKey, FileRef, IndexPlan, Upsert, MtimeCandidate}
use hallouminate.Indexer.Writer.{ok, WriteRequest, Prepared, file, skipped}
use hallouminate.Indexer.Apply.Events.{
  Events, unowned, unprepared, preparation, All-from, add_touched, add_empty, adding,
}

module _ {W : Type 0} (run : RunCtx W) {I B : Run → Type 0} {M : CorpusKey → FileRef → Run → Type 0}
    {E F : Raised} (h : Events run I B M E F) where
  corpus_key_for_file-Triple : (f : FileRef) → Triple (λ _. I) E I (corpus_key_for_file run f)
  unfolding corpus_key_for_file
  corpus_key_for_file-Triple f =
      option-Triple (owner_among (run.out.canonicalize f) none run.keys)
        (λ none_owns. raise-Triple _ (λ r. h.raises _ r (unowned f none_owns)))
        (λ key. pure-Triple I key (λ r i. i))

  upsert_key-Triple : (u : Upsert) → Triple (λ _. I) E I (upsert_key run u)
  unfolding upsert_key
  upsert_key-Triple u =
      option-Triple u.corpus_key (λ _. corpus_key_for_file-Triple u.file)
        (λ key. pure-Triple I key (λ r i. i))

  upsert_request-Triple : (u : Upsert) → Triple (λ _. I) E I (upsert_request run u)
  unfolding upsert_request
  upsert_request-Triple u = upsert_key-Triple u then λ key. pure-Triple I _ (λ r i. i)

  touch_rows-Triple : (c : MtimeCandidate) → Triple (λ _. I) E I (touch_rows run c)
  unfolding touch_rows
  touch_rows-Triple c = h.scope (
      call-Triple {Q = λ _ r. B (adding add_touched r)} _ _ (λ _. h.touches _ _ _)
        (h.touch_fails _ _ _)
      then λ _. tally-Triple add_touched (λ r i. i))

  new_hash-Triple : (c : MtimeCandidate) → Triple (λ _. I) E I (new_hash run c)
  unfolding new_hash
  new_hash-Triple c =
      option-Triple c.known_hash
        (λ _. call-Triple (hashed c.file) _ (h.hashes c.file) (h.hash_fails c.file))
        (λ hash. pure-Triple I hash (λ r i. i))

  check_candidate-Triple :
      (P : WriteRequest → Type 0) (c : MtimeCandidate)
      → P (fallen run c)
      → Triple (λ req r. I r × Given P req) E I (check_candidate run c)
  unfolding check_candidate
  check_candidate-Triple P c p = new_hash-Triple c then λ hash.
      if-Triple _ (λ same. touch_rows-Triple c then λ _. pure-Triple I none (λ r i. (i, tt)))
        (λ changed. pure-Triple I (some (fallen run c)) (λ r i. (i, p)))

  commit-Triple :
      (fs : List PreparedFile) (work : W)
      → length fs ≤ run.batch_size
      → Triple (λ _. B) F B (commit run fs work)
  unfolding commit
  commit-Triple fs work narrow =
      call-Triple {Q = λ ws r. B (adding (tally_written run (length fs) ws) (note (written ws) r))}
        (committed fs) (λ log. run.out.commit_batch log fs work)
        (λ ws r same b. h.commits fs ws work r same narrow b) (λ e r. h.commit_fails fs e work r)
      then λ ws. tell-Triple (written ws) (λ r b. b) then λ _.
          tally-Triple (tally_written run (length fs) ws) (λ r b. b)

  write_batch-Triple :
      (fs : List PreparedFile)
      → length fs ≤ run.batch_size
      → Triple (λ _. I) E I (write_batch run fs)
  unfolding write_batch
  write_batch-Triple [] narrow = pure-Triple I tt (λ r i. i)
  write_batch-Triple (f ∷ fs) narrow =
      call-Triple (batch_prepared (f ∷ fs)) (λ log. run.out.prepare_batch log (f ∷ fs))
        (h.embeds (f ∷ fs)) (h.embed_fails (f ∷ fs))
      then λ work. h.scope (commit-Triple (f ∷ fs) work narrow)

  -- What the preparation of a file and the tally of it make of the state.
  abbrev Settled : WriteRequest → Prepared → Run → Type 0
  Settled req (skipped reason) r =
      I (adding (record_unreadable (record { file = req.file; reason = reason })) r)
  Settled req (file pf) r =
      (has_chunks pf ≡ true → I r)
      × (has_chunks pf ≡ false → M req.corpus_key req.file (adding add_empty r))

  prepared-Settled :
      (req : WriteRequest) (p : Prepared) (r : Run)
      → preparation run req r.log ≡ ok p
      → I r
      → Settled req p (note (prepared req.corpus_key req.file p) r)
  prepared-Settled req (skipped reason) r same i = h.skips _ _ reason r (req.mtime, same) i
  prepared-Settled req (file pf) r same i = (
    λ full. h.prepares _ _ pf r (req.mtime, same) full i,
    λ empty. h.finds_empty _ _ pf r (req.mtime, same) empty i,
  )

  module _ (policy : EmptyFilePolicy) (req : WriteRequest)
      (drop : Triple (λ _. I) E (M req.corpus_key req.file) (drop_empty run policy req)) where
    settle-Triple : (p : Prepared) → Triple (λ _. I) E (Settled req p) (settle run policy req p)
    unfolding settle
    settle-Triple (skipped reason) =
        tally-Triple _ (λ r i. i) then λ _. pure-Triple I none (λ r i. i)
    settle-Triple (file pf) =
        if-Triple (has_chunks pf) (λ full. pure-Triple _ (some pf) (λ r s. s.0 full))
          (λ empty. tally-Triple add_empty (λ r s. s.1 empty) then (λ _. drop) then λ _.
            pure-Triple I none (λ r i. i))

    take_request-Triple : Triple (λ _. I) E I (take_request run policy req)
    unfolding take_request prepare_request
    take_request-Triple =
        (answer-Triple {Q = λ p r. (preparation run req r.log ≡ ok p) × I r} (preparation run req)
            (λ p r same i. (same, i)) (λ e r same. h.raises e r (unprepared req same))
          then λ p. tell-Triple _ (λ r (same, i). prepared-Settled req p r same i) then λ _.
              pure-Triple (Settled req p) p (λ r s. s))
        then settle-Triple

  drop_retained :
      (req : WriteRequest)
      → Triple (λ _. I) E (M req.corpus_key req.file) (drop_empty run retain req)
  unfolding drop_empty
  drop_retained req = pure-Triple _ tt (h.keeps_empty req.corpus_key req.file)

  -- What the deletions of a pass keep; `P` holds of the candidates that fall through to a write.
  pub record Removals (P : WriteRequest → Type 0) (plan : IndexPlan) : Type 0 where
    pub falls : All (λ c. P (fallen run c)) plan.mtime_touches
    pub drops :
        (req : WriteRequest)
        → P req
        → Triple (λ _. I) E (M req.corpus_key req.file) (drop_empty run evict req)
    pub removes : All (λ s. Triple (λ _. I) E I (remove_snapshot run s)) plan.deletes

  check_candidates-All :
      (P : WriteRequest → Type 0) (cs : List MtimeCandidate)
      → All (λ c. P (fallen run c)) cs
      → All (λ c. Triple (λ req r. I r × Given P req) E I (check_candidate run c)) cs
  check_candidates-All P [] p = tt
  check_candidates-All P (c ∷ cs) p =
      (check_candidate-Triple P c p.0, check_candidates-All P cs p.1)

  Events-Steps :
      (P : WriteRequest → Type 0) (plan : IndexPlan) → Removals P plan → Steps run I E P plan
  Events-Steps P plan d = record {
    upserts = All-from upsert_request-Triple plan.upserts;
    retains = λ req. take_request-Triple retain req (drop_retained req);
    candidates = check_candidates-All P plan.mtime_touches d.falls;
    evicts = λ req p. take_request-Triple evict req (d.drops req p);
    writes = write_batch-Triple;
    deletes = d.removes;
  }

-- A pass from the start keeps what its events and its deletions keep.
pub apply_with_lane-Removals :
    {W : Type 0} {I B : Run → Type 0} {M : CorpusKey → FileRef → Run → Type 0} {E F : Raised}
    (run : RunCtx W) (h : Events (clamped run) I B M E F) (P : WriteRequest → Type 0)
    (plan : IndexPlan)
    → Removals (clamped run) h P plan
    → I start
    → Post (λ _. I) E (apply_with_lane run plan)
unfolding apply_with_lane
apply_with_lane-Removals {I} {E} run h P plan d i =
    (apply_plan-Triple (clamped run) I E P plan (Events-Steps (clamped run) h P plan d)).run start i
