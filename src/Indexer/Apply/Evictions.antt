-- ===== src/Indexer/Apply/Evictions.antt =====
-- What leaves the index by crates/hallouminate-domain/src/indexer/apply.rs: planned deletions of
-- configured roots, and files that were found empty.
use hallouminate.Common.{
  ◌≡◌, refl, ap, ◌∙◌, ◌++◌, true, false, Option, none, some, List, [], ◌∷◌, ◌⊎◌, inl, inr, All,
}
use hallouminate.Indexer.Apply.{clamped, apply_with_lane}
use hallouminate.Indexer.Apply.Events.{Events, add_deleted}
use hallouminate.Indexer.Apply.Kept.{Removals, apply_with_lane-Removals}
use hallouminate.Indexer.Apply.Lane.{log_of}
use hallouminate.Indexer.Requests.{contains, evict}
use hallouminate.Indexer.Run.{
  Log, Run, Outcome, done, stopped, acquired, prepared, deleted, pure, raise,
}
use hallouminate.Indexer.Steps.{
  RunCtx, has_chunks, fallen, delete_rows, drop_empty, file_ref_string, remove_snapshot,
}
use hallouminate.Indexer.Triples.{
  Triple, Raised, Post, ended, raised, ◌then◌, pure-Triple, raise-Triple, if-Triple, call-Triple,
  tally-Triple, with_lane-Triple, weaken_before,
}
use hallouminate.Indexer.Types.{CorpusKey, FileRef, FileSnapshot, MtimeCandidate, IndexPlan}
use hallouminate.Indexer.Writer.{WriteRequest, file, indexer}
use hallouminate.Text.{Text, codes}

-- The file was prepared under the key, and has no chunks.
abbrev pub FoundEmpty : CorpusKey → FileRef → Log → Type 0
FoundEmpty key f [] = ⊥
FoundEmpty key f (prepared k g (file pf) ∷ log) =
    ((k ≡ key) × (g ≡ f) × (has_chunks pf ≡ false)) ⊎ FoundEmpty key f log
FoundEmpty key f (e ∷ log) = FoundEmpty key f log

All-map :
    {A : Type 0} {P Q : A → Type 0} → ((x : A) → P x → Q x) → (xs : List A) → All P xs → All Q xs
All-map f [] h = tt
All-map f (x ∷ xs) h = (f x h.0, All-map f xs h.1)

module _ {W : Type 0} (run : RunCtx W) (plan : IndexPlan) where
  -- A snapshot of the plan's deletions under a configured key.
  abbrev pub PlannedIn : CorpusKey → Text → List FileSnapshot → Type 0
  PlannedIn key ref [] = ⊥
  PlannedIn key ref (s ∷ ss) =
      ((s.corpus_key ≡ key) × (s.file_ref ≡ ref) × (contains run.keys key ≡ true))
      ⊎ PlannedIn key ref ss

  -- A candidate of the plan under its snapshot's key, which was found empty before.
  abbrev pub EmptiedIn : CorpusKey → Text → Log → List MtimeCandidate → Type 0
  EmptiedIn key ref log [] = ⊥
  EmptiedIn key ref log (c ∷ cs) =
      ((c.snap.corpus_key ≡ key) × (run.out.to_str c.file ≡ some ref) × FoundEmpty key c.file log)
      ⊎ EmptiedIn key ref log cs

  abbrev pub Allowed : CorpusKey → Text → Log → Type 0
  Allowed key ref log = PlannedIn key ref plan.deletes ⊎ EmptiedIn key ref log plan.mtime_touches

  -- Every deletion of the log was allowed when it was made.
  abbrev pub Sound : Log → Type 0
  Sound [] = Unit
  Sound (deleted key ref ∷ log) = Allowed key ref log × Sound log
  Sound (e ∷ log) = Sound log

  -- The request falls through from a candidate of the plan.
  abbrev Fallen : WriteRequest → List MtimeCandidate → Type 0
  Fallen req [] = ⊥
  Fallen req (c ∷ cs) = ((c.snap.corpus_key ≡ req.corpus_key) × (c.file ≡ req.file)) ⊎ Fallen req cs

  abbrev IsSound : Run → Type 0
  IsSound r = Sound r.log

  abbrev Late : Raised
  Late e r = Sound r.log

  abbrev Emptied : CorpusKey → FileRef → Run → Type 0
  Emptied key f r = Sound r.log × FoundEmpty key f r.log

  sound-Events : Events run IsSound IsSound Emptied Late Late
  sound-Events = record {
    scope =
        with_lane-Triple run.out.lane (λ r _ i. i) (λ r i. i) (λ e r _ i. i) (λ e r i. i)
          (λ e r i. i);
    raises = λ e r _ i. i;
    hashes = λ f hash r _ i. i;
    hash_fails = λ f e r _ i. i;
    skips = λ key f reason r _ i. i;
    finds_empty = λ key f pf r _ empty i. (i, inl (refl, refl, empty));
    keeps_empty = λ key f r i. i.0;
    prepares = λ key f pf r _ full i. i;
    touches = λ key ref mtime r _ i. i;
    touch_fails = λ key ref mtime e r _ i. i;
    embeds = λ fs work r _ i. i;
    embed_fails = λ fs e r _ i. i;
    commits = λ fs ws work r _ narrow i. i;
    commit_fails = λ fs e work r _ i. i;
  }

  -- Taking the lane changes nothing of that.
  acquired-EmptiedIn :
      (key : CorpusKey) (ref : Text) (log : Log) (cs : List MtimeCandidate)
      → EmptiedIn key ref log cs
      → EmptiedIn key ref (acquired ∷ log) cs
  acquired-EmptiedIn key ref log [] h = elim h [ ]
  acquired-EmptiedIn key ref log (c ∷ cs) (inl h) = inl h
  acquired-EmptiedIn key ref log (c ∷ cs) (inr h) = inr (acquired-EmptiedIn key ref log cs h)

  acquired-Allowed :
      (key : CorpusKey) (ref : Text) (log : Log)
      → Allowed key ref log
      → Allowed key ref (acquired ∷ log)
  acquired-Allowed key ref log (inl h) = inl h
  acquired-Allowed key ref log (inr h) = inr (acquired-EmptiedIn key ref log plan.mtime_touches h)

  -- The deletion itself, where it is allowed.
  delete_rows-Triple :
      (key : CorpusKey) (ref : Text)
      → Triple
          (λ _. IsSound)
          Late
          (λ r. Sound r.log × Allowed key ref r.log)
          (delete_rows run key ref)
  unfolding delete_rows
  delete_rows-Triple key ref =
      with_lane-Triple run.out.lane (λ r _ (i, a). (i, acquired-Allowed key ref r.log a)) (λ r i. i)
        (λ e r _ i. i.0) (λ e r i. i) (λ e r i. i)
        (call-Triple {Q = λ _. IsSound} (deleted key ref) (λ log. run.out.delete_file log key ref)
            (λ _ r _ (i, a). (a, i)) (λ e r _ (i, a). (a, i))
          then λ _. tally-Triple add_deleted (λ r i. i))

  Fallen-EmptiedIn :
      (req : WriteRequest) (ref : Text) (log : Log) (cs : List MtimeCandidate)
      → Fallen req cs
      → run.out.to_str req.file ≡ some ref
      → FoundEmpty req.corpus_key req.file log
      → EmptiedIn req.corpus_key ref log cs
  Fallen-EmptiedIn req ref log [] h e found = elim h [ ]
  Fallen-EmptiedIn req ref log (c ∷ cs) (inl (k, f)) e found =
      inl (k, ap run.out.to_str f ∙ e, rw f found)
  Fallen-EmptiedIn req ref log (c ∷ cs) (inr h) e found =
      inr (Fallen-EmptiedIn req ref log cs h e found)

  file_ref_string-Triple :
      (req : WriteRequest) (s : Option Text)
      → run.out.to_str req.file ≡ s
      → Fallen req plan.mtime_touches
      → Triple
          (λ ref r. Sound r.log × Allowed req.corpus_key ref r.log)
          Late
          (Emptied req.corpus_key req.file)
          (elim s [
            | some ref ↦ pure ref
            | none ↦ raise (indexer (codes "non-utf8 path cannot be stored: " ++ req.file))
          ])
  file_ref_string-Triple req none e fallen = raise-Triple _ (λ r i. i.0)
  file_ref_string-Triple req (some ref) e fallen =
      pure-Triple _ ref (λ r (i, found).
        (i, inr (Fallen-EmptiedIn req ref r.log plan.mtime_touches fallen e found)))

  drop_empty-Triple :
      (req : WriteRequest)
      → Fallen req plan.mtime_touches
      → Triple (λ _. IsSound) Late (Emptied req.corpus_key req.file) (drop_empty run evict req)
  unfolding drop_empty file_ref_string
  drop_empty-Triple req fallen =
      file_ref_string-Triple req (run.out.to_str req.file) refl fallen then λ ref.
      delete_rows-Triple req.corpus_key ref

  Fallen-All : (cs : List MtimeCandidate) → All (λ c. Fallen (fallen run c) cs) cs
  Fallen-All [] = tt
  Fallen-All (c ∷ cs) = (inl (refl, refl), All-map (λ d. inr) cs (Fallen-All cs))

  abbrev Planned : List FileSnapshot → FileSnapshot → Type 0
  Planned ss s = contains run.keys s.corpus_key ≡ true → PlannedIn s.corpus_key s.file_ref ss

  Planned-All : (ss : List FileSnapshot) → All (Planned ss) ss
  Planned-All [] = tt
  Planned-All (s ∷ ss) =
      (λ known. inl (refl, refl, known), All-map (λ t h known. inr (h known)) ss (Planned-All ss))

  remove_snapshot-Triple :
      (s : FileSnapshot)
      → Planned plan.deletes s
      → Triple (λ _. IsSound) Late IsSound (remove_snapshot run s)
  unfolding remove_snapshot
  remove_snapshot-Triple s planned =
      if-Triple _
        (λ known.
          weaken_before (λ r i. (i, inl (planned known)))
            (delete_rows-Triple s.corpus_key s.file_ref))
        (λ unknown. pure-Triple IsSound tt (λ r i. i))

  sound-Removals : Removals run sound-Events (λ req. Fallen req plan.mtime_touches) plan
  sound-Removals = record {
    falls = Fallen-All plan.mtime_touches;
    drops = drop_empty-Triple;
    removes = All-map remove_snapshot-Triple plan.deletes (Planned-All plan.deletes);
  }

Sound-Post :
    {W : Type 0} (run : RunCtx W) (plan : IndexPlan) (o : Outcome (Unit {0}))
    → Post (λ _. IsSound run plan) (Late run plan) o
    → Sound run plan (log_of o)
Sound-Post run plan (done a r) (ended i) = i
Sound-Post run plan (stopped e r) (raised i) = i

-- Whatever the store, the files and the handlers answer, and also when the pass stops at an error, a
-- file's rows are only deleted if the plan lists its snapshot for deletion under a configured root,
-- or if it is a candidate of the plan that was found empty earlier in the pass; so a file that cannot
-- be read
-- or whose extraction fails keeps its rows.
pub apply_with_lane-Sound :
    {W : Type 0} (run : RunCtx W) (plan : IndexPlan)
    → Sound run plan (log_of (apply_with_lane run plan))
apply_with_lane-Sound run plan = Sound-Post run plan _ (
    apply_with_lane-Removals run (sound-Events (clamped run) plan) _ plan
      (sound-Removals (clamped run) plan) tt)
