-- ===== src/Indexer/Apply/Tallies.antt =====
-- The tallies of crates/hallouminate-domain/src/indexer/apply.rs against the calls of the pass.
use hallouminate.Common.{
  ℕ, zero, suc, ◌+◌, ◌≡◌, refl, List, [], ◌∷◌, ◌++◌, arith, length, take, ltb, if◌then◌else◌,
}
use hallouminate.Indexer.Apply.{clamped, apply_with_lane}
use hallouminate.Indexer.Apply.Events.{Events, Deletions}
use hallouminate.Indexer.Apply.Deletions.{apply_with_lane-Post}
use hallouminate.Indexer.Run.{
  Log, Run, Outcome, done, stopped, Event, prepared, touched, deleted, committed, written,
}
use hallouminate.Indexer.Stats.{ApplyStats, SkippedFile, record_unreadable, max_reported_skips}
use hallouminate.Indexer.Steps.{RunCtx, has_chunks, tally_written}
use hallouminate.Indexer.Triples.{Raised, Post, ended, raised, with_lane-Triple}
use hallouminate.Indexer.Types.{IndexPlan, FileRef}
use hallouminate.Indexer.Writer.{file, skipped, SkipReason}

-- What an event adds to each tally.
abbrev pub files_written : Event → ℕ
files_written (committed files) = length files
files_written e = 0

abbrev pub files_touched : Event → ℕ
files_touched (touched key ref mtime) = 1
files_touched e = 0

abbrev pub files_deleted : Event → ℕ
files_deleted (deleted key ref) = 1
files_deleted e = 0

abbrev pub files_empty : Event → ℕ
files_empty (prepared key f (file pf)) = if has_chunks pf then 0 else 1
files_empty e = 0

abbrev pub files_unreadable : Event → ℕ
files_unreadable (prepared key f (skipped reason)) = 1
files_unreadable e = 0

abbrev pub chunks_written : Event → ℕ
chunks_written (written ws) = ws.chunks_written
chunks_written e = 0

abbrev pub embeddings_written : Event → ℕ
embeddings_written (written ws) = ws.embeddings_written
embeddings_written e = 0

abbrev pub total : (Event → ℕ) → Log → ℕ
total weight [] = 0
total weight (e ∷ log) = weight e + total weight log

-- The files that could not be read, in the order of the pass.
abbrev pub skipped_in : Log → List SkippedFile
skipped_in [] = []
skipped_in (prepared key f (skipped reason) ∷ log) =
    skipped_in log ++ record { file = f; reason = reason } ∷ []
skipped_in (e ∷ log) = skipped_in log

-- The tallies are what the log holds.
abbrev pub Tallied : Run → Type 0
Tallied r =
    (r.stats.files_upserted ≡ total files_written r.log)
    × (r.stats.files_touched ≡ total files_touched r.log)
    × (r.stats.files_deleted ≡ total files_deleted r.log)
    × (r.stats.files_skipped_empty ≡ total files_empty r.log)
    × (r.stats.files_skipped_unreadable ≡ total files_unreadable r.log)
    × (r.stats.chunks_inserted ≡ total chunks_written r.log)
    × (r.stats.embeddings_inserted ≡ total embeddings_written r.log)
    × (r.stats.skipped_unreadable ≡ take max_reported_skips (skipped_in r.log))

take-nil : (A : Type 0) (n : ℕ) → take {A = A} n [] ≡ []
take-nil A zero = refl
take-nil A (suc n) = refl

take-append_last :
    {A : Type 0} (n : ℕ) (xs : List A) (x : A)
    → (if ltb (length (take n xs)) n then take n xs ++ x ∷ [] else take n xs)
      ≡ take n (xs ++ x ∷ [])
take-append_last zero xs x = ground arith
take-append_last {A} (suc n) [] x = ground (arith, take-nil A n)
take-append_last (suc n) (y ∷ xs) x = ground (arith, take-append_last n xs x)

skip-Tallied :
    (f : FileRef) (reason : SkipReason) (s : ApplyStats) (log : Log)
    → s.skipped_unreadable ≡ take max_reported_skips (skipped_in log)
    → (record_unreadable (record { file = f; reason = reason }) s).skipped_unreadable
      ≡ take max_reported_skips (skipped_in log ++ record { file = f; reason = reason } ∷ [])
unfolding record_unreadable
skip-Tallied f reason s log e =
    rw e
      (take-append_last max_reported_skips (skipped_in log) (record { file = f; reason = reason }))

abbrev Silent : Raised
Silent e r = Unit

Tallied-Deletions : {W : Type 0} (run : RunCtx W) → Deletions run Tallied Silent
Tallied-Deletions run = record {
  deletes = λ key ref r _ i. ground arith;
  delete_fails = λ key ref e r _ i. tt;
}

module _ {W : Type 0} (run : RunCtx W) where
  Tallied-Events : Events run Tallied Tallied (λ _ _. Tallied) Silent Silent
  unfolding record_unreadable tally_written
  Tallied-Events = record {
    scope =
        with_lane-Triple run.out.lane (λ r _ i. ground arith) (λ r i. ground arith) (λ e r _ i. tt)
          (λ e r i. tt) (λ e r i. tt);
    raises = λ e r _ i. tt;
    hashes = λ f hash r _ i. ground arith;
    hash_fails = λ f e r _ i. tt;
    skips = λ key f reason r _ i. ground (arith, skip-Tallied f reason r.stats r.log i.7);
    finds_empty = λ key f pf r _ empty i. ground arith;
    keeps_empty = λ key f r i. i;
    prepares = λ key f pf r _ full i. ground arith;
    touches = λ key ref mtime r _ i. ground arith;
    touch_fails = λ key ref mtime e r _ i. tt;
    embeds = λ fs work r _ i. ground arith;
    embed_fails = λ fs e r _ i. tt;
    commits = λ fs ws work r _ narrow i. ground arith;
    commit_fails = λ fs e work r _ i. tt;
  }

abbrev pub Told : Outcome (Unit {0}) → Type 0
Told (done a r) = Tallied r
Told (stopped e r) = Unit

Told-Post : (o : Outcome (Unit {0})) → Post (λ _. Tallied) Silent o → Told o
Told-Post (done a r) (ended i) = i
Told-Post (stopped e r) (raised i) = tt

-- A pass that ends without an error reports what it did: as many files written, touched and deleted
-- as the store was asked to write, touch and delete, as many empty and unreadable files as it
-- prepared, the chunks and vectors that the store counted, and the first 100 unreadable files by
-- name, in the order of the pass.
pub apply_with_lane-Told :
    {W : Type 0} (run : RunCtx W) (plan : IndexPlan) → Told (apply_with_lane run plan)
apply_with_lane-Told run plan = Told-Post _ (
    apply_with_lane-Post run (Tallied-Events (clamped run)) (Tallied-Deletions (clamped run))
      (refl, refl, refl, refl, refl, refl, refl, refl) plan)
