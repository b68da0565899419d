-- ===== src/Indexer/Apply/Events.antt =====
-- The steps of crates/hallouminate-domain/src/indexer/apply.rs, event by event: what every event and
-- its tally keep, a whole pass keeps.
use hallouminate.Common.{◌++◌, none, ◌+◌, ◌≤◌, ◌≡◌, true, false, List, [], ◌∷◌, length, All}
use hallouminate.Common.Int.{ℤ}
use hallouminate.Indexer.ContentKey.{PreparedFile}
use hallouminate.Indexer.Run.{
  Log, Run, Action, hashed, prepared, touched, deleted, batch_prepared, committed, written, failed,
  note, with_lane, BatchWriteStats,
}
use hallouminate.Indexer.Stats.{ApplyStats, record_unreadable}
use hallouminate.Indexer.Steps.{RunCtx, has_chunks, tally_written}
use hallouminate.Indexer.Triples.{Triple, Raised}
use hallouminate.Indexer.Types.{CorpusKey, FileRef}
use hallouminate.Indexer.Writer.{
  Error, Result, ok, err, indexer, WriteRequest, Prepared, prepare_file, file, skipped, SkipReason,
}
use hallouminate.Indexer.Requests.{owner_among, override_of}
use hallouminate.Text.{Text, codes}

-- The tallies of the steps.
abbrev pub add_touched : ApplyStats → ApplyStats
add_touched s = record s { files_touched = s.files_touched + 1 }

abbrev pub add_deleted : ApplyStats → ApplyStats
add_deleted s = record s { files_deleted = s.files_deleted + 1 }

abbrev pub add_empty : ApplyStats → ApplyStats
add_empty s = record s { files_skipped_empty = s.files_skipped_empty + 1 }

abbrev pub adding : (ApplyStats → ApplyStats) → Run → Run
adding f r = record r { stats = f r.stats }

pub All-from : {A : Type 0} {P : A → Type 0} → ((x : A) → P x) → (xs : List A) → All P xs
All-from f [] = tt
All-from f (x ∷ xs) = (f x, All-from f xs)

-- What a file is prepared from, and what comes of it.
abbrev pub preparation : {W : Type 0} → RunCtx W → WriteRequest → Log → Result Prepared
preparation run req log =
    prepare_file (run.out.read log) run.out.blake3_bytes run.out.sniff run.out.handler req
      run.indexed_at_ms (override_of req.file run.precomputed)

-- The preparation of a file for a key came to a result.
abbrev pub Came : {W : Type 0} → RunCtx W → CorpusKey → FileRef → Result Prepared → Log → Type 0
Came run key f result log =
    (mtime : ℤ) × (preparation run (record { corpus_key = key; file = f; mtime = mtime }) log
      ≡ result)

-- What raises an error without a call that is logged: a file that no root owns, one whose path is not
-- text, and one that cannot be prepared.
pub data Checked {W : Type 0} (run : RunCtx W) : Error → Log → Type 0 where
  unowned :
      (f : FileRef) {log : Log}
      → owner_among (run.out.canonicalize f) none run.keys ≡ none
      → Checked run
          (indexer (codes "file is outside configured corpus roots: " ++ run.out.canonicalize f))
          log
  unnamed :
      (f : FileRef) {log : Log}
      → run.out.to_str f ≡ none
      → Checked run (indexer (codes "non-utf8 path cannot be stored: " ++ f)) log
  unprepared :
      (req : WriteRequest) {e : Error} {log : Log}
      → preparation run req log ≡ err e
      → Checked run e log

-- What the events of a pass keep, but for the deletions: `I` holds outside the lane and `B` under it,
-- `E` and `F` after an error there, and `M` once a file was found empty.
pub record Events {W : Type 0} (run : RunCtx W) (I B : Run → Type 0)
    (M : CorpusKey → FileRef → Run → Type 0) (E F : Raised) : Type 0 where
  pub scope :
      {m : Action (Unit {0})}
      → Triple (λ _. B) F B m
      → Triple (λ _. I) E I (with_lane run.out.lane m)
  pub raises : (e : Error) (r : Run) → Checked run e r.log → I r → E e (note (failed e) r)
  pub hashes :
      (f : FileRef) (hash : Text) (r : Run)
      → run.out.blake3_file (hashed f ∷ r.log) f ≡ ok hash
      → I r
      → I (note (hashed f) r)
  pub hash_fails :
      (f : FileRef) (e : Error) (r : Run)
      → run.out.blake3_file (hashed f ∷ r.log) f ≡ err e
      → I r
      → E e (note (failed e) (note (hashed f) r))
  pub skips :
      (key : CorpusKey) (f : FileRef) (reason : SkipReason) (r : Run)
      → Came run key f (ok (skipped reason)) r.log
      → I r
      → I (
          adding
            (record_unreadable (record { file = f; reason = reason }))
            (note (prepared key f (skipped reason)) r))
  pub finds_empty :
      (key : CorpusKey) (f : FileRef) (pf : PreparedFile) (r : Run)
      → Came run key f (ok (file pf)) r.log
      → has_chunks pf ≡ false
      → I r
      → M key f (adding add_empty (note (prepared key f (file pf)) r))
  pub keeps_empty : (key : CorpusKey) (f : FileRef) (r : Run) → M key f r → I r
  pub prepares :
      (key : CorpusKey) (f : FileRef) (pf : PreparedFile) (r : Run)
      → Came run key f (ok (file pf)) r.log
      → has_chunks pf ≡ true
      → I r
      → I (note (prepared key f (file pf)) r)
  pub touches :
      (key : CorpusKey) (ref : Text) (mtime : ℤ) (r : Run)
      → run.out.touch_mtime (touched key ref mtime ∷ r.log) key ref mtime ≡ ok tt
      → B r
      → B (adding add_touched (note (touched key ref mtime) r))
  pub touch_fails :
      (key : CorpusKey) (ref : Text) (mtime : ℤ) (e : Error) (r : Run)
      → run.out.touch_mtime (touched key ref mtime ∷ r.log) key ref mtime ≡ err e
      → B r
      → F e (note (failed e) (note (touched key ref mtime) r))
  pub embeds :
      (fs : List PreparedFile) (work : W) (r : Run)
      → run.out.prepare_batch (batch_prepared fs ∷ r.log) fs ≡ ok work
      → I r
      → I (note (batch_prepared fs) r)
  pub embed_fails :
      (fs : List PreparedFile) (e : Error) (r : Run)
      → run.out.prepare_batch (batch_prepared fs ∷ r.log) fs ≡ err e
      → I r
      → E e (note (failed e) (note (batch_prepared fs) r))
  pub commits :
      (fs : List PreparedFile) (ws : BatchWriteStats) (work : W) (r : Run)
      → run.out.commit_batch (committed fs ∷ r.log) fs work ≡ ok ws
      → length fs ≤ run.batch_size
      → B r
      → B (adding (tally_written run (length fs) ws) (note (written ws) (note (committed fs) r)))
  pub commit_fails :
      (fs : List PreparedFile) (e : Error) (work : W) (r : Run)
      → run.out.commit_batch (committed fs ∷ r.log) fs work ≡ err e
      → B r
      → F e (note (failed e) (note (committed fs) r))

pub record Deletions {W : Type 0} (run : RunCtx W) (I : Run → Type 0) (F : Raised) : Type 0 where
  pub deletes :
      (key : CorpusKey) (ref : Text) (r : Run)
      → run.out.delete_file (deleted key ref ∷ r.log) key ref ≡ ok tt
      → I r
      → I (adding add_deleted (note (deleted key ref) r))
  pub delete_fails :
      (key : CorpusKey) (ref : Text) (e : Error) (r : Run)
      → run.out.delete_file (deleted key ref ∷ r.log) key ref ≡ err e
      → I r
      → F e (note (failed e) (note (deleted key ref) r))
