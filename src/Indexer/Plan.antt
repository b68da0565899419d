-- ===== src/Indexer/Plan.antt =====
-- `plan` of crates/hallouminate-domain/src/indexer/plan.rs: the diff of the disk and the index.
-- The content hash is an argument: `hash_of f` is `blake3_file`, `none` where it fails to read.
pub mod Snapshots
pub mod Actions
use hallouminate.Common.{
  ℕ, Bool, true, false, Option, none, some, List, [], ◌∷◌, ◌++◌, ltb, ◌==◌, if◌then◌else◌,
}
use hallouminate.Common.Int.{ℤ, eq_ℤ}
use hallouminate.Assoc.{lookup, insert, remove, values}
use hallouminate.Indexer.Types.{
  CorpusKey, FileRef, Mtime, FileSnapshot, Upsert, MtimeCandidate, IndexPlan, PlanInput,
}
use hallouminate.Text.{Text, equal}

abbrev pub DiskMap : Type 0
DiskMap = List (FileRef × (Mtime × Option CorpusKey))

abbrev pub SnapshotMap : Type 0
SnapshotMap = List (FileRef × FileSnapshot)

-- A file observed twice keeps its last observation.
unfoldable pub collect_disk : DiskMap → List PlanInput → DiskMap
collect_disk m [] = m
collect_disk m ((file, mtime, key) ∷ inputs) = collect_disk (insert file (mtime, key) m) inputs

abbrev pub empty_plan : IndexPlan
empty_plan = record { upserts = []; mtime_touches = []; deletes = [] }

abbrev pub touch : FileRef → FileSnapshot → Mtime → Option Text → MtimeCandidate
touch file snap mtime known = record {
  file = file;
  snap = snap;
  new_mtime = mtime;
  known_hash = known;
}

-- `a.file_ref.cmp(&b.file_ref)` puts `a` first
unfoldable pub text_le : Text → Text → Bool
text_le [] t = true
text_le (c ∷ s) [] = false
text_le (c ∷ s) (d ∷ t) =
    let rest = text_le s t in if ltb c d then true else if c == d then rest else false

unfoldable pub insert_snapshot : FileSnapshot → List FileSnapshot → List FileSnapshot
unfolding text_le
insert_snapshot s [] = s ∷ []
insert_snapshot s (t ∷ ts) =
    if text_le s.file_ref t.file_ref then s ∷ t ∷ ts else t ∷ insert_snapshot s ts

-- `sort_by`, which is stable
unfoldable pub sort_by_ref : List FileSnapshot → List FileSnapshot
unfolding insert_snapshot
sort_by_ref [] = []
sort_by_ref (s ∷ ss) = insert_snapshot s (sort_by_ref ss)

unfoldable pub upserts_of : FileRef → Mtime → Option CorpusKey → Option FileSnapshot → Option Upsert
upserts_of file mtime key none = some (record { file = file; mtime = mtime; corpus_key = key })
upserts_of file mtime key (some snap) = none

abbrev pub push {ℓ} : {A : Type ℓ} → List A → Option A → List A
push xs none = xs
push xs (some x) = xs ++ x ∷ []

module _ (hash_of : FileRef → Option Text) where
  -- The guards of the match on the file's snapshot.
  unfoldable pub touches_of : FileRef → Mtime → Option FileSnapshot → Option MtimeCandidate
  touches_of file mtime none = none
  touches_of file mtime (some snap) =
      if eq_ℤ snap.mtime_ms mtime
      then elim (hash_of file) [
        | none ↦ none
        | some hash ↦
            if equal hash snap.content_hash then none else some (touch file snap mtime (some hash))
      ]
      else some (touch file snap mtime none)

  -- The loop over the disk's files: what is left of the index's snapshots, and the plan.
  unfoldable pub plan_files : DiskMap → SnapshotMap → IndexPlan → SnapshotMap × IndexPlan
  unfolding touches_of upserts_of
  plan_files [] db out = (db, out)
  plan_files ((file, (mtime, key)) ∷ files) db out =
      let found = lookup file db in
      plan_files files (remove file db) (record out {
        upserts = push out.upserts (upserts_of file mtime key found);
        mtime_touches = push out.mtime_touches (touches_of file mtime found);
      })

  unfoldable pub plan : List PlanInput → SnapshotMap → IndexPlan
  unfolding plan_files collect_disk
  plan disk db =
      let (leftover, out) = plan_files (collect_disk [] disk) db empty_plan in
      record out { deletes = sort_by_ref (values leftover) }
