-- ===== src/Indexer/Plan/Snapshots.antt =====
-- Which snapshots the plan deletes.
use mathlib.Core.List.{Perm}
use mathlib.Core.List.Perm
use hallouminate.Common.{
  ◌≡◌, refl, ◌∙◌, inl, inr, true, false, Option, none, some, List, [], ◌∷◌, arith, Bool-cases,
}
use hallouminate.Assoc.{lookup, remove, values, IsMap, remove-IsMap}
use hallouminate.Indexer.Types.{CorpusKey, FileRef, Mtime, FileSnapshot, IndexPlan, PlanInput}
use hallouminate.Indexer.Plan.{
  DiskMap, SnapshotMap, collect_disk, plan_files, plan, empty_plan, text_le, insert_snapshot,
  sort_by_ref,
}
use hallouminate.Indexer.Plan.Actions.{last_seen, lookup-collect_disk}
use hallouminate.Text.Equal.{equal_iff}
use hallouminate.Text.{Text, equal}

-- The snapshots of the files that are not on disk.
abbrev pub vanished : List PlanInput → SnapshotMap → List FileSnapshot
vanished disk [] = []
vanished disk ((f, snap) ∷ db) =
    let rest = vanished disk db in elim (last_seen f disk) [ none ↦ snap ∷ rest | some o ↦ rest ]

-- In the order of their paths.
abbrev pub IsSortedByRef : List FileSnapshot → Type 0
IsSortedByRef [] = Unit {0}
IsSortedByRef (s ∷ []) = Unit {0}
IsSortedByRef (s ∷ t ∷ ts) = (text_le s.file_ref t.file_ref ≡ true) × IsSortedByRef (t ∷ ts)

text_le_total : (s t : Text) → text_le s t ≡ false → text_le t s ≡ true
unfolding text_le
text_le_total [] t h = cc
text_le_total (c ∷ s) [] h = refl
text_le_total (c ∷ s) (d ∷ t) h = ground (arith, text_le_total s t)

insert-IsSortedByRef :
    (s : FileSnapshot) (ts : List FileSnapshot)
    → IsSortedByRef ts
    → IsSortedByRef (insert_snapshot s ts)
unfolding insert_snapshot
insert-IsSortedByRef s [] h = tt
insert-IsSortedByRef s (t ∷ []) h = ground (arith, text_le_total s.file_ref t.file_ref)
insert-IsSortedByRef s (t ∷ u ∷ ts) h =
    ground (arith, text_le_total s.file_ref t.file_ref, insert-IsSortedByRef s (u ∷ ts) h.1)

sort-IsSortedByRef : (ss : List FileSnapshot) → IsSortedByRef (sort_by_ref ss)
unfolding sort_by_ref
sort-IsSortedByRef [] = tt
sort-IsSortedByRef (s ∷ ss) = insert-IsSortedByRef s (sort_by_ref ss) (sort-IsSortedByRef ss)

insert-perm : (s : FileSnapshot) (ts : List FileSnapshot) → Perm (insert_snapshot s ts) (s ∷ ts)
unfolding insert_snapshot
insert-perm s [] = Perm.refl _
insert-perm s (t ∷ ts) = elim (Bool-cases (text_le s.file_ref t.file_ref)) [
  | inl first ↦ rw first (Perm.refl _)
  | inr later ↦ rw later (Perm.trans (Perm.cons t (insert-perm s ts)) (Perm.swap s t ts))
]

sort-perm : (ss : List FileSnapshot) → Perm (sort_by_ref ss) ss
unfolding sort_by_ref
sort-perm [] = Perm.refl []
sort-perm (s ∷ ss) = Perm.trans (insert-perm s (sort_by_ref ss)) (Perm.cons s (sort-perm ss))

-- The snapshots whose files a disk map does not have.
unseen : DiskMap → SnapshotMap → List FileSnapshot
unseen files [] = []
unseen files ((f, snap) ∷ db) =
    let rest = unseen files db in elim (lookup f files) [ none ↦ snap ∷ rest | some o ↦ rest ]

values-unseen : (db : SnapshotMap) → values db ≡ unseen [] db
unfolding unseen values lookup
values-unseen [] = refl
values-unseen ((f, snap) ∷ db) = ground (arith, values-unseen db)

module _ (g : FileRef) (v : Mtime × Option CorpusKey) (files : DiskMap) where
  unseen_missing :
      (db : SnapshotMap) → lookup g db ≡ none → unseen files db ≡ unseen ((g, v) ∷ files) db
  unfolding unseen lookup
  unseen_missing [] h = refl
  unseen_missing ((f, snap) ∷ db) h =
      ground (arith, equal_iff f g, equal_iff g f, unseen_missing db)

  unseen-remove :
      (db : SnapshotMap) → IsMap db → unseen files (remove g db) ≡ unseen ((g, v) ∷ files) db
  unfolding unseen remove lookup
  unseen-remove [] h = refl
  unseen-remove ((f, snap) ∷ db) h = elim (Bool-cases (equal f g)) [
    | inl same ↦ rw same (
        let e = (equal_iff f g).0 same in
        let none_left : lookup g db ≡ none = rw e at h.0 in
        ground (arith, unseen_missing db none_left, equal_iff g f))
    | inr other ↦ ground (arith, unseen-remove db h.1, equal_iff g f, equal_iff f g)
  ]

leftover-unseen :
    (hash_of : FileRef → Option Text) (files : DiskMap) (db : SnapshotMap) (out : IndexPlan)
    → IsMap db
    → values (plan_files hash_of files db out).0 ≡ unseen files db
unfolding plan_files
leftover-unseen hash_of [] db out h = values-unseen db
leftover-unseen hash_of ((g, v) ∷ files) db out h =
    leftover-unseen hash_of files (remove g db) _ (remove-IsMap g db h)
    ∙ unseen-remove g v files db h

unseen-vanished :
    (disk : List PlanInput) (db : SnapshotMap) → unseen (collect_disk [] disk) db ≡ vanished disk db
unfolding unseen lookup
unseen-vanished disk [] = refl
unseen-vanished disk ((f, snap) ∷ db) =
    ground (arith, lookup-collect_disk f disk [], unseen-vanished disk db)

-- The plan deletes the snapshots of the files that were not observed, each once and no other, in
-- the order of their paths.
pub plan_deletes :
    (hash_of : FileRef → Option Text) (disk : List PlanInput) (db : SnapshotMap)
    → IsMap db
    → let p = plan hash_of disk db in IsSortedByRef p.deletes × Perm p.deletes (vanished disk db)
unfolding plan
plan_deletes hash_of disk db h =
    let same =
      leftover-unseen hash_of (collect_disk [] disk) db empty_plan h ∙ unseen-vanished disk db in
    (sort-IsSortedByRef _, rw (← same) (sort-perm _))
