-- ===== src/Indexer/Plan/Actions.antt =====
-- Which action the plan takes on each file.
use mathlib.Core.List.{append-nil}
use hallouminate.Common.{
  ◌≡◌, refl, sym, inl, inr, Option, none, some, List, [], ◌∷◌, ◌++◌, arith, if◌then◌else◌, ap, ◌∙◌,
  Bool-cases,
}
use hallouminate.Common.Int.{eq_ℤ}
use hallouminate.Assoc.{
  lookup, insert, remove, IsMap, lookup-insert, lookup-remove_ne, insert-IsMap,
}
use hallouminate.Indexer.Types.{
  CorpusKey, FileRef, Mtime, FileSnapshot, Upsert, MtimeCandidate, IndexPlan, PlanInput,
}
use hallouminate.Indexer.Plan.{
  DiskMap, SnapshotMap, collect_disk, touches_of, upserts_of, push, plan_files, plan, empty_plan,
  touch,
}
use hallouminate.Text.Equal.{equal_iff}
use hallouminate.Text.{Text, equal}

-- The entries of a plan that concern a file.
abbrev pub upserts_for : FileRef → List Upsert → List Upsert
upserts_for f [] = []
upserts_for f (u ∷ us) = let rest = upserts_for f us in if equal u.file f then u ∷ rest else rest

abbrev pub touches_for : FileRef → List MtimeCandidate → List MtimeCandidate
touches_for f [] = []
touches_for f (c ∷ cs) = let rest = touches_for f cs in if equal c.file f then c ∷ rest else rest

-- The last observation of a file.
abbrev pub last_seen : FileRef → List PlanInput → Option (Mtime × Option CorpusKey)
last_seen f [] = none
last_seen f ((g, mtime, key) ∷ inputs) = elim (last_seen f inputs) [
  | some o ↦ some o
  | none ↦ if equal g f then some (mtime, key) else none
]

abbrev pub to_list {ℓ} : {A : Type ℓ} → Option A → List A
to_list none = []
to_list (some a) = a ∷ []

pub lookup-collect_disk :
    (f : FileRef) (inputs : List PlanInput) (m : DiskMap)
    → lookup f (collect_disk m inputs)
      ≡ elim (last_seen f inputs) [ some o ↦ some o | none ↦ lookup f m ]
unfolding collect_disk
lookup-collect_disk f [] m = refl
lookup-collect_disk f ((g, mtime, key) ∷ inputs) m = ground (
  arith,
  lookup-collect_disk f inputs (insert g (mtime, key) m),
  lookup-insert g f (mtime, key) m,
)

pub collect_disk-IsMap :
    (inputs : List PlanInput) (m : DiskMap) → IsMap m → IsMap (collect_disk m inputs)
unfolding collect_disk
collect_disk-IsMap [] m h = h
collect_disk-IsMap ((g, mtime, key) ∷ inputs) m h =
    collect_disk-IsMap inputs (insert g (mtime, key) m) (insert-IsMap g (mtime, key) m h)

upserts_for-push :
    (f : FileRef) (us : List Upsert) (o : Option Upsert)
    → upserts_for f (push us o) ≡ upserts_for f us ++ upserts_for f (to_list o)
upserts_for-push f [] none = refl
upserts_for-push f [] (some u) = refl
upserts_for-push f (v ∷ us) none = ground (arith, upserts_for-push f us none)
upserts_for-push f (v ∷ us) (some u) = ground (arith, upserts_for-push f us (some u))

touches_for-push :
    (f : FileRef) (cs : List MtimeCandidate) (o : Option MtimeCandidate)
    → touches_for f (push cs o) ≡ touches_for f cs ++ touches_for f (to_list o)
touches_for-push f [] none = refl
touches_for-push f [] (some c) = refl
touches_for-push f (d ∷ cs) none = ground (arith, touches_for-push f cs none)
touches_for-push f (d ∷ cs) (some c) = ground (arith, touches_for-push f cs (some c))

-- What the plan holds for a file that was seen, or was not.
module _ (hash_of : FileRef → Option Text) where
  abbrev upserts_taken :
      FileRef → Option (Mtime × Option CorpusKey) → Option FileSnapshot → List Upsert
  upserts_taken f none found = []
  upserts_taken f (some (mtime, key)) found = to_list (upserts_of f mtime key found)

  abbrev touches_taken :
      FileRef → Option (Mtime × Option CorpusKey) → Option FileSnapshot → List MtimeCandidate
  touches_taken f none found = []
  touches_taken f (some (mtime, key)) found = to_list (touches_of hash_of f mtime found)

  touches_of_self :
      (f g : FileRef) (mtime : Mtime) (found : Option FileSnapshot)
      → touches_for f (to_list (touches_of hash_of g mtime found))
        ≡ (if equal g f then to_list (touches_of hash_of g mtime found) else [])
  unfolding touches_of
  touches_of_self f g mtime none = ground arith
  touches_of_self f g mtime (some snap) = ground arith

  upserts_of_self :
      (f g : FileRef) (mtime : Mtime) (key : Option CorpusKey) (found : Option FileSnapshot)
      → upserts_for f (to_list (upserts_of g mtime key found))
        ≡ (if equal g f then to_list (upserts_of g mtime key found) else [])
  unfolding upserts_of
  upserts_of_self f g mtime key none = ground arith
  upserts_of_self f g mtime key (some snap) = ground arith

  plan_files-for :
      (f : FileRef) (files : DiskMap) (db : SnapshotMap) (out : IndexPlan)
      → IsMap files
      → let r = (plan_files hash_of files db out).1 in
        (upserts_for f r.upserts
          ≡ upserts_for f out.upserts ++ upserts_taken f (lookup f files) (lookup f db))
        × (touches_for f r.mtime_touches
            ≡ touches_for f out.mtime_touches ++ touches_taken f (lookup f files) (lookup f db))
  unfolding plan_files lookup
  plan_files-for f [] db out h = (sym (append-nil _), sym (append-nil _))
  plan_files-for f ((g, (mtime, key)) ∷ files) db out h =
      let upsert = upserts_of g mtime key (lookup g db) in
      let touched = touches_of hash_of g mtime (lookup g db) in
      let next : IndexPlan = record out {
        upserts = push out.upserts upsert;
        mtime_touches = push out.mtime_touches touched;
      } in
      let ih = plan_files-for f files (remove g db) next h.1 in
      elim (Bool-cases (equal g f)) [
        | inl same ↦
            let e = (equal_iff g f).0 same in
            let unseen : lookup f files ≡ none = rw e at h.0 in
            (
              ground (
                arith,
                ih.0,
                upserts_for-push f out.upserts upsert,
                upserts_of_self f g mtime key (lookup g db),
                append-nil (upserts_for f (push out.upserts upsert)),
              ),
              ground (
                arith,
                ih.1,
                touches_for-push f out.mtime_touches touched,
                touches_of_self f g mtime (lookup g db),
                append-nil (touches_for f (push out.mtime_touches touched)),
              ),
            )
        | inr other ↦ (
          ground (
            arith,
            ih.0,
            lookup-remove_ne g f db other,
            upserts_for-push f out.upserts upsert,
            upserts_of_self f g mtime key (lookup g db),
            append-nil (upserts_for f out.upserts),
          ),
          ground (
            arith,
            ih.1,
            lookup-remove_ne g f db other,
            touches_for-push f out.mtime_touches touched,
            touches_of_self f g mtime (lookup g db),
            append-nil (touches_for f out.mtime_touches),
          ),
        )
      ]

  -- What a file calls for, by what was seen of it last and what the index holds: nothing unless both
  -- an observation and, for a candidate, a snapshot with another time or another hash are there.
  abbrev pub upsert_due :
      FileRef → Option (Mtime × Option CorpusKey) → Option FileSnapshot → List Upsert
  upsert_due f (some (mtime, key)) none = record { file = f; mtime = mtime; corpus_key = key } ∷ []
  upsert_due f seen found = []

  abbrev differing : FileRef → Mtime → FileSnapshot → Option Text → List MtimeCandidate
  differing f mtime snap none = []
  differing f mtime snap (some hash) =
      if equal hash snap.content_hash then [] else touch f snap mtime (some hash) ∷ []

  abbrev pub touch_due :
      FileRef → Option (Mtime × Option CorpusKey) → Option FileSnapshot → List MtimeCandidate
  touch_due f (some (mtime, key)) (some snap) =
      if eq_ℤ snap.mtime_ms mtime
      then differing f mtime snap (hash_of f)
      else touch f snap mtime none ∷ []
  touch_due f seen found = []

  upsert_due-taken :
      (f : FileRef) (seen : Option (Mtime × Option CorpusKey)) (found : Option FileSnapshot)
      → upserts_taken f seen found ≡ upsert_due f seen found
  unfolding upserts_of
  upsert_due-taken f none found = refl
  upsert_due-taken f (some (mtime, key)) none = refl
  upsert_due-taken f (some (mtime, key)) (some snap) = refl

  touch_due-taken :
      (f : FileRef) (seen : Option (Mtime × Option CorpusKey)) (found : Option FileSnapshot)
      → touches_taken f seen found ≡ touch_due f seen found
  unfolding touches_of
  touch_due-taken f none found = refl
  touch_due-taken f (some (mtime, key)) none = refl
  touch_due-taken f (some (mtime, key)) (some snap) = ground arith

  -- The plan holds for each file exactly what its last observation and its snapshot call for: one
  -- upsert where the index has no snapshot of it; one mtime candidate where its mtime moved or
  -- its content hash, read at an equal mtime, differs; and nothing where the hash is the same or
  -- unreadable at an equal mtime, or the file is not on disk.
  pub plan_actions :
      (disk : List PlanInput) (db : SnapshotMap) (f : FileRef)
      → let p = plan hash_of disk db in
        (upserts_for f p.upserts ≡ upsert_due f (last_seen f disk) (lookup f db))
        × (touches_for f p.mtime_touches ≡ touch_due f (last_seen f disk) (lookup f db))
  unfolding plan lookup
  plan_actions disk db f =
      let r =
        plan_files-for f (collect_disk [] disk) db empty_plan (collect_disk-IsMap disk [] tt) in
      let found : lookup f (collect_disk [] disk) ≡ last_seen f disk =
        ground (arith, lookup-collect_disk f disk []) in
      (
        r.0
            ∙ ap (λ o. upserts_taken f o (lookup f db)) found
            ∙ upsert_due-taken f (last_seen f disk) (lookup f db),
        r.1
            ∙ ap (λ o. touches_taken f o (lookup f db)) found
            ∙ touch_due-taken f (last_seen f disk) (lookup f db),
      )
