-- ===== src/Search/Roots/Known.antt =====
-- Which chunks the fusion of crates/hallouminate-domain/src/search.rs returns.
use mathlib.Core.Path.{subst}
use hallouminate.Assoc.{lookup}
use hallouminate.Common.{
  ℕ, suc, ◌≡◌, refl, Bool, true, false, not, ◌||◌, Option, none, some, List, [], ◌∷◌, ◌++◌, arith,
  leb, ltb,
}
use hallouminate.Common.SortBy.{count_if, sort_by, count_if-sort_by}
use hallouminate.Indexer.ContentKey.{ChunkStructure}
use hallouminate.Search.Fuse.{Evidence, contains, fuse}
use hallouminate.Search.Fuse.Ranking.{lookup-fuse}
use hallouminate.Search.Fuse.Scores.{first_rank, evidence, counted}
use hallouminate.Search.Resolve.{Pool}
use hallouminate.Search.Structure.{
  section_overlap, title_overlap, Overlapping, overlap_order, ids_of, Structure, push_if, classify,
  structure_of, structural_lists,
}
use hallouminate.Search.Types.{Floats, SearchHit, RankedList}
use hallouminate.Text.{Text, equal}

abbrev pub is_some : {A : Type 0} → Option A → Bool
is_some none = false
is_some (some a) = true

first_rank-contains :
    (id : Text) (rank : ℕ) (ids : List Text) → is_some (first_rank id rank ids) ≡ contains id ids
unfolding first_rank contains
first_rank-contains id rank [] = refl
first_rank-contains id rank (x ∷ ids) = ground (arith, first_rank-contains id (suc rank) ids)

contains-ids_of :
    (id : Text) (xs : List Overlapping)
    → contains id (ids_of xs) ≡ leb 1 (count_if (λ (o : Overlapping). equal o.2 id) xs)
unfolding contains count_if
contains-ids_of id [] = refl
contains-ids_of id ((overlap, rank, x) ∷ xs) = ground (arith, contains-ids_of id xs)

module _ {F : Type 0} (num : Floats F) where
  unfoldable pub listed : Text → List (RankedList F) → Bool
  unfolding contains
  listed id [] = false
  listed id (list ∷ lists) = contains id list.chunk_ids || listed id lists

  pub listed-append :
      (id : Text) (xs ys : List (RankedList F))
      → listed id (xs ++ ys) ≡ listed id xs || listed id ys
  unfolding listed
  listed-append id [] ys = refl
  listed-append id (x ∷ xs) ys = ground (arith, listed-append id xs ys)

  evidence-listed :
      (id : Text) (k : F) (lists : List (RankedList F)) (o : Option (Evidence F))
      → is_some (evidence num id k lists o) ≡ is_some o || listed id lists
  unfolding evidence listed
  evidence-listed id k [] o = ground arith
  evidence-listed id k (list ∷ lists) o = ground (
    arith,
    first_rank-contains id 0 list.chunk_ids,
    evidence-listed id k lists (counted num list.weight k (first_rank id 0 list.chunk_ids) o),
  )

  -- The fusion returns exactly the chunks of its lists.
  pub fuse-listed :
      (id : Text) (k : F) (lists : List (RankedList F))
      → is_some (lookup id (fuse num lists k)) ≡ listed id lists
  fuse-listed id k lists =
      ground (arith, lookup-fuse num id lists k, evidence-listed id k lists none)

  module _ (words : Text → List Text) where
    abbrev counts_id : Text → List Overlapping → ℕ
    counts_id id xs = count_if (λ (o : Overlapping). equal o.2 id) xs

    -- A chunk stands in the structure only if the baseline has it.
    abbrev IsFrom : Text → Bool → Structure → Type 0
    IsFrom id known s =
        (leb 1 (counts_id id s.titles) ≡ true → known ≡ true)
        × (leb 1 (counts_id id s.sections) ≡ true → known ≡ true)
        × (contains id s.authored ≡ true → known ≡ true)

    count-push_if :
        (b : Bool) (id : Text) (x : Overlapping) (xs : List Overlapping)
        → leb 1 (counts_id id (push_if b x xs)) ≡ true
        → equal x.2 id || leb 1 (counts_id id xs) ≡ true
    unfolding count_if
    count-push_if true id x xs h = ground (arith, h)
    count-push_if false id x xs h = ground (arith, h)

    contains-push_if :
        (b : Bool) (id x : Text) (xs : List Text)
        → contains id (push_if b x xs) ≡ true
        → equal x id || contains id xs ≡ true
    unfolding contains
    contains-push_if true id x xs h = h
    contains-push_if false id x xs h = ground (arith, h)

    or_map : (a b k : Bool) → (b ≡ true → k ≡ true) → a || b ≡ true → a || k ≡ true
    or_map a b k f h = ground (arith, f, h)

    or_right : (a k : Bool) → k ≡ true → a || k ≡ true
    or_right a k h = ground (arith, h)

    head_known :
        (id x : Text) (score : F) (baseline : List (Text × F))
        → equal x id || is_some (lookup id baseline) ≡ is_some (lookup id ((x, score) ∷ baseline))
    unfolding lookup
    head_known id x score baseline = ground arith

    IsFrom-classify :
        (id x : Text) (terms : List Text) (rank : ℕ) (o : Option ChunkStructure) (s : Structure)
        (known : Bool)
        → IsFrom id known s
        → IsFrom id (equal x id || known) (classify num words terms rank x o s)
    IsFrom-classify id x terms rank none s known (ht, hs, ha) = (
      λ e. or_right (equal x id) known (ht e),
      λ e. or_right (equal x id) known (hs e),
      λ e.
          or_map (equal x id) (contains id s.authored) known ha
            (contains-push_if true id x s.authored e),
    )
    IsFrom-classify id x terms rank (some c) s known (ht, hs, ha) =
        let title = title_overlap words terms c.title in
        let section = section_overlap words terms c.headings 0 in
        (
          λ e.
              or_map (equal x id) (leb 1 (counts_id id s.titles)) known ht
                (count-push_if (ltb 0 title) id (title, rank, x) s.titles e),
          λ e.
              or_map (equal x id) (leb 1 (counts_id id s.sections)) known hs
                (count-push_if (ltb title section) id (section, rank, x) s.sections e),
          λ e.
              or_map (equal x id) (contains id s.authored) known ha
                (contains-push_if (not c.generated_navigation) id x s.authored e),
        )

    IsFrom-skip :
        (id x : Text) (s : Structure) (known : Bool)
        → IsFrom id known s
        → IsFrom id (equal x id || known) s
    IsFrom-skip id x s known (ht, hs, ha) = (
      λ e. or_right (equal x id) known (ht e),
      λ e. or_right (equal x id) known (hs e),
      λ e. or_right (equal x id) known (ha e),
    )

    IsFrom-structure_of :
        (id : Text) (hits : Pool F) (terms : List Text) (rank : ℕ) (baseline : List (Text × F))
        → IsFrom id (is_some (lookup id baseline)) (structure_of num words hits terms rank baseline)
    unfolding structure_of lookup count_if contains
    IsFrom-structure_of id hits terms rank [] =
        (λ e. ground (arith, e), λ e. ground (arith, e), λ e. e)
    IsFrom-structure_of id hits terms rank ((x, score) ∷ baseline) =
        subst (λ b. IsFrom id b (structure_of num words hits terms rank ((x, score) ∷ baseline)))
          (head_known id x score baseline)
          (at_hit (lookup x hits) refl (IsFrom-structure_of id hits terms (suc rank) baseline))
      where
        at_hit :
            (o : Option (SearchHit F))
            → lookup x hits ≡ o
            → IsFrom id
                (is_some (lookup id baseline))
                (structure_of num words hits terms (suc rank) baseline)
            → IsFrom id
                (equal x id || is_some (lookup id baseline))
                (structure_of num words hits terms rank ((x, score) ∷ baseline))
        at_hit none e ih =
            rw (e, structure_of)
              (IsFrom-skip id x (structure_of num words hits terms (suc rank) baseline) _ ih)
        at_hit (some hit) e ih =
            rw (e, structure_of)
              (IsFrom-classify id x terms rank hit.structure
                (structure_of num words hits terms (suc rank) baseline) _ ih)

    pub structural-known :
        (id : Text) (hits : Pool F) (terms : List Text) (baseline : List (Text × F))
        → listed id (structural_lists num words hits terms baseline) ≡ true
        → is_some (lookup id baseline) ≡ true
    unfolding structural_lists listed
    structural-known id hits [] baseline e = ground (arith, e)
    structural-known id hits (t ∷ ts) baseline e =
        let s = structure_of num words hits (t ∷ ts) 0 baseline in
        let h = IsFrom-structure_of id hits (t ∷ ts) 0 baseline in
        ground (
          arith,
          e,
          h.0,
          h.1,
          h.2,
          contains-ids_of id (sort_by overlap_order s.titles),
          contains-ids_of id (sort_by overlap_order s.sections),
          count_if-sort_by overlap_order (λ (o : Overlapping). equal o.2 id) s.titles,
          count_if-sort_by overlap_order (λ (o : Overlapping). equal o.2 id) s.sections,
        )
