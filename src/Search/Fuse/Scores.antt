-- ===== src/Search/Fuse/Scores.antt =====
-- What each chunk's score in crates/hallouminate-domain/src/search/fuse.rs is made of.
use hallouminate.Assoc.{lookup, insert, IsMap, lookup-insert, insert-IsMap}
use hallouminate.Common.{
  ℕ, suc, ◌≡◌, refl, ◌∙◌, ap, false, Bool-cases, inl, inr, Option, none, some, List, [], ◌∷◌, arith,
  if◌then◌else◌,
}
use hallouminate.Search.Fuse.{Evidence, Scores, contains, contribution, bump, add_list, add_lists}
use hallouminate.Search.Types.{Floats, RankedList}
use hallouminate.Text.{Text, equal}
use hallouminate.Text.Equal.{equal_iff, equal_self}
use mathlib.Core.Path.{subst}

-- The best rank of a chunk in a list: its first one.
unfoldable pub first_rank : Text → ℕ → List Text → Option ℕ
first_rank id rank [] = none
first_rank id rank (x ∷ xs) =
    let rest = first_rank id (suc rank) xs in if equal x id then some rank else rest

module _ {F : Type 0} (num : Floats F) where
  abbrev pub counted : F → F → Option ℕ → Option (Evidence F) → Option (Evidence F)
  counted weight k none o = o
  counted weight k (some rank) o = some (bump num (contribution num weight k rank) o)

  -- What the lists say of one chunk: a contribution for each list that it stands in, of its best rank.
  unfoldable pub evidence :
      Text → F → List (RankedList F) → Option (Evidence F) → Option (Evidence F)
  unfolding first_rank
  evidence id k [] o = o
  evidence id k (list ∷ lists) o =
      evidence id k lists (counted list.weight k (first_rank id 0 list.chunk_ids) o)

  -- Behind its first occurrence, and at any other chunk, the scores are those after the loop's step.
  abbrev Looked : Text → F → F → ℕ → List Text → List Text → Scores F → Type 0
  Looked id weight k rank seen ids scores =
      lookup id (add_list num weight k rank seen ids scores) ≡ (
        if contains id seen
        then lookup id scores
        else counted weight k (first_rank id rank ids) (lookup id scores))

  abbrev step : F → F → ℕ → List Text → Text → Scores F → Scores F
  step weight k rank seen x scores =
      if contains x seen
      then scores
      else insert x (bump num (contribution num weight k rank) (lookup x scores)) scores

  Looked-self :
      (x : Text) (weight k : F) (rank : ℕ) (seen ids : List Text) (scores : Scores F)
      → Looked x weight k (suc rank) (x ∷ seen) ids (step weight k rank seen x scores)
      → Looked x weight k rank seen (x ∷ ids) scores
  unfolding add_list contains first_rank
  Looked-self x weight k rank seen ids scores ih = ground (
    arith,
    ih,
    equal_self x,
    lookup-insert x x (bump num (contribution num weight k rank) (lookup x scores)) scores,
  )

  Looked-other :
      (id x : Text) (weight k : F) (rank : ℕ) (seen ids : List Text) (scores : Scores F)
      → equal x id ≡ false
      → Looked id weight k (suc rank) (x ∷ seen) ids (step weight k rank seen x scores)
      → Looked id weight k rank seen (x ∷ ids) scores
  unfolding add_list contains first_rank
  Looked-other id x weight k rank seen ids scores other ih = ground (
    arith,
    ih,
    other,
    lookup-insert x id (bump num (contribution num weight k rank) (lookup x scores)) scores,
  )

  lookup-add_list :
      (id : Text) (weight k : F) (rank : ℕ) (seen ids : List Text) (scores : Scores F)
      → Looked id weight k rank seen ids scores
  unfolding add_list first_rank
  lookup-add_list id weight k rank seen [] scores = ground arith
  lookup-add_list id weight k rank seen (x ∷ ids) scores =
      let ih =
        lookup-add_list id weight k (suc rank) (x ∷ seen) ids (step weight k rank seen x scores) in
      elim (Bool-cases (equal x id)) [
        | inl same ↦ at_same ((equal_iff x id).0 same) ih
        | inr other ↦ Looked-other id x weight k rank seen ids scores other ih
      ]
    where
      at_same :
          x ≡ id
          → Looked id weight k (suc rank) (x ∷ seen) ids (step weight k rank seen x scores)
          → Looked id weight k rank seen (x ∷ ids) scores
      at_same same =
          subst
            (λ y.
              Looked y weight k (suc rank) (x ∷ seen) ids (step weight k rank seen x scores)
              → Looked y weight k rank seen (x ∷ ids) scores)
            same (Looked-self x weight k rank seen ids scores)

  add_list-IsMap :
      (weight k : F) (rank : ℕ) (seen ids : List Text) (scores : Scores F)
      → IsMap scores
      → IsMap (add_list num weight k rank seen ids scores)
  unfolding add_list
  add_list-IsMap weight k rank seen [] scores once = once
  add_list-IsMap weight k rank seen (x ∷ ids) scores once = elim (Bool-cases (contains x seen)) [
    | inl old ↦ rw (old, add_list) (add_list-IsMap weight k (suc rank) (x ∷ seen) ids scores once)
    | inr new ↦
        rw (new, add_list)
          (add_list-IsMap weight k (suc rank) (x ∷ seen) ids
            (insert x (bump num (contribution num weight k rank) (lookup x scores)) scores)
            (insert-IsMap x (bump num (contribution num weight k rank) (lookup x scores)) scores
              once))
  ]

  pub add_lists-IsMap :
      (k : F) (lists : List (RankedList F)) (scores : Scores F)
      → IsMap scores
      → IsMap (add_lists num k lists scores)
  unfolding add_lists
  add_lists-IsMap k [] scores once = once
  add_lists-IsMap k (list ∷ lists) scores once =
      add_lists-IsMap k lists (add_list num list.weight k 0 [] list.chunk_ids scores)
        (add_list-IsMap list.weight k 0 [] list.chunk_ids scores once)

  pub lookup-add_lists :
      (id : Text) (k : F) (lists : List (RankedList F)) (scores : Scores F)
      → lookup id (add_lists num k lists scores) ≡ evidence id k lists (lookup id scores)
  unfolding add_lists evidence contains
  lookup-add_lists id k [] scores = refl
  lookup-add_lists id k (list ∷ lists) scores =
      lookup-add_lists id k lists (add_list num list.weight k 0 [] list.chunk_ids scores)
      ∙ ap (evidence id k lists) (lookup-add_list id list.weight k 0 [] list.chunk_ids scores)
