-- ===== src/Search/Resolve/Attribution.antt =====
-- Which of ripgrep's hits crates/hallouminate-domain/src/search.rs brings to which chunk.
use hallouminate.Assoc.{lookup, insert, lookup-insert, lookup-equal}
use hallouminate.Common.{
  ℕ, suc, ◌+◌, sym, length, length-append, ◌≡◌, refl, ◌∙◌, ap, Bool, true, false, ◌&&◌, ◌||◌,
  Bool-cases, inl, inr, Option, none, some, List, [], ◌∷◌, ◌++◌, arith, leb, if◌then◌else◌,
}
use hallouminate.Search.Resolve.{RipgrepHit, add_terms, Matched, or_empty, Pool, by_file, attribute}
use hallouminate.Search.Fuse.{contains}
use hallouminate.Search.Types.{SearchHit}
use hallouminate.Text.{Text, equal}

-- The line of a hit is one of the chunk's.
abbrev pub holds : {F : Type 0} → RipgrepHit → SearchHit F → Bool
holds rg chunk = leb chunk.line_start rg.line && leb rg.line chunk.line_end

module _ {F : Type 0} where
  -- The chunks of a file in the pool, in its order.
  unfoldable pub chunks_of : Text → Pool F → List (SearchHit F)
  chunks_of file [] = []
  chunks_of file ((id, hit) ∷ pool) =
      let rest = chunks_of file pool in if equal hit.file_ref file then hit ∷ rest else rest

  abbrev pub or_none : List (SearchHit F) → Option (List (SearchHit F))
  or_none [] = none
  or_none (h ∷ hs) = some (h ∷ hs)

  append_one :
      (xs : List (SearchHit F)) (y : SearchHit F) (ys : List (SearchHit F))
      → (xs ++ y ∷ []) ++ ys ≡ xs ++ y ∷ ys
  append_one [] y ys = refl
  append_one (x ∷ xs) y ys = ap (◌∷◌ x) (append_one xs y ys)

  abbrev pub joined : Option (List (SearchHit F)) → List (SearchHit F) → Option (List (SearchHit F))
  joined none hs = or_none hs
  joined (some xs) hs = some (xs ++ hs)

  joined_none : (o : Option (List (SearchHit F))) → o ≡ joined o []
  joined_none none = refl
  joined_none (some xs) = ap some (append_none xs)
    where
      append_none : (xs : List (SearchHit F)) → xs ≡ xs ++ []
      append_none [] = refl
      append_none (x ∷ xs) = ap (◌∷◌ x) (append_none xs)

  joined_one :
      (o : Option (List (SearchHit F))) (hit : SearchHit F) (hits : List (SearchHit F))
      → joined (some (or_empty o ++ hit ∷ [])) hits ≡ joined o (hit ∷ hits)
  joined_one none hit hits = refl
  joined_one (some xs) hit hits = ap some (append_one xs hit hits)

  pub lookup-by_file :
      (file : Text) (pool : Pool F) (files : List (Text × List (SearchHit F)))
      → lookup file (by_file pool files) ≡ joined (lookup file files) (chunks_of file pool)
  unfolding by_file chunks_of
  lookup-by_file file [] files = joined_none (lookup file files)
  lookup-by_file file ((id, hit) ∷ pool) files =
      lookup-by_file file pool
        (insert hit.file_ref (or_empty (lookup hit.file_ref files) ++ hit ∷ []) files)
      ∙ ap (λ o. joined o (chunks_of file pool))
          (lookup-insert hit.file_ref file (or_empty (lookup hit.file_ref files) ++ hit ∷ []) files)
      ∙ elim (Bool-cases (equal hit.file_ref file)) [
        | inl same ↦
            rw (same, lookup-equal hit.file_ref file files same)
              (joined_one (lookup file files) hit (chunks_of file pool))
        | inr other ↦ rw other refl
      ]

  -- What one hit of ripgrep adds to a chunk's terms, of the chunks of its file.
  unfoldable pub told_by :
      Text → RipgrepHit → List (SearchHit F) → Option (List Text) → Option (List Text)
  told_by id rg [] o = o
  told_by id rg (chunk ∷ chunks) o = told_by id rg chunks (
      if equal chunk.chunk_id id && holds rg chunk
      then some (add_terms (or_empty o) rg.matched)
      else o)

  pub lookup-attribute :
      (id : Text) (rg : RipgrepHit) (chunks : List (SearchHit F)) (attributed : Bool)
      (matched : Matched)
      → lookup id (attribute rg chunks attributed matched).1
        ≡ told_by id rg chunks (lookup id matched)
  unfolding attribute told_by
  lookup-attribute id rg [] attributed matched = refl
  lookup-attribute id rg (chunk ∷ chunks) attributed matched = elim (Bool-cases (holds rg chunk)) [
    | inl inside ↦
        let now = add_terms (or_empty (lookup chunk.chunk_id matched)) rg.matched in
        rw (inside, attribute, told_by)
          (lookup-attribute id rg chunks true (insert chunk.chunk_id now matched)
            ∙ ap (told_by id rg chunks) (
                ground (
                  arith,
                  lookup-insert chunk.chunk_id id now matched,
                  lookup-equal chunk.chunk_id id matched,
                )))
    | inr outside ↦
        rw (outside, attribute, told_by)
          (lookup-attribute id rg chunks attributed matched
            ∙ ap (told_by id rg chunks) (ground arith))
  ]

  unfoldable pub any_covers : RipgrepHit → List (SearchHit F) → Bool
  any_covers rg [] = false
  any_covers rg (chunk ∷ chunks) = holds rg chunk || any_covers rg chunks

  pub attribute-any_covers :
      (rg : RipgrepHit) (chunks : List (SearchHit F)) (attributed : Bool) (matched : Matched)
      → (attribute rg chunks attributed matched).0 ≡ attributed || any_covers rg chunks
  unfolding attribute any_covers
  attribute-any_covers rg [] attributed matched = ground arith
  attribute-any_covers rg (chunk ∷ chunks) attributed matched = ground (
    arith,
    attribute-any_covers rg chunks attributed matched,
    attribute-any_covers rg chunks true (
        insert chunk.chunk_id (add_terms (or_empty (lookup chunk.chunk_id matched)) rg.matched)
          matched),
  )

-- How many terms of a list are no repetition of an earlier one, nor of one in `seen`.
unfoldable pub fresh : List Text → List Text → ℕ
unfolding contains
fresh seen [] = 0
fresh seen (t ∷ ts) =
    let old = fresh seen ts in
    let new = fresh (t ∷ seen) ts in if contains t seen then old else suc new

pub add_terms-append :
    (terms xs ys : List Text) → add_terms (add_terms terms xs) ys ≡ add_terms terms (xs ++ ys)
unfolding add_terms
add_terms-append terms [] ys = refl
add_terms-append terms (x ∷ xs) ys =
    add_terms-append (if contains x terms then terms else terms ++ x ∷ []) xs ys

contains-append_one :
    (t x : Text) (terms : List Text) → contains x (terms ++ t ∷ []) ≡ equal t x || contains x terms
unfolding contains
contains-append_one t x [] = ground arith
contains-append_one t x (y ∷ terms) = ground (arith, contains-append_one t x terms)

pub length-add_terms :
    (terms seen ts : List Text)
    → ((x : Text) → contains x terms ≡ contains x seen)
    → length (add_terms terms ts) ≡ length terms + fresh seen ts
unfolding add_terms fresh contains
length-add_terms terms seen [] same = omega arith
length-add_terms terms seen (t ∷ ts) same = elim (Bool-cases (contains t terms)) [
  | inl old ↦
      rw (old, add_terms) (rw (sym (same t) ∙ old, fresh) (length-add_terms terms seen ts same))
  | inr new ↦
      rw (new, add_terms)
        (rw (sym (same t) ∙ new, fresh)
          (length-add_terms (terms ++ t ∷ []) (t ∷ seen) ts
              (λ x. contains-append_one t x terms ∙ ap (λ b. equal t x || b) (same x))
            ∙ omega (arith, length-append terms (t ∷ []))))
]
