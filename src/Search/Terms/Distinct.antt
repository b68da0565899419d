-- ===== src/Search/Terms/Distinct.antt =====
-- The distinct words of crates/hallouminate-domain/src/search/terms.rs.
use hallouminate.Common.{
  ◌≡◌, refl, ◌∙◌, sym, ap, not, Bool, true, Bool-cases, inl, inr, List, [], ◌∷◌,
}
use hallouminate.Common.SortBy.{filter}
use hallouminate.Search.Fuse.{contains}
use hallouminate.Search.Terms.{unseen, split_terms}
use hallouminate.Text.{Text, equal}
use hallouminate.Text.Equal.{equal_iff}

-- Each word where it occurs first: behind it, its later occurrences are taken out.
unfoldable pub first_occurrences : List Text → List Text
unfolding filter
first_occurrences [] = []
first_occurrences (w ∷ ws) = w ∷ filter (λ v. not (equal w v)) (first_occurrences ws)

abbrev fresh : List Text → Text → Bool
fresh seen w = not (contains w seen)

filter-cons :
    (w : Text) (seen ws : List Text)
    → filter (fresh (w ∷ seen)) ws ≡ filter (fresh seen) (filter (λ v. not (equal w v)) ws)
unfolding filter contains
filter-cons w seen [] = refl
filter-cons w seen (v ∷ ws) = elim (Bool-cases (equal w v)) [
  | inl same ↦ rw (same, filter, contains) (filter-cons w seen ws)
  | inr other ↦ elim (Bool-cases (contains v seen)) [
    | inl old ↦ rw (other, old, filter, contains) (filter-cons w seen ws)
    | inr new ↦ rw (other, new, filter, contains) (ap (◌∷◌ v) (filter-cons w seen ws))
  ]
]

skip_old :
    (w : Text) (seen ws : List Text)
    → contains w seen ≡ true
    → filter (fresh seen) (filter (λ v. not (equal w v)) ws) ≡ filter (fresh seen) ws
unfolding filter
skip_old w seen [] old = refl
skip_old w seen (v ∷ ws) old = elim (Bool-cases (equal w v)) [
  | inl same ↦
      rw (same, ap (λ x. contains x seen) (sym ((equal_iff w v).0 same)) ∙ old, filter)
        (skip_old w seen ws old)
  | inr other ↦ elim (Bool-cases (contains v seen)) [
    | inl seen_v ↦ rw (other, seen_v, filter) (skip_old w seen ws old)
    | inr new ↦ rw (other, new, filter) (ap (◌∷◌ v) (skip_old w seen ws old))
  ]
]

unseen-first_occurrences :
    (seen ws : List Text) → unseen seen ws ≡ filter (fresh seen) (first_occurrences ws)
unfolding unseen first_occurrences filter
unseen-first_occurrences seen [] = refl
unseen-first_occurrences seen (w ∷ ws) = elim (Bool-cases (contains w seen)) [
  | inl old ↦
      rw (old, unseen, filter)
        (unseen-first_occurrences seen ws ∙ sym (skip_old w seen (first_occurrences ws) old))
  | inr new ↦
      rw (new, unseen, filter)
        (ap (◌∷◌ w)
          (unseen-first_occurrences (w ∷ seen) ws ∙ filter-cons w seen (first_occurrences ws)))
]

filter-all : (ws : List Text) → filter (fresh []) ws ≡ ws
unfolding filter contains
filter-all [] = refl
filter-all (w ∷ ws) = ap (◌∷◌ w) (filter-all ws)

-- The terms of a query are its words without repetition, in the order of their first occurrences.
pub split_terms-first_occurrences :
    (words : Text → List Text) (query : Text)
    → split_terms words query ≡ first_occurrences (words query)
unfolding split_terms
split_terms-first_occurrences words query =
    unseen-first_occurrences [] (words query) ∙ filter-all (first_occurrences (words query))
