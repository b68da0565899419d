-- ===== src/Corpus/Breadcrumbs/Paths.antt =====
-- Which headings a breadcrumb names.
use hallouminate.Common.{
  ℕ, ◌≡◌, refl, ap, Option, none, some, List, [], ◌∷◌, leb, ltb, ◌==◌, if◌then◌else◌, arith, All,
  ◌≤◌, ◌&&◌, Option-cases, inl, inr, true,
}
use hallouminate.Text.{Text}
use hallouminate.Corpus.Breadcrumbs.{
  HeadingEvent, Breadcrumb, HeadingStack, empty_stack, heading_level_idx, enter_heading, present,
  stack_path, crumbs_from, build_breadcrumbs,
}

-- The heading of a level that is in force after the headings seen, the latest first: the last one of
-- that level, unless a heading of a higher level came behind it.
abbrev pub in_force : ℕ → List HeadingEvent → Option Text
in_force level [] = none
in_force level (h ∷ older) =
    let earlier = in_force level older in
    if h.level == level then some h.title else if ltb h.level level then none else earlier

-- The path after the headings seen.
abbrev pub path_after : List HeadingEvent → List Text
path_after seen =
    present (in_force 1 seen) (present (in_force 2 seen) (present (in_force 3 seen) []))

-- A breadcrumb for each heading of the first three levels.
abbrev pub expected_crumbs : List HeadingEvent → List HeadingEvent → List Breadcrumb
expected_crumbs seen [] = []
expected_crumbs seen (h ∷ hs) =
    let rest = expected_crumbs (h ∷ seen) hs in
    if leb 1 h.level && leb h.level 3
    then record { byte_offset = h.start; path = path_after (h ∷ seen) } ∷ rest
    else rest

-- A heading's level is from one to six.
abbrev pub AllLevels : List HeadingEvent → Type 0
AllLevels = All (λ h. 1 ≤ h.level)

-- The stack holds the headings in force.
pub record Holds (seen : List HeadingEvent) (s : HeadingStack) : Type 0 where
  h1_is : s.h1 ≡ in_force 1 seen
  h2_is : s.h2 ≡ in_force 2 seen
  h3_is : s.h3 ≡ in_force 3 seen

enter-Holds :
    (h : HeadingEvent) (seen : List HeadingEvent) (s : HeadingStack) (i : ℕ)
    → Holds seen s
    → heading_level_idx h.level ≡ some i
    → Holds (h ∷ seen) (enter_heading i h.title s)
unfolding heading_level_idx enter_heading
enter-Holds h seen s i v e = ground (arith, e)

skip-Holds :
    (h : HeadingEvent) (seen : List HeadingEvent) (s : HeadingStack)
    → Holds seen s
    → 1 ≤ h.level
    → heading_level_idx h.level ≡ none
    → Holds (h ∷ seen) s
unfolding heading_level_idx
skip-Holds h seen s v one e = ground (arith, e)

stack_path-Holds :
    (seen : List HeadingEvent) (s : HeadingStack) → Holds seen s → stack_path s ≡ path_after seen
stack_path-Holds seen s v = rw (v.h1_is, v.h2_is, v.h3_is)

level_none : (n : ℕ) → heading_level_idx n ≡ none → (leb 1 n && leb n 3) ≡ true → 1 ≤ n → ⊥
unfolding heading_level_idx
level_none n e t one = ground (arith, e, t)

level_some : (n i : ℕ) → heading_level_idx n ≡ some i → (leb 1 n && leb n 3) ≡ true
unfolding heading_level_idx
level_some n i e = ground (arith, e)

crumbs-expected :
    (seen hs : List HeadingEvent) (s : HeadingStack)
    → Holds seen s
    → AllLevels hs
    → crumbs_from s hs ≡ expected_crumbs seen hs
unfolding crumbs_from
crumbs-expected seen [] s v l = refl
crumbs-expected seen (h ∷ hs) s v l = elim (Option-cases (heading_level_idx h.level)) [
  | inl e ↦ ground (
    arith,
    e,
    level_none h.level e,
    crumbs-expected (h ∷ seen) hs s (skip-Holds h seen s v l.0 e) l.1,
  )
  | inr (i, e) ↦
      let next = enter-Holds h seen s i v e in
      ground (
        arith,
        e,
        level_some h.level i e,
        stack_path-Holds (h ∷ seen) (enter_heading i h.title s) next,
        crumbs-expected (h ∷ seen) hs (enter_heading i h.title s) next l.1,
      )
]

-- The breadcrumbs of a text are the empty one at its start, and one at each heading of the first
-- three levels, whose path names for each of these levels, the highest first, the last heading of
-- that level so far, unless a heading of a higher level came behind it.
pub build_breadcrumbs-expected :
    (headings_of : Text → List HeadingEvent) (text : Text)
    → AllLevels (headings_of text)
    → build_breadcrumbs headings_of text
      ≡ record { byte_offset = 0; path = [] } ∷ expected_crumbs [] (headings_of text)
unfolding build_breadcrumbs
build_breadcrumbs-expected headings_of text l = ap (◌∷◌ (record { byte_offset = 0; path = [] })) (
    crumbs-expected [] (headings_of text) empty_stack
      (record { h1_is = refl; h2_is = refl; h3_is = refl }) l)
