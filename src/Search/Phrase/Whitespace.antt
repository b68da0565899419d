-- ===== src/Search/Phrase/Whitespace.antt =====
-- What `collapse_whitespace` of crates/hallouminate-domain/src/search/phrase.rs leaves of a text.
use hallouminate.Common.{
  ℕ, Option, none, some, List, ◌≡◌, refl, ◌∙◌, sym, ap, ◌↔◌, Bool, true, false, ◌&&◌, not,
  Bool-cases, inl, inr, [], ◌∷◌, arith, ◌==◌, if◌then◌else◌,
}
use hallouminate.Search.Phrase.{collapse_from, collapse_whitespace}
use hallouminate.Text.{Text, is_whitespace}

-- Every whitespace is a space, and none follows another; `spaced` says that one stands before.
unfoldable pub is_collapsed : Bool → Text → Bool
is_collapsed spaced [] = true
is_collapsed spaced (c ∷ s) =
    if is_whitespace c then not spaced && c == b' ' && is_collapsed true s else is_collapsed false s

-- Each character that is no whitespace, and at last the end of the text, with whether whitespace stands
-- right before it; `after_space` says so for the first.
unfoldable pub spacing : Bool → Text → List (Bool × Option ℕ)
spacing after_space [] = (after_space, none) ∷ []
spacing after_space (c ∷ s) =
    if is_whitespace c then spacing true s else (after_space, some c) ∷ spacing false s

space-is_whitespace : is_whitespace b' ' ≡ true
unfolding is_whitespace
space-is_whitespace = refl

collapsed : (in_run : Bool) (s : Text) → is_collapsed in_run (collapse_from in_run s) ≡ true
unfolding is_collapsed collapse_from
collapsed in_run [] = refl
collapsed true (c ∷ s) = elim (Bool-cases (is_whitespace c)) [
  | inl space ↦ rw (space, collapse_from) (collapsed true s)
  | inr other ↦ rw (other, collapse_from) (rw (other, is_collapsed) (collapsed false s))
]
collapsed false (c ∷ s) = elim (Bool-cases (is_whitespace c)) [
  | inl space ↦
      rw (space, collapse_from) (rw (space-is_whitespace, is_collapsed) (collapsed true s))
  | inr other ↦ rw (other, collapse_from) (rw (other, is_collapsed) (collapsed false s))
]

unchanged : (in_run : Bool) (s : Text) → is_collapsed in_run s ≡ true → collapse_from in_run s ≡ s
unfolding is_collapsed collapse_from
unchanged in_run [] h = refl
unchanged in_run (c ∷ s) h = ground (arith, h, unchanged true s, unchanged false s)

same_spacing :
    (in_run : Bool) (s : Text) → spacing in_run (collapse_from in_run s) ≡ spacing in_run s
unfolding spacing collapse_from
same_spacing in_run [] = refl
same_spacing true (c ∷ s) =
    ground (arith, same_spacing true s, same_spacing false s, space-is_whitespace)
same_spacing false (c ∷ s) =
    ground (arith, same_spacing true s, same_spacing false s, space-is_whitespace)

abbrev pub Collapsed : Text → Text → Type 0
Collapsed text out =
    (spacing false out ≡ spacing false text)
    × (is_collapsed false out ≡ true)
    × ((is_collapsed false text ≡ true) ↔ (out ≡ text))

-- A collapsed text has the characters that are no whitespace in their order, whitespace where the text
-- has a run of it, at its ends too, and of that a single space only; it is the text itself exactly where
-- that has no other whitespace than single spaces.
pub collapse_whitespace-Collapsed : (text : Text) → Collapsed text (collapse_whitespace text)
unfolding collapse_whitespace
collapse_whitespace-Collapsed text = (
  same_spacing false text,
  collapsed false text,
  (unchanged false text, λ e. ap (is_collapsed false) (sym e) ∙ collapsed false text),
)
