-- ===== src/Text/Lines.antt =====
-- Splitting a text into its lines, and trimming.
use mathlib.Core.List.{reverse, reverse-cons, reverse-reverse}
use hallouminate.Common.{ℕ, ◌≡◌, refl, none, some, [], ◌∷◌, ◌++◌, arith, All, All-append, false}
use hallouminate.Text.{
  Text, newline, is_whitespace, trim_start, trim, strip_last, split_inclusive, lines,
}

-- No character of `t` is white space, so none ends a line.
abbrev pub Solid : Text → Type 0
Solid = All (λ c. is_whitespace c ≡ false)

trim_start-Solid : (t : Text) → Solid t → trim_start t ≡ t
unfolding trim_start
trim_start-Solid [] a = refl
trim_start-Solid (c ∷ t) a = ground arith

reverse-Solid : (t : Text) → Solid t → Solid (reverse t)
reverse-Solid [] a = tt
reverse-Solid (c ∷ t) a =
    rw reverse-cons (All-append _ (reverse t) (c ∷ []) (reverse-Solid t a.1) (a.0, tt))

pub trim-Solid : (t : Text) → Solid t → trim t ≡ t
unfolding trim
trim-Solid t a =
    rw (trim_start-Solid t a, trim_start-Solid (reverse t) (reverse-Solid t a)) (reverse-reverse t)

split_inclusive_line :
    (t rest : Text)
    → Solid t
    → split_inclusive (t ++ newline ∷ rest) ≡ (t ++ newline ∷ []) ∷ split_inclusive rest
unfolding split_inclusive is_whitespace
split_inclusive_line [] rest a = refl
split_inclusive_line (c ∷ t) rest a = ground (arith, split_inclusive_line t rest a.1)

pub strip_last_append : (c : ℕ) (t : Text) → strip_last c (t ++ c ∷ []) ≡ some t
unfolding strip_last
strip_last_append c [] = ground arith
strip_last_append c (d ∷ []) = ground arith
strip_last_append c (d ∷ e ∷ t) = ground (arith, strip_last_append c (e ∷ t))

strip_last-Solid : (t : Text) → Solid t → strip_last 13 t ≡ none
unfolding strip_last is_whitespace
strip_last-Solid [] a = refl
strip_last-Solid (d ∷ []) a = ground arith
strip_last-Solid (d ∷ e ∷ t) a = ground (arith, strip_last-Solid (e ∷ t) a.1)

-- A line of solid text is read off as it was written.
pub lines-cons : (t rest : Text) → Solid t → lines (t ++ newline ∷ rest) ≡ t ∷ lines rest
unfolding lines
lines-cons t rest a =
    rw (split_inclusive_line t rest a)
      (ground (arith, strip_last_append newline t, strip_last-Solid t a))
