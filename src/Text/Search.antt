-- ===== src/Text/Search.antt =====
-- Searching a text for a pattern.
use hallouminate.Common.{ℕ, ◌+◌, ◌≡◌, ◌≢◌, refl, Option, none, some, [], ◌∷◌, ◌++◌, arith, All}
use hallouminate.Text.{Text, strip_prefix, break_on, byte_len}

pub byte_len-append : (s t : Text) → byte_len (s ++ t) ≡ byte_len s + byte_len t
unfolding byte_len
byte_len-append [] t = omega arith
byte_len-append (c ∷ s) t = omega (arith, byte_len-append s t)

-- What a search found of `p` in `s` spells `s`.
abbrev pub Behind : Text → Text → Option Text → Type 0
Behind p s none = Unit
Behind p s (some rest) = s ≡ p ++ rest

abbrev pub Splits : Text → Text → Option (Text × Text) → Type 0
Splits p s none = Unit
Splits p s (some (before, after)) = s ≡ before ++ (p ++ after)

strip_prefix-Behind : (p s : Text) → Behind p s (strip_prefix p s)
unfolding strip_prefix
strip_prefix-Behind [] s = refl
strip_prefix-Behind (c ∷ p) [] = tt
strip_prefix-Behind (c ∷ p) (d ∷ s) = ground (arith, strip_prefix-Behind p s)

-- The text is what stands before the first occurrence, the pattern, and what stands behind it.
pub break_on-Splits : (p s : Text) → Splits p s (break_on p s)
unfolding break_on
break_on-Splits p [] = ground (arith, strip_prefix-Behind p [])
break_on-Splits p (c ∷ s) = ground (arith, strip_prefix-Behind p (c ∷ s), break_on-Splits p s)

-- A last character that the pattern does not have changes no search.
abbrev pub behind : ℕ → Option Text → Option Text
behind r none = none
behind r (some t) = some (t ++ r ∷ [])

strip_prefix-last :
    (r : ℕ) (p s : Text)
    → All (λ c. c ≢ r) p
    → strip_prefix p (s ++ r ∷ []) ≡ behind r (strip_prefix p s)
unfolding strip_prefix
strip_prefix-last r [] s a = refl
strip_prefix-last r (c ∷ p) [] a = ground arith
strip_prefix-last r (c ∷ p) (d ∷ s) a = ground (arith, strip_prefix-last r p s a.1)

abbrev pub behind_after : ℕ → Option (Text × Text) → Option (Text × Text)
behind_after r none = none
behind_after r (some (before, after)) = some (before, after ++ r ∷ [])

strip_prefix-nil : (p : Text) → p ≢ [] → strip_prefix p [] ≡ none
unfolding strip_prefix
strip_prefix-nil [] h = absurd (h refl)
strip_prefix-nil (c ∷ p) h = refl

pub break_on-last :
    (r : ℕ) (p s : Text)
    → p ≢ []
    → All (λ c. c ≢ r) p
    → break_on p (s ++ r ∷ []) ≡ behind_after r (break_on p s)
unfolding break_on
break_on-last r p [] ne a = ground (arith, strip_prefix-last r p [] a, strip_prefix-nil p ne)
break_on-last r p (c ∷ s) ne a =
    ground (arith, strip_prefix-last r p (c ∷ s) a, break_on-last r p s ne a)
