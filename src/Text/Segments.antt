-- ===== src/Text/Segments.antt =====
-- A text as its segments: the lines with their terminators.
use hallouminate.Common.{
  ℕ, ◌≡◌, ◌≢◌, refl, ap, sym, ◌∙◌, zero, suc, ◌<◌, length, take, drop, ◌⊎◌, inl, inr, Bool, true,
  false, none, List, [], ◌∷◌, ◌++◌, arith, All, ◌==◌, ==_iff, if◌then◌else◌,
}
use mathlib.Core.List.{append_assoc, append-nil}
use hallouminate.Text.{Text, newline, split_inclusive, push_first, strip_last}

-- No character of the text ends a line.
abbrev pub OneLine : Text → Type 0
OneLine = All (λ c. c ≢ newline)

-- The segments of a text: lines with their terminator, but for the last one.
abbrev pub Segments : List Text → Type 0
Segments [] = Unit
Segments (s ∷ ss) =
    ((body : Text) × (s ≡ body ++ newline ∷ []) × OneLine body × Segments ss)
    ⊎ (OneLine s × (s ≢ []) × (ss ≡ []))

push_first-Segments :
    (c : ℕ) (ss : List Text) → c ≢ newline → Segments ss → Segments (push_first c ss)
push_first-Segments c [] h e = inr ((h, tt), (λ e. cc), refl)
push_first-Segments c (s ∷ ss) h (inl (body, e, o, r)) = inl (c ∷ body, ap (◌∷◌ c) e, (h, o), r)
push_first-Segments c (s ∷ ss) h (inr (o, ne, e)) = inr ((h, o), (λ same. cc), e)

cut-Segments :
    (c : ℕ) (ss : List Text) (ends : Bool)
    → (c == newline) ≡ ends
    → Segments ss
    → Segments (if ends then (c ∷ []) ∷ ss else push_first c ss)
cut-Segments c ss true e h = inl ([], ap (λ d. d ∷ []) ((==_iff c newline).0 e), tt, h)
cut-Segments c ss false e h = push_first-Segments c ss (λ same. absurd (ground (arith, e, same))) h

pub split_inclusive-Segments : (t : Text) → Segments (split_inclusive t)
unfolding split_inclusive
split_inclusive-Segments [] = tt
split_inclusive-Segments (c ∷ t) =
    cut-Segments c (split_inclusive t) (c == newline) refl (split_inclusive-Segments t)

pub split_inclusive-line :
    (body rest : Text)
    → OneLine body
    → split_inclusive ((body ++ newline ∷ []) ++ rest)
      ≡ (body ++ newline ∷ []) ∷ split_inclusive rest
unfolding split_inclusive
split_inclusive-line [] rest a = refl
split_inclusive-line (c ∷ t) rest a = ground (arith, split_inclusive-line t rest a.1)

-- A line without a terminator is the text's last one, and an empty one is none.
unfoldable pub last_segment : Text → List Text
last_segment [] = []
last_segment (c ∷ t) = (c ∷ t) ∷ []

pub split_inclusive-last : (t : Text) → OneLine t → split_inclusive t ≡ last_segment t
unfolding split_inclusive last_segment
split_inclusive-last [] a = refl
split_inclusive-last (c ∷ []) a = ground arith
split_inclusive-last (c ∷ d ∷ t) a = ground (arith, split_inclusive-last (d ∷ t) a.1)

pub strip_last-OneLine : (t : Text) → OneLine t → strip_last newline t ≡ none
unfolding strip_last
strip_last-OneLine [] a = refl
strip_last-OneLine (c ∷ []) a = ground arith
strip_last-OneLine (c ∷ d ∷ t) a = ground (arith, strip_last-OneLine (d ∷ t) a.1)

abbrev pub concat : List Text → Text
concat [] = []
concat (l ∷ ls) = l ++ concat ls

-- Segments written one behind the other are read off again.
pub split_inclusive-concat : (ss : List Text) → Segments ss → split_inclusive (concat ss) ≡ ss
unfolding split_inclusive last_segment
split_inclusive-concat [] h = refl
split_inclusive-concat (s ∷ ss) (inl (body, e, o, r)) =
    ap (λ t. split_inclusive (t ++ concat ss)) e
    ∙ split_inclusive-line body (concat ss) o
    ∙ rw (split_inclusive-concat ss r, e)
split_inclusive-concat ([] ∷ ss) (inr (o, ne, e)) = absurd (ne refl)
split_inclusive-concat ((c ∷ s) ∷ ss) (inr (o, ne, e)) =
    ap (λ r. split_inclusive ((c ∷ s) ++ concat r)) e
    ∙ ap split_inclusive (append-nil (c ∷ s))
    ∙ split_inclusive-last (c ∷ s) o
    ∙ rw e

-- A text that is empty or ends a line is split apart from what follows it.
abbrev pub Ended : List Text → Type 0
Ended [] = Unit
Ended (s ∷ ss) = ((body : Text) × (s ≡ body ++ newline ∷ []) × OneLine body) × Ended ss

pub take-Ended : (n : ℕ) (ss : List Text) → Segments ss → n < length ss → Ended (take n ss)
take-Ended zero ss h lt = tt
take-Ended (suc n) [] h lt = tt
take-Ended (suc n) (s ∷ ss) (inl (body, e, o, r)) lt =
    ((body, e, o), take-Ended n ss r (omega (arith, lt)))
take-Ended (suc n) (s ∷ ss) (inr (o, ne, e)) lt = absurd (omega (arith, lt, ap length e))

pub drop-Segments : (n : ℕ) (ss : List Text) → Segments ss → Segments (drop n ss)
drop-Segments zero ss h = h
drop-Segments (suc n) [] h = tt
drop-Segments (suc n) (s ∷ ss) (inl (body, e, o, r)) = drop-Segments n ss r
drop-Segments (suc n) (s ∷ ss) (inr (o, ne, e)) = drop-Segments n ss (rw e tt)

pub split_inclusive-Ended :
    (ss : List Text) (rest : Text)
    → Ended ss
    → split_inclusive (concat ss ++ rest) ≡ ss ++ split_inclusive rest
split_inclusive-Ended [] rest h = refl
split_inclusive-Ended (s ∷ ss) rest ((body, e, o), hs) =
    ap (λ t. split_inclusive (t ++ rest)) (ap (λ t. t ++ concat ss) e)
    ∙ ap split_inclusive (append_assoc (body ++ newline ∷ []) (concat ss) rest)
    ∙ split_inclusive-line body (concat ss ++ rest) o
    ∙ ap (λ t. (body ++ newline ∷ []) ∷ t) (split_inclusive-Ended ss rest hs)
    ∙ ap (λ t. t ∷ ss ++ split_inclusive rest) (sym e)

push_first-append :
    (c : ℕ) (ss ts : List Text) → ss ≢ [] → push_first c (ss ++ ts) ≡ push_first c ss ++ ts
push_first-append c [] ts h = absurd (h refl)
push_first-append c (s ∷ ss) ts h = refl

push_first_ne : (c : ℕ) (ss : List Text) → push_first c ss ≢ []
push_first_ne c [] e = cc
push_first_ne c (s ∷ ss) e = cc

split_inclusive_ne : (t : Text) → split_inclusive (t ++ newline ∷ []) ≢ []
unfolding split_inclusive
split_inclusive_ne [] e = cc
split_inclusive_ne (c ∷ t) e =
    ground (arith, e, push_first_ne c (split_inclusive (t ++ newline ∷ [])))

-- A text that ends a line is split apart from what follows it.
pub split_inclusive-newline :
    (t rest : Text)
    → split_inclusive (t ++ newline ∷ rest)
      ≡ split_inclusive (t ++ newline ∷ []) ++ split_inclusive rest
unfolding split_inclusive
split_inclusive-newline [] rest = refl
split_inclusive-newline (c ∷ t) rest = ground (
  arith,
  split_inclusive-newline t rest,
  push_first-append c (split_inclusive (t ++ newline ∷ [])) (split_inclusive rest)
      (split_inclusive_ne t),
)
