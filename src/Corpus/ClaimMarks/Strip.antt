-- ===== src/Corpus/ClaimMarks/Strip.antt =====
-- A whole text: the lines of a stripped text are the stripped lines, so no claim comment is left.
use hallouminate.Common.{
  ℕ, ◌+◌, ◌≡◌, refl, ap, ◌∙◌, inl, inr, Option, none, some, List, [], ◌∷◌, ◌++◌, arith, length,
  length-append, All,
}
use mathlib.Core.List.{append-nil}
use hallouminate.Text.Segments.{
  OneLine, Segments, split_inclusive-Segments, split_inclusive-line, last_segment,
  split_inclusive-last, strip_last-OneLine,
}
use hallouminate.Text.Lines.{strip_last_append}
use hallouminate.Text.{
  Text, newline, split_inclusive, strip_last, strip_return, line_of, map_lines, lines,
}
use hallouminate.Corpus.ClaimMarks.Passes.{Settled, NoClaims, strip_claim_comments_in_line-Settled}
use hallouminate.Corpus.ClaimMarks.Scan.{comments_fuel, comments-return}
use hallouminate.Corpus.ClaimMarks.Kept.{in_line-OneLine}
use hallouminate.Corpus.ClaimMarks.{
  comments, strip_claim_comments_in_line, strip_segment, strip_segments, strip_claim_marks,
  scan_lines, number, marks_of, warnings_of, scan_comments, extract_claim_marks, lint_claim_marks,
}

-- A carriage return before the terminator is no part of the line that `lines` reads.
abbrev BehindStrip : ℕ → Text → Option Text → Type 0
BehindStrip c s none = Unit
BehindStrip c s (some t) = s ≡ t ++ c ∷ []

strip_last-BehindStrip : (c : ℕ) (s : Text) → BehindStrip c s (strip_last c s)
unfolding strip_last
strip_last-BehindStrip c [] = tt
strip_last-BehindStrip c (d ∷ []) = ground arith
strip_last-BehindStrip c (d ∷ e ∷ s) = ground (arith, strip_last-BehindStrip c (e ∷ s))

shorter_Settled : (t s : Text) → s ≡ t ++ 13 ∷ [] → Settled s → Settled t
shorter_Settled t s e h =
    rw
      (
        comments_fuel (length t) (length s) t (omega arith)
            (omega (arith, ap length e, length-append t (13 ∷ []))),
        ← comments-return (length s) t,
        ← e,
      )
      h

return_Settled :
    (s : Text) (o : Option Text)
    → BehindStrip 13 s o
    → Settled s
    → Settled (elim o [ none ↦ s | some t ↦ t ])
return_Settled s none e h = h
return_Settled s (some t) e h = shorter_Settled t s e h

strip_return-Settled : (s : Text) → Settled s → Settled (strip_return s)
strip_return-Settled s h = return_Settled s (strip_last 13 s) (strip_last-BehindStrip 13 s) h

-- The lines of what the segments leave, each of them stripped.
Settled-as : (s t : Text) → s ≡ t → Settled t → Settled s
Settled-as s t e h = rw e h

AllSettled-as : (ss ts : List Text) → ss ≡ ts → All Settled ts → All Settled ss
AllSettled-as ss ts e h = rw e h

line_of-ended : (body : Text) → line_of (body ++ newline ∷ []) ≡ strip_return body
line_of-ended body = ground (arith, strip_last_append newline body)

line_of-last : (t : Text) → OneLine t → line_of t ≡ t
line_of-last t o = ground (arith, strip_last-OneLine t o)

strip_segment-ended :
    (body : Text)
    → strip_segment (body ++ newline ∷ []) ≡ strip_claim_comments_in_line body ++ newline ∷ []
strip_segment-ended body = ground (arith, strip_last_append newline body)

strip_segment-last : (t : Text) → OneLine t → strip_segment t ≡ strip_claim_comments_in_line t
strip_segment-last t o = ground (arith, strip_last-OneLine t o)

last_lines : (t : Text) → OneLine t → Settled t → All Settled (map_lines (last_segment t))
unfolding last_segment
last_lines [] o h = tt
last_lines (c ∷ t) o h = (Settled-as (line_of (c ∷ t)) (c ∷ t) (line_of-last (c ∷ t) o) h, tt)

Segments-Settled :
    (ss : List Text) → Segments ss → All Settled (map_lines (split_inclusive (strip_segments ss)))
unfolding split_inclusive
Segments-Settled [] h = tt
Segments-Settled (s ∷ ss) (inl (body, e, o, r)) =
    let left = strip_claim_comments_in_line body in
    let rest = strip_segments ss in
    AllSettled-as (map_lines (split_inclusive (strip_segment s ++ rest)))
      (line_of (left ++ newline ∷ []) ∷ map_lines (split_inclusive rest))
      (ap (λ t. map_lines (split_inclusive (t ++ rest)))
          (ap strip_segment e ∙ strip_segment-ended body)
        ∙ ap map_lines (split_inclusive-line left rest (in_line-OneLine body o)))
      (
        Settled-as (line_of (left ++ newline ∷ [])) (strip_return left) (line_of-ended left)
            (strip_return-Settled left (strip_claim_comments_in_line-Settled body)),
        Segments-Settled ss r,
      )
Segments-Settled (s ∷ ss) (inr (o, ne, e)) =
    let left = strip_claim_comments_in_line s in
    AllSettled-as (map_lines (split_inclusive (strip_segment s ++ strip_segments ss)))
      (map_lines (last_segment left))
      (ap (λ t. map_lines (split_inclusive (t ++ strip_segments ss))) (strip_segment-last s o)
        ∙ ap (λ r. map_lines (split_inclusive (left ++ strip_segments r))) e
        ∙ ap (λ t. map_lines (split_inclusive t)) (append-nil left)
        ∙ ap map_lines (split_inclusive-last left (in_line-OneLine s o)))
      (last_lines left (in_line-OneLine s o) (strip_claim_comments_in_line-Settled s))

-- Every line of a stripped text is free of claim comments.
pub strip_claim_marks-Settled : (text : Text) → All Settled (lines (strip_claim_marks text))
unfolding strip_claim_marks lines
strip_claim_marks-Settled text =
    Segments-Settled (split_inclusive text) (split_inclusive-Segments text)

unmarked :
    (n : ℕ) (cs : List Text) (rest : List (ℕ × Text))
    → NoClaims cs
    → (marks_of (number n cs ++ rest) ≡ marks_of rest)
      × (warnings_of (number n cs ++ rest) ≡ warnings_of rest)
unmarked n [] rest h = (refl, refl)
unmarked n (c ∷ cs) rest (h, hs) = rw (h) (unmarked n cs rest hs)

lines_unmarked :
    (n : ℕ) (ls : List Text)
    → All Settled ls
    → (marks_of (scan_lines n ls) ≡ []) × (warnings_of (scan_lines n ls) ≡ [])
lines_unmarked n [] h = (refl, refl)
lines_unmarked n (l ∷ ls) (h, hs) =
    let (m, w) = unmarked n (comments (length l) l) (scan_lines (n + 1) ls) h in
    let (ms, ws) = lines_unmarked (n + 1) ls hs in (m ∙ ms, w ∙ ws)

-- A stripped text has no claim mark left for `extract_claim_marks` to read and nothing for
-- `lint_claim_marks` to warn about, also where the removal of one comment joins the text around
-- it into another claim comment.
pub strip_claim_marks-removes_all :
    (text : Text)
    → (extract_claim_marks (strip_claim_marks text) ≡ [])
      × (lint_claim_marks (strip_claim_marks text) ≡ [])
unfolding extract_claim_marks lint_claim_marks scan_comments
strip_claim_marks-removes_all text =
    lines_unmarked 1 (lines (strip_claim_marks text)) (strip_claim_marks-Settled text)
