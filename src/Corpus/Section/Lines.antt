-- ===== src/Corpus/Section/Lines.antt =====
-- The edit of a line range: what it changes, what it leaves, and when it is refused.
use hallouminate.Common.{
  ℕ, ◌-◌, ◌≤◌, ◌<◌, ◌≡◌, refl, ap, ◌∙◌, ◌⊎◌, Bool, true, false, [], ◌∷◌, ◌++◌, length, take, drop,
  ltb, ◌==◌, ◌||◌, if◌then◌else◌, arith,
}
use hallouminate.Text.Segments.{
  concat, take-Ended, drop-Segments, split_inclusive-Segments, split_inclusive-concat,
  split_inclusive-Ended, split_inclusive-newline,
}
use hallouminate.Text.{Text, newline, split_inclusive}
use hallouminate.Corpus.Section.{
  LineRange, RangeError, out_of_range, inverted, Result, ok, err, trim_newlines, trim_end_newlines,
  replace_line_range,
}

-- The lines of the body, as they are put in.
abbrev pub body_lines : Text → Text
body_lines body = trim_end_newlines (trim_newlines body)

-- What a line edit gives. The lines of the text it returns are those of the old text before the
-- range, those of the body and those of the old text behind the range, which lies within the text.
-- A refusal tells why.
abbrev pub LinesReplaced : Text → LineRange → Text → Result RangeError → Type 0
LinesReplaced doc range body (ok r) =
    (1 ≤ range.start)
    × (range.start ≤ range.end)
    × (range.end ≤ length (split_inclusive doc))
    × (split_inclusive r
        ≡ take (range.start - 1) (split_inclusive doc)
          ++ (split_inclusive (body_lines body ++ newline ∷ [])
              ++ drop range.end (split_inclusive doc)))
LinesReplaced doc range body (err out_of_range) =
    (range.start ≡ 0) ⊎ ((range.end ≡ 0) ⊎ (length (split_inclusive doc) < range.end))
LinesReplaced doc range body (err inverted) = range.end < range.start

spliced_lines :
    (doc middle : Text) (before behind : ℕ)
    → before < length (split_inclusive doc)
    → split_inclusive (
        concat (take before (split_inclusive doc))
        ++ (middle ++ newline ∷ concat (drop behind (split_inclusive doc))))
      ≡ take before (split_inclusive doc)
        ++ (split_inclusive (middle ++ newline ∷ []) ++ drop behind (split_inclusive doc))
spliced_lines doc middle before behind lt =
    let segments = split_inclusive-Segments doc in
    let rest = drop behind (split_inclusive doc) in
    split_inclusive-Ended (take before (split_inclusive doc)) (middle ++ newline ∷ concat rest)
      (take-Ended before (split_inclusive doc) segments lt)
    ∙ ap (λ ls. take before (split_inclusive doc) ++ ls)
        (split_inclusive-newline middle (concat rest)
          ∙ ap (λ ls. split_inclusive (middle ++ newline ∷ []) ++ ls)
              (split_inclusive-concat rest (drop-Segments behind (split_inclusive doc) segments)))

lines_judged :
    (doc : Text) (range : LineRange) (body : Text) (zeros crossed late : Bool)
    → ((range.start == 0) || (range.end == 0)) ≡ zeros
    → ltb range.end range.start ≡ crossed
    → ltb (length (split_inclusive doc)) range.end ≡ late
    → LinesReplaced doc range body (
        if zeros
        then err out_of_range
        else if crossed
        then err inverted
        else if late
        then err out_of_range
        else ok (
            concat (take (range.start - 1) (split_inclusive doc))
            ++ (body_lines body ++ newline ∷ concat (drop range.end (split_inclusive doc)))))
lines_judged doc range body true crossed late z c l = ground (arith, z)
lines_judged doc range body false true late z c l = ground (arith, c)
lines_judged doc range body false false true z c l = ground (arith, l)
lines_judged doc range body false false false z c l = (
  ground (arith, z),
  ground (arith, c),
  ground (arith, l),
  spliced_lines doc (body_lines body) (range.start - 1) range.end (ground (arith, z, c, l)),
)

-- Replacing a range of lines returns the text with exactly those lines exchanged for the body's, its
-- other lines byte for byte as they were, and refuses exactly the ranges that start or end at zero,
-- are inverted, or end behind the last line.
pub replace_line_range-LinesReplaced :
    (doc : Text) (range : LineRange) (body : Text)
    → LinesReplaced doc range body (replace_line_range doc range body)
unfolding replace_line_range
replace_line_range-LinesReplaced doc range body = lines_judged doc range body _ _ _ refl refl refl
