-- ===== src/Corpus/Section.antt =====
-- crates/hallouminate-domain/src/corpus/section.rs: the edits of a part of a page.
--
-- The Markdown parser is an argument: `headings_of` lists the headings of a text in order, each with
-- its level, the offsets of its start and of the end of its line, and its rendered text. Offsets
-- count code points.
pub mod Lines
pub mod Matches
pub mod Splices
use hallouminate.Common.{
  ℕ, zero, suc, ◌+◌, ◌-◌, Bool, true, false, ◌||◌, Option, none, some, List, [], ◌∷◌, ◌++◌, length,
  take, drop, leb, ltb, ◌==◌, if◌then◌else◌,
}
use hallouminate.Text.{Text, newline, trim, equal, split_inclusive, break_on}
use hallouminate.Text.Segments.{concat}
use mathlib.Core.List.{reverse}

pub data Position : Type 0 where
  append prepend : Position

pub record LineRange : Type 0 where
  pub start : ℕ
  pub end : ℕ

pub data SectionError : Type 0 where
  not_found duplicate : SectionError

pub data RangeError : Type 0 where
  out_of_range inverted : RangeError

pub data MatchError : Type 0 where
  no_match : MatchError
  ambiguous : ℕ → MatchError

pub data Result (E : Type 0) : Type 0 where
  ok : Text → Result E
  err : E → Result E

-- `trim_start_matches('\n')`, and `trim_end_matches` and `trim_matches` by reversal.
unfoldable pub trim_newlines : Text → Text
trim_newlines [] = []
trim_newlines (c ∷ s) = if c == newline then trim_newlines s else c ∷ s

unfoldable pub trim_end_newlines : Text → Text
unfolding trim_newlines
trim_end_newlines s = reverse (trim_newlines (reverse s))

unfoldable pub normalize_block : Text → Text
unfolding trim_end_newlines
normalize_block fragment = newline ∷ (trim_end_newlines fragment ++ newline ∷ newline ∷ [])

pub record Heading : Type 0 where
  pub level : ℕ
  pub start : ℕ
  pub line_end : ℕ
  pub title : Text

-- The headings that match, each with those behind it.
unfoldable pub matching : Text → List Heading → List (Heading × List Heading)
unfolding equal trim
matching heading [] = []
matching heading (h ∷ hs) =
    let rest = matching heading hs in
    if equal (trim h.title) (trim heading) then (h, hs) ∷ rest else rest

-- The start of the first heading at the same or a higher level, or the end of the text.
unfoldable pub section_end : ℕ → (len : ℕ) → List Heading → ℕ
section_end level len [] = len
section_end level len (h ∷ hs) =
    let rest = section_end level len hs in if leb h.level level then h.start else rest

abbrev pub insert_at : Position → (len : ℕ) → Heading → List Heading → ℕ
insert_at prepend len h hs = h.line_end
insert_at append len h hs = section_end h.level len hs

module _ (headings_of : Text → List Heading) where
  unfoldable pub splice_under_heading : Text → Text → Position → Text → Result SectionError
  unfolding matching section_end normalize_block
  splice_under_heading doc heading position fragment = elim (matching heading (headings_of doc)) [
    | [] ↦ err not_found
    | (h, hs) ∷ [] ↦
        let at = insert_at position (length doc) h hs in
        ok (take at doc ++ (normalize_block fragment ++ drop at doc))
    | _ ∷ _ ∷ _ ↦ err duplicate
  ]

unfoldable pub replace_line_range : Text → LineRange → Text → Result RangeError
unfolding split_inclusive trim_newlines trim_end_newlines
replace_line_range doc range body =
    let all_lines = split_inclusive doc in
    let prefix = concat (take (range.start - 1) all_lines) in
    let suffix = concat (drop range.end all_lines) in
    if range.start == 0 || range.end == 0
    then err out_of_range
    else if ltb range.end range.start
    then err inverted
    else if ltb (length all_lines) range.end
    then err out_of_range
    else ok (prefix ++ (trim_end_newlines (trim_newlines body) ++ newline ∷ suffix))

-- `matches(needle).count()` for a needle that is not empty: occurrences that do not overlap. Each is
-- at least one character long, so that the text's length is fuel enough.
unfoldable pub count_matches : ℕ → (needle doc : Text) → ℕ
unfolding break_on
count_matches zero needle doc = 0
count_matches (suc fuel) needle doc = elim (break_on needle doc) [
  | none ↦ 0
  | some (before, after) ↦ suc (count_matches fuel needle after)
]

-- `replacen(needle, body, 1)`
unfoldable pub replace_first : (needle body doc : Text) → Text
unfolding break_on
replace_first needle body doc = elim (break_on needle doc) [
  | none ↦ doc
  | some (before, after) ↦ before ++ (body ++ after)
]

unfoldable pub replace_unique_match : (doc needle body : Text) → Result MatchError
unfolding count_matches replace_first
replace_unique_match doc [] body = err no_match
replace_unique_match doc (c ∷ needle) body =
    let doc_with = replace_first (c ∷ needle) body doc in
    elim (count_matches (length doc) (c ∷ needle) doc) [
      | zero ↦ err no_match
      | suc zero ↦ ok doc_with
      | suc (suc n) ↦ err (ambiguous (suc (suc n)))
    ]
