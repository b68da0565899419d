-- ===== src/Corpus/ClaimMarks.antt =====
-- crates/hallouminate-domain/src/corpus/claim_marks.rs: claim marks in HTML comments, read off a
-- page and stripped from its retrieval text. The JSON column is left out.
pub mod Passes
pub mod Scan
pub mod Kept
pub mod Strip
use hallouminate.Common.{
  ℕ, zero, suc, ◌+◌, Bool, true, false, ◌&&◌, Option, none, some, List, [], ◌∷◌, ◌++◌, length, ◌==◌,
  if◌then◌else◌, ◌≡◌, refl,
}
use hallouminate.Text.{
  Text, codes, is_whitespace, trim, equal, strip_prefix, strip_last, newline, split_inclusive,
  lines, byte_len, break_on, break_at, to_ascii_lowercase,
}

pub data ClaimStatus : Type 0 where
  confirmed qualified superseded contradicted : ClaimStatus

unfoldable pub from_str_ci : Text → Option ClaimStatus
unfolding to_ascii_lowercase equal trim
from_str_ci s =
    let word = to_ascii_lowercase (trim s) in
    if equal word (codes "confirmed")
    then some confirmed
    else if equal word (codes "qualified")
    then some qualified
    else if equal word (codes "superseded")
    then some superseded
    else if equal word (codes "contradicted")
    then some contradicted
    else none

abbrev pub expects_reference : ClaimStatus → Bool
expects_reference superseded = true
expects_reference contradicted = true
expects_reference _ = false

pub record ClaimMark : Type 0 where
  pub status : ClaimStatus
  pub line : ℕ
  pub reference : Option Text
  pub note : Option Text

pub record Attributes : Type 0 where
  pub reference : Option Text
  pub note : Option Text

pub data Comment : Type 0 where
  not_claim malformed : Comment
  mark : ClaimStatus → Option Text → Option Text → Comment

abbrev note_start : Text
note_start = codes "note=\""

abbrev ref_start : Text
ref_start = codes "ref="

abbrev quote : Text
quote = codes "\""

-- A bare `ref=` value; an empty one is ignored.
abbrev with_reference : Attributes → Text → Attributes
with_reference a [] = a
with_reference a (c ∷ s) = record a { reference = some (c ∷ s) }

-- The loop over the attribute span, with a round of fuel for each.
unfoldable pub scan_attributes : ℕ → Text → Attributes → Attributes
unfolding is_whitespace strip_prefix break_on break_at
scan_attributes zero span a = a
scan_attributes (suc fuel) [] a = a
scan_attributes (suc fuel) (c ∷ s) a =
    let skipped = scan_attributes fuel s a in
    let unknown = scan_attributes fuel (break_at is_whitespace (c ∷ s)).1 a in
    if is_whitespace c then skipped else elim (strip_prefix note_start (c ∷ s)) [
      | some after ↦ elim (break_on quote after) [
        | some (value, rest) ↦ scan_attributes fuel rest (record a { note = some value })
        | none ↦ record a { note = some after }
      ]
      | none ↦ elim (strip_prefix ref_start (c ∷ s)) [
        | some after ↦
            scan_attributes fuel (break_at is_whitespace after).1
              (with_reference a (break_at is_whitespace after).0)
        | none ↦ unknown
      ]
    ]

unfoldable pub parse_attributes : Text → Attributes
unfolding scan_attributes
parse_attributes span =
    scan_attributes (suc (length span)) span (record { reference = none; note = none })

mark_of : Attributes → Option ClaimStatus → Comment
mark_of a none = malformed
mark_of a (some status) = mark status a.reference a.note

unfoldable pub classify : Text → Comment
unfolding trim strip_prefix from_str_ci parse_attributes mark_of
classify inner = elim (strip_prefix (codes "claim:") (trim inner)) [
  | none ↦ not_claim
  | some rest ↦
      let (status_tok, attr_span) = break_at is_whitespace rest in
      mark_of (parse_attributes attr_span) (from_str_ci status_tok)
]

abbrev pub open_mark : Text
open_mark = codes "<!--"

abbrev pub close_mark : Text
close_mark = codes "-->"

-- The first comment of a line: the text before it, its inner text, and the text behind it.
pub record Found : Type 0 where
  pub before : Text
  pub inner : Text
  pub after : Text

unfoldable pub first_comment : Text → Option Found
unfolding break_on
first_comment line = elim (break_on open_mark line) [
  | none ↦ none
  | some (before, rest) ↦ elim (break_on close_mark rest) [
    | none ↦ none
    | some (inner, after) ↦ some (record { before = before; inner = inner; after = after })
  ]
]

-- `scan_comments` on one line.
unfoldable pub comments : ℕ → Text → List Text
unfolding first_comment
comments zero line = []
comments (suc fuel) line = elim (first_comment line) [
  | none ↦ []
  | some f ↦ f.inner ∷ comments fuel f.after
]

-- What one comment leaves in the line.
abbrev pub keep : Found → Comment → Text
keep f not_claim = f.before ++ (open_mark ++ (f.inner ++ close_mark))
keep f malformed = f.before
keep f (mark s r n) = f.before

unfoldable pub strip_once : ℕ → Text → Text
unfolding first_comment classify
strip_once zero line = line
strip_once (suc fuel) line = elim (first_comment line) [
  | none ↦ line
  | some f ↦ keep f (classify f.inner) ++ strip_once fuel f.after
]

-- Each comment takes up at least seven characters, so that a line's length is fuel enough.
unfoldable pub strip_claim_comments_once : Text → Text
unfolding strip_once
strip_claim_comments_once line = strip_once (length line) line

-- The passes until one changes nothing, each of the others shortening the line.
unfoldable pub strip_passes : ℕ → Text → Text
unfolding strip_claim_comments_once byte_len
strip_passes zero line = line
strip_passes (suc fuel) line =
    let next = strip_claim_comments_once line in
    let more = strip_passes fuel next in if byte_len next == byte_len line then next else more

unfoldable pub strip_claim_comments_in_line : Text → Text
unfolding strip_passes
strip_claim_comments_in_line line =
    let first = strip_claim_comments_once line in strip_passes (suc (length first)) first

abbrev pub strip_segment : Text → Text
strip_segment s = elim (strip_last newline s) [
  | none ↦ strip_claim_comments_in_line s
  | some body ↦ strip_claim_comments_in_line body ++ newline ∷ []
]

abbrev pub strip_segments : List Text → Text
strip_segments [] = []
strip_segments (s ∷ ss) = strip_segment s ++ strip_segments ss

unfoldable pub strip_claim_marks : Text → Text
unfolding split_inclusive strip_last strip_claim_comments_in_line
strip_claim_marks text = strip_segments (split_inclusive text)

-- `scan_comments` over the lines, with their 1-based numbers.
abbrev pub number : ℕ → List Text → List (ℕ × Text)
number n [] = []
number n (t ∷ ts) = (n, t) ∷ number n ts

abbrev pub scan_lines : ℕ → List Text → List (ℕ × Text)
scan_lines n [] = []
scan_lines n (l ∷ ls) = number n (comments (length l) l) ++ scan_lines (n + 1) ls

unfoldable pub scan_comments : Text → List (ℕ × Text)
unfolding lines comments
scan_comments content = scan_lines 1 (lines content)

abbrev pub mark_at : ℕ → Comment → List ClaimMark
mark_at n (mark s r m) = record { status = s; line = n; reference = r; note = m } ∷ []
mark_at n _ = []

abbrev pub marks_of : List (ℕ × Text) → List ClaimMark
marks_of [] = []
marks_of ((n, inner) ∷ rest) = mark_at n (classify inner) ++ marks_of rest

unfoldable pub extract_claim_marks : Text → List ClaimMark
unfolding scan_comments classify
extract_claim_marks content = marks_of (scan_comments content)

-- A warning of the linter, its wording left out.
pub data Warning : Type 0 where
  unrecognized_status : ℕ → Warning
  missing_reference : ℕ → ClaimStatus → Warning

abbrev pub warning_at : ℕ → Comment → List Warning
warning_at n not_claim = []
warning_at n malformed = unrecognized_status n ∷ []
warning_at n (mark s none remark) = if expects_reference s then missing_reference n s ∷ [] else []
warning_at n (mark s (some r) remark) = []

abbrev pub warnings_of : List (ℕ × Text) → List Warning
warnings_of [] = []
warnings_of ((n, inner) ∷ rest) = warning_at n (classify inner) ++ warnings_of rest

unfoldable pub lint_claim_marks : Text → List Warning
unfolding scan_comments classify
lint_claim_marks content = warnings_of (scan_comments content)
