-- ===== src/Corpus/Footnotes.antt =====
-- crates/hallouminate-domain/src/footnotes.rs: footnotes read off a page, removed from it, or kept
-- alone.
--
-- The Markdown parser is an argument: the list of its events that the code matches on, each with
-- the range of the text it stands for. Offsets count code points. `start_link` and `end_link` stand for
-- links and images, `shown_text` for text and code, `soft_break` for both kinds of line break.
pub mod Deletions
pub mod Exclude
use hallouminate.Common.{
  ℕ, ◌-◌, max, Bool, true, false, Option, none, some, List, [], ◌∷◌, ◌++◌, length, take, drop, leb,
  ltb, if◌then◌else◌,
}
use hallouminate.Text.{Text, codes, trim, break_on}

pub data FootnoteMode : Type 0 where
  include exclude only : FootnoteMode

pub data Event : Type 0 where
  start_definition : (label : Text) → Event
  end_definition footnote_reference : Event
  start_link : (dest_url : Text) → Event
  end_link soft_break : Event
  shown_text : Text → Event
  other : Event

pub record Range : Type 0 where
  pub start : ℕ
  pub end : ℕ

abbrev pub Events : Type 0
Events = List (Event × Range)

abbrev pub slice : (start end : ℕ) → Text → Text
slice start end s = take (end - start) (drop start s)

-- The open definition, with its text so far and the open links: their targets and where they began.
pub record Open : Type 0 where
  pub label : Text
  pub text : Text
  pub dests : List (Text × ℕ)

-- An autolink shows its own target, which is not written again.
unfoldable pub close_link : Text → Text → ℕ → Text
unfolding break_on
close_link text dest mark = elim (break_on dest (drop mark text)) [
  | some found ↦ text
  | none ↦ text ++ (codes " (" ++ (dest ++ codes ")"))
]

unfoldable pub in_definition : Event → Open → Open
unfolding close_link
in_definition (start_definition label) o = record { label = label; text = []; dests = [] }
in_definition (start_link dest) o = record o { dests = (dest, length o.text) ∷ o.dests }
in_definition end_link o = elim o.dests [
  | [] ↦ o
  | (dest, mark) ∷ dests ↦ record o { text = close_link o.text dest mark; dests = dests }
]
in_definition (shown_text t) o = record o { text = o.text ++ t }
in_definition soft_break o = record o { text = o.text ++ codes " " }
in_definition e o = o

unfoldable pub open_definition : Event → Option Open
open_definition (start_definition label) = some (record { label = label; text = []; dests = [] })
open_definition e = none

-- The loop over the events, with the definition that is open.
unfoldable pub read_footnotes : Option Open → Events → List (Text × Text)
unfolding in_definition open_definition trim
read_footnotes o [] = []
read_footnotes none ((e, range) ∷ events) = read_footnotes (open_definition e) events
read_footnotes (some o) ((end_definition, range) ∷ events) =
    (o.label, trim o.text) ∷ read_footnotes none events
read_footnotes (some o) ((e, range) ∷ events) = read_footnotes (some (in_definition e o)) events

-- The ranges of the definitions: the loop of `only_footnotes`, and that of `exclude_footnotes` where
-- `refs` asks for the references too.
unfoldable pub ranges_of : (refs : Bool) → Option ℕ → Events → List Range
ranges_of refs def_start [] = []
ranges_of refs def_start ((footnote_reference, range) ∷ events) =
    let rest = ranges_of refs def_start events in if refs then range ∷ rest else rest
ranges_of refs def_start ((start_definition label, range) ∷ events) =
    ranges_of refs (some range.start) events
ranges_of refs none ((end_definition, range) ∷ events) = ranges_of refs none events
ranges_of refs (some start) ((end_definition, range) ∷ events) =
    record { start = start; end = range.end } ∷ ranges_of refs none events
ranges_of refs def_start ((e, range) ∷ events) = ranges_of refs def_start events

unfoldable pub insert_range : Range → List Range → List Range
insert_range r [] = r ∷ []
insert_range r (q ∷ qs) = if leb r.start q.start then r ∷ q ∷ qs else q ∷ insert_range r qs

-- `sort_by_key`, which is stable
unfoldable pub sort_ranges : List Range → List Range
unfolding insert_range
sort_ranges [] = []
sort_ranges (r ∷ rs) = insert_range r (sort_ranges rs)

-- The loop over the ranges, from the first position not yet copied or skipped.
unfoldable pub delete_from : Text → ℕ → List Range → Text
delete_from content pos [] = if ltb pos (length content) then drop pos content else []
delete_from content pos (r ∷ ranges) =
    let rest = delete_from content (max pos r.end) ranges in
    if ltb pos r.start then slice pos r.start content ++ rest else rest

unfoldable pub apply_deletions : Text → List Range → Text
unfolding delete_from
apply_deletions content ranges = delete_from content 0 ranges

abbrev pub slices : Text → List Range → Text
slices content [] = []
slices content (r ∷ ranges) = slice r.start r.end content ++ slices content ranges

module _ (parse : Text → Events) where
  unfoldable pub extract_footnotes : Text → List (Text × Text)
  unfolding read_footnotes
  extract_footnotes content = read_footnotes none (parse content)

  unfoldable pub exclude_footnotes : Text → Text
  unfolding ranges_of sort_ranges apply_deletions
  exclude_footnotes content = elim (ranges_of true none (parse content)) [
    | [] ↦ content
    | r ∷ ranges ↦ apply_deletions content (sort_ranges (r ∷ ranges))
  ]

  unfoldable pub only_footnotes : Text → Text
  unfolding ranges_of
  only_footnotes content = slices content (ranges_of false none (parse content))

  unfoldable pub apply_footnote_mode : Text → FootnoteMode → Text
  unfolding exclude_footnotes only_footnotes
  apply_footnote_mode content include = content
  apply_footnote_mode content exclude = exclude_footnotes content
  apply_footnote_mode content only = only_footnotes content
