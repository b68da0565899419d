-- ===== src/Ground/Pages.antt =====
-- The pages of a matched file, crates/hallouminate-domain/src/ground/bucket.rs: which page a chunk is of
-- (`page_label`), one entry for each page (`group_by_page`), and how much of a file matched
-- (`coverage_of`).
pub mod Slots
pub mod Raised
pub mod Grouped
use hallouminate.Assoc.{lookup, insert}
use hallouminate.Common.{
  ℕ, zero, suc, ◌+◌, Bool, true, false, Option, none, some, List, [], ◌∷◌, ◌++◌, length, ◌==◌,
  if◌then◌else◌,
}
use hallouminate.Ground.Types.{FileCoverage}
use hallouminate.Indexer.Format.{Format, pdf, format_from_extension}
use hallouminate.Search.Terms.{unseen}
use hallouminate.Search.Types.{SearchHit}
use hallouminate.Text.{Text, codes, strip_prefix, parse_u64}

abbrev pub page_breadcrumb_prefix : Text
page_breadcrumb_prefix = codes "page:"

-- The only heading of a path.
abbrev only_label : List Text → Option Text
only_label [] = none
only_label (label ∷ []) = some label
only_label (label ∷ next ∷ path) = none

abbrev may_have_pages : Option (Option Format) → Bool
may_have_pages none = true
may_have_pages (some (some pdf)) = true
may_have_pages (some other) = false

abbrev numbered : Text → Option ℕ → Option Text
numbered label none = none
numbered label (some n) = if n == 0 then none else some label

abbrev page_number : Text → Option Text
page_number label = elim (strip_prefix page_breadcrumb_prefix label) [
  | none ↦ none
  | some number ↦ numbered label (parse_u64 number)
]

-- A chunk, and how many it stands for.
abbrev pub PageEntry : Type 0 → Type 0
PageEntry F = SearchHit F × Option ℕ

abbrev pub stood_for : Option ℕ → Option ℕ
stood_for none = none
stood_for (some count) = some (count + 1)

abbrev pub page_count : List Text → Option ℕ
page_count [] = none
page_count (page ∷ pages) = some (length (page ∷ pages))

module _ {F : Type 0} where
  unfoldable pub page_label : SearchHit F → Option Text
  unfolding format_from_extension strip_prefix parse_u64
  page_label hit = elim (only_label hit.heading_path) [
    | none ↦ none
    | some label ↦
        if may_have_pages (format_from_extension hit.file_ref) then page_number label else none
  ]

  unfoldable pub bump_at : ℕ → List (PageEntry F) → List (PageEntry F)
  bump_at slot [] = []
  bump_at zero ((hit, count) ∷ entries) = (hit, stood_for count) ∷ entries
  bump_at (suc slot) (e ∷ entries) = e ∷ bump_at slot entries

  -- The loop over the hits, with the slot of the entry of each page.
  unfoldable pub group_from :
      List (SearchHit F) → List (PageEntry F) → List (Text × ℕ) → List (PageEntry F)
  unfolding page_label lookup insert bump_at
  group_from [] entries slots = entries
  group_from (hit ∷ hits) entries slots = elim (page_label hit) [
    | none ↦ group_from hits (entries ++ (hit, some 1) ∷ []) slots
    | some page ↦ elim (lookup page slots) [
      | some slot ↦ group_from hits (bump_at slot entries) slots
      | none ↦ group_from hits (entries ++ (hit, some 1) ∷ []) (insert page (length entries) slots)
    ]
  ]

  unfoldable pub group_by_page : List (SearchHit F) → List (PageEntry F)
  unfolding group_from
  group_by_page hits = group_from hits [] []

  unfoldable pub labels_of : List (SearchHit F) → List Text
  unfolding page_label
  labels_of [] = []
  labels_of (hit ∷ hits) = elim (page_label hit) [
    | none ↦ labels_of hits
    | some page ↦ page ∷ labels_of hits
  ]

  unfoldable pub coverage_of : List (SearchHit F) → FileCoverage
  unfolding labels_of unseen
  coverage_of hits = record {
    chunks = length hits;
    pages = page_count (unseen [] (labels_of hits));
  }
