-- ===== src/Search/Phrase.antt =====
-- Exact-phrase retrieval of crates/hallouminate-domain/src/search/phrase.rs. Unicode's lowercase mapping,
-- the Markdown parser and the store's scan are arguments, and warnings go without their wording.
pub mod Whitespace
pub mod Found
use Prim.Native.Nat.{compare}
use hallouminate.Common.{
  ℕ, zero, suc, ◌-◌, Bool, true, false, ◌&&◌, not, Option, none, some, List, [], ◌∷◌, length, take,
  leb, ltb, if◌then◌else◌,
}
use hallouminate.Common.Order.{Cmp, then_with}
use hallouminate.Common.SortBy.{sort_by}
use hallouminate.Corpus.Footnotes.{Events, exclude, apply_footnote_mode}
use hallouminate.Corpus.Section.{count_matches}
use hallouminate.Search.Resolve.{TieBreak, compare_key, hit_tie_break_key, has}
use hallouminate.Search.Types.{Floats, SearchHit}
use hallouminate.Text.{Text, codes, trim, is_whitespace, len_utf8}

abbrev pub max_phrase_chars : ℕ
max_phrase_chars = 512

abbrev pub max_phrase_scan_rows : ℕ
max_phrase_scan_rows = 10000

pub data PhraseError : Type 0 where
  blank : PhraseError
  too_long : ℕ → PhraseError

-- The error, or `none` where the phrase can be used.
unfoldable pub validate_phrase : Text → Option PhraseError
unfolding trim
validate_phrase phrase = elim (trim phrase) [
  | [] ↦ some blank
  | c ∷ rest ↦
      if ltb max_phrase_chars (length phrase) then some (too_long (length phrase)) else none
]

unfoldable pub collapse_from : Bool → Text → Text
unfolding is_whitespace
collapse_from in_run [] = []
collapse_from in_run (c ∷ s) =
    let spaced = collapse_from true s in
    let rest = c ∷ collapse_from false s in
    if is_whitespace c then (if in_run then spaced else b' ' ∷ spaced) else rest

unfoldable pub collapse_whitespace : Text → Text
unfolding collapse_from
collapse_whitespace text = collapse_from false text

-- `str::get(..n)`: the first `n` bytes, where they end between two characters.
abbrev pub after_head : ℕ → Option Text → Option Text
after_head c none = none
after_head c (some s) = some (c ∷ s)

unfoldable pub take_bytes : ℕ → Text → Option Text
take_bytes zero s = some []
take_bytes (suc n) [] = none
take_bytes (suc n) (c ∷ s) =
    let rest = after_head c (take_bytes (suc n - len_utf8 c) s) in
    if leb (len_utf8 c) (suc n) then rest else none

pub data Truncation : Type 0 where
  scan_capped beyond_limit : Truncation

unfoldable pub truncation_warning : (scanned matched limit : ℕ) → Option Truncation
truncation_warning scanned matched limit =
    if leb max_phrase_scan_rows scanned
    then some scan_capped
    else if ltb limit matched
    then some beyond_limit
    else none

pub record FusedSearch (F : Type 0) : Type 0 where
  pub hits : List (SearchHit F)
  pub warning : Option Truncation

pub data PhraseResult (F : Type 0) : Type 0 where
  found : FusedSearch F → PhraseResult F
  rejected : PhraseError → PhraseResult F
  store_failed : PhraseResult F

abbrev pub Decorated : Type 0 → Type 0
Decorated F = ℕ × TieBreak × SearchHit F

abbrev pub decorated_order : {F : Type 0} → Cmp (Decorated F)
decorated_order a b = then_with (compare b.0 a.0) (compare_key a.1 b.1)

abbrev pub hits_of : {F : Type 0} → List (Decorated F) → List (SearchHit F)
hits_of [] = []
hits_of ((count, key, hit) ∷ rest) = hit ∷ hits_of rest

module _ (to_lowercase : Text → Text) (parse : Text → Events) where
  unfoldable pub occurrence_count : Text → Text → ℕ
  unfolding collapse_whitespace count_matches
  occurrence_count text needle =
      let body = collapse_whitespace (to_lowercase text) in count_matches (length body) needle body

  unfoldable pub body_occurrence_count : Text → Text → ℕ
  unfolding occurrence_count apply_footnote_mode
  body_occurrence_count text needle =
      if not (has text (codes "[^"))
      then occurrence_count text needle
      else occurrence_count (apply_footnote_mode parse text exclude) needle

  module _ {F : Type 0} (num : Floats F) where
    unfoldable pub overlap_occurrence_count : SearchHit F → Text → ℕ
    unfolding take_bytes body_occurrence_count
    overlap_occurrence_count hit needle = elim (take_bytes hit.overlap_bytes hit.text) [
      | none ↦ 0
      | some prefix ↦ body_occurrence_count prefix needle
    ]

    -- The occurrences that are the chunk's own.
    unfoldable pub own_count : Text → SearchHit F → ℕ
    unfolding body_occurrence_count overlap_occurrence_count
    own_count needle hit =
        body_occurrence_count hit.text needle - overlap_occurrence_count hit needle

    abbrev pub scored : Text → SearchHit F → SearchHit F
    scored needle hit = record hit { score = num.of_nat (own_count needle hit) }

    unfoldable pub decorated : Text → Text → List (SearchHit F) → List (Decorated F)
    unfolding own_count hit_tie_break_key
    decorated needle root [] = []
    decorated needle root (hit ∷ hits) =
        let rest = decorated needle root hits in
        if leb 1 (own_count needle hit)
        then (
          own_count needle hit,
          hit_tie_break_key num (scored needle hit) root,
          scored needle hit,
        )
          ∷ rest
        else rest

    -- `retrieve needle rows` is the store's scan, `none` where it fails.
    unfoldable pub search_phrase :
        (Text → ℕ → Option (List (SearchHit F))) → Text → Text → ℕ → PhraseResult F
    unfolding validate_phrase collapse_whitespace decorated sort_by truncation_warning
    search_phrase retrieve root phrase limit =
        let needle = collapse_whitespace (to_lowercase phrase) in
        elim (validate_phrase phrase) [
          | some error ↦ rejected error
          | none ↦ elim (retrieve needle max_phrase_scan_rows) [
            | none ↦ store_failed
            | some hits ↦
                let matched = decorated needle root hits in
                found (record {
                  hits = hits_of (take limit (sort_by decorated_order matched));
                  warning = truncation_warning (length hits) (length matched) limit;
                })
          ]
        ]
