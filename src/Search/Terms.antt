-- ===== src/Search/Terms.antt =====
-- The terms of a query, crates/hallouminate-domain/src/search/terms.rs, and the keywords of a page,
-- crates/hallouminate-domain/src/corpus/keywords.rs. Unicode's word boundaries and lowercase mapping, the
-- list of stop words and the Markdown parser are arguments.
pub mod Distinct
pub mod Top
use Prim.Native.Nat.{compare}
use hallouminate.Assoc.{lookup, insert}
use hallouminate.Common.{
  ℕ, suc, ◌+◌, Bool, true, false, ◌&&◌, not, Option, none, some, List, [], ◌∷◌, ◌++◌, length, take,
  leb, if◌then◌else◌,
}
use hallouminate.Common.Order.{Cmp, then_with}
use hallouminate.Common.SortBy.{filter, sort_by}
use hallouminate.Search.Fuse.{contains}
use hallouminate.Text.{Text}

abbrev pub top_k : ℕ
top_k = 8

abbrev pub min_len : ℕ
min_len = 2

abbrev pub max_query_terms : ℕ
max_query_terms = 32

-- What the tokenizer tells apart of the parser's events.
pub data ProseEvent : Type 0 where
  start_code_block end_code_block other : ProseEvent
  shown code : Text → ProseEvent

module _ (unicode_words : Text → List Text) (to_lowercase : Text → Text)
    (stopwords : List Text) where
  abbrev pub is_word : Text → Bool
  is_word w = leb min_len (length w) && not (contains w stopwords)

  abbrev lowercase_all : List Text → List Text
  lowercase_all [] = []
  lowercase_all (w ∷ ws) = to_lowercase w ∷ lowercase_all ws

  unfoldable pub normalized_words : Text → List Text
  unfolding filter contains
  normalized_words text = filter is_word (lowercase_all (unicode_words text))

-- The words that were not seen before.
unfoldable pub unseen : List Text → List Text → List Text
unfolding contains
unseen seen [] = []
unseen seen (w ∷ ws) = if contains w seen then unseen seen ws else w ∷ unseen (w ∷ seen) ws

module _ (words : Text → List Text) where
  unfoldable pub split_terms : Text → List Text
  unfolding unseen
  split_terms query = unseen [] (words query)

  unfoldable pub tokens_of : Bool → List ProseEvent → List Text
  tokens_of in_code [] = []
  tokens_of in_code (start_code_block ∷ events) = tokens_of true events
  tokens_of in_code (end_code_block ∷ events) = tokens_of false events
  tokens_of in_code (shown t ∷ events) =
      let rest = tokens_of in_code events in if in_code then rest else words t ++ rest
  tokens_of in_code (code t ∷ events) = words t ++ tokens_of in_code events
  tokens_of in_code (other ∷ events) = tokens_of in_code events

unfoldable pub cap_terms : List Text → List Text
cap_terms terms = take max_query_terms terms

-- A token's count so far, and its first position.
abbrev pub Tally : Type 0
Tally = ℕ × ℕ

abbrev pub seen_again : ℕ → Option Tally → Tally
seen_again i none = (1, i)
seen_again i (some (count, first)) = (count + 1, first)

unfoldable pub tally : ℕ → List Text → List (Text × Tally) → List (Text × Tally)
unfolding lookup insert
tally i [] counts = counts
tally i (t ∷ ts) counts = tally (suc i) ts (insert t (seen_again i (lookup t counts)) counts)

abbrev pub keyword_order : Cmp (Text × Tally)
keyword_order a b = then_with (compare b.1.0 a.1.0) (compare a.1.1 b.1.1)

abbrev pub names_of : List (Text × Tally) → List Text
names_of [] = []
names_of ((t, n) ∷ rest) = t ∷ names_of rest

unfoldable pub rank_top : List Text → List Text
unfolding tally sort_by
rank_top tokens = names_of (take top_k (sort_by keyword_order (tally 0 tokens [])))

unfoldable pub extract_keywords : (Text → List Text) → (Text → List ProseEvent) → Text → List Text
unfolding rank_top tokens_of
extract_keywords words parse text = rank_top (tokens_of words false (parse text))
