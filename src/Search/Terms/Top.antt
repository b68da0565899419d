-- ===== src/Search/Terms/Top.antt =====
-- Which tokens crates/hallouminate-domain/src/corpus/keywords.rs picks for keywords.
use hallouminate.Assoc.{lookup, insert, IsMap, lookup-insert, lookup-equal, insert-IsMap}
use hallouminate.Assoc.Sorted.{lookup-sort_by, sort_by-IsMap}
use hallouminate.Common.{
  ℕ, suc, ◌+◌, ◌≡◌, refl, ◌∙◌, ap, Bool-cases, inl, inr, Option, none, some, List, [], ◌∷◌, arith,
  take,
}
use hallouminate.Common.Order.{Lawful, compare-Lawful, then_with-Lawful, reversed-Lawful, on-Lawful}
use hallouminate.Common.SortBy.{count_if, sort_by, IsSortedBy, sort_by-IsSortedBy}
use hallouminate.Search.Terms.{top_k, Tally, seen_again, tally, keyword_order, names_of, rank_top}
use hallouminate.Search.Fuse.Scores.{first_rank}
use hallouminate.Text.{Text, equal}

-- How often a token occurs.
abbrev pub occurrences : Text → List Text → ℕ
occurrences w tokens = count_if (λ t. equal t w) tokens

-- A token with an entry, that occurs again after it, or one that occurs for the first time.
abbrev pub tallied : Option Tally → Option ℕ → ℕ → Option Tally
tallied (some (count, first)) next n = some (count + n, first)
tallied none none n = none
tallied none (some first) n = some (n, first)

tallied-again :
    (o : Option Tally) (i : ℕ) (next : Option ℕ) (n : ℕ)
    → tallied (some (seen_again i o)) next n ≡ tallied o (some i) (suc n)
tallied-again none i next n = ap (λ m. some (m, i)) (omega arith)
tallied-again (some (count, first)) i next n = ap (λ m. some (m, first)) (omega arith)

lookup-tally :
    (w : Text) (i : ℕ) (ts : List Text) (counts : List (Text × Tally))
    → lookup w (tally i ts counts)
      ≡ tallied (lookup w counts) (first_rank w i ts) (occurrences w ts)
unfolding tally count_if first_rank
lookup-tally w i [] counts = at_once (lookup w counts)
  where
    at_once : (o : Option Tally) → o ≡ tallied o none 0
    at_once none = refl
    at_once (some (count, first)) = ap (λ m. some (m, first)) (omega arith)
lookup-tally w i (t ∷ ts) counts =
    lookup-tally w (suc i) ts (insert t (seen_again i (lookup t counts)) counts)
    ∙ elim (Bool-cases (equal t w)) [
      | inl same ↦
          rw
            (
              lookup-insert t w (seen_again i (lookup t counts)) counts,
              same,
              lookup-equal t w counts same,
            )
            (tallied-again (lookup w counts) i (first_rank w (suc i) ts) (occurrences w ts))
      | inr other ↦ rw (lookup-insert t w (seen_again i (lookup t counts)) counts, other) refl
    ]

tally-IsMap :
    (i : ℕ) (ts : List Text) (counts : List (Text × Tally))
    → IsMap counts
    → IsMap (tally i ts counts)
unfolding tally
tally-IsMap i [] counts once = once
tally-IsMap i (t ∷ ts) counts once =
    tally-IsMap (suc i) ts (insert t (seen_again i (lookup t counts)) counts)
      (insert-IsMap t (seen_again i (lookup t counts)) counts once)

keyword_order-Lawful : Lawful keyword_order
keyword_order-Lawful =
    then_with-Lawful (on-Lawful (λ (e : Text × Tally). e.1.0) (reversed-Lawful compare-Lawful))
      (on-Lawful (λ (e : Text × Tally). e.1.1) compare-Lawful)

-- The distinct tokens, each with the number of its occurrences and its first position, by the number,
-- the greatest first, then by the position: the keywords are the first of them.
pub record Top (tokens out : List Text) : Type 0 where
  pub entries : List (Text × Tally)
  pub once : IsMap entries
  pub told :
      (w : Text) → lookup w entries ≡ tallied none (first_rank w 0 tokens) (occurrences w tokens)
  pub sorted : IsSortedBy keyword_order entries
  pub shown : out ≡ names_of (take top_k entries)

-- The keywords of a page are its eight most frequent tokens, or all where there are fewer, the most
-- frequent first, and of equally frequent ones the one that occurs first.
pub rank_top-Top : (tokens : List Text) → Top tokens (rank_top tokens)
unfolding rank_top lookup
rank_top-Top tokens =
    let m = tally 0 tokens [] in
    let once = tally-IsMap 0 tokens [] tt in
    record {
      entries = sort_by keyword_order m;
      once = sort_by-IsMap keyword_order m once;
      told = λ w. lookup-sort_by keyword_order w m once ∙ lookup-tally w 0 tokens [];
      sorted = sort_by-IsSortedBy keyword_order keyword_order-Lawful m;
      shown = refl;
    }
