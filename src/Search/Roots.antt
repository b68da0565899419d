-- ===== src/Search/Roots.antt =====
-- The fusion of the signals of several roots, crates/hallouminate-domain/src/search.rs: `fuse_roots`
-- and what a root's signals are made of.
pub mod Pooled
pub mod Signals
pub mod Known
pub mod Shown
use Prim.Native.Nat.{compare, Ordering}
use Prim.Native.Nat.Ordering.{eq}
use hallouminate.Assoc.{lookup, insert, remove}
use hallouminate.Common.{
  ℕ, zero, suc, ◌+◌, ◌*◌, max, Bool, true, false, ◌&&◌, ◌||◌, not, Option, none, some, List, [],
  ◌∷◌, ◌++◌, length, leb, ltb, if◌then◌else◌,
}
use hallouminate.Common.Order.{Cmp, then_with, compare_bool}
use hallouminate.Common.SortBy.{count_if, sort_by}
use hallouminate.Indexer.ContentKey.{ChunkStructure}
use hallouminate.Search.Fuse.{contains, fuse}
use hallouminate.Search.Resolve.{Pool}
use hallouminate.Search.Terms.{split_terms, cap_terms}
use hallouminate.Search.Structure.{structural_lists}
use hallouminate.Search.Types.{Floats, SearchHit, RankedList, SignalEntry}
use hallouminate.Text.{Text, equal, to_decimal}

-- What `fuse_roots` reads of a root's signals.
pub record RootSignals (F : Type 0) : Type 0 where
  pub corpus : Text
  pub fts : List (SignalEntry F)
  pub vector : List (SignalEntry F)
  pub rg : List (SignalEntry F)
  pub contains_list : List (SignalEntry F)
  pub hits : Pool F

pub record MergedEntry (F : Type 0) : Type 0 where
  pub key : Text
  pub strength : Option F
  pub priority : Bool
  pub rank : ℕ
  pub root : ℕ

-- `{root}/{chunk_id}`
abbrev pub key_of : ℕ → Text → Text
key_of root id = to_decimal root ++ b'/' ∷ id

module _ {F : Type 0} (num : Floats F) where
  abbrev pub rrf_k : F
  rrf_k = num.literal 600 1

  -- `entry` of a signal, best first: the raw score, then the priority corpus, the rank and the root.
  abbrev pub by_strength : Option F → Option F → Ordering
  by_strength (some left) (some right) = num.total_cmp right left
  by_strength left right = eq

  abbrev pub merged_order : Cmp (MergedEntry F)
  merged_order left right = then_with (by_strength left.strength right.strength) (
      then_with (compare_bool right.priority left.priority)
        (then_with (compare left.rank right.rank) (compare left.root right.root)))

  abbrev pub keys_of : List (MergedEntry F) → List Text
  keys_of [] = []
  keys_of (e ∷ es) = e.key ∷ keys_of es

  unfoldable pub merge_signal : List (MergedEntry F) → List Text
  unfolding sort_by
  merge_signal entries = keys_of (sort_by merged_order entries)

  unfoldable pub have_scores : List (SignalEntry F) → Bool
  have_scores [] = true
  have_scores (e ∷ es) = elim e.strength [ none ↦ false | some s ↦ have_scores es ]

  unfoldable pub report_raw_scores : List (RootSignals F) → Bool
  unfolding have_scores
  report_raw_scores [] = true
  report_raw_scores (r ∷ rs) = have_scores r.fts && have_scores r.vector && report_raw_scores rs

  abbrev pub is_priority : Option Text → Text → Bool
  is_priority none corpus = false
  is_priority (some p) corpus = equal p corpus

  -- One signal of one root, each entry with its rank there.
  unfoldable pub entries_from : ℕ → Bool → ℕ → List (SignalEntry F) → List (MergedEntry F)
  unfolding to_decimal
  entries_from root priority rank [] = []
  entries_from root priority rank (e ∷ es) =
      record {
        key = key_of root e.chunk_id;
        strength = e.strength;
        priority = priority;
        rank = rank;
        root = root;
      }
      ∷ entries_from root priority (suc rank) es

  -- One signal of all roots, from a root's number on.
  unfoldable pub merge_roots :
      (RootSignals F → List (SignalEntry F))
      → Option Text
      → ℕ
      → List (RootSignals F)
      → List (MergedEntry F)
  unfolding entries_from
  merge_roots signal priority root [] = []
  merge_roots signal priority root (r ∷ rs) =
      entries_from root (is_priority priority r.corpus) 0 (signal r)
      ++ merge_roots signal priority (suc root) rs

  unfoldable pub add_hits : ℕ → Pool F → Pool F → Pool F
  unfolding insert to_decimal
  add_hits root [] hits = hits
  add_hits root ((id, hit) ∷ pool) hits = add_hits root pool (insert (key_of root id) hit hits)

  unfoldable pub merge_hits : ℕ → List (RootSignals F) → Pool F → Pool F
  unfolding add_hits
  merge_hits root [] hits = hits
  merge_hits root (r ∷ rs) hits = merge_hits (suc root) rs (add_hits root r.hits hits)

  module _ (words : Text → List Text) where
    unfoldable pub rank_hits : List (Text × F) → Pool F → List (SearchHit F)
    unfolding lookup remove
    rank_hits [] hits = []
    rank_hits ((key, score) ∷ fused) hits = elim (lookup key hits) [
      | none ↦ rank_hits fused hits
      | some hit ↦ record hit { score = score } ∷ rank_hits fused (remove key hits)
    ]

    unfoldable pub signal_lists : List (RootSignals F) → Option Text → List (RankedList F)
    unfolding merge_signal merge_roots
    signal_lists roots priority =
        record {
          weight = num.literal 20 1;
          chunk_ids = merge_signal (merge_roots (λ r. r.fts) priority 0 roots);
        }
        ∷ record {
          weight = num.literal 10 1;
          chunk_ids = merge_signal (merge_roots (λ r. r.vector) priority 0 roots);
        }
        ∷ record {
          weight = num.literal 5 1;
          chunk_ids = merge_signal (merge_roots (λ r. r.rg) priority 0 roots);
        }
        ∷ record {
          weight = num.literal 5 1;
          chunk_ids = merge_signal (merge_roots (λ r. r.contains_list) priority 0 roots);
        }
        ∷ []

    unfoldable pub fuse_together :
        List (RootSignals F) → List Text → Option Text → List (SearchHit F)
    unfolding signal_lists merge_hits structural_lists rank_hits fuse
    fuse_together roots terms priority =
        let hits = merge_hits 0 roots [] in
        let lists = signal_lists roots priority in
        let baseline = fuse num lists rrf_k in
        rank_hits (fuse num (lists ++ structural_lists num words hits terms baseline) rrf_k) hits

    unfoldable pub fuse_alone : List (RootSignals F) → List Text → Option Text → List (SearchHit F)
    unfolding fuse_together
    fuse_alone [] terms priority = []
    fuse_alone (r ∷ rs) terms priority =
        fuse_together (r ∷ []) terms priority ++ fuse_alone rs terms priority

    unfoldable pub fuse_roots : List (RootSignals F) → Text → Option Text → List (SearchHit F)
    unfolding cap_terms split_terms report_raw_scores fuse_together fuse_alone
    fuse_roots roots query priority =
        let terms = cap_terms (split_terms words query) in
        if report_raw_scores roots
        then fuse_together roots terms priority
        else fuse_alone roots terms priority
