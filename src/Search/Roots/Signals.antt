-- ===== src/Search/Roots/Signals.antt =====
-- The lists of the signals in `fuse_together` of crates/hallouminate-domain/src/search.rs: what the roots'
-- own signals list, no more and no less.
use hallouminate.Common.{ℕ, suc, ◌+◌, ◌≡◌, refl, ◌∙◌, Bool, Option, List, [], ◌∷◌, arith, map}
use hallouminate.Common.SortBy.{count_if, count_if-append, count_if-sort_by}
use hallouminate.Search.Roots.{
  RootSignals, MergedEntry, key_of, keys_of, merged_order, merge_signal, is_priority, entries_from,
  merge_roots, signal_lists,
}
use hallouminate.Search.Types.{Floats, SignalEntry, RankedList}
use hallouminate.Text.{Text, equal}

abbrev pub is_key : Text → Text → Bool
is_key key k = equal k key

module _ {F : Type 0} where
  -- How often the roots list a key in a signal, from a number on.
  unfoldable pub times :
      (RootSignals F → List (SignalEntry F)) → Text → ℕ → List (RootSignals F) → ℕ
  unfolding count_if
  times signal key root [] = 0
  times signal key root (r ∷ roots) =
      count_if (λ (e : SignalEntry F). is_key key (key_of root e.chunk_id)) (signal r)
      + times signal key (suc root) roots

  -- The weight of a list, and how often it has a key.
  abbrev pub row : Text → RankedList F → F × ℕ
  row key list = (list.weight, count_if (is_key key) list.chunk_ids)

  module _ (num : Floats F) (key : Text) where
    abbrev has_key : MergedEntry F → Bool
    has_key e = is_key key e.key

    count-keys_of :
        (es : List (MergedEntry F)) → count_if (is_key key) (keys_of num es) ≡ count_if has_key es
    unfolding count_if
    count-keys_of [] = refl
    count-keys_of (e ∷ es) = ground (arith, count-keys_of es)

    count-entries_from :
        (root : ℕ) (first : Bool) (rank : ℕ) (es : List (SignalEntry F))
        → count_if has_key (entries_from num root first rank es)
          ≡ count_if (λ (e : SignalEntry F). is_key key (key_of root e.chunk_id)) es
    unfolding count_if entries_from
    count-entries_from root first rank [] = refl
    count-entries_from root first rank (e ∷ es) =
        ground (arith, count-entries_from root first (suc rank) es)

    module _ (signal : RootSignals F → List (SignalEntry F)) (priority : Option Text) where
      count-merge_roots :
          (root : ℕ) (roots : List (RootSignals F))
          → count_if has_key (merge_roots num signal priority root roots)
            ≡ times signal key root roots
      unfolding merge_roots times count_if
      count-merge_roots root [] = refl
      count-merge_roots root (r ∷ roots) = omega (
        arith,
        count_if-append has_key
            (entries_from num root (is_priority num priority r.corpus) 0 (signal r))
            (merge_roots num signal priority (suc root) roots),
        count-entries_from root (is_priority num priority r.corpus) 0 (signal r),
        count-merge_roots (suc root) roots,
      )

      count-merge_signal :
          (roots : List (RootSignals F))
          → count_if (is_key key) (merge_signal num (merge_roots num signal priority 0 roots))
            ≡ times signal key 0 roots
      unfolding merge_signal
      count-merge_signal roots =
          let entries = merge_roots num signal priority 0 roots in
          count-keys_of _
          ∙ count_if-sort_by (merged_order num) has_key entries
          ∙ count-merge_roots 0 roots

    pub row-signal_lists :
        (words : Text → List Text) (priority : Option Text) (roots : List (RootSignals F))
        → map (row key) (signal_lists num words roots priority)
          ≡ (num.literal 20 1, times (λ r. r.fts) key 0 roots)
            ∷ (num.literal 10 1, times (λ r. r.vector) key 0 roots)
            ∷ (num.literal 5 1, times (λ r. r.rg) key 0 roots)
            ∷ (num.literal 5 1, times (λ r. r.contains_list) key 0 roots)
            ∷ []
    unfolding signal_lists
    row-signal_lists words priority roots = rw (count-merge_signal (λ r. r.fts) priority roots) (
        rw (count-merge_signal (λ r. r.vector) priority roots) (
          rw (count-merge_signal (λ r. r.rg) priority roots)
            (rw (count-merge_signal (λ r. r.contains_list) priority roots) refl)))
