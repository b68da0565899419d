-- ===== src/Ground/Cut.antt =====
-- The cut of crates/hallouminate-domain/src/ground/orchestrate.rs: which documents stay in the answer
-- (`cut_with_local_reserve`), and the two orders that it is called with.
pub mod Swaps
pub mod Positions
pub mod Counting
pub mod Promotion
pub mod Exchange
pub mod Reserve
use Prim.Native.Nat.{compare}
use Prim.Native.Nat.Ordering.{eq}
use mathlib.Core.List.{reverse}
use hallouminate.Common.{
  ℕ, zero, suc, ◌+◌, ◌-◌, Bool, true, false, not, Option, none, some, List, [], ◌∷◌, ◌++◌, length,
  take, drop, set, leb, ltb, if◌then◌else◌,
}
use hallouminate.Common.Order.{Cmp, then_with, compare_bool}
use hallouminate.Common.SortBy.{filter, count_if, sort_by}
use hallouminate.Ground.Types.{DocFile}
use hallouminate.Search.Fuse.{contains}
use hallouminate.Search.Types.{Floats, compare_score}
use hallouminate.Text.{Text, equal}
use hallouminate.Text.Order.{compare_text}

abbrev pub Entry : Type 0 → Type 0
Entry F = Text × DocFile F

abbrev pub reserved_local_slots : ℕ
reserved_local_slots = 2

module _ {A : Type 0} where
  unfoldable pub at : ℕ → List A → Option A
  at i [] = none
  at zero (x ∷ xs) = some x
  at (suc i) (x ∷ xs) = at i xs

  -- `slice::swap`
  unfoldable pub swap : ℕ → ℕ → List A → List A
  unfolding at
  swap i j xs = elim (at i xs) [
    | none ↦ xs
    | some a ↦ elim (at j xs) [ none ↦ xs | some b ↦ set (set xs i b) j a ]
  ]

  -- The positions, from `i` on, of the elements with a property.
  unfoldable pub positions : (A → Bool) → ℕ → List A → List ℕ
  positions p i [] = []
  positions p i (x ∷ xs) = let rest = positions p (suc i) xs in if p x then i ∷ rest else rest

  -- Swaps the pairs of two lists of positions, as far as both go.
  unfoldable pub swap_all : List ℕ → List ℕ → List A → List A
  unfolding swap
  swap_all [] evict xs = xs
  swap_all (j ∷ promote) [] xs = xs
  swap_all (j ∷ promote) (i ∷ evict) xs = swap_all promote evict (swap i j xs)

-- Into a `BTreeMap`: by key.
unfoldable pub collect : {F : Type 0} → List (Entry F) → List (Entry F)
unfolding sort_by
collect xs = sort_by (λ a b. compare_text a.0 b.0) xs

module _ {F : Type 0} where
  abbrev pub is_local : Text → Entry F → Bool
  is_local priority e = equal e.1.corpus priority

  abbrev pub is_fallback : List Text → Entry F → Bool
  is_fallback fallback_docs e = contains e.0 fallback_docs

  -- The kept window of the ranked documents: local ones from behind it take the places of the lowest
  -- others in it. The sort after that is left out, since the map that collects the documents has its own
  -- order.
  unfoldable pub promoted : ℕ → Text → List (Entry F) → List (Entry F)
  unfolding swap_all positions count_if
  promoted cap priority ranked =
      let kept_locals = count_if (is_local priority) (take cap ranked) in
      let missing = reserved_local_slots - kept_locals in
      let promote = take missing (positions (is_local priority) cap (drop cap ranked)) in
      let evict =
        take (length promote)
          (reverse (positions (λ e. not (is_local priority e)) 0 (take cap ranked))) in
      swap_all promote evict ranked

  unfoldable pub window : ℕ → Option Text → List (Entry F) → List (Entry F)
  unfolding promoted
  window cap none ranked = take cap ranked
  window cap (some priority) ranked = take cap (promoted cap priority ranked)

  unfoldable pub cut_with_local_reserve :
      List (Entry F) → ℕ → Option Text → List Text → Cmp (Entry F) → List (Entry F)
  unfolding filter contains sort_by window collect
  cut_with_local_reserve docs cap priority fallback_docs order =
      let ranked = sort_by order (filter (λ e. not (is_fallback fallback_docs e)) docs) in
      let fallback = sort_by order (filter (is_fallback fallback_docs) docs) in
      if leb (length ranked) cap
      then collect (ranked ++ take (cap - length ranked) fallback)
      else collect (window cap priority ranked)

  abbrev pub prefers : Option Text → Cmp (Entry F)
  prefers none a b = eq
  prefers (some p) a b = compare_bool (equal b.1.corpus p) (equal a.1.corpus p)

  abbrev pub rollup_order : Floats F → Option Text → Cmp (Entry F)
  rollup_order num priority a b =
      then_with (compare_score num b.1.score a.1.score)
        (then_with (prefers priority a b) (compare_text a.0 b.0))

  abbrev pub chunks_of : Entry F → ℕ
  chunks_of e = elim e.1.coverage [ none ↦ 0 | some coverage ↦ coverage.chunks ]

  abbrev pub counts_order : Option Text → Cmp (Entry F)
  counts_order priority a b =
      then_with (compare (chunks_of b) (chunks_of a))
        (then_with (prefers priority a b) (compare_text a.0 b.0))
