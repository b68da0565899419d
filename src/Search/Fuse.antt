-- ===== src/Search/Fuse.antt =====
-- `fuse` of crates/hallouminate-domain/src/search/fuse.rs: weighted reciprocal rank fusion.
pub mod Scores
pub mod Ranking
pub mod Dominance
use Prim.Native.Nat.{compare}
use hallouminate.Assoc.{lookup, insert}
use hallouminate.Common.{
  ℕ, suc, ◌+◌, Bool, true, false, ◌||◌, Option, none, some, List, [], ◌∷◌, if◌then◌else◌,
}
use hallouminate.Common.Order.{Cmp, then_with}
use hallouminate.Common.SortBy.{sort_by}
use hallouminate.Search.Types.{Floats, compare_score, RankedList}
use hallouminate.Text.{Text, equal}
use hallouminate.Text.Order.{compare_text}

-- A chunk's score so far, and in how many lists it stands.
abbrev pub Evidence : Type 0 → Type 0
Evidence F = F × ℕ

abbrev pub Scores : Type 0 → Type 0
Scores F = List (Text × Evidence F)

unfoldable pub contains : Text → List Text → Bool
contains id [] = false
contains id (x ∷ xs) = equal x id || contains id xs

module _ {F : Type 0} (num : Floats F) where
  abbrev pub contribution : F → F → ℕ → F
  contribution weight k rank = num.div weight (num.add (num.of_nat rank) k)

  abbrev pub or_nothing : Option (Evidence F) → Evidence F
  or_nothing none = (num.literal 0 1, 0)
  or_nothing (some e) = e

  abbrev pub bump : F → Option (Evidence F) → Evidence F
  bump c o = let e = or_nothing o in (num.add e.0 c, e.1 + 1)

  -- The inner loop, over one list from a rank on; `seen` is what it held before.
  unfoldable pub add_list : (weight k : F) (rank : ℕ) (seen ids : List Text) → Scores F → Scores F
  unfolding contains lookup insert
  add_list weight k rank seen [] scores = scores
  add_list weight k rank seen (id ∷ ids) scores = add_list weight k (suc rank) (id ∷ seen) ids (
      if contains id seen
      then scores
      else insert id (bump (contribution weight k rank) (lookup id scores)) scores)

  unfoldable pub add_lists : F → List (RankedList F) → Scores F → Scores F
  unfolding add_list
  add_lists k [] scores = scores
  add_lists k (list ∷ lists) scores =
      add_lists k lists (add_list list.weight k 0 [] list.chunk_ids scores)

  -- By score, best first, then by the number of lists, then by the id.
  abbrev pub fused_order : Cmp (Text × Evidence F)
  fused_order a b =
      then_with (compare_score num b.1.0 a.1.0)
        (then_with (compare b.1.1 a.1.1) (compare_text a.0 b.0))

  abbrev pub without_counts : Scores F → List (Text × F)
  without_counts [] = []
  without_counts ((id, (score, signals)) ∷ rest) = (id, score) ∷ without_counts rest

  unfoldable pub fuse : List (RankedList F) → F → List (Text × F)
  unfolding add_lists sort_by
  fuse lists k = without_counts (sort_by fused_order (add_lists k lists []))
