-- ===== src/Search/Fuse/Ranking.antt =====
-- The order in which crates/hallouminate-domain/src/search/fuse.rs returns the chunks.
use Prim.Native.Nat.Ordering.{eq}
use hallouminate.Assoc.{lookup, IsMap}
use hallouminate.Assoc.Sorted.{lookup-sort_by, sort_by-IsMap, sorted_unique}
use hallouminate.Common.{Option, some, [], ◌∷◌, ◌≡◌, refl, ◌∙◌, sym, ap, ◌↔◌, none, List, [], arith}
use hallouminate.Common.Order.{Lawful, compare-Lawful, then_with-Lawful, reversed-Lawful, on-Lawful}
use hallouminate.Common.SortBy.{sort_by, IsSortedBy, sort_by-IsSortedBy}
use hallouminate.Search.Fuse.{Evidence, Scores, add_lists, fused_order, without_counts, fuse}
use hallouminate.Search.Fuse.Scores.{evidence, lookup-add_lists, add_lists-IsMap}
use hallouminate.Search.Types.{Floats, compare_score, RankedList}
use hallouminate.Text.{Text}
use hallouminate.Text.Order.{compare_text-Lawful, compare_text-eq}

module _ {F : Type 0} (num : Floats F) where
  abbrev pub score_of : Option (Evidence F) → Option F
  score_of none = none
  score_of (some e) = some e.0

  lookup-without_counts :
      (id : Text) (entries : Scores F)
      → lookup id (without_counts num entries) ≡ score_of (lookup id entries)
  unfolding lookup
  lookup-without_counts id [] = refl
  lookup-without_counts id ((j, e) ∷ entries) = ground (arith, lookup-without_counts id entries)

  pub lookup-fuse :
      (id : Text) (lists : List (RankedList F)) (k : F)
      → lookup id (fuse num lists k) ≡ score_of (evidence num id k lists none)
  unfolding fuse lookup
  lookup-fuse id lists k =
      lookup-without_counts id (sort_by (fused_order num) (add_lists num k lists []))
      ∙ ap score_of (
          lookup-sort_by (fused_order num) id (add_lists num k lists [])
            (add_lists-IsMap num k lists [] tt)
          ∙ lookup-add_lists num id k lists [])

  IsMap-without_counts : (entries : Scores F) → IsMap entries → IsMap (without_counts num entries)
  IsMap-without_counts [] once = once
  IsMap-without_counts ((j, e) ∷ entries) (new, once) =
      (lookup-without_counts j entries ∙ ap score_of new, IsMap-without_counts entries once)

  pub fuse-IsMap : (lists : List (RankedList F)) (k : F) → IsMap (fuse num lists k)
  unfolding fuse
  fuse-IsMap lists k = IsMap-without_counts (sort_by (fused_order num) (add_lists num k lists [])) (
      sort_by-IsMap (fused_order num) (add_lists num k lists [])
        (add_lists-IsMap num k lists [] tt))

  -- The chunks of the lists, each once, with what the lists say of it, best first.
  pub record Ranking (lists : List (RankedList F)) (k : F) (out : List (Text × F)) : Type 0 where
    pub entries : Scores F
    pub once : IsMap entries
    pub told : (id : Text) → lookup id entries ≡ evidence num id k lists none
    pub sorted : IsSortedBy (fused_order num) entries
    pub shown : out ≡ without_counts num entries

  fused_order-Lawful : Lawful (compare_score num) → Lawful (fused_order num)
  fused_order-Lawful l =
      then_with-Lawful (on-Lawful (λ (e : Text × Evidence F). e.1.0) (reversed-Lawful l)) (
        then_with-Lawful
          (on-Lawful (λ (e : Text × Evidence F). e.1.1) (reversed-Lawful compare-Lawful))
          (on-Lawful (λ (e : Text × Evidence F). e.0) compare_text-Lawful))

  fused_order_keyed : (a b : Text × Evidence F) → fused_order num a b ≡ eq → a.0 ≡ b.0
  fused_order_keyed a b e = compare_text-eq a.0 b.0 (ground (arith, e))

  pub fuse-ranks :
      (lists : List (RankedList F)) (k : F)
      → Lawful (compare_score num)
      → Ranking lists k (fuse num lists k)
  unfolding fuse lookup
  fuse-ranks lists k l =
      let scores = add_lists num k lists [] in
      let once = add_lists-IsMap num k lists [] tt in
      record {
        entries = sort_by (fused_order num) scores;
        once = sort_by-IsMap (fused_order num) scores once;
        told = λ id.
            lookup-sort_by (fused_order num) id scores once ∙ lookup-add_lists num id k lists [];
        sorted = sort_by-IsSortedBy (fused_order num) (fused_order-Lawful l) scores;
        shown = refl;
      }

  -- Fusion is the one ranking of the chunks that the lists hold: each of them once, with one
  -- contribution for each list that it stands in, taken at its best rank there; the best score first,
  -- then the chunk of more lists, then the smaller id. The order in which a hash map gives its entries
  -- out does not show. The comparison of scores has to be a total preorder, as it is without a NaN.
  pub fuse-Ranking :
      (lists : List (RankedList F)) (k : F) (out : List (Text × F))
      → Lawful (compare_score num)
      → Ranking lists k out ↔ (out ≡ fuse num lists k)
  fuse-Ranking lists k out l = (
    λ r.
        r.shown
        ∙ ap (without_counts num) (only r (fuse-ranks lists k l))
        ∙ sym (fuse-ranks lists k l).shown,
    λ e.
        let r = fuse-ranks lists k l in
        record {
          entries = r.entries;
          once = r.once;
          told = r.told;
          sorted = r.sorted;
          shown = e ∙ r.shown;
        },
  )
    where
      only :
          {a b : List (Text × F)} (r : Ranking lists k a) (q : Ranking lists k b)
          → r.entries ≡ q.entries
      only r q =
          sorted_unique (fused_order num) (fused_order-Lawful l) fused_order_keyed r.entries
            q.entries r.once q.once r.sorted q.sorted (λ id. r.told id ∙ sym (q.told id))
