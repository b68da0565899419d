-- ===== src/Search/Structure.antt =====
-- The structural lists that join the signals, crates/hallouminate-domain/src/search.rs: the chunks whose
-- title or sections the query names, and those that are written text.
use Prim.Native.Nat.{compare}
use hallouminate.Assoc.{lookup}
use hallouminate.Common.{
  ℕ, suc, ◌*◌, max, Bool, true, false, ◌&&◌, ◌||◌, not, Option, none, some, List, [], ◌∷◌, length,
  ltb, if◌then◌else◌,
}
use hallouminate.Common.Order.{Cmp, then_with}
use hallouminate.Common.SortBy.{count_if, sort_by}
use hallouminate.Indexer.ContentKey.{ChunkStructure}
use hallouminate.Search.Fuse.{contains}
use hallouminate.Search.Resolve.{Pool}
use hallouminate.Search.Terms.{split_terms}
use hallouminate.Search.Types.{Floats, RankedList}
use hallouminate.Text.{Text}

module _ (words : Text → List Text) where
  unfoldable pub heading_overlap : List Text → Text → ℕ
  unfolding split_terms count_if contains
  heading_overlap terms heading = elim (split_terms words heading) [
    | [] ↦ 0
    | h ∷ hs ↦
        let overlap = count_if (λ t. contains t (h ∷ hs)) terms in
        if ltb 1 (length terms) && ltb overlap 2
        then 0
        else if ltb (overlap * 2) (length terms) || ltb (overlap * 2) (length (h ∷ hs))
        then 0
        else overlap
  ]

  -- The best overlap of a heading below the first level.
  unfoldable pub section_overlap : List Text → List (ℕ × Text) → ℕ → ℕ
  unfolding heading_overlap
  section_overlap terms [] best = best
  section_overlap terms ((level, heading) ∷ headings) best =
      section_overlap terms headings
        (if ltb 1 level then max best (heading_overlap terms heading) else best)

  abbrev pub title_overlap : List Text → Option Text → ℕ
  title_overlap terms none = 0
  title_overlap terms (some title) = heading_overlap terms title

-- By overlap, the greatest first, then by rank.
abbrev pub Overlapping : Type 0
Overlapping = ℕ × ℕ × Text

abbrev pub overlap_order : Cmp Overlapping
overlap_order a b = then_with (compare b.0 a.0) (compare a.1 b.1)

abbrev pub ids_of : List Overlapping → List Text
ids_of [] = []
ids_of ((overlap, rank, id) ∷ rest) = id ∷ ids_of rest

pub record Structure : Type 0 where
  pub titles : List Overlapping
  pub sections : List Overlapping
  pub authored : List Text

abbrev pub no_structure : Structure
no_structure = record { titles = []; sections = []; authored = [] }

abbrev pub push_if {ℓ} : {A : Type ℓ} → Bool → A → List A → List A
push_if true x xs = x ∷ xs
push_if false x xs = xs

module _ {F : Type 0} (num : Floats F) (words : Text → List Text) where
  abbrev pub classify : List Text → ℕ → Text → Option ChunkStructure → Structure → Structure
  classify terms rank id none s = record s { authored = id ∷ s.authored }
  classify terms rank id (some structure) s =
      let title = title_overlap words terms structure.title in
      let section = section_overlap words terms structure.headings 0 in
      record {
        titles = push_if (ltb 0 title) (title, rank, id) s.titles;
        sections = push_if (ltb title section) (section, rank, id) s.sections;
        authored = push_if (not structure.generated_navigation) id s.authored;
      }

  -- The loop over the baseline: each chunk of the pool goes before those of the later ones.
  unfoldable pub structure_of : Pool F → List Text → ℕ → List (Text × F) → Structure
  unfolding lookup heading_overlap section_overlap
  structure_of hits terms rank [] = no_structure
  structure_of hits terms rank ((id, score) ∷ baseline) =
      let rest = structure_of hits terms (suc rank) baseline in
      elim (lookup id hits) [ none ↦ rest | some hit ↦ classify terms rank id hit.structure rest ]

  unfoldable pub structural_lists : Pool F → List Text → List (Text × F) → List (RankedList F)
  unfolding structure_of sort_by
  structural_lists hits [] baseline = []
  structural_lists hits (t ∷ ts) baseline =
      let s = structure_of hits (t ∷ ts) 0 baseline in
      record { weight = num.literal 5 1; chunk_ids = ids_of (sort_by overlap_order s.titles) }
      ∷ record { weight = num.literal 35 2; chunk_ids = ids_of (sort_by overlap_order s.sections) }
      ∷ record { weight = num.literal 35 2; chunk_ids = s.authored }
      ∷ []
