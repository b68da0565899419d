-- ===== src/Search/Resolve.antt =====
-- The literal signals of crates/hallouminate-domain/src/search.rs: ripgrep's hits brought to the chunks
-- of the pool (`resolve_rg_hits_to_chunks`), the terms that a chunk contains, and the order of both.
pub mod Attribution
pub mod Told
pub mod Counts
use Prim.Native.Nat.{compare}
use hallouminate.Assoc.{lookup, insert}
use hallouminate.Common.{
  ℕ, suc, ◌+◌, Bool, true, false, ◌&&◌, not, Option, none, some, List, [], ◌∷◌, ◌++◌, length, leb,
  if◌then◌else◌,
}
use hallouminate.Common.Order.{Cmp, then_with}
use hallouminate.Common.SortBy.{count_if, sort_by}
use hallouminate.Search.Fuse.{contains}
use hallouminate.Search.Types.{Floats, SearchHit, SignalEntry}
use hallouminate.Text.{Text, equal, break_on, strip_prefix, strip_last}
use hallouminate.Text.Order.{compare_text}

pub record RipgrepHit : Type 0 where
  pub file_ref : Text
  pub line : ℕ
  pub matched : List Text

pub record RgResolveStats : Type 0 where
  pub dropped_file_not_in_pool : ℕ
  pub dropped_line_out_of_range : ℕ

abbrev pub no_drops : RgResolveStats
no_drops = record { dropped_file_not_in_pool = 0; dropped_line_out_of_range = 0 }

unfoldable pub add_terms : List Text → List Text → List Text
unfolding contains
add_terms terms [] = terms
add_terms terms (t ∷ ts) = add_terms (if contains t terms then terms else terms ++ t ∷ []) ts

abbrev pub Matched : Type 0
Matched = List (Text × List Text)

abbrev pub or_empty {ℓ} : {A : Type ℓ} → Option (List A) → List A
or_empty none = []
or_empty (some xs) = xs

unfoldable pub term_counts : Matched → List (Text × ℕ)
term_counts [] = []
term_counts ((id, terms) ∷ rest) = (id, length terms) ∷ term_counts rest

-- `str::contains`
abbrev pub has : Text → Text → Bool
has text term = elim (break_on term text) [ none ↦ false | some found ↦ true ]

abbrev pub Pool : Type 0 → Type 0
Pool F = List (Text × SearchHit F)

abbrev pub count_line : Bool → RgResolveStats → RgResolveStats
count_line true stats = stats
count_line false stats = record stats {
  dropped_line_out_of_range = stats.dropped_line_out_of_range + 1;
}

module _ {F : Type 0} where
  unfoldable pub by_file :
      Pool F → List (Text × List (SearchHit F)) → List (Text × List (SearchHit F))
  unfolding lookup insert
  by_file [] files = files
  by_file ((id, hit) ∷ pool) files =
      by_file pool (insert hit.file_ref (or_empty (lookup hit.file_ref files) ++ hit ∷ []) files)

  abbrev pub covers : RipgrepHit → SearchHit F → Bool
  covers rg chunk = leb chunk.line_start rg.line && leb rg.line chunk.line_end

  -- The loop over the chunks of a hit's file: whether one of them holds the line, and the terms.
  unfoldable pub attribute : RipgrepHit → List (SearchHit F) → Bool → Matched → Bool × Matched
  unfolding add_terms lookup insert
  attribute rg [] attributed matched = (attributed, matched)
  attribute rg (chunk ∷ chunks) attributed matched =
      if covers rg chunk
      then attribute rg chunks true (
          insert chunk.chunk_id (add_terms (or_empty (lookup chunk.chunk_id matched)) rg.matched)
            matched)
      else attribute rg chunks attributed matched

  unfoldable pub resolve_hits :
      List (Text × List (SearchHit F))
      → List RipgrepHit
      → Matched
      → RgResolveStats
      → Matched × RgResolveStats
  unfolding attribute lookup
  resolve_hits files [] matched stats = (matched, stats)
  resolve_hits files (rg ∷ hits) matched stats = elim (lookup rg.file_ref files) [
    | none ↦
        resolve_hits files hits matched
          (record stats { dropped_file_not_in_pool = stats.dropped_file_not_in_pool + 1 })
    | some chunks ↦
        let (attributed, now) = attribute rg chunks false matched in
        resolve_hits files hits now (count_line attributed stats)
  ]

  unfoldable pub resolve_rg_hits_to_chunks :
      Pool F → List RipgrepHit → List (Text × ℕ) × RgResolveStats
  unfolding resolve_hits by_file term_counts
  resolve_rg_hits_to_chunks pool [] = ([], no_drops)
  resolve_rg_hits_to_chunks pool (rg ∷ hits) =
      let (matched, stats) = resolve_hits (by_file pool []) (rg ∷ hits) [] no_drops in
      (term_counts matched, stats)

  unfoldable pub contains_term_counts : Pool F → List Text → List (Text × ℕ)
  unfolding count_if break_on
  contains_term_counts [] terms = []
  contains_term_counts ((id, hit) ∷ pool) terms =
      let rest = contains_term_counts pool terms in
      let n = count_if (has hit.search_text) terms in if leb 1 n then (id, n) ∷ rest else rest

-- The path below a root, both canonical: what `Path::strip_prefix` leaves of it. Only the root of the
-- file system ends in a slash itself.
abbrev dir_prefix : Text → Text
dir_prefix root = elim (strip_last b'/' root) [ none ↦ root ++ b'/' ∷ [] | some parent ↦ root ]

abbrev pub below_root : Text → Text → Text
below_root root path =
    if equal root path
    then []
    else elim (strip_prefix (dir_prefix root) path) [ none ↦ path | some rest ↦ rest ]

abbrev pub TieBreak : Type 0
TieBreak = Text × ℕ × Text

abbrev pub compare_key : Cmp TieBreak
compare_key a b =
    then_with (compare_text a.0 b.0) (then_with (compare a.1 b.1) (compare_text a.2 b.2))

module _ {F : Type 0} (num : Floats F) where
  unfoldable pub hit_tie_break_key : SearchHit F → Text → TieBreak
  unfolding strip_prefix strip_last equal
  hit_tie_break_key hit root = (below_root root hit.file_ref, hit.line_start, hit.chunk_id)

  unfoldable pub tie_break_key : Text → Pool F → Text → TieBreak
  unfolding hit_tie_break_key lookup
  tie_break_key id hits root = elim (lookup id hits) [
    | some hit ↦ hit_tie_break_key hit root
    | none ↦ (id, 0, id)
  ]

  unfoldable pub decorate : Pool F → Text → List (Text × ℕ) → List (TieBreak × ℕ × Text)
  unfolding tie_break_key
  decorate hits root [] = []
  decorate hits root ((id, count) ∷ counts) =
      let rest = decorate hits root counts in
      if leb 1 count then (tie_break_key id hits root, count, id) ∷ rest else rest

  abbrev pub term_count_order : Cmp (TieBreak × ℕ × Text)
  term_count_order a b = then_with (compare b.1 a.1) (compare_key a.0 b.0)

  abbrev pub entries_of : List (TieBreak × ℕ × Text) → List (SignalEntry F)
  entries_of [] = []
  entries_of ((key, count, id) ∷ rest) =
      record { chunk_id = id; strength = some (num.of_nat count) } ∷ entries_of rest

  unfoldable pub ranked_by_term_count : List (Text × ℕ) → Pool F → Text → List (SignalEntry F)
  unfolding decorate sort_by
  ranked_by_term_count counts hits root =
      entries_of (sort_by term_count_order (decorate hits root counts))
