-- ===== src/Search/Types.antt =====
-- The data that the ranking in crates/hallouminate-domain/src/search.rs passes around. Floating-point
-- numbers are an argument: a type with the operations that the code uses.
use Prim.Native.Nat.{Ordering}
use Prim.Native.Nat.Ordering.{eq}
use hallouminate.Common.{ℕ, Option, none, some, List}
use hallouminate.Common.Int.{ℤ}
use hallouminate.Common.Order.{Cmp}
use hallouminate.Corpus.ClaimMarks.{ClaimMark}
use hallouminate.Indexer.ContentKey.{ChunkStructure}
use hallouminate.Indexer.Types.{CorpusKey}
use hallouminate.Text.{Text}

-- `literal 35 2` is 0.35, and `of_nat n` is `n as f32`.
pub record Floats (F : Type 0) : Type 0 where
  pub literal : ℕ → ℕ → F
  pub of_nat : ℕ → F
  pub add : F → F → F
  pub mul : F → F → F
  pub div : F → F → F
  pub partial_cmp : F → F → Option Ordering
  pub total_cmp : Cmp F

-- `partial_cmp(..).unwrap_or(Equal)`
abbrev pub compare_score : {F : Type 0} → Floats F → Cmp F
compare_score num a b = elim (num.partial_cmp a b) [ none ↦ eq | some o ↦ o ]

module _ (F : Type 0) where
  -- The strings of its structure are texts here, too.
  pub record SearchHit : Type 0 where
    pub chunk_id : Text
    pub corpus_key : CorpusKey
    pub file_ref : Text
    pub heading_path : List Text
    pub line_start : ℕ
    pub line_end : ℕ
    pub text : Text
    pub search_text : Text
    pub summary : Text
    pub keywords : List Text
    pub score : F
    pub mtime_ms : ℤ
    pub claim_marks : List ClaimMark
    pub structure : Option ChunkStructure
    pub overlap_bytes : ℕ
    pub z_score : Option F

  pub record RankedList : Type 0 where
    pub weight : F
    pub chunk_ids : List Text

  -- A chunk of a signal's list, with its raw score where the store gives one.
  pub record SignalEntry : Type 0 where
    pub chunk_id : Text
    pub strength : Option F
