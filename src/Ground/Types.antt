-- ===== src/Ground/Types.antt =====
-- The data of crates/hallouminate-domain/src/ground/types.rs.
use hallouminate.Common.{ℕ, Bool, Option, List}
use hallouminate.Corpus.ClaimMarks.{ClaimMark}
use hallouminate.Text.{Text}

pub data GroundMatch : Type 0 where
  ranked phrase : GroundMatch

pub data GroundGroupBy : Type 0 where
  chunk page : GroundGroupBy

pub data GroundOutput : Type 0 where
  hits_output counts_output : GroundOutput

pub record ChunkProvenance : Type 0 where
  pub corpus : Text
  pub claim_marks : List ClaimMark

pub record FileCoverage : Type 0 where
  pub chunks : ℕ
  pub pages : Option ℕ

module _ (F : Type 0) where
  pub record DocChunk : Type 0 where
    pub chunk_id : Text
    pub heading_path : List Text
    pub line_range : ℕ × ℕ
    pub score : F
    pub z_score : Option F
    pub snippet : Text
    pub provenance : ChunkProvenance
    pub chunk_count : Option ℕ

  pub record DocFile : Type 0 where
    pub summary : Option Text
    pub keywords : List Text
    pub score : F
    pub z_score : Option F
    pub mtime : Text
    pub corpus : Text
    pub path : Option Text
    pub stale : Bool
    pub chunks : List DocChunk
    pub coverage : Option FileCoverage
