-- ===== src/Indexer/Types.antt =====
-- The data of crates/hallouminate-domain/src/indexer/plan.rs and of the types it uses in common.rs.
-- A path is its text; an mtime is in milliseconds since the epoch.
use hallouminate.Common.{Bool, Option, List, ◌&&◌, none, some}
use hallouminate.Common.Int.{ℤ}
use hallouminate.Text.{Text, equal}

pub record CorpusKey : Type 0 where
  pub name : Text
  pub canonical_root : Text

-- `==` on corpus keys
abbrev pub same_key : CorpusKey → CorpusKey → Bool
same_key a b = equal a.name b.name && equal a.canonical_root b.canonical_root

abbrev pub FileRef : Type 0
FileRef = Text

abbrev pub Mtime : Type 0
Mtime = ℤ

pub record ScannedFile : Type 0 where
  pub corpus_key : CorpusKey
  pub file : FileRef
  pub mtime : Mtime

pub record FileSnapshot : Type 0 where
  pub file_ref : Text
  pub corpus_key : CorpusKey
  pub mtime_ms : ℤ
  pub content_hash : Text

pub record Upsert : Type 0 where
  pub file : FileRef
  pub mtime : Mtime
  pub corpus_key : Option CorpusKey

pub record MtimeCandidate : Type 0 where
  pub file : FileRef
  pub snap : FileSnapshot
  pub new_mtime : Mtime
  pub known_hash : Option Text

pub record IndexPlan : Type 0 where
  pub upserts : List Upsert
  pub mtime_touches : List MtimeCandidate
  pub deletes : List FileSnapshot

-- One observation of the disk: the two implementations of `into_plan_parts`.
abbrev pub PlanInput : Type 0
PlanInput = FileRef × Mtime × Option CorpusKey

abbrev pub scanned_parts : ScannedFile → PlanInput
scanned_parts s = (s.file, s.mtime, some s.corpus_key)

abbrev pub tuple_parts : FileRef × Mtime → PlanInput
tuple_parts (file, mtime) = (file, mtime, none)
