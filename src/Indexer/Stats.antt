-- ===== src/Indexer/Stats.antt =====
-- `ApplyStats` of crates/hallouminate-domain/src/indexer/apply.rs: the tallies of a pass.
use hallouminate.Common.{ℕ, ◌+◌, List, [], ◌∷◌, ◌++◌, length, ltb, leb, if◌then◌else◌}
use hallouminate.Indexer.Types.{FileRef}
use hallouminate.Indexer.Writer.{SkipReason}

abbrev pub max_reported_skips : ℕ
max_reported_skips = 100

pub record SkippedFile : Type 0 where
  pub file : FileRef
  pub reason : SkipReason

pub record ApplyStats : Type 0 where
  pub files_upserted : ℕ
  pub files_touched : ℕ
  pub files_deleted : ℕ
  pub files_skipped_empty : ℕ
  pub files_skipped_unreadable : ℕ
  pub skipped_unreadable : List SkippedFile
  pub chunks_inserted : ℕ
  pub embeddings_inserted : ℕ

-- `ApplyStats::default`
abbrev pub no_stats : ApplyStats
no_stats = record {
  files_upserted = 0;
  files_touched = 0;
  files_deleted = 0;
  files_skipped_empty = 0;
  files_skipped_unreadable = 0;
  skipped_unreadable = [];
  chunks_inserted = 0;
  embeddings_inserted = 0;
}

unfoldable pub record_unreadable : SkippedFile → ApplyStats → ApplyStats
record_unreadable skip s = record s {
  files_skipped_unreadable = s.files_skipped_unreadable + 1;
  skipped_unreadable =
      if ltb (length s.skipped_unreadable) max_reported_skips
      then s.skipped_unreadable ++ skip ∷ []
      else s.skipped_unreadable;
}

-- The loop over the names of the other pass, which stops at the cap.
unfoldable pub push_capped : List SkippedFile → List SkippedFile → List SkippedFile
push_capped named [] = named
push_capped named (f ∷ fs) =
    let rest = push_capped (named ++ f ∷ []) fs in
    if leb max_reported_skips (length named) then named else rest

unfoldable pub merge : ApplyStats → ApplyStats → ApplyStats
unfolding push_capped
merge s other = record {
  files_upserted = s.files_upserted + other.files_upserted;
  files_touched = s.files_touched + other.files_touched;
  files_deleted = s.files_deleted + other.files_deleted;
  files_skipped_empty = s.files_skipped_empty + other.files_skipped_empty;
  files_skipped_unreadable = s.files_skipped_unreadable + other.files_skipped_unreadable;
  skipped_unreadable = push_capped s.skipped_unreadable other.skipped_unreadable;
  chunks_inserted = s.chunks_inserted + other.chunks_inserted;
  embeddings_inserted = s.embeddings_inserted + other.embeddings_inserted;
}
