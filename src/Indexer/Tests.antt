-- ===== src/Indexer/Tests.antt =====
-- The plan of a small corpus, and its theorems there.
use mathlib.Core.List.{Perm}
use hallouminate.Indexer.ContentKey.{Bytes, PreparedChunk, PreparedFile, stream}
use hallouminate.Indexer.ContentKey.Readable.{IsShort}
use hallouminate.Indexer.ContentKey.Stream.{ChunkFits, FileFits, SameContent, stream-SameContent}
use hallouminate.Common.{ℕ, false, ◌↔◌, arith, ◌≡◌, refl, none, some, List, [], ◌∷◌, Option}
use hallouminate.Common.Int.{pos}
use hallouminate.Assoc.{IsMap, lookup}
use hallouminate.Text.{Text, codes, equal}
use hallouminate.Indexer.Types.{CorpusKey, FileRef, FileSnapshot, PlanInput, tuple_parts}
use hallouminate.Indexer.Plan.{SnapshotMap, plan}
use hallouminate.Indexer.Plan.Actions.{
  plan_actions, upserts_for, touches_for, upsert_due, touch_due, last_seen,
}
use hallouminate.Indexer.Plan.Snapshots.{plan_deletes, IsSortedByRef, vanished}

abbrev wiki : CorpusKey
wiki = record { name = codes "wiki"; canonical_root = codes "/w" }

abbrev snapshot : Text → FileSnapshot
snapshot f = record { file_ref = f; corpus_key = wiki; mtime_ms = pos 5; content_hash = codes "h" }

abbrev index : SnapshotMap
index =
    (codes "c.md", snapshot (codes "c.md"))
    ∷ (codes "b.md", snapshot (codes "b.md"))
    ∷ (codes "a.md", snapshot (codes "a.md"))
    ∷ []

-- One file is new, one moved, and two snapshots have no file left.
abbrev disk : List PlanInput
disk = tuple_parts (codes "d.md", pos 7) ∷ tuple_parts (codes "b.md", pos 6) ∷ []

abbrev unread : FileRef → Option Text
unread f = none

plan_actions_example :
    (upserts_for (codes "b.md") (plan unread disk index).upserts
      ≡ upsert_due unread
          (codes "b.md")
          (last_seen (codes "b.md") disk)
          (some (snapshot (codes "b.md"))))
    × (touches_for (codes "b.md") (plan unread disk index).mtime_touches
        ≡ touch_due unread
            (codes "b.md")
            (last_seen (codes "b.md") disk)
            (some (snapshot (codes "b.md"))))
unfolding lookup equal
plan_actions_example = plan_actions unread disk index (codes "b.md")

index-IsMap : IsMap index
unfolding lookup equal
index-IsMap = (refl, (refl, (refl, tt)))

plan_deletes_example :
    IsSortedByRef (plan unread disk index).deletes
    × Perm (plan unread disk index).deletes (vanished disk index)
plan_deletes_example = plan_deletes unread disk index index-IsMap

abbrev chunk : PreparedChunk
chunk = record {
  ord = 0;
  heading_path = codes "Top" ∷ [];
  line_start = 1;
  line_end = 2;
  text = codes "body";
  search_text = codes "Top body";
  claim_marks = none;
  structure = some (record {
    title = some (codes "Top");
    headings = (1, codes "Top") ∷ [];
    generated_navigation = false;
  });
  overlap_bytes = 0;
}

abbrev page : Bytes → ℕ → PreparedFile
page path time = record {
  file_ref = path;
  corpus_key = wiki;
  mtime_ms = pos time;
  content_hash = codes "abc";
  summary = codes "Top";
  keywords = [];
  frontmatter = none;
  indexed_at_ms = pos time;
  chunks = chunk ∷ [];
}

-- A name whose directory is one character and a slash.
abbrev name_of : Bytes → Bytes
name_of (d ∷ s ∷ name) = name
name_of path = path

chunk-ChunkFits : ChunkFits chunk
chunk-ChunkFits = record {
  ord_fits = omega arith;
  path_fits = (omega arith, (omega arith, tt));
  start_fits = omega arith;
  end_fits = omega arith;
  text_fits = omega arith;
  search_text_fits = omega arith;
  marks_fit = tt;
  structure_fits = (omega arith, (omega arith, (omega arith, tt)));
  overlap_fits = omega arith;
}

abbrev page_fits :
    (path : Bytes) (time : ℕ) → IsShort (name_of path) → FileFits name_of (page path time)
page_fits path time short = record {
  hash_fits = omega arith;
  name_fits = short;
  summary_fits = omega arith;
  keywords_fit = (omega arith, tt);
  frontmatter_fits = tt;
  chunks_fit = (omega arith, (chunk-ChunkFits, tt));
}

stream-SameContent_example :
    (stream name_of (page (codes "a/x.md") 1) (codes "fp")
      ≡ stream name_of (page (codes "b/x.md") 2) (codes "fp"))
    ↔ ((codes "fp" ≡ codes "fp")
        × SameContent name_of (page (codes "a/x.md") 1) (page (codes "b/x.md") 2))
stream-SameContent_example =
    stream-SameContent name_of (page (codes "a/x.md") 1) (page (codes "b/x.md") 2) (codes "fp")
      (codes "fp") (page_fits (codes "a/x.md") 1 (omega arith))
      (page_fits (codes "b/x.md") 2 (omega arith)) (omega arith) (omega arith)
