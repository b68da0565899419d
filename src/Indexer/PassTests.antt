-- ===== src/Indexer/PassTests.antt =====
-- A small pass of the indexer, and the theorems on it there.
use mathlib.Core.List.{Perm}
use hallouminate.Common.{
  ℕ, ◌≡◌, refl, ◌↔◌, arith, Bool, true, false, none, some, Option, List, [], ◌∷◌, All,
}
use hallouminate.Common.Int.{pos, leb_ℤ}
use hallouminate.Indexer.Apply.{apply_with_lane}
use hallouminate.Indexer.Apply.Evictions.{Sound, apply_with_lane-Sound}
use hallouminate.Indexer.Apply.Lane.{lane_after, log_of, apply_with_lane-lane_after}
use hallouminate.Indexer.Apply.Tallies.{Told, apply_with_lane-Told}
use hallouminate.Indexer.ContentKey.{Bytes, PreparedChunk, PreparedFile}
use hallouminate.Indexer.Format.{Format, FileFormat, plain_text_file}
use hallouminate.Indexer.Plan.{touch, touches_of}
use hallouminate.Indexer.Requests.{batches, owner_among, smudge_racy_mtime}
use hallouminate.Indexer.Requests.Batches.{IsNarrow}
use hallouminate.Indexer.Requests.Owners.{Chosen, owner_among-Chosen}
use hallouminate.Indexer.Requests.Partition.{flatten, HasOneKey, batches-Partition}
use hallouminate.Indexer.Requests.Racy.{smudge_racy_mtime-touches_of}
use hallouminate.Indexer.Run.{Log, Outside, BatchWriteStats, done, stopped, after}
use hallouminate.Indexer.Steps.{RunCtx}
use hallouminate.Indexer.Types.{CorpusKey, FileRef, FileSnapshot, IndexPlan}
use hallouminate.Indexer.Writer.{
  Error, Result, ok, err, file, WriteRequest, PrepareCtx, Extraction, extracted, prepare_file,
}
use hallouminate.Indexer.Writer.Skips.{Aborts, Indexes, prepare_file-Outcomes}
use hallouminate.Text.{Text, codes}
use hallouminate.Text.Paths.{starts_with}

abbrev wiki : CorpusKey
wiki = record { name = codes "wiki"; canonical_root = codes "/w" }

abbrev notes : CorpusKey
notes = record { name = codes "wiki"; canonical_root = codes "/w/notes" }

abbrev chunk : PreparedChunk
chunk = record {
  ord = 0;
  heading_path = [];
  line_start = 1;
  line_end = 1;
  text = codes "a";
  search_text = codes "a";
  claim_marks = none;
  structure = none;
  overlap_bytes = 0;
}

-- A file has a chunk, unless it has no bytes.
abbrev extract : Format → PrepareCtx → Extraction
extract format ctx = extracted (record {
  file_ref = ctx.file;
  corpus_key = ctx.corpus_key;
  mtime_ms = ctx.mtime;
  content_hash = ctx.content_hash;
  summary = [];
  keywords = [];
  frontmatter = none;
  indexed_at_ms = ctx.indexed_at_ms;
  chunks = elim ctx.bytes [ [] ↦ [] | b ∷ bs ↦ chunk ∷ [] ];
})

abbrev granted : Log → Result (Unit {0})
granted log = ok tt

abbrev one_chunk : BatchWriteStats
one_chunk = record { chunks_written = 1; embeddings_written = 1 }

-- The bytes of a file: `b.md` is empty.
abbrev disk_bytes : FileRef → Result Bytes
disk_bytes f = ok []

abbrev outside : Outside (Unit {0})
outside = record {
  lane = some granted;
  touch_mtime = λ log key ref mtime. ok tt;
  delete_file = λ log key ref. ok tt;
  prepare_batch = λ log files. ok tt;
  commit_batch = λ log files work. ok one_chunk;
  blake3_file = λ log f. ok (codes "new");
  blake3_bytes = λ bytes. codes "new";
  read = λ log f. disk_bytes f;
  sniff = λ bytes. plain_text_file;
  handler = extract;
  to_str = λ f. some f;
  canonicalize = λ f. f;
}

abbrev context : RunCtx (Unit {0})
context = record {
  out = outside;
  keys = wiki ∷ notes ∷ [];
  key_first = λ a b. false;
  indexed_at_ms = pos 9;
  batch_size = 0;
  precomputed = (codes "/w/notes/a.md", codes "a") ∷ [];
}

abbrev snapshot : Text → FileSnapshot
snapshot f = record { file_ref = f; corpus_key = wiki; mtime_ms = pos 5; content_hash = codes "h" }

-- One file is new, one became empty, and one is gone.
abbrev changes : IndexPlan
changes = record {
  upserts = record { file = codes "/w/notes/a.md"; mtime = pos 7; corpus_key = none } ∷ [];
  mtime_touches = touch (codes "/w/b.md") (snapshot (codes "/w/b.md")) (pos 8) none ∷ [];
  deletes = snapshot (codes "/w/c.md") ∷ [];
}

apply_with_lane-lane_after_example :
    lane_after (log_of (apply_with_lane context changes)) ≡ some false
apply_with_lane-lane_after_example = apply_with_lane-lane_after context granted changes refl

apply_with_lane-Told_example : Told (apply_with_lane context changes)
apply_with_lane-Told_example = apply_with_lane-Told context changes

apply_with_lane-Sound_example : Sound context changes (log_of (apply_with_lane context changes))
apply_with_lane-Sound_example = apply_with_lane-Sound context changes

owner_among-Chosen_example :
    Chosen
      (codes "/w/notes/a.md")
      (wiki ∷ notes ∷ [])
      (owner_among (codes "/w/notes/a.md") none (wiki ∷ notes ∷ []))
owner_among-Chosen_example = owner_among-Chosen (codes "/w/notes/a.md") (wiki ∷ notes ∷ [])

abbrev request : Text → WriteRequest
request f = record { corpus_key = wiki; file = f; mtime = pos 7 }

abbrev requests : List WriteRequest
requests = request (codes "/w/a.md") ∷ request (codes "/w/b.md") ∷ request (codes "/w/c.md") ∷ []

abbrev unordered : CorpusKey → CorpusKey → Bool
unordered a b = false

batches-Partition_example :
    Perm (flatten (batches unordered 2 requests)) requests
    × All HasOneKey (batches unordered 2 requests)
    × All (IsNarrow 2) (batches unordered 2 requests)
batches-Partition_example = batches-Partition unordered 2 requests (omega arith)

abbrev hashed_new : FileRef → Option Text
hashed_new f = some (codes "new")

smudge_racy_mtime-touches_of_example :
    ((leb_ℤ (pos 6) (pos 6) ≡ true)
      → touches_of hashed_new (codes "/w/b.md") (pos 6) (some (snapshot (codes "/w/b.md")))
        ≡ some (touch (codes "/w/b.md") (snapshot (codes "/w/b.md")) (pos 6) none))
    × ((leb_ℤ (pos 6) (pos 6) ≡ false)
        → (pos 5 ≡ pos 6)
          × ((hashed_new (codes "/w/b.md") ≡ some (codes "h"))
              → touches_of hashed_new (codes "/w/b.md") (pos 6) (some (snapshot (codes "/w/b.md")))
                ≡ none))
unfolding smudge_racy_mtime
smudge_racy_mtime-touches_of_example =
    smudge_racy_mtime-touches_of hashed_new (codes "/w/b.md") (pos 6) (pos 6)
      (snapshot (codes "/w/b.md")) refl

abbrev hash : Bytes → Text
hash bytes = codes "new"

abbrev plain : Bytes → FileFormat
plain bytes = plain_text_file

prepare_file-Outcomes_example :
    ((e : Error)
      → (prepare_file disk_bytes hash plain extract (request (codes "/w/a.md")) (pos 9) none
          ≡ err e)
        ↔ Aborts disk_bytes hash plain extract (request (codes "/w/a.md")) (pos 9) none e)
    × ((pf : PreparedFile)
        → (prepare_file disk_bytes hash plain extract (request (codes "/w/a.md")) (pos 9) none
            ≡ ok (file pf))
          ↔ Indexes disk_bytes hash plain extract (request (codes "/w/a.md")) (pos 9) none pf)
prepare_file-Outcomes_example =
    prepare_file-Outcomes disk_bytes hash plain extract (request (codes "/w/a.md")) (pos 9) none

-- The new file is written, and the empty and the vanished one are deleted.
stats_after : List ℕ
unfolding apply_with_lane
stats_after = elim (apply_with_lane context changes) [
  | done a r ↦
      r.stats.files_upserted ∷ r.stats.files_touched ∷ r.stats.files_deleted
      ∷ r.stats.files_skipped_empty ∷ r.stats.chunks_inserted ∷ []
  | stopped e r ↦ []
]

stats_after_changes : stats_after ≡ 1 ∷ 0 ∷ 2 ∷ 1 ∷ 1 ∷ []
unfolding stats_after after starts_with
stats_after_changes = refl
