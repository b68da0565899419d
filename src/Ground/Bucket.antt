-- ===== src/Ground/Bucket.antt =====
-- The hits of a search as documents, crates/hallouminate-domain/src/ground/bucket.rs: a bucket for each
-- file (`FileBucket`), the best files of them (`roll_up`), and the document of a file (`into_doc`). The
-- Markdown parser and the format of a time are arguments, and `lowest` is `f64::MIN`. One type stands for
-- `f32` and `f64`, since the cast from the one to the other keeps the number.
pub mod Files
pub mod Documents
pub mod Rolled
use Prim.Native.Nat.{compare, Ordering}
use Prim.Native.Nat.Ordering.{gt}
use hallouminate.Assoc.{lookup, insert, values}
use hallouminate.Common.{
  ℕ, ◌%◌, Bool, true, false, Option, none, some, List, [], ◌∷◌, ◌++◌, take, if◌then◌else◌,
}
use hallouminate.Common.Int.{ℤ}
use hallouminate.Common.Order.{Cmp, then_with}
use hallouminate.Common.SortBy.{sort_by}
use hallouminate.Corpus.Footnotes.{Events, FootnoteMode, apply_footnote_mode}
use hallouminate.Corpus.Snippet.{make_snippet}
use hallouminate.Ground.Cut.{Entry, collect}
use hallouminate.Ground.Pages.{PageEntry, group_by_page, coverage_of}
use hallouminate.Ground.Types.{
  GroundMatch, ranked, phrase, GroundGroupBy, chunk, page, GroundOutput, hits_output, counts_output,
  FileCoverage, DocChunk, DocFile,
}
use hallouminate.Search.Types.{Floats, SearchHit, compare_score}
use hallouminate.Text.{Text}
use hallouminate.Text.Order.{compare_text}

pub record Rollup : Type 0 where
  pub chunks_per_file : ℕ
  pub footnote_mode : FootnoteMode
  pub match_mode : GroundMatch
  pub group_by : GroundGroupBy
  pub output : GroundOutput

pub record FileBucket (F : Type 0) : Type 0 where
  pub file_ref : Text
  pub summary : Option Text
  pub keywords : List Text
  pub score : F
  pub z_score : Option F
  pub mtime_ms : ℤ
  pub chunks : List (SearchHit F)

abbrev pub option_from : Text → Option Text
option_from [] = none
option_from (c ∷ s) = some (c ∷ s)

abbrev pub is_greater : Ordering → Bool
is_greater gt = true
is_greater o = false

-- Without pages, no entry has a count.
abbrev pub alone : {F : Type 0} → List (SearchHit F) → List (PageEntry F)
alone [] = []
alone (hit ∷ hits) = (hit, none) ∷ alone hits

module _ {F : Type 0} (num : Floats F) where
  -- `a > b`
  abbrev pub exceeds : F → F → Bool
  exceeds a b = is_greater (compare_score num a b)

  -- The file order of the roll-up.
  abbrev pub file_order : Cmp (FileBucket F)
  file_order a b =
      then_with (compare_score num b.score a.score) (compare_text a.file_ref b.file_ref)

  abbrev within_file : GroundMatch → Cmp (SearchHit F)
  within_file ranked a b = compare_text a.chunk_id b.chunk_id
  within_file phrase a b =
      then_with (compare a.line_start b.line_start) (compare_text a.chunk_id b.chunk_id)

  abbrev pub chunk_order : GroundMatch → Cmp (SearchHit F)
  chunk_order mode a b = then_with (compare_score num b.score a.score) (within_file mode a b)

  module _ (lowest : F) where
    abbrev pub new_bucket : SearchHit F → FileBucket F
    new_bucket hit = record {
      file_ref = hit.file_ref;
      summary = option_from hit.summary;
      keywords = hit.keywords;
      score = lowest;
      z_score = none;
      mtime_ms = hit.mtime_ms;
      chunks = [];
    }

    unfoldable pub push : SearchHit F → FileBucket F → FileBucket F
    push hit b =
        let chunks = b.chunks ++ hit ∷ [] in
        if exceeds hit.score b.score
        then record b { score = hit.score; z_score = hit.z_score; chunks = chunks }
        else record b { chunks = chunks }

    abbrev pub or_new : SearchHit F → Option (FileBucket F) → FileBucket F
    or_new hit none = new_bucket hit
    or_new hit (some b) = b

    unfoldable pub gather :
        List (SearchHit F) → List (Text × FileBucket F) → List (Text × FileBucket F)
    unfolding push lookup insert
    gather [] buckets = buckets
    gather (hit ∷ hits) buckets =
        gather hits
          (insert hit.file_ref (push hit (or_new hit (lookup hit.file_ref buckets))) buckets)

    module _ (parse : Text → Events) (rfc3339 : ℤ → Text) where
      abbrev pub doc_chunk : FootnoteMode → PageEntry F → DocChunk F
      doc_chunk mode (hit, chunk_count) = record {
        chunk_id = hit.chunk_id;
        heading_path = hit.heading_path;
        line_range = (hit.line_start % 4294967296, hit.line_end % 4294967296);
        score = hit.score;
        z_score = hit.z_score;
        snippet = make_snippet (apply_footnote_mode parse hit.text mode);
        provenance = record { corpus = []; claim_marks = hit.claim_marks };
        chunk_count = chunk_count;
      }

      abbrev pub doc_chunks : FootnoteMode → List (PageEntry F) → List (DocChunk F)
      doc_chunks mode [] = []
      doc_chunks mode (e ∷ es) = doc_chunk mode e ∷ doc_chunks mode es

      abbrev pub coverage : GroundOutput → List (SearchHit F) → Option FileCoverage
      coverage hits_output hits = none
      coverage counts_output hits = some (coverage_of hits)

      abbrev pub entries : GroundOutput → GroundGroupBy → List (SearchHit F) → List (PageEntry F)
      entries counts_output group_by hits = []
      entries hits_output chunk hits = alone hits
      entries hits_output page hits = group_by_page hits

      abbrev pub described : GroundOutput → FileBucket F → Option Text × List Text
      described hits_output b = (b.summary, b.keywords)
      described counts_output b = (none, [])

      unfoldable pub into_doc : Rollup → FileBucket F → Entry F
      unfolding sort_by group_by_page coverage_of make_snippet apply_footnote_mode
      into_doc rollup b =
          let chunks = sort_by (chunk_order rollup.match_mode) b.chunks in
          let shown = take rollup.chunks_per_file (entries rollup.output rollup.group_by chunks) in
          (
            b.file_ref,
            record {
              summary = (described rollup.output b).0;
              keywords = (described rollup.output b).1;
              score = b.score;
              z_score = b.z_score;
              mtime = rfc3339 b.mtime_ms;
              corpus = [];
              path = none;
              stale = false;
              chunks = doc_chunks rollup.footnote_mode shown;
              coverage = coverage rollup.output chunks;
            },
          )

      abbrev pub docs_of : Rollup → List (FileBucket F) → List (Entry F)
      unfolding into_doc
      docs_of rollup [] = []
      docs_of rollup (b ∷ bs) = into_doc rollup b ∷ docs_of rollup bs

      unfoldable pub roll_up : List (SearchHit F) → ℕ → Rollup → List (Entry F)
      unfolding gather values sort_by into_doc collect
      roll_up hits top_files rollup =
          collect (docs_of rollup (take top_files (sort_by file_order (values (gather hits [])))))
