-- ===== src/Ground/Bucket/Documents.antt =====
-- What a document of crates/hallouminate-domain/src/ground/bucket.rs shows of its file (`into_doc`).
use mathlib.Core.Path.{subst}
use hallouminate.Common.{
  ℕ, zero, suc, ◌≡◌, refl, ◌∙◌, sym, ap, ◌%◌, Option, none, some, List, [], ◌∷◌, false, length,
  take,
}
use hallouminate.Common.Int.{ℤ}
use hallouminate.Common.Order.{Lawful, then_with-Lawful, reversed-Lawful, on-Lawful, compare-Lawful}
use hallouminate.Common.SortBy.{
  count_if, SameBag, sort_by, IsSortedBy, count_if-sort_by, sort_by-IsSortedBy,
}
use hallouminate.Corpus.Footnotes.{Events, apply_footnote_mode}
use hallouminate.Corpus.Snippet.{make_snippet}
use hallouminate.Ground.Bucket.{
  Rollup, FileBucket, chunk_order, alone, doc_chunk, doc_chunks, entries, described, coverage,
  into_doc, docs_of,
}
use hallouminate.Ground.Cut.{Entry}
use hallouminate.Ground.Pages.{PageEntry, coverage_of}
use hallouminate.Ground.Pages.Grouped.{grouped, has_page, count_or_none, group_by_page-Paged}
use hallouminate.Ground.Types.{
  GroundMatch, ranked, phrase, GroundGroupBy, chunk, page, GroundOutput, hits_output, counts_output,
  FileCoverage, DocChunk, DocFile,
}
use hallouminate.Search.Types.{Floats, SearchHit, compare_score}
use hallouminate.Text.{Text}
use hallouminate.Text.Order.{compare_text-Lawful}

take_nil : {A : Type 0} (n : ℕ) → take {A = A} n [] ≡ []
take_nil zero = refl
take_nil (suc n) = refl

module _ {F : Type 0} (num : Floats F) (lowest : F) (parse : Text → Events) (rfc3339 : ℤ → Text)
    (rollup : Rollup) where
  -- A chunk of the answer shows this hit, and stands for so many.
  pub record ShowsHit (hit : SearchHit F) (stands_for : Option ℕ) (c : DocChunk F) : Type 0 where
    pub id : c.chunk_id ≡ hit.chunk_id
    pub path : c.heading_path ≡ hit.heading_path
    pub lines : c.line_range ≡ (hit.line_start % 4294967296, hit.line_end % 4294967296)
    pub score : c.score ≡ hit.score
    pub z_score : c.z_score ≡ hit.z_score
    pub snippet : c.snippet ≡ make_snippet (apply_footnote_mode parse hit.text rollup.footnote_mode)
    pub marks : c.provenance.claim_marks ≡ hit.claim_marks
    pub corpus : c.provenance.corpus ≡ []
    pub count : c.chunk_count ≡ stands_for

  -- One chunk for each of the first few entries.
  abbrev pub ShowsAll : ℕ → List (PageEntry F) → List (DocChunk F) → Type 0
  ShowsAll limit [] cs = cs ≡ []
  ShowsAll zero (e ∷ es) cs = cs ≡ []
  ShowsAll (suc limit) (e ∷ es) [] = ⊥
  ShowsAll (suc limit) ((hit, count) ∷ es) (c ∷ cs) = ShowsHit hit count c × ShowsAll limit es cs

  abbrev pub ShowsEach : ℕ → List (SearchHit F) → List (DocChunk F) → Type 0
  ShowsEach limit [] cs = cs ≡ []
  ShowsEach zero (hit ∷ hits) cs = cs ≡ []
  ShowsEach (suc limit) (hit ∷ hits) [] = ⊥
  ShowsEach (suc limit) (hit ∷ hits) (c ∷ cs) = ShowsHit hit none c × ShowsEach limit hits cs

  -- The hits of the file, best first, each on its own or by page, or counted only.
  abbrev pub ShowsChunks : GroundOutput → GroundGroupBy → List (SearchHit F) → DocFile F → Type 0
  ShowsChunks hits_output chunk hits doc =
      ShowsEach rollup.chunks_per_file hits doc.chunks × (doc.coverage ≡ none)
  ShowsChunks hits_output page hits doc =
      ShowsAll rollup.chunks_per_file (grouped [] hits) doc.chunks × (doc.coverage ≡ none)
  ShowsChunks counts_output group_by hits doc =
      (doc.chunks ≡ [])
      × (doc.coverage
          ≡ some (record {
            chunks = length hits;
            pages = count_or_none (count_if has_page (grouped [] hits));
          }))

  -- Only an answer with hits describes the file.
  abbrev pub Describes : GroundOutput → FileBucket F → DocFile F → Type 0
  Describes hits_output b doc = (doc.summary ≡ b.summary) × (doc.keywords ≡ b.keywords)
  Describes counts_output b doc = (doc.summary ≡ none) × (doc.keywords ≡ [])

  -- The document of a file.
  pub record IsDocument (b : FileBucket F) (e : Entry F) : Type 0 where
    pub file : e.0 ≡ b.file_ref
    pub score : e.1.score ≡ b.score
    pub z_score : e.1.z_score ≡ b.z_score
    pub time : e.1.mtime ≡ rfc3339 b.mtime_ms
    pub corpus : e.1.corpus ≡ []
    pub path : e.1.path ≡ none
    pub stale : e.1.stale ≡ false
    pub description : Describes rollup.output b e.1
    pub hits : List (SearchHit F)
    pub same : SameBag hits b.chunks
    pub sorted : IsSortedBy (chunk_order num rollup.match_mode) hits
    pub shown : ShowsChunks rollup.output rollup.group_by hits e.1

  chunk_order-Lawful :
      Lawful (compare_score num) → (mode : GroundMatch) → Lawful (chunk_order num mode)
  chunk_order-Lawful l ranked =
      then_with-Lawful (on-Lawful (λ (h : SearchHit F). h.score) (reversed-Lawful l))
        (on-Lawful (λ (h : SearchHit F). h.chunk_id) compare_text-Lawful)
  chunk_order-Lawful l phrase =
      then_with-Lawful (on-Lawful (λ (h : SearchHit F). h.score) (reversed-Lawful l)) (
        then_with-Lawful (on-Lawful (λ (h : SearchHit F). h.line_start) compare-Lawful)
          (on-Lawful (λ (h : SearchHit F). h.chunk_id) compare_text-Lawful))

  doc_chunk-ShowsHit :
      (hit : SearchHit F) (n : Option ℕ)
      → ShowsHit hit n (doc_chunk num lowest parse rfc3339 rollup.footnote_mode (hit, n))
  doc_chunk-ShowsHit hit n = record {
    id = refl;
    path = refl;
    lines = refl;
    score = refl;
    z_score = refl;
    snippet = refl;
    marks = refl;
    corpus = refl;
    count = refl;
  }

  doc_chunks-ShowsAll :
      (limit : ℕ) (es : List (PageEntry F))
      → ShowsAll limit es (doc_chunks num lowest parse rfc3339 rollup.footnote_mode (take limit es))
  doc_chunks-ShowsAll zero [] = refl
  doc_chunks-ShowsAll (suc limit) [] = refl
  doc_chunks-ShowsAll zero (e ∷ es) = refl
  doc_chunks-ShowsAll (suc limit) ((hit, n) ∷ es) =
      (doc_chunk-ShowsHit hit n, doc_chunks-ShowsAll limit es)

  doc_chunks-ShowsEach :
      (limit : ℕ) (hits : List (SearchHit F))
      → ShowsEach limit hits
          (doc_chunks num lowest parse rfc3339 rollup.footnote_mode (take limit (alone hits)))
  doc_chunks-ShowsEach zero [] = refl
  doc_chunks-ShowsEach (suc limit) [] = refl
  doc_chunks-ShowsEach zero (hit ∷ hits) = refl
  doc_chunks-ShowsEach (suc limit) (hit ∷ hits) =
      (doc_chunk-ShowsHit hit none, doc_chunks-ShowsEach limit hits)

  coverage_of-grouped :
      (hits : List (SearchHit F))
      → coverage_of hits ≡ record {
        chunks = length hits;
        pages = count_or_none (count_if has_page (grouped [] hits));
      }
  unfolding coverage_of
  coverage_of-grouped hits =
      let paged = group_by_page-Paged hits in
      let e : (coverage_of hits).pages ≡ count_or_none (count_if has_page (grouped [] hits)) =
        paged.pages ∙ ap (λ es. count_or_none (count_if has_page es)) paged.entries in
      ap {B = FileCoverage} (λ (p : Option ℕ). record { chunks = length hits; pages = p }) e

  -- By what the answer holds.
  entries-ShowsChunks :
      (output : GroundOutput) (group_by : GroundGroupBy) (hits : List (SearchHit F))
      (doc : DocFile F)
      → doc.chunks
        ≡ doc_chunks num lowest parse rfc3339 rollup.footnote_mode
            (take rollup.chunks_per_file (entries num lowest parse rfc3339 output group_by hits))
      → doc.coverage ≡ coverage num lowest parse rfc3339 output hits
      → ShowsChunks output group_by hits doc
  entries-ShowsChunks hits_output chunk hits doc c v = (
    subst (ShowsEach rollup.chunks_per_file hits) (sym c)
        (doc_chunks-ShowsEach rollup.chunks_per_file hits),
    v,
  )
  entries-ShowsChunks hits_output page hits doc c v = (
    subst (ShowsAll rollup.chunks_per_file (grouped [] hits)) (sym c) (
        subst
          (λ es. ShowsAll rollup.chunks_per_file (grouped [] hits) (
            doc_chunks num lowest parse rfc3339 rollup.footnote_mode
              (take rollup.chunks_per_file es)))
          (sym (group_by_page-Paged hits).entries)
          (doc_chunks-ShowsAll rollup.chunks_per_file (grouped [] hits))),
    v,
  )
  entries-ShowsChunks counts_output group_by hits doc c v = (
    c
        ∙ ap (doc_chunks num lowest parse rfc3339 rollup.footnote_mode)
            (take_nil rollup.chunks_per_file),
    v ∙ ap some (coverage_of-grouped hits),
  )

  described-Describes :
      (output : GroundOutput) (b : FileBucket F) (doc : DocFile F)
      → doc.summary ≡ (described num lowest parse rfc3339 output b).0
      → doc.keywords ≡ (described num lowest parse rfc3339 output b).1
      → Describes output b doc
  described-Describes hits_output b doc s k = (s, k)
  described-Describes counts_output b doc s k = (s, k)

  pub into_doc-IsDocument :
      Lawful (compare_score num)
      → (b : FileBucket F) → IsDocument b (into_doc num lowest parse rfc3339 rollup b)
  unfolding into_doc
  into_doc-IsDocument l b =
      let hits = sort_by (chunk_order num rollup.match_mode) b.chunks in
      record {
        file = refl;
        score = refl;
        z_score = refl;
        time = refl;
        corpus = refl;
        path = refl;
        stale = refl;
        description =
            described-Describes rollup.output b (into_doc num lowest parse rfc3339 rollup b).1 refl
              refl;
        hits = hits;
        same = λ p. count_if-sort_by (chunk_order num rollup.match_mode) p b.chunks;
        sorted =
            sort_by-IsSortedBy (chunk_order num rollup.match_mode)
              (chunk_order-Lawful l rollup.match_mode) b.chunks;
        shown =
            entries-ShowsChunks rollup.output rollup.group_by hits
              (into_doc num lowest parse rfc3339 rollup b).1 refl refl;
      }

  -- One document for each file, in their order.
  abbrev pub Documents : List (FileBucket F) → List (Entry F) → Type 0
  Documents [] docs = docs ≡ []
  Documents (b ∷ bs) [] = ⊥
  Documents (b ∷ bs) (e ∷ docs) = IsDocument b e × Documents bs docs

  pub docs_of-Documents :
      Lawful (compare_score num)
      → (bs : List (FileBucket F)) → Documents bs (docs_of num lowest parse rfc3339 rollup bs)
  unfolding docs_of
  docs_of-Documents l [] = refl
  docs_of-Documents l (b ∷ bs) = (into_doc-IsDocument l b, docs_of-Documents l bs)
