-- ===== src/Indexer/ContentKey/Stream.antt =====
-- The hashed stream determines all that it is made of.
use hallouminate.Common.{ℕ, ◌≡◌, refl, Bool, true, false, none, some, [], if◌then◌else◌, arith, ◌↔◌}
use hallouminate.Indexer.ContentKey.{
  Bytes, ChunkStructure, PreparedChunk, PreparedFile, put, put_heading, put_structure, put_chunk,
  stream,
}
use hallouminate.Indexer.ContentKey.Readable.{
  head_eq, tail_eq, Readable, IsWord, IsShort, Fitting, Counted, put_count-Readable, put-Readable,
  put_optional-Readable, put_list-Readable,
}

abbrev pub HeadingFits : ℕ × Bytes → Type 0
HeadingFits (level, text) = IsShort text

put_heading-Readable : Readable HeadingFits put_heading
unfolding put_heading
put_heading-Readable (l, x) (m, y) s t hx hy e =
    let (same, rest) = put-Readable x y s t hx hy (tail_eq e) in let level = head_eq e in (cc, rest)

-- The sizes in a chunk's structure are words.
abbrev pub StructureFits : ChunkStructure → Type 0
StructureFits s = Fitting IsShort s.title × Counted HeadingFits s.headings

abbrev flag : Bool → ℕ
flag a = if a then 1 else 0

flag_eq : (a b : Bool) → flag a ≡ flag b → a ≡ b
flag_eq true true e = refl
flag_eq true false e = absurd (omega (arith, e))
flag_eq false true e = absurd (omega (arith, e))
flag_eq false false e = refl

put_structure-Readable : Readable (Fitting StructureFits) put_structure
unfolding put_structure
put_structure-Readable none none s t hx hy e = (refl, tail_eq e)
put_structure-Readable none (some y) s t hx hy e = absurd (omega (arith, head_eq e))
put_structure-Readable (some x) none s t hx hy e = absurd (omega (arith, head_eq e))
put_structure-Readable (some x) (some y) s t hx hy e =
    let (title, e1) = put_optional-Readable x.title y.title _ _ hx.0 hy.0 (tail_eq e) in
    let (headings, e2) =
      put_list-Readable HeadingFits put_heading put_heading-Readable x.headings y.headings _ _ hx.1
        hy.1 e1 in
    let generated = flag_eq x.generated_navigation y.generated_navigation (head_eq e2) in
    (cc, tail_eq e2)

-- The sizes, numbers and offsets in a chunk are words.
pub record ChunkFits (c : PreparedChunk) : Type 0 where
  pub ord_fits : IsWord c.ord
  pub path_fits : Counted IsShort c.heading_path
  pub start_fits : IsWord c.line_start
  pub end_fits : IsWord c.line_end
  pub text_fits : IsShort c.text
  pub search_text_fits : IsShort c.search_text
  pub marks_fit : Fitting IsShort c.claim_marks
  pub structure_fits : Fitting StructureFits c.structure
  pub overlap_fits : IsWord c.overlap_bytes

put_chunk-Readable : Readable ChunkFits put_chunk
unfolding put_chunk
put_chunk-Readable x y s t hx hy e =
    let (ord, e1) = put_count-Readable x.ord y.ord _ _ hx.ord_fits hy.ord_fits e in
    let (path, e2) =
      put_list-Readable IsShort put put-Readable x.heading_path y.heading_path _ _ hx.path_fits
        hy.path_fits e1 in
    let (start, e3) =
      put_count-Readable x.line_start y.line_start _ _ hx.start_fits hy.start_fits e2 in
    let (finish, e4) = put_count-Readable x.line_end y.line_end _ _ hx.end_fits hy.end_fits e3 in
    let (text, e5) = put-Readable x.text y.text _ _ hx.text_fits hy.text_fits e4 in
    let (search_text, e6) =
      put-Readable x.search_text y.search_text _ _ hx.search_text_fits hy.search_text_fits e5 in
    let (marks, e7) =
      put_optional-Readable x.claim_marks y.claim_marks _ _ hx.marks_fit hy.marks_fit e6 in
    let (structure, e8) =
      put_structure-Readable x.structure y.structure _ _ hx.structure_fits hy.structure_fits e7 in
    let (overlap, rest) =
      put_count-Readable x.overlap_bytes y.overlap_bytes s t hx.overlap_fits hy.overlap_fits e8 in
    (cc, rest)

-- The sizes in a file are words, as those of any value in memory are.
pub record FileFits (file_name : Bytes → Bytes) (f : PreparedFile) : Type 0 where
  pub hash_fits : IsShort f.content_hash
  pub name_fits : IsShort (file_name f.file_ref)
  pub summary_fits : IsShort f.summary
  pub keywords_fit : Counted IsShort f.keywords
  pub frontmatter_fits : Fitting IsShort f.frontmatter
  pub chunks_fit : Counted ChunkFits f.chunks

-- What two files must have in common to share a content row.
pub record SameContent (file_name : Bytes → Bytes) (f g : PreparedFile) : Type 0 where
  pub same_hash : f.content_hash ≡ g.content_hash
  pub same_name : file_name f.file_ref ≡ file_name g.file_ref
  pub same_summary : f.summary ≡ g.summary
  pub same_keywords : f.keywords ≡ g.keywords
  pub same_frontmatter : f.frontmatter ≡ g.frontmatter
  pub same_chunks : f.chunks ≡ g.chunks

-- Two files feed the same bytes to the hasher exactly when they have the fingerprint, the content
-- hash, the file name and the whole derived output (summary, keywords, frontmatter, every field of
-- every chunk) in common; directory, root, mtime and index time do not matter. The sizes in the
-- files and fingerprints are 64-bit words.
pub stream-SameContent :
    (file_name : Bytes → Bytes) (f g : PreparedFile) (fp gp : Bytes)
    → FileFits file_name f
    → FileFits file_name g
    → IsShort fp
    → IsShort gp
    → (stream file_name f fp ≡ stream file_name g gp) ↔ ((fp ≡ gp) × SameContent file_name f g)
unfolding stream
stream-SameContent file_name f g fp gp hf hg short_f short_g = (read_back, written)
  where
    read_back :
        stream file_name f fp ≡ stream file_name g gp → (fp ≡ gp) × SameContent file_name f g
    read_back e =
        let (hash, e1) =
          put-Readable f.content_hash g.content_hash _ _ hf.hash_fits hg.hash_fits e in
        let (name, e2) =
          put-Readable (file_name f.file_ref) (file_name g.file_ref) _ _ hf.name_fits hg.name_fits
            e1 in
        let (print, e3) = put-Readable fp gp _ _ short_f short_g e2 in
        let (summary, e4) =
          put-Readable f.summary g.summary _ _ hf.summary_fits hg.summary_fits e3 in
        let (keywords, e5) =
          put_list-Readable IsShort put put-Readable f.keywords g.keywords _ _ hf.keywords_fit
            hg.keywords_fit e4 in
        let (frontmatter, e6) =
          put_optional-Readable f.frontmatter g.frontmatter _ _ hf.frontmatter_fits
            hg.frontmatter_fits e5 in
        let (chunks, rest) =
          put_list-Readable ChunkFits put_chunk put_chunk-Readable f.chunks g.chunks [] []
            hf.chunks_fit hg.chunks_fit e6 in
        (
          print,
          record {
            same_hash = hash;
            same_name = name;
            same_summary = summary;
            same_keywords = keywords;
            same_frontmatter = frontmatter;
            same_chunks = chunks;
          },
        )

    written : (fp ≡ gp) × SameContent file_name f g → stream file_name f fp ≡ stream file_name g gp
    written (print, same) = rw (
      print, same.same_hash, same.same_name, same.same_summary, same.same_keywords,
      same.same_frontmatter, same.same_chunks,
    )
