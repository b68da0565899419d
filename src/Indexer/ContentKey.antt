-- ===== src/Indexer/ContentKey.antt =====
-- crates/hallouminate-domain/src/indexer/content_key.rs, and the types of chunk.rs that it reads:
-- what the key of a shared content row is the hash of.
--
-- A string is its UTF-8 bytes here. Each function puts its bytes before those that the later calls
-- feed to the hasher. The hash and the name of a path (`Path::file_name`) are arguments.
pub mod Readable
pub mod Stream
use hallouminate.Common.{
  ℕ, zero, suc, ◌/◌, ◌%◌, Bool, true, false, Option, none, some, List, [], ◌∷◌, ◌++◌, length,
  if◌then◌else◌,
}
use hallouminate.Common.Int.{ℤ}
use hallouminate.Indexer.Types.{CorpusKey}
use hallouminate.Text.{codes, to_decimal}

abbrev pub Bytes : Type 0
Bytes = List ℕ

pub record ChunkStructure : Type 0 where
  pub title : Option Bytes
  pub headings : List (ℕ × Bytes)
  pub generated_navigation : Bool

pub record PreparedChunk : Type 0 where
  pub ord : ℕ
  pub heading_path : List Bytes
  pub line_start : ℕ
  pub line_end : ℕ
  pub text : Bytes
  pub search_text : Bytes
  pub claim_marks : Option Bytes
  pub structure : Option ChunkStructure
  pub overlap_bytes : ℕ

pub record PreparedFile : Type 0 where
  pub file_ref : Bytes
  pub corpus_key : CorpusKey
  pub mtime_ms : ℤ
  pub content_hash : Bytes
  pub summary : Bytes
  pub keywords : List Bytes
  pub frontmatter : Option Bytes
  pub indexed_at_ms : ℤ
  pub chunks : List PreparedChunk

pub data Quantization : Type 0 where
  quantized full : Quantization

pub data EmbeddingsMode : Type 0 where
  enabled disabled : EmbeddingsMode

-- `{}` of a Boolean
shown : Bool → Bytes
shown true = codes "true"
shown false = codes "false"

-- `DerivationFingerprint::new`
unfoldable pub fingerprint : Bytes → Quantization → EmbeddingsMode → ℕ → Bytes
unfolding shown to_decimal
fingerprint model quantization embeddings schema_version =
    let is_quantized : Bool = elim quantization [ quantized ↦ true | full ↦ false ] in
    let is_enabled : Bool = elim embeddings [ enabled ↦ true | disabled ↦ false ] in
    codes "model="
    ++ model
    ++ codes ";quantized="
    ++ shown is_quantized
    ++ codes ";embeddings="
    ++ shown is_enabled
    ++ codes ";schema="
    ++ to_decimal schema_version

-- `to_le_bytes` of the low `k` bytes of `n`
unfoldable pub le_bytes : ℕ → ℕ → Bytes → Bytes
le_bytes zero n rest = rest
le_bytes (suc k) n rest = (n % 256) ∷ le_bytes k (n / 256) rest

unfoldable pub put_count : ℕ → Bytes → Bytes
unfolding le_bytes
put_count count rest = le_bytes 8 count rest

unfoldable pub put : Bytes → Bytes → Bytes
unfolding put_count
put bytes rest = put_count (length bytes) (bytes ++ rest)

unfoldable pub put_optional : Option Bytes → Bytes → Bytes
unfolding put
put_optional none rest = 0 ∷ rest
put_optional (some text) rest = 1 ∷ put text rest

-- A loop that feeds the elements one by one.
unfoldable pub put_all {ℓ} : {A : Type ℓ} → (A → Bytes → Bytes) → List A → Bytes → Bytes
put_all p [] rest = rest
put_all p (x ∷ xs) rest = p x (put_all p xs rest)

-- A count, and then the elements.
unfoldable pub put_list {ℓ} : {A : Type ℓ} → (A → Bytes → Bytes) → List A → Bytes → Bytes
unfolding put_count put_all
put_list p xs rest = put_count (length xs) (put_all p xs rest)

unfoldable pub put_heading : ℕ × Bytes → Bytes → Bytes
unfolding put
put_heading (level, text) rest = level ∷ put text rest

unfoldable pub put_structure : Option ChunkStructure → Bytes → Bytes
unfolding put_optional put_list put_heading
put_structure none rest = 0 ∷ rest
put_structure (some s) rest =
    1
    ∷ put_optional s.title
        (put_list put_heading s.headings ((if s.generated_navigation then 1 else 0) ∷ rest))

unfoldable pub put_chunk : PreparedChunk → Bytes → Bytes
unfolding put_count put_list put put_optional put_structure
put_chunk c rest = put_count c.ord (
    put_list put c.heading_path (
      put_count c.line_start (
        put_count c.line_end (
          put c.text (
            put c.search_text (
              put_optional c.claim_marks
                (put_structure c.structure (put_count c.overlap_bytes rest))))))))

module _ (file_name : Bytes → Bytes) where
  -- All that `derive` feeds to the hasher.
  unfoldable pub stream : PreparedFile → Bytes → Bytes
  unfolding put put_list put_optional put_chunk
  stream file fp = put file.content_hash (
      put (file_name file.file_ref) (
        put fp (
          put file.summary (
            put_list put file.keywords
              (put_optional file.frontmatter (put_list put_chunk file.chunks []))))))

  unfoldable pub derive : (Bytes → Bytes) → PreparedFile → Bytes → Bytes
  unfolding stream
  derive hash file fp = hash (stream file fp)
