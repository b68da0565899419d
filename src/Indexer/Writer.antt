-- ===== src/Indexer/Writer.antt =====
-- crates/hallouminate-domain/src/indexer/writer.rs: how one file is prepared for the index. The file
-- system, the hash, the sniff and the format handlers are arguments; a string is its code points.
pub mod Skips
use hallouminate.Common.{ℕ, zero, suc, Option, none, some, ◌++◌, length}
use hallouminate.Indexer.ContentKey.{Bytes, PreparedFile}
use hallouminate.Indexer.Format.{Format, FileFormat, format_from_extension, detect_format}
use hallouminate.Indexer.Types.{CorpusKey, FileRef, Mtime}
use hallouminate.Common.Int.{ℤ}
use hallouminate.Text.{Text, codes, strip_prefix, break_on}

-- `HallouminateError`: the indexer's own variant, and the display of any other.
pub data Error : Type 0 where
  indexer other : Text → Error

pub data Result {ℓ} (A : Type ℓ) : Type ℓ where
  ok : A → Result A
  err : Error → Result A

pub record WriteRequest : Type 0 where
  pub corpus_key : CorpusKey
  pub file : FileRef
  pub mtime : Mtime

pub data SkipReason : Type 0 where
  unsupported_format : SkipReason
  extraction_failed : Text → SkipReason

pub data Prepared : Type 0 where
  file : PreparedFile → Prepared
  skipped : SkipReason → Prepared

pub record PrepareCtx : Type 0 where
  pub corpus_key : CorpusKey
  pub file : FileRef
  pub mtime : Mtime
  pub bytes : Bytes
  pub content_hash : Text
  pub indexed_at_ms : ℤ

-- How a handler ends: with a file, with an error, or in a panic with its message.
pub data Extraction : Type 0 where
  extracted : PreparedFile → Extraction
  raised : Error → Extraction
  panicked : Text → Extraction

unfoldable pub extract_err : FileRef → Text → Error
extract_err path e = indexer (codes "extract " ++ path ++ codes ": " ++ e)

-- `str::replace`; one round of fuel for each character is enough.
unfoldable pub replace_from : ℕ → Text → Text → Text → Text
unfolding break_on
replace_from zero from to s = s
replace_from (suc fuel) from to s = elim (break_on from s) [
  | none ↦ s
  | some (before, after) ↦ before ++ to ++ replace_from fuel from to after
]

unfoldable pub extraction_cause : FileRef → Error → Text
unfolding replace_from strip_prefix
extraction_cause path (other shown) = shown
extraction_cause path (indexer message) =
    let cause : Text = elim (strip_prefix (codes "extract " ++ path ++ codes ": ") message) [
      | none ↦ message
      | some rest ↦ rest
    ] in
    replace_from (length cause) (codes " " ++ path ++ codes ":") (codes ":") cause

-- What a handler's end makes of the file: only a file is indexed.
unfoldable pub prepared_of : FileRef → Extraction → Prepared
unfolding extraction_cause extract_err
prepared_of path (extracted pf) = file pf
prepared_of path (raised e) = skipped (extraction_failed (extraction_cause path e))
prepared_of path (panicked message) = skipped (
    extraction_failed
      (extraction_cause path (extract_err path (codes "extraction panicked: " ++ message))))

abbrev pub bytes_of : Option Bytes → Result Bytes → Result Bytes
bytes_of none read = read
bytes_of (some bytes) read = ok bytes

module _ (read : FileRef → Result Bytes) (blake3_bytes : Bytes → Text) (sniff : Bytes → FileFormat)
    (handler : Format → PrepareCtx → Extraction) where
  abbrev pub context : WriteRequest → ℤ → Bytes → PrepareCtx
  context req indexed_at_ms bytes = record {
    corpus_key = req.corpus_key;
    file = req.file;
    mtime = req.mtime;
    bytes = bytes;
    content_hash = blake3_bytes bytes;
    indexed_at_ms = indexed_at_ms;
  }

  -- The bytes are there: the format decides.
  unfoldable pub prepare_bytes : WriteRequest → ℤ → Bytes → Prepared
  unfolding detect_format prepared_of
  prepare_bytes req indexed_at_ms bytes = elim (detect_format sniff req.file bytes) [
    | none ↦ skipped unsupported_format
    | some format ↦ prepared_of req.file (handler format (context req indexed_at_ms bytes))
  ]

  unfoldable pub prepare_read : WriteRequest → ℤ → Result Bytes → Result Prepared
  unfolding prepare_bytes
  prepare_read req indexed_at_ms (err e) = err e
  prepare_read req indexed_at_ms (ok bytes) = ok (prepare_bytes req indexed_at_ms bytes)

  unfoldable pub prepare_file : WriteRequest → ℤ → Option Bytes → Result Prepared
  unfolding format_from_extension prepare_read
  prepare_file req indexed_at_ms bytes_override = elim (format_from_extension req.file) [
    | some none ↦ ok (skipped unsupported_format)
    | some (some format) ↦ prepare_read req indexed_at_ms (bytes_of bytes_override (read req.file))
    | none ↦ prepare_read req indexed_at_ms (bytes_of bytes_override (read req.file))
  ]
