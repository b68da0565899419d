-- ===== src/Indexer/Writer/Skips.antt =====
-- What `prepare_file` of crates/hallouminate-domain/src/indexer/writer.rs makes of a file it cannot
-- index: only a failed read is an error.
use hallouminate.Common.{◌≡◌, ◌≢◌, ◌↔◌, refl, Option, none, some, arith}
use hallouminate.Common.Int.{ℤ}
use hallouminate.Indexer.ContentKey.{Bytes, PreparedFile}
use hallouminate.Indexer.Format.{Format, FileFormat, format_from_extension, detect_format}
use hallouminate.Indexer.Writer.{
  Error, Result, ok, err, WriteRequest, file, PrepareCtx, Extraction, extracted, context,
  prepare_file, bytes_of,
}
use hallouminate.Indexer.Types.{FileRef}
use hallouminate.Text.{Text}

module _ (read : FileRef → Result Bytes) (blake3_bytes : Bytes → Text) (sniff : Bytes → FileFormat)
    (handler : Format → PrepareCtx → Extraction) where
  module _ (req : WriteRequest) (now_ms : ℤ) (bytes_override : Option Bytes) where
    abbrev bytes_read : Result Bytes
    bytes_read = bytes_of bytes_override (read req.file)

    -- An error is a failed read of a file whose extension is not known as unsupported.
    abbrev pub Aborts : Error → Type 0
    Aborts e =
        (format_from_extension req.file ≢ some none)
        × (bytes_override ≡ none)
        × (read req.file ≡ err e)

    -- A file is indexed by the handler of its format, on its bytes.
    abbrev pub Indexes : PreparedFile → Type 0
    Indexes pf =
        (bytes : Bytes) × (format : Format) × (bytes_read ≡ ok bytes)
        × (detect_format sniff req.file bytes ≡ some format)
        × (handler format (context read blake3_bytes sniff handler req now_ms bytes) ≡ extracted pf)

    override_err :
        (o : Option Bytes) (e : Error)
        → bytes_of o (read req.file) ≡ err e
        → (o ≡ none) × (read req.file ≡ err e)
    override_err none e h = (refl, h)
    override_err (some b) e h = ground (arith, h)

    prepare_file-Aborts :
        (e : Error)
        → (prepare_file read blake3_bytes sniff handler req now_ms bytes_override ≡ err e)
          ↔ Aborts e
    unfolding prepare_file
    prepare_file-Aborts e = ground (arith, override_err bytes_override e)

    prepare_file-Indexes :
        (pf : PreparedFile)
        → (prepare_file read blake3_bytes sniff handler req now_ms bytes_override ≡ ok (file pf))
          ↔ Indexes pf
    unfolding prepare_file detect_format
    prepare_file-Indexes pf = ground arith

    -- Preparing a file is an error exactly where reading it fails, which is not tried for an
    -- extension known as unsupported or where the bytes are given. It yields a file to index exactly
    -- where the bytes are there, have a supported format, and the handler of that format extracts
    -- it. All else, a failed or panicking extraction too, is a skip.
    pub prepare_file-Outcomes :
        ((e : Error)
          → (prepare_file read blake3_bytes sniff handler req now_ms bytes_override ≡ err e)
            ↔ Aborts e)
        × ((pf : PreparedFile)
            → (prepare_file read blake3_bytes sniff handler req now_ms bytes_override
                ≡ ok (file pf))
              ↔ Indexes pf)
    prepare_file-Outcomes = (prepare_file-Aborts, prepare_file-Indexes)
