-- ===== src/Indexer/Format.antt =====
-- The detection of a file's format in crates/hallouminate-domain/src/indexer/format.rs. The sniff of
-- the first bytes (the `file-format` crate) is an argument.
use hallouminate.Common.{Option, none, some, Bool, ◌||◌, if◌then◌else◌}
use hallouminate.Indexer.ContentKey.{Bytes}
use hallouminate.Text.{Text, codes, equal, to_ascii_lowercase}
use hallouminate.Text.Paths.{extension}

pub data Format : Type 0 where
  markdown plain_text rst spreadsheet pdf json jsonl : Format

-- The kinds of `FileFormat` that the match names, and all the others.
pub data FileFormat : Type 0 where
  office_open_xml_spreadsheet microsoft_excel_spreadsheet opendocument_spreadsheet : FileFormat
  plain_text_file portable_document_format other_format : FileFormat

-- The match on the extension in lower case.
unfoldable pub format_of_extension : Text → Option Format
unfolding equal
format_of_extension ext =
    let is : Text → Bool = equal ext in
    if is (codes "md") || is (codes "markdown")
    then some markdown
    else if is (codes "txt")
        || is (codes "text")
        || is (codes "adoc")
        || is (codes "asciidoc")
        || is (codes "org")
    then some plain_text
    else if is (codes "rst")
    then some rst
    else if is (codes "csv") || is (codes "xlsx") || is (codes "xls") || is (codes "ods")
    then some spreadsheet
    else if is (codes "pdf")
    then some pdf
    else if is (codes "json")
    then some json
    else if is (codes "jsonl")
    then some jsonl
    else none

-- `none` where no extension is usable, `some none` where the format is not supported
unfoldable pub format_from_extension : Text → Option (Option Format)
unfolding extension format_of_extension to_ascii_lowercase
format_from_extension path = elim (extension path) [
  | none ↦ none
  | some ext ↦ some (format_of_extension (to_ascii_lowercase ext))
]

unfoldable pub detect_by_magic : FileFormat → Option Format
detect_by_magic office_open_xml_spreadsheet = some spreadsheet
detect_by_magic microsoft_excel_spreadsheet = some spreadsheet
detect_by_magic opendocument_spreadsheet = some spreadsheet
detect_by_magic plain_text_file = some plain_text
detect_by_magic portable_document_format = some pdf
detect_by_magic other_format = none

unfoldable pub detect_format : (Bytes → FileFormat) → Text → Bytes → Option Format
unfolding format_from_extension detect_by_magic
detect_format sniff path bytes = elim (format_from_extension path) [
  | some ext_format ↦ ext_format
  | none ↦ detect_by_magic (sniff bytes)
]
