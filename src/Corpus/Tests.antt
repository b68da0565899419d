-- ===== src/Corpus/Tests.antt =====
-- Runs of the claim-mark operations, and their theorems at concrete lines.
use hallouminate.Common.{none, true, List, ◌≡◌, refl, some, [], ◌∷◌, arith}
use hallouminate.Text.{Text, codes, is_whitespace}
use hallouminate.Corpus.Section.{
  append, ok, Heading, replace_line_range, replace_unique_match, splice_under_heading,
}
use hallouminate.Corpus.Section.Lines.{LinesReplaced, replace_line_range-LinesReplaced}
use hallouminate.Corpus.Section.Splices.{Spliced, splice_under_heading-Spliced}
use hallouminate.Corpus.Breadcrumbs.{HeadingEvent, build_breadcrumbs, heading_path_at}
use hallouminate.Corpus.Breadcrumbs.Paths.{build_breadcrumbs-expected, expected_crumbs}
use hallouminate.Corpus.Footnotes.{
  Events, footnote_reference, start_definition, shown_text, end_definition, ranges_of,
  exclude_footnotes, only_footnotes, extract_footnotes,
}
use hallouminate.Common.{◌≤◌, length}
use hallouminate.Corpus.Snippet.{snippet_cap, make_snippet}
use hallouminate.Corpus.Snippet.Words.{Shows, make_snippet-Shows}
use hallouminate.Text.Words.{split_whitespace}
use hallouminate.Corpus.Footnotes.Deletions.{inside, survivors}
use hallouminate.Corpus.Footnotes.Exclude.{exclude_footnotes-survivors}
use hallouminate.Corpus.ClaimMarks.Strip.{strip_claim_marks-removes_all}
use hallouminate.Corpus.ClaimMarks.{
  superseded, extract_claim_marks, strip_claim_marks, unrecognized_status, lint_claim_marks,
}

abbrev sample : Text
sample =
    codes "a\nb <!--claim:Superseded ref=x/y note=\"so it is\"--> c\n<!--claim:odd--><!-- z -->"

-- The removal of the first comment puts a second one together.
abbrev nested : Text
nested = codes "<<!--claim:confirmed-->!--claim:odd-->x"

sample_marks :
    extract_claim_marks sample
    ≡ record {
      status = superseded;
      line = 2;
      reference = some (codes "x/y");
      note = some (codes "so it is");
    }
      ∷ []
unfolding extract_claim_marks
sample_marks = refl

sample_stripped : strip_claim_marks sample ≡ codes "a\nb  c\n<!-- z -->"
unfolding strip_claim_marks
sample_stripped = refl

sample_lint : lint_claim_marks sample ≡ unrecognized_status 3 ∷ []
unfolding lint_claim_marks
sample_lint = refl

nested_stripped : strip_claim_marks nested ≡ codes "x"
unfolding strip_claim_marks
nested_stripped = refl

strip_claim_marks-removes_all_example :
    (extract_claim_marks (strip_claim_marks nested) ≡ [])
    × (lint_claim_marks (strip_claim_marks nested) ≡ [])
strip_claim_marks-removes_all_example = strip_claim_marks-removes_all nested

abbrev lines_page : Text
lines_page = codes "a\nb\nc"

line_edit :
    replace_line_range lines_page (record { start = 2; end = 2 }) (codes "x\n\n")
    ≡ ok (codes "a\nx\nc")
unfolding replace_line_range
line_edit = refl

match_edit : replace_unique_match (codes "one two") (codes "two") (codes "2") ≡ ok (codes "one 2")
unfolding replace_unique_match
match_edit = refl

-- The headings of a page with a section in a section.
abbrev outline : Text → List Heading
outline doc =
    record { level = 1; start = 0; line_end = 4; title = codes "A" }
    ∷ record { level = 2; start = 6; line_end = 11; title = codes "B" }
    ∷ record { level = 1; start = 13; line_end = 17; title = codes "C" }
    ∷ []

abbrev sections : Text
sections = codes "# A\na\n## B\nb\n# C\nc\n"

splice_edit :
    splice_under_heading outline sections (codes "A") append (codes "new")
    ≡ ok (codes "# A\na\n## B\nb\n\nnew\n\n# C\nc\n")
unfolding splice_under_heading is_whitespace
splice_edit = refl

replace_line_range-LinesReplaced_example :
    LinesReplaced lines_page
      (record { start = 2; end = 3 })
      (codes "x")
      (replace_line_range lines_page (record { start = 2; end = 3 }) (codes "x"))
replace_line_range-LinesReplaced_example =
    replace_line_range-LinesReplaced lines_page (record { start = 2; end = 3 }) (codes "x")

splice_under_heading-Spliced_example :
    Spliced sections
      (codes "A")
      append
      (codes "new")
      (outline sections)
      (splice_under_heading outline sections (codes "A") append (codes "new"))
splice_under_heading-Spliced_example =
    splice_under_heading-Spliced outline sections (codes "A") append (codes "new")

-- A page with headings of the levels 1, 2, 4 and 1.
abbrev headings : Text → List HeadingEvent
headings text =
    record { level = 1; start = 0; title = codes "A" }
    ∷ record { level = 2; start = 5; title = codes "B" }
    ∷ record { level = 4; start = 9; title = codes "D" }
    ∷ record { level = 1; start = 15; title = codes "C" }
    ∷ []

breadcrumb_run :
    heading_path_at 12 (build_breadcrumbs headings []) ≡ some (codes "A" ∷ codes "B" ∷ [])
unfolding heading_path_at build_breadcrumbs
breadcrumb_run = refl

build_breadcrumbs-expected_example :
    build_breadcrumbs headings []
    ≡ record { byte_offset = 0; path = [] } ∷ expected_crumbs [] (headings [])
build_breadcrumbs-expected_example =
    build_breadcrumbs-expected headings []
      (omega arith, (omega arith, (omega arith, (omega arith, tt))))

abbrev noted : Text
noted = codes "a[^1]b\n[^1]: x\n"

abbrev noted_events : Text → Events
noted_events text =
    (footnote_reference, record { start = 1; end = 5 })
    ∷ (start_definition (codes "1"), record { start = 7; end = 15 })
    ∷ (shown_text (codes "x"), record { start = 13; end = 14 })
    ∷ (end_definition, record { start = 7; end = 15 })
    ∷ []

noted_run :
    (exclude_footnotes noted_events noted ≡ codes "ab\n")
    × (only_footnotes noted_events noted ≡ codes "[^1]: x\n")
    × (extract_footnotes noted_events noted ≡ (codes "1", codes "x") ∷ [])
unfolding exclude_footnotes only_footnotes extract_footnotes is_whitespace
noted_run = (refl, refl, refl)

exclude_footnotes-survivors_example :
    exclude_footnotes noted_events noted
    ≡ survivors (inside (ranges_of true none (noted_events noted))) 0 noted
unfolding ranges_of
exclude_footnotes-survivors_example =
    exclude_footnotes-survivors noted_events noted (omega arith, (omega arith, tt))

make_snippet-Shows_example :
    (length (make_snippet (codes "One  two\n")) ≤ snippet_cap)
    × Shows (split_whitespace (codes "One  two\n")) (make_snippet (codes "One  two\n"))
make_snippet-Shows_example = make_snippet-Shows (codes "One  two\n")

two_words : make_snippet (codes " One  two\n") ≡ codes "One two"
unfolding make_snippet
two_words = refl
