-- ===== src/Corpus/Snippet.antt =====
-- The snippet of a chunk, crates/hallouminate-domain/src/corpus/snippet.rs.
pub mod Words
use hallouminate.Common.{ℕ, ◌+◌, List, [], ◌∷◌, ◌++◌, length, take, ltb, if◌then◌else◌}
use hallouminate.Text.{Text}
use hallouminate.Text.Words.{split_whitespace}

abbrev pub snippet_cap : ℕ
snippet_cap = 240

abbrev pub space_chars : Text → ℕ
space_chars [] = 0
space_chars (c ∷ out) = 1

-- What is left where a word does not fit any more: the snippet so far, or the start of the first word.
abbrev pub cut_at : Text → Text → Text
cut_at [] word = take snippet_cap word
cut_at (c ∷ out) word = c ∷ out

abbrev pub spaced : Text → Text → Text
spaced [] word = word
spaced (c ∷ out) word = (c ∷ out) ++ b' ' ∷ word

-- The loop over the words; `chars_so_far` are the characters of `out`.
unfoldable pub snippet_from : Text → ℕ → List Text → Text
snippet_from out chars_so_far [] = out
snippet_from out chars_so_far (word ∷ words) =
    let needed = chars_so_far + space_chars out + length word in
    let rest = snippet_from (spaced out word) needed words in
    if ltb snippet_cap needed then cut_at out word else rest

unfoldable pub make_snippet : Text → Text
unfolding split_whitespace snippet_from
make_snippet text = snippet_from [] 0 (split_whitespace text)
