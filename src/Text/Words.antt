-- ===== src/Text/Words.antt =====
-- `str::split_whitespace`: the words of a text, without the whitespace around them.
use hallouminate.Common.{List, [], ◌∷◌, ◌++◌, if◌then◌else◌}
use hallouminate.Text.{Text, is_whitespace}

abbrev pub push_word : Text → List Text → List Text
push_word [] words = words
push_word (c ∷ w) words = (c ∷ w) ∷ words

-- With the word that the text goes on with.
unfoldable pub words_from : Text → Text → List Text
unfolding is_whitespace
words_from w [] = push_word w []
words_from w (c ∷ s) =
    let next = push_word w (words_from [] s) in
    let longer = words_from (w ++ c ∷ []) s in if is_whitespace c then next else longer

unfoldable pub split_whitespace : Text → List Text
unfolding words_from
split_whitespace s = words_from [] s
