-- ===== src/Corpus/Snippet/Words.antt =====
-- How much of a chunk its snippet shows, crates/hallouminate-domain/src/corpus/snippet.rs.
use mathlib.Core.List.{append_assoc, append-nil}
use mathlib.Core.Path.{subst}
use hallouminate.Common.{
  ℕ, ◌+◌, ◌≤◌, ◌<◌, ◌≡◌, refl, ◌∙◌, sym, ap, ◌⊎◌, Bool-cases, inl, inr, List, [], ◌∷◌, ◌++◌, arith,
  length, length-append, take, ltb, All, All-append,
}
use hallouminate.Common.SortBy.{length-take}
use hallouminate.Corpus.Snippet.{
  snippet_cap, space_chars, cut_at, spaced, snippet_from, make_snippet,
}
use hallouminate.Text.{Text, is_whitespace}
use hallouminate.Text.Words.{push_word, words_from, split_whitespace}

abbrev IsWord : Text → Type 0
IsWord [] = ⊥
IsWord (c ∷ w) = Unit

words_from-IsWord : (w s : Text) → All IsWord (words_from w s)
unfolding words_from
words_from-IsWord [] [] = tt
words_from-IsWord (c ∷ w) [] = (tt, tt)
words_from-IsWord w (c ∷ s) = elim (Bool-cases (is_whitespace c)) [
  | inl space ↦ rw (space, words_from) (pushed w (words_from [] s) (words_from-IsWord [] s))
  | inr other ↦ rw (other, words_from) (words_from-IsWord (w ++ c ∷ []) s)
]
  where
    pushed : (w : Text) (ws : List Text) → All IsWord ws → All IsWord (push_word w ws)
    pushed [] ws h = h
    pushed (c ∷ w) ws h = (tt, h)

-- Words behind others, a space before each.
abbrev pub behind : List Text → Text
behind [] = []
behind (w ∷ ws) = b' ' ∷ w ++ behind ws

-- Words with a space between two of them.
abbrev pub joined : List Text → Text
joined [] = []
joined (w ∷ ws) = w ++ behind ws

behind-append : (ws : List Text) (w : Text) → behind (ws ++ w ∷ []) ≡ behind ws ++ b' ' ∷ w
behind-append [] w = ap (◌∷◌ b' ') (append-nil w)
behind-append (v ∷ ws) w =
    ap (λ t. b' ' ∷ v ++ t) (behind-append ws w)
    ∙ ap (◌∷◌ b' ') (sym (append_assoc v (behind ws) (b' ' ∷ w)))

spaced-joined :
    (ws : List Text) (w : Text) → All IsWord ws → spaced (joined ws) w ≡ joined (ws ++ w ∷ [])
spaced-joined [] w h = sym (append-nil w)
spaced-joined ([] ∷ ws) w h = elim h.0 [ ]
spaced-joined ((c ∷ v) ∷ ws) w h =
    ap (◌∷◌ c) (append_assoc v (behind ws) (b' ' ∷ w) ∙ ap (◌++◌ v) (sym (behind-append ws w)))

length-spaced : (out w : Text) → length (spaced out w) ≡ length out + space_chars out + length w
length-spaced [] w = omega arith
length-spaced (c ∷ out) w = omega (arith, length-append (c ∷ out) (b' ' ∷ w))

-- The next word does not fit.
abbrev pub IsFull : List Text → List Text → Type 0
IsFull kept [] = Unit
IsFull kept (w ∷ rest) = snippet_cap < length (joined (kept ++ w ∷ []))

-- As many of the words as fit, or the start of a first word that does not.
abbrev pub Shows : List Text → Text → Type 0
Shows words out =
    ((kept : List Text) × (rest : List Text) × (words ≡ kept ++ rest)
      × (out ≡ joined kept)
      × IsFull kept rest)
    ⊎ ((w : Text) × (rest : List Text) × (words ≡ w ∷ rest)
        × (snippet_cap < length w)
        × (out ≡ take snippet_cap w))

cut_at-Shows :
    (kept words : List Text) (w : Text)
    → All IsWord kept
    → length (joined kept) ≤ snippet_cap
    → snippet_cap < length (joined kept) + space_chars (joined kept) + length w
    → (length (cut_at (joined kept) w) ≤ snippet_cap)
      × Shows (kept ++ w ∷ words) (cut_at (joined kept) w)
cut_at-Shows [] words w k fits over =
    (omega (arith, length-take snippet_cap w), inr (w, words, refl, omega (arith, over), refl))
cut_at-Shows ([] ∷ kept) words w k fits over = elim k.0 [ ]
cut_at-Shows ((c ∷ v) ∷ kept) words w k fits over =
    let full : snippet_cap < length (joined (((c ∷ v) ∷ kept) ++ w ∷ [])) =
      subst (λ t. snippet_cap < length t) (spaced-joined ((c ∷ v) ∷ kept) w k)
        (omega (arith, over, length-spaced (joined ((c ∷ v) ∷ kept)) w)) in
    (fits, inl ((c ∷ v) ∷ kept, w ∷ words, refl, refl, full))

snippet_from-Shows :
    (kept words : List Text)
    → All IsWord kept
    → All IsWord words
    → length (joined kept) ≤ snippet_cap
    → (length (snippet_from (joined kept) (length (joined kept)) words) ≤ snippet_cap)
      × Shows (kept ++ words) (snippet_from (joined kept) (length (joined kept)) words)
unfolding snippet_from
snippet_from-Shows kept [] k h fits = (fits, inl (kept, [], refl, refl, tt))
snippet_from-Shows kept (w ∷ words) k h fits =
    elim (Bool-cases
      (ltb snippet_cap (length (joined kept) + space_chars (joined kept) + length w))) [
        | inl over ↦
            rw (over, snippet_from) (cut_at-Shows kept words w k fits (ground (arith, over)))
        | inr under ↦
            rw (under, snippet_from)
              (let more = kept ++ w ∷ [] in
                let same = spaced-joined kept w k in
                let size = length-spaced (joined kept) w in
                let P : Text → ℕ → List Text → Type 0 = λ t n ws.
                  (length (snippet_from t n words) ≤ snippet_cap)
                  × Shows ws (snippet_from t n words) in
                subst
                  (P (spaced (joined kept) w)
                    (length (joined kept) + space_chars (joined kept) + length w))
                  (append_assoc kept (w ∷ []) words)
                  (subst (λ n. P (spaced (joined kept) w) n (more ++ words)) size
                    (subst (λ t. P t (length t) (more ++ words)) (sym same)
                      (snippet_from-Shows more words (All-append IsWord kept (w ∷ []) k (h.0, tt))
                        h.1
                        (subst (λ t. length t ≤ snippet_cap) same (ground (arith, size, under)))))))
      ]

-- A snippet has at most 240 characters. It shows the words of the text from the first on, one space
-- between two, and stops only at one that does not fit; of a first word that does not it shows the start.
pub make_snippet-Shows :
    (text : Text)
    → (length (make_snippet text) ≤ snippet_cap) × Shows (split_whitespace text) (make_snippet text)
unfolding make_snippet split_whitespace
make_snippet-Shows text =
    snippet_from-Shows [] (words_from [] text) tt (words_from-IsWord [] text) (omega arith)
