-- ===== src/Corpus/Section/Matches.antt =====
-- The edit of a unique match: what it changes, what it leaves, and when it is refused.
use hallouminate.Common.{
  ℕ, zero, suc, ◌≤◌, ◌<◌, ◌≡◌, ◌≢◌, refl, sym, ap, ◌∙◌, ◌⊎◌, inl, inr, Option, none, some, [], ◌∷◌,
  ◌++◌, length, arith, length-append, Option-cases,
}
use hallouminate.Text.Search.{break_on-Splits}
use hallouminate.Text.{Text, break_on}
use hallouminate.Corpus.Section.{
  MatchError, no_match, ambiguous, Result, ok, err, count_matches, replace_first,
  replace_unique_match,
}

-- What the edit of a unique match gives: the one occurrence exchanged for the body, with none before
-- or behind it; or a refusal where the needle is empty or does not occur, or occurs more than once.
abbrev pub MatchReplaced : (doc needle body : Text) → Result MatchError → Type 0
MatchReplaced doc needle body (ok r) =
    (before : Text) × (after : Text) × (needle ≢ [])
    × (break_on needle doc ≡ some (before, after))
    × (doc ≡ before ++ (needle ++ after))
    × (break_on needle after ≡ none)
    × (r ≡ before ++ (body ++ after))
MatchReplaced doc needle body (err no_match) = (needle ≡ []) ⊎ (break_on needle doc ≡ none)
MatchReplaced doc needle body (err (ambiguous n)) =
    (2 ≤ n)
    × ((before : Text) × (after : Text) × (break_on needle doc ≡ some (before, after))
        × (break_on needle after ≢ none))

after_needle :
    (c : ℕ) (needle doc before after : Text)
    → break_on (c ∷ needle) doc ≡ some (before, after)
    → (doc ≡ before ++ ((c ∷ needle) ++ after)) × (length after < length doc)
after_needle c needle doc before after e =
    let spelled : doc ≡ before ++ ((c ∷ needle) ++ after) =
      rw e at (break_on-Splits (c ∷ needle) doc) in
    (
      spelled,
      omega (
        arith,
        ap length spelled,
        length-append before ((c ∷ needle) ++ after),
        length-append (c ∷ needle) after,
      ),
    )

-- The count at what the search for the first occurrence found.
abbrev counted : ℕ → Text → Option (Text × Text) → ℕ
counted fuel needle none = 0
counted fuel needle (some (before, after)) = suc (count_matches fuel needle after)

count_unfold :
    (fuel : ℕ) (needle doc : Text)
    → count_matches (suc fuel) needle doc ≡ counted fuel needle (break_on needle doc)
unfolding count_matches
count_unfold fuel needle doc = ground arith

count_positive :
    (fuel : ℕ) (c : ℕ) (needle doc : Text)
    → length doc ≤ fuel
    → count_matches fuel (c ∷ needle) doc ≡ 0
    → break_on (c ∷ needle) doc ≡ none
unfolding count_matches break_on
count_positive zero c needle [] le e = refl
count_positive zero c needle (d ∷ doc) le e = absurd (omega (arith, le))
count_positive (suc fuel) c needle doc le e = elim (Option-cases (break_on (c ∷ needle) doc)) [
  | inl missing ↦ missing
  | inr (found, at) ↦ absurd (ground (arith, e, at))
]

-- The first occurrence, where the count is one or more, and the count behind it.
First : ℕ → (n c : ℕ) (needle doc : Text) → Type 0
First fuel n c needle doc =
    (before : Text) × (after : Text) × (break_on (c ∷ needle) doc ≡ some (before, after))
    × (length after ≤ fuel)
    × (count_matches fuel (c ∷ needle) after ≡ n)

First-at :
    (fuel n c : ℕ) (needle doc : Text)
    → length doc ≤ suc fuel
    → count_matches (suc fuel) (c ∷ needle) doc ≡ suc n
    → First fuel n c needle doc
unfolding First
First-at fuel n c needle doc le e = elim (Option-cases (break_on (c ∷ needle) doc)) [
  | inl missing ↦ absurd (ground (arith, e, count_unfold fuel (c ∷ needle) doc, missing))
  | inr ((before, after), at) ↦
      let shorter = (after_needle c needle doc before after at).1 in
      let counts : counted fuel (c ∷ needle) (some (before, after)) ≡ suc n =
        ap (counted fuel (c ∷ needle)) (sym at) ∙ sym (count_unfold fuel (c ∷ needle) doc) ∙ e in
      (before, after, at, omega (arith, shorter, le), omega (arith, counts))
]

replace_first-at :
    (needle body doc before after : Text)
    → break_on needle doc ≡ some (before, after)
    → replace_first needle body doc ≡ before ++ (body ++ after)
unfolding replace_first
replace_first-at needle body doc before after e = ground (arith, e)

count_missing :
    (fuel : ℕ) (needle doc : Text) → break_on needle doc ≡ none → count_matches fuel needle doc ≡ 0
unfolding count_matches
count_missing zero needle doc e = refl
count_missing (suc fuel) needle doc e = ground (arith, e)

match_judged :
    (doc : Text) (c : ℕ) (needle body : Text) (fuel n : ℕ)
    → length doc ≤ suc fuel
    → count_matches (suc fuel) (c ∷ needle) doc ≡ n
    → MatchReplaced doc (c ∷ needle) body (elim n [
      | zero ↦ err no_match
      | suc zero ↦ ok (replace_first (c ∷ needle) body doc)
      | suc (suc m) ↦ err (ambiguous (suc (suc m)))
    ])
unfolding First
match_judged doc c needle body fuel zero le e = inr (count_positive (suc fuel) c needle doc le e)
match_judged doc c needle body fuel (suc zero) le e =
    let (before, after, at, short, none_left) = First-at fuel 0 c needle doc le e in
    (
      before,
      after,
      (λ same. cc),
      at,
      (after_needle c needle doc before after at).0,
      count_positive fuel c needle after short none_left,
      replace_first-at (c ∷ needle) body doc before after at,
    )
match_judged doc c needle body fuel (suc (suc m)) le e =
    let (before, after, at, short, more) = First-at fuel (suc m) c needle doc le e in
    (
      omega arith,
      (
        before,
        after,
        at,
        (λ missing. omega (arith, more, count_missing fuel (c ∷ needle) after missing)),
      ),
    )

-- Replacing a unique match exchanges the one occurrence of the needle for the body and leaves the
-- text around it as it was; it is refused where the needle is empty or does not occur, and where an
-- occurrence follows behind the first one.
pub replace_unique_match-MatchReplaced :
    (doc needle body : Text) → MatchReplaced doc needle body (replace_unique_match doc needle body)
unfolding replace_unique_match
replace_unique_match-MatchReplaced doc [] body = inl refl
replace_unique_match-MatchReplaced [] (c ∷ needle) body =
    inr (count_positive 0 c needle [] (omega arith) (count_missing 0 (c ∷ needle) [] refl))
replace_unique_match-MatchReplaced (d ∷ doc) (c ∷ needle) body =
    match_judged (d ∷ doc) c needle body (length doc) _ (omega arith) refl
