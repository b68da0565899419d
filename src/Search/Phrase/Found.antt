-- ===== src/Search/Phrase/Found.antt =====
-- What an exact-phrase search of crates/hallouminate-domain/src/search/phrase.rs answers.
use Prim.Native.Nat.{compare}
use hallouminate.Common.{
  ℕ, zero, suc, ◌≤◌, ◌<◌, ◌≡◌, refl, ◌∙◌, ap, ◌↔◌, ◌⊎◌, ltb, Bool, Bool-cases, inl, inr, Option,
  none, some, List, [], ◌∷◌, arith, length, take, leb, if◌then◌else◌, map,
}
use hallouminate.Common.Order.{
  Cmp, then_with, Lawful, compare-Lawful, then_with-Lawful, reversed-Lawful, on-Lawful,
}
use hallouminate.Common.SortBy.{
  SameBag, filter, count_if, sort_by, IsSortedBy, count_if-sort_by, sort_by-IsSortedBy,
  length-filter, sort_by-map,
}
use hallouminate.Corpus.Footnotes.{Events}
use hallouminate.Search.Phrase.{
  max_phrase_chars, max_phrase_scan_rows, PhraseError, blank, too_long, validate_phrase,
  collapse_whitespace, truncation_warning, FusedSearch, PhraseResult, found, rejected, store_failed,
  own_count, scored, decorated, decorated_order, hits_of, search_phrase,
}
use hallouminate.Search.Resolve.{TieBreak, compare_key, hit_tie_break_key}
use hallouminate.Search.Types.{Floats, SearchHit}
use hallouminate.Text.{Text, trim}
use hallouminate.Text.Order.{compare_text-Lawful}

compare_key-Lawful : Lawful compare_key
compare_key-Lawful = then_with-Lawful (on-Lawful (λ (k : TieBreak). k.0) compare_text-Lawful) (
    then_with-Lawful (on-Lawful (λ (k : TieBreak). k.1) compare-Lawful)
      (on-Lawful (λ (k : TieBreak). k.2) compare_text-Lawful))

-- The reasons to reject a phrase: it is blank, or else longer than the limit.
abbrev pub Rejects : Text → Option PhraseError → Type 0
Rejects phrase none =
    ((c : ℕ) × (s : Text) × (trim phrase ≡ c ∷ s)) × (length phrase ≤ max_phrase_chars)
Rejects phrase (some blank) = trim phrase ≡ []
Rejects phrase (some (too_long chars)) = (chars ≡ length phrase) × (max_phrase_chars < chars)

Text-cases : (t : Text) → (t ≡ []) ⊎ ((c : ℕ) × (s : Text) × (t ≡ c ∷ s))
Text-cases [] = inl refl
Text-cases (c ∷ s) = inr (c, s, refl)

validate_phrase-Rejects : (phrase : Text) → Rejects phrase (validate_phrase phrase)
unfolding validate_phrase
validate_phrase-Rejects phrase = elim (Text-cases (trim phrase)) [
  | inl empty ↦ rw (empty, validate_phrase) empty
  | inr (c, s, e) ↦ rw (e, validate_phrase) (at_length c s e)
]
  where
    at_length :
        (c : ℕ) (s : Text)
        → trim phrase ≡ c ∷ s
        → Rejects phrase
            (if ltb max_phrase_chars (length phrase) then some (too_long (length phrase)) else none)
    at_length c s e = elim (Bool-cases (ltb max_phrase_chars (length phrase))) [
      | inl long ↦ rw long (refl, ground (arith, long))
      | inr short ↦ rw short ((c, s, e), ground (arith, short))
    ]

module _ (to_lowercase : Text → Text) (parse : Text → Events) {F : Type 0} (num : Floats F) where
  module _ (needle root : Text) where
    abbrev own : SearchHit F → ℕ
    own = own_count to_lowercase parse num needle

    abbrev pub is_match : SearchHit F → Bool
    is_match hit = leb 1 (own_count to_lowercase parse num needle hit)

    -- By the number of occurrences, most first, then by path, line and id.
    abbrev pub phrase_order : Cmp (SearchHit F)
    phrase_order a b =
        then_with
          (compare (own_count to_lowercase parse num needle b)
            (own_count to_lowercase parse num needle a))
          (compare_key (hit_tie_break_key num a root) (hit_tie_break_key num b root))

    phrase_order-Lawful : Lawful phrase_order
    phrase_order-Lawful =
        then_with-Lawful (on-Lawful own (reversed-Lawful compare-Lawful))
          (on-Lawful (λ hit. hit_tie_break_key num hit root) compare_key-Lawful)

    abbrev scored_all : List (SearchHit F) → List (SearchHit F)
    scored_all = map (scored to_lowercase parse num needle)

    abbrev mark : SearchHit F → ℕ × TieBreak × SearchHit F
    mark hit = (
      own hit,
      hit_tie_break_key num (scored to_lowercase parse num needle hit) root,
      scored to_lowercase parse num needle hit,
    )

    decorated-filter :
        (hits : List (SearchHit F))
        → decorated to_lowercase parse num needle root hits ≡ map mark (filter is_match hits)
    unfolding decorated filter
    decorated-filter [] = refl
    decorated-filter (hit ∷ hits) = elim (Bool-cases (is_match hit)) [
      | inl yes_m ↦ rw (yes_m, decorated, filter) (ap (◌∷◌ (mark hit)) (decorated-filter hits))
      | inr no_m ↦ rw (no_m, decorated, filter) (decorated-filter hits)
    ]

    key-scored :
        (hit : SearchHit F)
        → hit_tie_break_key num (scored to_lowercase parse num needle hit) root
          ≡ hit_tie_break_key num hit root
    unfolding hit_tie_break_key
    key-scored hit = refl

    mark-order : (x y : SearchHit F) → decorated_order (mark x) (mark y) ≡ phrase_order x y
    mark-order x y =
        ap (λ k. then_with (compare (own y) (own x)) (compare_key k (mark y).1)) (key-scored x)
        ∙ ap
            (λ k.
              then_with (compare (own y) (own x)) (compare_key (hit_tie_break_key num x root) k))
            (key-scored y)

    hits_of-take :
        (n : ℕ) (xs : List (SearchHit F)) → hits_of (take n (map mark xs)) ≡ scored_all (take n xs)
    hits_of-take zero xs = refl
    hits_of-take (suc n) [] = refl
    hits_of-take (suc n) (x ∷ xs) =
        ap (◌∷◌ (scored to_lowercase parse num needle x)) (hits_of-take n xs)

    -- The matches in their order, and what of them is shown.
    pub record Searched (limit : ℕ) (scan : List (SearchHit F)) (out : FusedSearch F) : Type 0 where
      pub ranking : List (SearchHit F)
      pub same : SameBag ranking (filter is_match scan)
      pub sorted : IsSortedBy phrase_order ranking
      pub shown : out.hits ≡ scored_all (take limit ranking)
      pub complete :
          (out.warning ≡ none)
          ↔ ((length scan < max_phrase_scan_rows) × (count_if is_match scan ≤ limit))

    abbrev result : ℕ → List (SearchHit F) → FusedSearch F
    result limit scan =
        let matched = decorated to_lowercase parse num needle root scan in
        record {
          hits = hits_of (take limit (sort_by decorated_order matched));
          warning = truncation_warning (length scan) (length matched) limit;
        }

    length-map : (xs : List (SearchHit F)) → length (map mark xs) ≡ length xs
    length-map [] = refl
    length-map (x ∷ xs) = ap suc (length-map xs)

    length-decorated :
        (scan : List (SearchHit F))
        → length (decorated to_lowercase parse num needle root scan) ≡ count_if is_match scan
    length-decorated scan =
        ap length (decorated-filter scan)
        ∙ length-map (filter is_match scan)
        ∙ length-filter is_match scan

    result-Searched :
        (limit : ℕ) (scan : List (SearchHit F)) → Searched limit scan (result limit scan)
    unfolding truncation_warning
    result-Searched limit scan = record {
      ranking = sort_by phrase_order (filter is_match scan);
      same = λ p. count_if-sort_by phrase_order p (filter is_match scan);
      sorted = sort_by-IsSortedBy phrase_order phrase_order-Lawful (filter is_match scan);
      shown =
          ap (λ xs. hits_of (take limit (sort_by decorated_order xs))) (decorated-filter scan)
          ∙ ap (λ xs. hits_of (take limit xs))
              (sort_by-map mark phrase_order decorated_order mark-order (filter is_match scan))
          ∙ hits_of-take limit (sort_by phrase_order (filter is_match scan));
      complete = ground (arith, length-decorated scan);
    }

  -- The three ways for a search to end.
  abbrev pub Answered :
      (Text → ℕ → Option (List (SearchHit F))) → Text → Text → ℕ → PhraseResult F → Type 0
  Answered retrieve root phrase limit (rejected error) = Rejects phrase (some error)
  Answered retrieve root phrase limit store_failed =
      Rejects phrase none
      × (retrieve (collapse_whitespace (to_lowercase phrase)) max_phrase_scan_rows ≡ none)
  Answered retrieve root phrase limit (found out) =
      Rejects phrase none
      × ((scan : List (SearchHit F)) × (retrieve (collapse_whitespace (to_lowercase phrase))
              max_phrase_scan_rows
            ≡ some scan)
          × Searched (collapse_whitespace (to_lowercase phrase)) root limit scan out)

  -- A search is rejected exactly for a phrase that is blank or too long, and fails exactly where the
  -- store's scan for the phrase does. Otherwise it shows the first `limit` of the chunks that hold an
  -- occurrence of their own, by their occurrences, then by path, line and id, each with its count for a
  -- score; and it warns exactly where the scan stopped at its cap or matches were left out.
  pub search_phrase-Answered :
      (retrieve : Text → ℕ → Option (List (SearchHit F))) (root phrase : Text) (limit : ℕ)
      → Answered retrieve root phrase limit
          (search_phrase to_lowercase parse num retrieve root phrase limit)
  unfolding search_phrase
  search_phrase-Answered retrieve root phrase limit =
      at_check (validate_phrase phrase) refl (validate_phrase-Rejects phrase)
    where
      at_scan :
          (scan : Option (List (SearchHit F)))
          → retrieve (collapse_whitespace (to_lowercase phrase)) max_phrase_scan_rows ≡ scan
          → Rejects phrase none
          → Answered retrieve root phrase limit
              (elim (retrieve (collapse_whitespace (to_lowercase phrase)) max_phrase_scan_rows) [
                | none ↦ store_failed
                | some hits ↦
                    found (result (collapse_whitespace (to_lowercase phrase)) root limit hits)
              ])
      at_scan none same why = rw same (why, same)
      at_scan (some scan) same why = rw same (
        why,
        (scan, same, result-Searched (collapse_whitespace (to_lowercase phrase)) root limit scan),
      )

      at_check :
          (check : Option PhraseError)
          → validate_phrase phrase ≡ check
          → Rejects phrase check
          → Answered retrieve root phrase limit
              (search_phrase to_lowercase parse num retrieve root phrase limit)
      at_check (some error) same why = rw (same, search_phrase) why
      at_check none same why =
          rw (same, search_phrase)
            (at_scan (retrieve (collapse_whitespace (to_lowercase phrase)) max_phrase_scan_rows)
              refl why)
