-- ===== src/Indexer/Requests/Batches.antt =====
-- The batches of crates/hallouminate-domain/src/indexer/apply.rs: they keep what holds of every
-- request, and none is wider than the batch size.
use hallouminate.Common.{
  ℕ, zero, suc, ◌≤◌, Bool, List, [], ◌∷◌, arith, length, take, drop, All, All-append,
}
use hallouminate.Indexer.Requests.{chunks, insert_request, by_key, batches_of, batches}
use hallouminate.Indexer.Types.{CorpusKey}
use hallouminate.Indexer.Writer.{WriteRequest}

module _ {ℓ κ} {A : Type ℓ} (P : A → Type κ) where
  pub All-take : (n : ℕ) (xs : List A) → All P xs → All P (take n xs)
  All-take zero xs h = tt
  All-take (suc n) [] h = tt
  All-take (suc n) (x ∷ xs) h = (h.0, All-take n xs h.1)

  pub All-drop : (n : ℕ) (xs : List A) → All P xs → All P (drop n xs)
  All-drop zero xs h = h
  All-drop (suc n) [] h = tt
  All-drop (suc n) (x ∷ xs) h = All-drop n xs h.1

  pub All-chunks : (fuel n : ℕ) (xs : List A) → All P xs → All (All P) (chunks fuel n xs)
  unfolding chunks
  All-chunks zero n xs h = tt
  All-chunks (suc fuel) n [] h = tt
  All-chunks (suc fuel) n (x ∷ xs) h =
      (All-take n (x ∷ xs) h, All-chunks fuel n (drop n (x ∷ xs)) (All-drop n (x ∷ xs) h))

module _ {ℓ} {A : Type ℓ} where
  length-take_le : (n : ℕ) (xs : List A) → length (take n xs) ≤ n
  length-take_le zero xs = omega arith
  length-take_le (suc n) [] = omega arith
  length-take_le (suc n) (x ∷ xs) = omega (arith, length-take_le n xs)

  -- A batch of at most `n`.
  abbrev pub IsNarrow : ℕ → List A → Type 0
  IsNarrow n xs = length xs ≤ n

  chunks-IsNarrow : (fuel n : ℕ) (xs : List A) → All (IsNarrow n) (chunks fuel n xs)
  unfolding chunks
  chunks-IsNarrow zero n xs = tt
  chunks-IsNarrow (suc fuel) n [] = tt
  chunks-IsNarrow (suc fuel) n (x ∷ xs) =
      (length-take_le n (x ∷ xs), chunks-IsNarrow fuel n (drop n (x ∷ xs)))

module _ {κ} (P : WriteRequest → Type κ) (key_first : CorpusKey → CorpusKey → Bool) where
  abbrev Groups : List (CorpusKey × List WriteRequest) → Type κ
  Groups groups = All (λ g. All P g.1) groups

  insert_request-Groups :
      (req : WriteRequest) (groups : List (CorpusKey × List WriteRequest))
      → P req
      → Groups groups
      → Groups (insert_request key_first req groups)
  unfolding insert_request
  insert_request-Groups req [] p h = ((p, tt), tt)
  insert_request-Groups req ((key, reqs) ∷ groups) p h =
      ground
        (arith, insert_request-Groups req groups p h.1, All-append P reqs (req ∷ []) h.0 (p, tt))

  by_key-Groups :
      (groups : List (CorpusKey × List WriteRequest)) (reqs : List WriteRequest)
      → Groups groups
      → All P reqs
      → Groups (by_key key_first groups reqs)
  unfolding by_key
  by_key-Groups groups [] g h = g
  by_key-Groups groups (req ∷ reqs) g h =
      by_key-Groups (insert_request key_first req groups) reqs
        (insert_request-Groups req groups h.0 g) h.1

  batches_of-All :
      (n : ℕ) (groups : List (CorpusKey × List WriteRequest))
      → Groups groups
      → All (All P) (batches_of key_first n groups)
  unfolding batches_of
  batches_of-All n [] g = tt
  batches_of-All n ((key, reqs) ∷ groups) g =
      All-append (All P) (chunks (length reqs) n reqs) (batches_of key_first n groups)
        (All-chunks P (length reqs) n reqs g.0) (batches_of-All n groups g.1)

  pub batches-All :
      (n : ℕ) (reqs : List WriteRequest) → All P reqs → All (All P) (batches key_first n reqs)
  unfolding batches
  batches-All n reqs h = batches_of-All n (by_key key_first [] reqs) (by_key-Groups [] reqs tt h)

module _ (key_first : CorpusKey → CorpusKey → Bool) (n : ℕ) where
  batches_of-IsNarrow :
      (groups : List (CorpusKey × List WriteRequest))
      → All (IsNarrow n) (batches_of key_first n groups)
  unfolding batches_of
  batches_of-IsNarrow [] = tt
  batches_of-IsNarrow ((key, reqs) ∷ groups) =
      All-append (IsNarrow n) (chunks (length reqs) n reqs) (batches_of key_first n groups)
        (chunks-IsNarrow (length reqs) n reqs) (batches_of-IsNarrow groups)

  pub batches-IsNarrow : (reqs : List WriteRequest) → All (IsNarrow n) (batches key_first n reqs)
  unfolding batches
  batches-IsNarrow reqs = batches_of-IsNarrow (by_key key_first [] reqs)
