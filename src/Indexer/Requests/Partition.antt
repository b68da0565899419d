-- ===== src/Indexer/Requests/Partition.antt =====
-- The batches of crates/hallouminate-domain/src/indexer/apply.rs: each request is in one of them, with
-- others of its key.
use mathlib.Core.List.{Perm, perm_middle, append_assoc, append-nil}
use mathlib.Core.List.Perm
use hallouminate.Common.{
  ℕ, zero, suc, ◌≡◌, refl, ap, ◌∙◌, sym, ◌≤◌, ◌<◌, Bool, Bool-cases, true, inl, inr, List, [], ◌∷◌,
  ◌++◌, arith, length, take, drop, All, All-append, length-drop, take-append-drop,
}
use hallouminate.Indexer.Requests.{chunks, insert_request, by_key, batches_of, batches}
use hallouminate.Indexer.Requests.Batches.{All-chunks, IsNarrow, batches-IsNarrow}
use hallouminate.Indexer.Types.{CorpusKey, same_key}
use hallouminate.Indexer.Writer.{WriteRequest}
use hallouminate.Text.Equal.{equal_self}

module _ {ℓ} {A : Type ℓ} where
  abbrev pub flatten : List (List A) → List A
  flatten [] = []
  flatten (xs ∷ xss) = xs ++ flatten xss

  flatten-append : (xss yss : List (List A)) → flatten (xss ++ yss) ≡ flatten xss ++ flatten yss
  flatten-append [] yss = refl
  flatten-append (xs ∷ xss) yss =
      ap (λ t. xs ++ t) (flatten-append xss yss) ∙ sym (append_assoc xs (flatten xss) (flatten yss))

  -- Enough fuel: the chunks are the list.
  flatten-chunks :
      (fuel n : ℕ) (xs : List A) → 0 < n → length xs ≤ fuel → flatten (chunks fuel n xs) ≡ xs
  unfolding chunks
  flatten-chunks zero n [] h enough = refl
  flatten-chunks zero n (x ∷ xs) h enough = absurd (omega (arith, enough))
  flatten-chunks (suc fuel) n [] h enough = refl
  flatten-chunks (suc fuel) n (x ∷ xs) h enough =
      ap (λ t. take n (x ∷ xs) ++ t)
        (flatten-chunks fuel n (drop n (x ∷ xs)) h
          (omega (arith, length-drop n (x ∷ xs), enough, h)))
      ∙ take-append-drop n (x ∷ xs)

abbrev Groups : Type 0
Groups = List (CorpusKey × List WriteRequest)

abbrev requests_in : Groups → List WriteRequest
requests_in [] = []
requests_in ((key, reqs) ∷ groups) = reqs ++ requests_in groups

abbrev pub HasKey : CorpusKey → WriteRequest → Type 0
HasKey key req = same_key req.corpus_key key ≡ true

-- All requests of a batch go under one key.
abbrev pub HasOneKey : List WriteRequest → Type 0
HasOneKey batch = (key : CorpusKey) × All (HasKey key) batch

same_key_self : (key : CorpusKey) → same_key key key ≡ true
same_key_self key = rw (equal_self key.name, equal_self key.canonical_root) refl

module _ (key_first : CorpusKey → CorpusKey → Bool) where
  insert_request-perm :
      (req : WriteRequest) (groups : Groups)
      → Perm (requests_in (insert_request key_first req groups)) (req ∷ requests_in groups)
  unfolding insert_request
  insert_request-perm req [] = Perm.refl _
  insert_request-perm req ((key, reqs) ∷ groups) = elim (Bool-cases (same_key req.corpus_key key)) [
    | inl same ↦
        rw (same, append_assoc reqs (req ∷ []) (requests_in groups))
          (perm_middle reqs (requests_in groups))
    | inr other ↦ rw other (elim (Bool-cases (key_first req.corpus_key key)) [
      | inl first ↦ rw first (Perm.refl _)
      | inr later ↦ rw later (
          Perm.trans (Perm.append_left reqs (insert_request-perm req groups))
            (perm_middle reqs (requests_in groups)))
    ])
  ]

  insert_request-HasKey :
      (req : WriteRequest) (groups : Groups)
      → All (λ g. All (HasKey g.0) g.1) groups
      → All (λ g. All (HasKey g.0) g.1) (insert_request key_first req groups)
  unfolding insert_request
  insert_request-HasKey req [] h = ((same_key_self req.corpus_key, tt), tt)
  insert_request-HasKey req ((key, reqs) ∷ groups) h = ground (
    arith,
    insert_request-HasKey req groups h.1,
    same_key_self req.corpus_key,
    All-append (HasKey key) reqs (req ∷ []) h.0,
  )

  by_key-perm :
      (groups : Groups) (reqs : List WriteRequest)
      → Perm (requests_in (by_key key_first groups reqs)) (requests_in groups ++ reqs)
  unfolding by_key
  by_key-perm groups [] = rw (append-nil (requests_in groups)) (Perm.refl _)
  by_key-perm groups (req ∷ reqs) =
      Perm.trans (by_key-perm (insert_request key_first req groups) reqs) (
        Perm.trans (Perm.append_right reqs (insert_request-perm req groups))
          (Perm.symm (perm_middle (requests_in groups) reqs)))

  by_key-HasKey :
      (groups : Groups) (reqs : List WriteRequest)
      → All (λ g. All (HasKey g.0) g.1) groups
      → All (λ g. All (HasKey g.0) g.1) (by_key key_first groups reqs)
  unfolding by_key
  by_key-HasKey groups [] h = h
  by_key-HasKey groups (req ∷ reqs) h =
      by_key-HasKey (insert_request key_first req groups) reqs (insert_request-HasKey req groups h)

  chunks-HasOneKey :
      (key : CorpusKey) (bs : List (List WriteRequest))
      → All (All (HasKey key)) bs
      → All HasOneKey bs
  chunks-HasOneKey key [] h = tt
  chunks-HasOneKey key (b ∷ bs) h = ((key, h.0), chunks-HasOneKey key bs h.1)

  batches_of-HasOneKey :
      (n : ℕ) (groups : Groups)
      → All (λ g. All (HasKey g.0) g.1) groups
      → All HasOneKey (batches_of key_first n groups)
  unfolding batches_of
  batches_of-HasOneKey n [] h = tt
  batches_of-HasOneKey n ((key, reqs) ∷ groups) h =
      All-append HasOneKey (chunks (length reqs) n reqs) (batches_of key_first n groups)
        (chunks-HasOneKey key (chunks (length reqs) n reqs)
          (All-chunks (HasKey key) (length reqs) n reqs h.0))
        (batches_of-HasOneKey n groups h.1)

  flatten-batches_of :
      (n : ℕ) (groups : Groups)
      → 0 < n
      → flatten (batches_of key_first n groups) ≡ requests_in groups
  unfolding batches_of
  flatten-batches_of n [] h = refl
  flatten-batches_of n ((key, reqs) ∷ groups) h =
      flatten-append (chunks (length reqs) n reqs) (batches_of key_first n groups)
      ∙ rw (flatten-chunks (length reqs) n reqs h (omega arith), flatten-batches_of n groups h) refl

  -- With a batch size above zero, the batches hold each request exactly as often as it was asked
  -- for, each batch goes under one key, and none is wider than the batch size.
  pub batches-Partition :
      (n : ℕ) (reqs : List WriteRequest)
      → 0 < n
      → Perm (flatten (batches key_first n reqs)) reqs
        × All HasOneKey (batches key_first n reqs)
        × All (IsNarrow n) (batches key_first n reqs)
  unfolding batches
  batches-Partition n reqs h = (
    rw (flatten-batches_of n (by_key key_first [] reqs) h) (by_key-perm [] reqs),
    batches_of-HasOneKey n (by_key key_first [] reqs) (by_key-HasKey [] reqs tt),
    batches-IsNarrow key_first n reqs,
  )
