-- ===== src/Indexer/Requests/Owners.antt =====
-- `corpus_key_for_file` of crates/hallouminate-domain/src/indexer/apply.rs: the root that owns a file.
use hallouminate.Common.{
  ◌≡◌, refl, ap, ◌∙◌, ◌≤◌, ◌<◌, true, Bool-cases, Option, none, some, List, [], ◌∷◌, ◌++◌, arith,
  All, All-append, inl, inr, ltb,
}
use mathlib.Core.List.{append_assoc, append-nil}
use hallouminate.Indexer.Requests.{owner_among, more_specific, specificity}
use hallouminate.Indexer.Types.{CorpusKey, FileRef}
use hallouminate.Text.Paths.{starts_with}

module _ (path : FileRef) where
  abbrev pub Owns : CorpusKey → Type 0
  Owns key = starts_with path key.canonical_root ≡ true

  -- An owner before the chosen one is less specific, and one after it is not more specific.
  abbrev pub Before : CorpusKey → CorpusKey → Type 0
  Before key k = Owns k → specificity k < specificity key

  abbrev pub After : CorpusKey → CorpusKey → Type 0
  After key k = Owns k → specificity k ≤ specificity key

  -- The choice among the keys: the first of the most specific owners, or none where none owns.
  abbrev pub Chosen : List CorpusKey → Option CorpusKey → Type 0
  Chosen keys none = All (λ k. Owns k → ⊥) keys
  Chosen keys (some key) =
      (before : List CorpusKey) × (after : List CorpusKey) × (keys ≡ before ++ key ∷ after)
      × Owns key
      × All (Before key) before
      × All (After key) after

  others-Before :
      (key : CorpusKey) (ks : List CorpusKey) → All (λ k. Owns k → ⊥) ks → All (Before key) ks
  others-Before key [] h = tt
  others-Before key (k ∷ ks) h = (λ o. absurd (h.0 o), others-Before key ks h.1)

  -- All that came before a more specific key.
  After-Before :
      (old key : CorpusKey) (ks : List CorpusKey)
      → specificity old < specificity key
      → All (After old) ks
      → All (Before key) ks
  After-Before old key [] lt h = tt
  After-Before old key (k ∷ ks) lt h =
      (λ o. omega (arith, lt, h.0 o), After-Before old key ks lt h.1)

  Before-Before :
      (old key : CorpusKey) (ks : List CorpusKey)
      → specificity old < specificity key
      → All (Before old) ks
      → All (Before key) ks
  Before-Before old key [] lt h = tt
  Before-Before old key (k ∷ ks) lt h =
      (λ o. omega (arith, lt, h.0 o), Before-Before old key ks lt h.1)

  Chosen-append :
      (seen : List CorpusKey) (key k : CorpusKey)
      → Chosen seen (some key)
      → After key k
      → Chosen (seen ++ k ∷ []) (some key)
  Chosen-append seen key k (before, after, e, o, b, a) h = (
    before,
    after ++ k ∷ [],
    ap (λ l. l ++ k ∷ []) e ∙ append_assoc before (key ∷ after) (k ∷ []),
    o,
    b,
    All-append (After key) after (k ∷ []) a (h, tt),
  )

  Chosen-owner :
      (seen : List CorpusKey) (owner : Option CorpusKey) (key : CorpusKey)
      → Owns key
      → Chosen seen owner
      → Chosen (seen ++ key ∷ []) (some (more_specific owner key))
  unfolding more_specific
  Chosen-owner seen none key o h = (seen, [], refl, o, others-Before key seen h, tt)
  Chosen-owner seen (some old) key o (before, after, e, old_owns, b, a) =
      elim (Bool-cases (ltb (specificity old) (specificity key))) [
        | inl more ↦ rw more (
          seen,
          [],
          refl,
          o,
          rw e (
              All-append (Before key) before (old ∷ after)
                (Before-Before old key before (ground (arith, more)) b)
                (λ _. ground (arith, more), After-Before old key after (ground (arith, more)) a)),
          tt,
        )
        | inr not_more ↦ rw not_more (
            Chosen-append seen old key (before, after, e, old_owns, b, a)
              (λ _. ground (arith, not_more)))
      ]

  Chosen-other :
      (seen : List CorpusKey) (owner : Option CorpusKey) (key : CorpusKey)
      → (Owns key → ⊥)
      → Chosen seen owner
      → Chosen (seen ++ key ∷ []) owner
  Chosen-other seen none key n h = All-append (λ k. Owns k → ⊥) seen (key ∷ []) h (n, tt)
  Chosen-other seen (some old) key n h = Chosen-append seen old key h (λ o. absurd (n o))

  owner_among-after :
      (seen : List CorpusKey) (owner : Option CorpusKey) (keys : List CorpusKey)
      → Chosen seen owner
      → Chosen (seen ++ keys) (owner_among path owner keys)
  unfolding owner_among
  owner_among-after seen owner [] h = rw (append-nil seen) h
  owner_among-after seen owner (key ∷ keys) h =
      elim (Bool-cases (starts_with path key.canonical_root)) [
        | inl owns ↦
            rw (owns, ← append_assoc seen (key ∷ []) keys)
              (owner_among-after (seen ++ key ∷ []) (some (more_specific owner key)) keys
                (Chosen-owner seen owner key owns h))
        | inr other ↦
            rw (other, ← append_assoc seen (key ∷ []) keys)
              (owner_among-after (seen ++ key ∷ []) owner keys
                (Chosen-other seen owner key (λ o. ground (arith, o, other)) h))
      ]

  -- A file is written under the first of the most specific configured roots that own it, and refused
  -- exactly where none owns it.
  pub owner_among-Chosen : (keys : List CorpusKey) → Chosen keys (owner_among path none keys)
  owner_among-Chosen keys = owner_among-after [] none keys tt
