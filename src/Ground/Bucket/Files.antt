-- ===== src/Ground/Bucket/Files.antt =====
-- What `FileBucket` of crates/hallouminate-domain/src/ground/bucket.rs keeps of a file's hits.
use mathlib.Core.Path.{subst}
use hallouminate.Common.{
  ◌≤◌, ◌≡◌, refl, sym, ap, ◌⊎◌, true, false, Bool-cases, inl, inr, Option, none, some, List, [],
  ◌∷◌, ◌++◌, arith, All, All-append,
}
use hallouminate.Common.Order.{Lawful, is_le}
use hallouminate.Common.SortBy.{count_if, count_if-append}
use hallouminate.Ground.Bucket.{FileBucket, option_from, exceeds, new_bucket, push, or_new}
use hallouminate.Search.Types.{Floats, SearchHit, compare_score}
use hallouminate.Text.{Text}

module _ {F : Type 0} (num : Floats F) (lowest : F) where
  -- No chunk scores more than the file, and one scores as much, unless none is above `lowest`.
  pub record Best (cs : List (SearchHit F)) (score : F) : Type 0 where
    pub above : All (λ h. exceeds num h.score score ≡ false) cs
    pub attained :
        (score ≡ lowest) ⊎ (1 ≤ count_if (λ h. is_le (compare_score num score h.score)) cs)

  -- The summary, the keywords and the time of the first chunk.
  abbrev pub FromFirst : List (SearchHit F) → FileBucket F → Type 0
  FromFirst [] b = ⊥
  FromFirst (h ∷ hs) b =
      (b.summary ≡ option_from h.summary) × (b.keywords ≡ h.keywords) × (b.mtime_ms ≡ h.mtime_ms)

  pub record IsBucket (f : Text) (cs : List (SearchHit F)) (b : FileBucket F) : Type 0 where
    pub named : b.file_ref ≡ f
    pub held : b.chunks ≡ cs
    pub best : Best cs b.score
    pub first : FromFirst cs b

  -- A file's bucket, where it has one, for the hits of the file so far.
  abbrev pub IsTold : Text → List (SearchHit F) → Option (FileBucket F) → Type 0
  IsTold f cs none = cs ≡ []
  IsTold f cs (some b) = IsBucket f cs b

  module _ (l : Lawful (compare_score num)) where
    All-above :
        (cs : List (SearchHit F)) (s t : F)
        → exceeds num s t ≡ true
        → All (λ h. exceeds num h.score t ≡ false) cs
        → All (λ h. exceeds num h.score s ≡ false) cs
    All-above [] s t e h = tt
    All-above (c ∷ cs) s t e (h, hs) = (
      ground (arith, e, h, l.flip s t, l.flip t s, l.chain c.score t s, l.flip c.score t),
      All-above cs s t e hs,
    )

    same_score : (s : F) → exceeds num s s ≡ false
    same_score s = ground (arith, l.flip s s)

    last :
        (hit : SearchHit F)
        → count_if (λ h. is_le (compare_score num hit.score h.score)) (hit ∷ []) ≡ 1
    unfolding count_if
    last hit = ground (arith, l.flip hit.score hit.score)

    Best-push :
        (hit : SearchHit F) (cs : List (SearchHit F)) (b : FileBucket F)
        → Best cs b.score
        → Best (cs ++ hit ∷ []) (push num lowest hit b).score
    unfolding push count_if
    Best-push hit cs b best = elim (Bool-cases (exceeds num hit.score b.score)) [
      | inl more ↦
          rw (more, push)
            (record {
              above =
                  All-append _ cs (hit ∷ []) (All-above cs hit.score b.score more best.above)
                    (same_score hit.score, tt);
              attained = inr (
                  omega (
                    arith,
                    count_if-append (λ h. is_le (compare_score num hit.score h.score)) cs
                        (hit ∷ []),
                    last hit,
                  ));
            })
      | inr less ↦
          rw (less, push)
            (record {
              above = All-append _ cs (hit ∷ []) best.above (less, tt);
              attained = elim best.attained [
                | inl lowest_still ↦ inl lowest_still
                | inr n ↦ inr (
                    omega (
                      arith,
                      n,
                      count_if-append (λ h. is_le (compare_score num b.score h.score)) cs
                          (hit ∷ []),
                    ))
              ];
            })
    ]

    FromFirst-push :
        (hit : SearchHit F) (cs : List (SearchHit F)) (b : FileBucket F)
        → FromFirst cs b
        → FromFirst (cs ++ hit ∷ []) (push num lowest hit b)
    unfolding push
    FromFirst-push hit [] b first = elim first [ ]
    FromFirst-push hit (c ∷ cs) b first = elim (Bool-cases (exceeds num hit.score b.score)) [
      | inl more ↦ rw (more, push) first
      | inr less ↦ rw (less, push) first
    ]

    IsBucket-push :
        (f : Text) (hit : SearchHit F) (cs : List (SearchHit F)) (b : FileBucket F)
        → b.file_ref ≡ f
        → b.chunks ≡ cs
        → Best cs b.score
        → FromFirst (cs ++ hit ∷ []) (push num lowest hit b)
        → IsBucket f (cs ++ hit ∷ []) (push num lowest hit b)
    unfolding push
    IsBucket-push f hit cs b named held best first = record {
      named = ground (arith, named);
      held = elim (Bool-cases (exceeds num hit.score b.score)) [
        | inl more ↦ rw (more, push) (ap (λ xs. xs ++ hit ∷ []) held)
        | inr less ↦ rw (less, push) (ap (λ xs. xs ++ hit ∷ []) held)
      ];
      best = Best-push hit cs b best;
      first = first;
    }

    FromFirst-new :
        (hit : SearchHit F) → FromFirst (hit ∷ []) (push num lowest hit (new_bucket num lowest hit))
    unfolding push
    FromFirst-new hit = elim (Bool-cases (exceeds num hit.score lowest)) [
      | inl more ↦ rw (more, push) (refl, refl, refl)
      | inr less ↦ rw (less, push) (refl, refl, refl)
    ]

    pub IsTold-push :
        (f : Text) (hit : SearchHit F) (cs : List (SearchHit F)) (o : Option (FileBucket F))
        → hit.file_ref ≡ f
        → IsTold f cs o
        → IsBucket f (cs ++ hit ∷ []) (push num lowest hit (or_new num lowest hit o))
    IsTold-push f hit cs none e told =
        subst (λ cs. IsBucket f (cs ++ hit ∷ []) (push num lowest hit (new_bucket num lowest hit)))
          (sym told)
          (IsBucket-push f hit [] (new_bucket num lowest hit) e refl
            (record { above = tt; attained = inl refl }) (FromFirst-new hit))
    IsTold-push f hit cs (some b) e told =
        IsBucket-push f hit cs b told.named told.held told.best (FromFirst-push hit cs b told.first)
