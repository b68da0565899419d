-- ===== src/Search/Fuse/Dominance.antt =====
-- What crates/hallouminate-domain/src/search/fuse.rs makes of a chunk that every signal prefers.
use mathlib.Core.Path.{subst}
use hallouminate.Assoc.{lookup}
use hallouminate.Common.{ℕ, sym, ◌≤◌, ◌≡◌, true, Option, none, some, List, [], ◌∷◌, arith, All}
use hallouminate.Common.Order.{Lawful, is_le}
use hallouminate.Search.Fuse.{Evidence, contribution, fuse}
use hallouminate.Search.Fuse.Ranking.{score_of, lookup-fuse}
use hallouminate.Search.Fuse.Scores.{first_rank, evidence, counted}
use hallouminate.Search.Types.{Floats, compare_score, RankedList}
use hallouminate.Text.{Text}

-- One rank is absent, or no better than the other.
abbrev pub RankAtMost : Option ℕ → Option ℕ → Type 0
RankAtMost none other = Unit
RankAtMost (some r) none = ⊥
RankAtMost (some r) (some q) = q ≤ r

module _ {F : Type 0} (num : Floats F) where
  abbrev pub Le : F → F → Type 0
  Le a b = is_le (compare_score num a b) ≡ true

  -- What holds of the nonnegative floating-point numbers, whose operations round monotonically.
  pub record Monotone : Type 0 where
    pub order : Lawful (compare_score num)
    pub zero_le : (a : F) → Le (num.literal 0 1) a
    pub add_le : (a b c d : F) → Le a b → Le c d → Le (num.add a c) (num.add b d)
    pub add_grows : (a c : F) → Le a (num.add a c)
    pub div_le : (w k : F) (q r : ℕ) → q ≤ r → Le (contribution num w k r) (contribution num w k q)

  -- In every list that holds the one chunk, the other stands at least as high.
  abbrev pub IsDominated : Text → Text → List (RankedList F) → Type 0
  IsDominated b a = All (λ (list : RankedList F).
      RankAtMost (first_rank b 0 list.chunk_ids) (first_rank a 0 list.chunk_ids))

  abbrev pub AtMost : Option (Evidence F) → Option (Evidence F) → Type 0
  AtMost none other = Unit
  AtMost (some e) none = ⊥
  AtMost (some e) (some f) = Le e.0 f.0 × (e.1 ≤ f.1)

  module _ (m : Monotone) where
    Le_refl : (a : F) → Le a a
    Le_refl a = ground (arith, m.order.flip a a)

    Le_trans : (a b c : F) → Le a b → Le b c → Le a c
    Le_trans a b c h k = ground (arith, h, k, m.order.chain a b c h k)

    AtMost-counted :
        (w k : F) (rb ra : Option ℕ) (o p : Option (Evidence F))
        → RankAtMost rb ra
        → AtMost o p
        → AtMost (counted num w k rb o) (counted num w k ra p)
    AtMost-counted w k none none o p h le = le
    AtMost-counted w k none (some q) none p h le = tt
    AtMost-counted w k none (some q) (some e) none h le = elim le [ ]
    AtMost-counted w k none (some q) (some e) (some f) h le = (
      Le_trans e.0 f.0 (num.add f.0 (contribution num w k q)) le.0
          (m.add_grows f.0 (contribution num w k q)),
      omega (arith, le.1),
    )
    AtMost-counted w k (some r) none o p h le = elim h [ ]
    AtMost-counted w k (some r) (some q) none none h le = (
      m.add_le (num.literal 0 1) (num.literal 0 1) (contribution num w k r) (contribution num w k q)
          (Le_refl (num.literal 0 1)) (m.div_le w k q r h),
      omega arith,
    )
    AtMost-counted w k (some r) (some q) none (some f) h le = (
      m.add_le (num.literal 0 1) f.0 (contribution num w k r) (contribution num w k q)
          (m.zero_le f.0) (m.div_le w k q r h),
      omega arith,
    )
    AtMost-counted w k (some r) (some q) (some e) none h le = elim le [ ]
    AtMost-counted w k (some r) (some q) (some e) (some f) h le = (
      m.add_le e.0 f.0 (contribution num w k r) (contribution num w k q) le.0 (m.div_le w k q r h),
      omega (arith, le.1),
    )

    AtMost-evidence :
        (b a : Text) (k : F) (lists : List (RankedList F)) (o p : Option (Evidence F))
        → IsDominated b a lists
        → AtMost o p
        → AtMost (evidence num b k lists o) (evidence num a k lists p)
    unfolding evidence
    AtMost-evidence b a k [] o p h le = le
    AtMost-evidence b a k (list ∷ lists) o p (h, hs) le =
        AtMost-evidence b a k lists (counted num list.weight k (first_rank b 0 list.chunk_ids) o)
          (counted num list.weight k (first_rank a 0 list.chunk_ids) p) hs
          (AtMost-counted list.weight k (first_rank b 0 list.chunk_ids)
            (first_rank a 0 list.chunk_ids) o p h le)

  abbrev pub ScoreAtMost : Option F → Option F → Type 0
  ScoreAtMost none other = Unit
  ScoreAtMost (some s) none = ⊥
  ScoreAtMost (some s) (some t) = Le s t

  -- With an arithmetic that keeps the order, as that of nonnegative numbers does: a chunk that stands in
  -- every list that holds another, and never behind it there, scores at least as high in the fusion as the
  -- other.
  pub fuse-IsDominated :
      (b a : Text) (lists : List (RankedList F)) (k : F)
      → Monotone
      → IsDominated b a lists
      → ScoreAtMost (lookup b (fuse num lists k)) (lookup a (fuse num lists k))
  fuse-IsDominated b a lists k m h =
      subst (λ s. ScoreAtMost s (lookup a (fuse num lists k))) (sym (lookup-fuse num b lists k))
        (subst (ScoreAtMost (score_of num (evidence num b k lists none)))
          (sym (lookup-fuse num a lists k))
          (scored (evidence num b k lists none) (evidence num a k lists none)
            (AtMost-evidence m b a k lists none none h tt)))
    where
      scored :
          (o p : Option (Evidence F)) → AtMost o p → ScoreAtMost (score_of num o) (score_of num p)
      scored none p le = tt
      scored (some e) none le = le
      scored (some e) (some f) le = le.0
