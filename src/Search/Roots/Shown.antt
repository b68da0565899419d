-- ===== src/Search/Roots/Shown.antt =====
-- The hits that `fuse_together` of crates/hallouminate-domain/src/search.rs returns.
use hallouminate.Assoc.{lookup, remove, IsMap, lookup-remove_ne}
use hallouminate.Common.{
  ◌≡◌, refl, ◌∙◌, ap, true, Option, none, some, List, [], ◌∷◌, ◌++◌, arith, All, map,
}
use hallouminate.Search.Fuse.{fuse}
use hallouminate.Search.Fuse.Ranking.{fuse-IsMap}
use hallouminate.Search.Resolve.{Pool}
use hallouminate.Search.Roots.{
  RootSignals, rrf_k, merge_hits, rank_hits, signal_lists, fuse_together,
}
use hallouminate.Search.Roots.Known.{is_some, listed, listed-append, fuse-listed, structural-known}
use hallouminate.Search.Roots.Pooled.{Apart, key_of-Apart, pooled, lookup-merge_hits}
use hallouminate.Search.Roots.Signals.{times, row, row-signal_lists}
use hallouminate.Search.Structure.{structural_lists}
use hallouminate.Search.Types.{Floats, SearchHit, RankedList}
use hallouminate.Text.{Text}
use hallouminate.Text.Equal.{equal_iff}

module _ {F : Type 0} (num : Floats F) (words : Text → List Text) where
  -- The chunks of a ranking that are in the pool, with their scores.
  unfoldable pub picked : Pool F → List (Text × F) → List (SearchHit F)
  picked hits [] = []
  picked hits ((key, score) ∷ fused) =
      let rest = picked hits fused in
      elim (lookup key hits) [ none ↦ rest | some hit ↦ record hit { score = score } ∷ rest ]

  abbrev Agrees : Pool F → Pool F → List (Text × F) → Type 0
  Agrees now hits = All (λ (e : Text × F). lookup e.0 now ≡ lookup e.0 hits)

  Agrees-remove :
      (key : Text) (now hits : Pool F) (fused : List (Text × F))
      → lookup key fused ≡ none
      → Agrees now hits fused
      → Agrees (remove key now) hits fused
  unfolding lookup
  Agrees-remove key now hits [] absent h = tt
  Agrees-remove key now hits ((j, s) ∷ fused) absent (hj, h) = (
    lookup-remove_ne key j now (ground (arith, absent, equal_iff key j, equal_iff j key)) ∙ hj,
    Agrees-remove key now hits fused (ground (arith, absent)) h,
  )

  rank_hits-picked :
      (fused : List (Text × F)) (now hits : Pool F)
      → IsMap fused
      → Agrees now hits fused
      → rank_hits num words fused now ≡ picked hits fused
  unfolding rank_hits picked
  rank_hits-picked [] now hits once h = refl
  rank_hits-picked ((key, score) ∷ fused) now hits (new, once) (here, h) =
      at_hit (lookup key hits) refl (rank_hits-picked fused now hits once h)
        (rank_hits-picked fused (remove key now) hits once (Agrees-remove key now hits fused new h))
    where
      at_hit :
          (o : Option (SearchHit F))
          → lookup key hits ≡ o
          → rank_hits num words fused now ≡ picked hits fused
          → rank_hits num words fused (remove key now) ≡ picked hits fused
          → rank_hits num words ((key, score) ∷ fused) now ≡ picked hits ((key, score) ∷ fused)
      at_hit none e keep drop = rw (e, here ∙ e, rank_hits, picked) keep
      at_hit (some hit) e keep drop =
          rw (e, here ∙ e, rank_hits, picked) (ap (◌∷◌ (record hit { score = score })) drop)

  Agrees-self : (hits : Pool F) (fused : List (Text × F)) → Agrees hits hits fused
  Agrees-self hits [] = tt
  Agrees-self hits (e ∷ fused) = (refl, Agrees-self hits fused)

  -- The chunks of a ranking that some root's pool has, with their scores.
  unfoldable pub shown_of : List (RootSignals F) → List (Text × F) → List (SearchHit F)
  unfolding pooled
  shown_of roots [] = []
  shown_of roots ((key, score) ∷ fused) =
      let rest = shown_of roots fused in
      elim (pooled 0 key roots) [ none ↦ rest | some hit ↦ record hit { score = score } ∷ rest ]

  picked-shown_of :
      (roots : List (RootSignals F)) (fused : List (Text × F))
      → picked (merge_hits num 0 roots []) fused ≡ shown_of roots fused
  unfolding picked shown_of
  picked-shown_of roots [] = refl
  picked-shown_of roots ((key, score) ∷ fused) =
      rw (lookup-merge_hits num key roots, picked)
        (ap
          (λ rest. elim (pooled 0 key roots) as (λ _. List (SearchHit F)) [
            | none ↦ rest
            | some hit ↦ record hit { score = score } ∷ rest
          ])
          (picked-shown_of roots fused))

  -- What a fusion over roots returns: the ranking of the signals with the structural lists behind them,
  -- which are made of a pool that has every chunk of every root, under a key of its own. A signal has a
  -- key as often as the roots list it there.
  pub record Shown (roots : List (RootSignals F)) (terms : List Text) (priority : Option Text)
      (out : List (SearchHit F)) : Type 0 where
    pub pool : Pool F
    pub whole : (key : Text) → lookup key pool ≡ pooled 0 key roots
    pub apart : Apart
    pub lists : List (RankedList F)
    pub signals :
        (key : Text)
        → map (row key) lists
          ≡ (num.literal 20 1, times (λ r. r.fts) key 0 roots)
            ∷ (num.literal 10 1, times (λ r. r.vector) key 0 roots)
            ∷ (num.literal 5 1, times (λ r. r.rg) key 0 roots)
            ∷ (num.literal 5 1, times (λ r. r.contains_list) key 0 roots)
            ∷ []
    pub ranking : List (Text × F)
    pub ranked :
        ranking
        ≡ fuse num
            (lists ++ structural_lists num words pool terms (fuse num lists (rrf_k num)))
            (rrf_k num)
    pub once : IsMap ranking
    pub known :
        (key : Text)
        → is_some (lookup key ranking) ≡ is_some (lookup key (fuse num lists (rrf_k num)))
    pub shown : out ≡ shown_of roots ranking

  known_only :
      (key : Text) (lists more : List (RankedList F)) (k : F)
      → (listed num key more ≡ true → is_some (lookup key (fuse num lists k)) ≡ true)
      → is_some (lookup key (fuse num (lists ++ more) k)) ≡ is_some (lookup key (fuse num lists k))
  known_only key lists more k h = ground (
    arith,
    h,
    fuse-listed num key k (lists ++ more),
    fuse-listed num key k lists,
    listed-append num key lists more,
  )

  -- Whatever the terms of the query: the structural lists move the chunks of the signals' own fusion,
  -- bring in none and lose none. Every chunk of the ranking that is in some root's pool is returned, once,
  -- in the order of the ranking and with its score. The lists of the four signals, weighted 2, 1, 1/2 and
  -- 1/2, have each chunk as often as the roots list it. With at most 2^64 roots, no two chunks share a key.
  pub fuse_together-Shown :
      (roots : List (RootSignals F)) (terms : List Text) (priority : Option Text)
      → Shown roots terms priority (fuse_together num words roots terms priority)
  unfolding fuse_together
  fuse_together-Shown roots terms priority =
      let hits = merge_hits num 0 roots [] in
      let lists = signal_lists num words roots priority in
      let baseline = fuse num lists (rrf_k num) in
      let more = structural_lists num words hits terms baseline in
      let ranking = fuse num (lists ++ more) (rrf_k num) in
      record {
        pool = hits;
        whole = λ key. lookup-merge_hits num key roots;
        apart = key_of-Apart;
        lists = lists;
        signals = λ key. row-signal_lists num key words priority roots;
        ranking = ranking;
        ranked = refl;
        once = fuse-IsMap num (lists ++ more) (rrf_k num);
        known = λ key.
            known_only key lists more (rrf_k num)
              (structural-known num words key hits terms baseline);
        shown =
            rank_hits-picked ranking hits hits (fuse-IsMap num (lists ++ more) (rrf_k num))
              (Agrees-self hits ranking)
            ∙ picked-shown_of roots ranking;
      }
