-- ===== src/Ground/Cut/Reserve.antt =====
-- Which documents `cut_with_local_reserve` of crates/hallouminate-domain/src/ground/orchestrate.rs keeps.
use mathlib.Core.Path.{subst}
use hallouminate.Common.{
  ℕ, ◌+◌, ◌<◌, ◌-◌, ◌≤◌, min, ◌≡◌, refl, ◌∙◌, sym, ap, Bool, true, not, ◌&&◌, Bool-cases, inl, inr,
  Option, none, some, List, ◌++◌, arith, length, length-append, take, leb,
}
use hallouminate.Common.Order.{Cmp, on-Lawful}
use hallouminate.Common.SortBy.{
  filter, count_if, sort_by, IsSortedBy, sort_by-IsSortedBy, count_if-append, count_if-sort_by,
  length-sort_by, count_if_all, length-filter, length-take,
}
use hallouminate.Ground.Cut.{
  Entry, reserved_local_slots, collect, is_local, is_fallback, promoted, window,
  cut_with_local_reserve,
}
use hallouminate.Ground.Cut.Counting.{
  count_if-take_le, count_if-not, count_if-filter, take_all, take_some, count_if-split,
  count_if-never, count_if-twice, count_if-nested, count_if-within,
}
use hallouminate.Ground.Cut.Promotion.{
  places, others, behind, count_if-exchanged, count_if-promoted, locals_reserved, promoted_none,
}
use hallouminate.Text.{Text}
use hallouminate.Text.Order.{compare_text, compare_text-Lawful}

module _ {F : Type 0} where
  module _ (docs : List (Entry F)) (cap : ℕ) (priority : Option Text) (fallback_docs : List Text)
      (order : Cmp (Entry F)) where
    abbrev pub is_fused : Entry F → Bool
    is_fused e = not (is_fallback fallback_docs e)

    abbrev pub is_reserved : Text → Entry F → Bool
    is_reserved p e = is_fused e && is_local p e

    abbrev pub ranked : List (Entry F)
    ranked = sort_by order (filter is_fused docs)

    abbrev pub fallback : List (Entry F)
    fallback = sort_by order (filter (is_fallback fallback_docs) docs)

    -- The reserve has nothing to do.
    abbrev pub IsIdle : Option Text → Type 0
    IsIdle none = Unit
    IsIdle (some p) = reserved_local_slots ≤ count_if (is_local p) (take cap ranked)

    -- The trade of places for a corpus: as many of its first documents behind the window are in a list
    -- as its last others in the window are not, which is as many as the reserve misses.
    abbrev pub Exchanged : Option Text → List (Entry F) → Type 0
    Exchanged none xs = Unit
    Exchanged (some p) xs =
        (q : Entry F → Bool)
        → count_if q xs + count_if q (take (places cap p ranked) (others cap p ranked))
          ≡ count_if q (take cap ranked)
            + count_if q (take (places cap p ranked) (behind cap p ranked))

    pub record Reserved (out : List (Entry F)) : Type 0 where
      pub size : length out ≡ min cap (length docs)
      pub kept : (q : Entry F → Bool) → count_if q out ≤ count_if q docs
      pub fused : count_if is_fused out ≡ min cap (count_if is_fused docs)
      pub locals :
          (p : Text)
          → priority ≡ some p
          → min (min reserved_local_slots cap) (count_if (is_reserved p) docs)
            ≤ count_if (is_reserved p) out
      pub exchanged : cap < length ranked → Exchanged priority out
      pub in_order : IsSortedBy (λ a b. compare_text a.0 b.0) out
      pub best : IsIdle priority → out ≡ collect (take cap (ranked ++ fallback))

    count_if-ranked :
        (q : Entry F → Bool) → count_if q ranked ≡ count_if (λ e. is_fused e && q e) docs
    count_if-ranked q =
        count_if-sort_by order q (filter is_fused docs) ∙ count_if-filter is_fused q docs

    count_if-fallback :
        (q : Entry F → Bool)
        → count_if q fallback ≡ count_if (λ e. is_fallback fallback_docs e && q e) docs
    count_if-fallback q =
        count_if-sort_by order q (filter (is_fallback fallback_docs) docs)
        ∙ count_if-filter (is_fallback fallback_docs) q docs

    length-ranked : length ranked ≡ count_if is_fused docs
    length-ranked =
        omega (arith, length-sort_by order (filter is_fused docs), length-filter is_fused docs)

    length-fallback : length fallback ≡ count_if (is_fallback fallback_docs) docs
    length-fallback = omega (
      arith,
      length-sort_by order (filter (is_fallback fallback_docs) docs),
      length-filter (is_fallback fallback_docs) docs,
    )

    count_if-collect :
        (q : Entry F → Bool) (xs : List (Entry F)) → count_if q (collect xs) ≡ count_if q xs
    unfolding collect
    count_if-collect q xs = count_if-sort_by _ q xs

    length-collect : (xs : List (Entry F)) → length (collect xs) ≡ length xs
    unfolding collect
    length-collect xs = length-sort_by _ xs

    collect-IsSortedBy :
        (xs : List (Entry F)) → IsSortedBy (λ a b. compare_text a.0 b.0) (collect xs)
    unfolding collect
    collect-IsSortedBy xs =
        sort_by-IsSortedBy (λ a b. compare_text a.0 b.0)
          (on-Lawful (λ (e : Entry F). e.0) compare_text-Lawful) xs

    collect-Exchanged :
        (p : Option Text) (xs : List (Entry F)) → Exchanged p xs → Exchanged p (collect xs)
    collect-Exchanged none xs h = tt
    collect-Exchanged (some p) xs h = λ q. omega (arith, h q, count_if-collect q xs)

    no_fallback : count_if (is_fallback fallback_docs) ranked ≡ 0
    no_fallback =
        count_if-ranked (is_fallback fallback_docs)
        ∙ count_if-never (is_fallback fallback_docs) docs

    -- The documents that are kept where the fused ones do not fit.
    Reserved-window :
        (xs : List (Entry F))
        → cap ≤ length ranked
        → ((q : Entry F → Bool) → count_if q xs ≤ count_if q ranked)
        → length xs ≡ cap
        → ((p : Text)
            → priority ≡ some p
            → min (min reserved_local_slots cap) (count_if (is_local p) ranked)
              ≤ count_if (is_local p) xs)
        → Exchanged priority xs
        → (IsIdle priority → xs ≡ take cap ranked)
        → Reserved (collect xs)
    Reserved-window xs long within size locals exchanged idle = record {
      size = omega (
        arith,
        long,
        size,
        length-collect xs,
        length-ranked,
        count_if-not (is_fallback fallback_docs) docs,
      );
      kept = λ q. omega (
        arith,
        within q,
        count_if-collect q xs,
        count_if-ranked q,
        count_if-split (is_fallback fallback_docs) q docs,
      );
      fused = omega (
        arith,
        long,
        size,
        within (is_fallback fallback_docs),
        no_fallback,
        length-ranked,
        count_if-collect is_fused xs,
        count_if-not (is_fallback fallback_docs) xs,
      );
      locals = λ p e. omega (
        arith,
        locals p e,
        within (is_fallback fallback_docs),
        no_fallback,
        count_if-collect (is_reserved p) xs,
        count_if-within (is_fallback fallback_docs) (is_local p) xs,
        count_if-ranked (is_local p),
      );
      exchanged = λ _. collect-Exchanged priority xs exchanged;
      in_order = collect-IsSortedBy xs;
      best = λ h. ap collect (idle h ∙ sym (take_some cap ranked fallback long));
    }

    Reserved-all :
        length ranked ≤ cap → Reserved (collect (ranked ++ take (cap - length ranked) fallback))
    Reserved-all short =
        let extra = take (cap - length ranked) fallback in
        let xs = ranked ++ extra in
        record {
          size = omega (
            arith,
            short,
            length-collect xs,
            length-append ranked extra,
            length-ranked,
            length-fallback,
            length-take (cap - length ranked) fallback,
            count_if-not (is_fallback fallback_docs) docs,
          );
          kept = λ q. omega (
            arith,
            count_if-collect q xs,
            count_if-append q ranked extra,
            count_if-ranked q,
            count_if-fallback q,
            count_if-take_le q (cap - length ranked) fallback,
            count_if-split (is_fallback fallback_docs) q docs,
          );
          fused = omega (
            arith,
            short,
            length-ranked,
            count_if-collect is_fused xs,
            count_if-append is_fused ranked extra,
            count_if-ranked is_fused,
            count_if-twice (is_fallback fallback_docs) docs,
            count_if-fallback is_fused,
            count_if-take_le is_fused (cap - length ranked) fallback,
            count_if-split (is_fallback fallback_docs) is_fused docs,
          );
          locals = λ p e. omega (
            arith,
            count_if-collect (is_reserved p) xs,
            count_if-append (is_reserved p) ranked extra,
            count_if-ranked (is_reserved p),
            count_if-nested (is_fallback fallback_docs) (is_local p) docs,
          );
          exchanged = λ h. absurd (omega (arith, short, h));
          in_order = collect-IsSortedBy xs;
          best = λ h. ap collect (sym (take_all cap ranked fallback short));
        }

    record Window (p : Option Text) (xs : List (Entry F)) : Type 0 where
      within : (q : Entry F → Bool) → count_if q xs ≤ count_if q ranked
      size : length xs ≡ cap
      locals :
          (name : Text)
          → p ≡ some name
          → min (min reserved_local_slots cap) (count_if (is_local name) ranked)
            ≤ count_if (is_local name) xs
      exchanged : Exchanged p xs
      idle : IsIdle p → xs ≡ take cap ranked

    window-Window : (p : Option Text) → cap ≤ length ranked → Window p (window cap p ranked)
    unfolding window
    window-Window none long = record {
      within = λ q. count_if-take_le q cap ranked;
      size = omega (arith, long, length-take cap ranked);
      locals = λ name e. ground (arith, e);
      exchanged = tt;
      idle = λ h. refl;
    }
    window-Window (some name) long =
        let xs = promoted cap name ranked in
        record {
          within =
              λ q. omega (arith, count_if-take_le q cap xs, count_if-promoted cap name ranked q);
          size = omega (
            arith,
            long,
            length-take cap xs,
            count_if-promoted cap name ranked (λ e. true),
            count_if_all xs,
            count_if_all ranked,
          );
          locals = λ other e.
              subst
                (λ (n : Text).
                  min (min reserved_local_slots cap) (count_if (is_local n) ranked)
                  ≤ count_if (is_local n) (take cap xs))
                (ap (λ (o : Option Text). elim o [ none ↦ name | some n ↦ n ]) e)
                (locals_reserved cap name ranked long);
          exchanged = count_if-exchanged cap name ranked;
          idle = λ h. ap (take cap) (promoted_none cap name ranked h);
        }

    window-Reserved : cap ≤ length ranked → Reserved (collect (window cap priority ranked))
    window-Reserved long =
        let w = window-Window priority long in
        Reserved-window (window cap priority ranked) long w.within w.size w.locals w.exchanged
          w.idle

    -- The answer keeps as many documents as the cap allows, no document twice and none that was not
    -- there; those of the lexical fallback only fill what the fused ones leave. Of a priority corpus it
    -- keeps two fused documents, or all where there are fewer, if the cap has room for them: where the
    -- cap cuts fused documents off, the first ones of the corpus behind the cut come in for the last
    -- others before it, as many as two exceed those before it, or as there are of either, and nothing
    -- else changes. Where that asks for nothing, the documents are the first of the fused ones in their
    -- order, and then of the others. The answer is in order of the paths.
    pub cut_with_local_reserve-Reserved :
        Reserved (cut_with_local_reserve docs cap priority fallback_docs order)
    unfolding cut_with_local_reserve
    cut_with_local_reserve-Reserved = elim (Bool-cases (leb (length ranked) cap)) [
      | inl short ↦ rw (short, cut_with_local_reserve) (Reserved-all (ground (arith, short)))
      | inr long ↦ rw (long, cut_with_local_reserve) (window-Reserved (ground (arith, long)))
    ]
