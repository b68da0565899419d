-- ===== src/Ground/Cut/Promotion.antt =====
-- The promotion of local documents in crates/hallouminate-domain/src/ground/orchestrate.rs.
use mathlib.Core.List.{reverse}
use hallouminate.Common.{
  ℕ, ◌+◌, ◌-◌, ◌≤◌, min, ◌≡◌, ◌∙◌, sym, ap, Bool, not, List, arith, length, take, drop,
}
use hallouminate.Common.SortBy.{count_if, filter, length-take, length-filter}
use hallouminate.Ground.Cut.Exchange.{
  Elements, Elements-take, Elements-reverse, Elements-positions, exchange, take-take, take_same,
}
use hallouminate.Ground.Cut.{
  at, Entry, reserved_local_slots, positions, swap_all, is_local, promoted,
}
use hallouminate.Ground.Cut.Counting.{count_if-parts, count_if-not}
use hallouminate.Ground.Cut.Positions.{
  All-take, All-reverse, IsDistinct-take, IsDistinct-reverse, length-reverse, positions-IsDistinct,
  length-positions, at-drop, at-take_in, positions-IsOutside, positions-Inside,
}
use hallouminate.Ground.Cut.Swaps.{count_if-take-swap_all, count_if-swap_all}
use hallouminate.Text.{Text}

module _ {F : Type 0} where
  module _ (cap : ℕ) (priority : Text) (ranked : List (Entry F)) where
    abbrev here : Entry F → Bool
    here = is_local priority

    abbrev away : Entry F → Bool
    away e = not (is_local priority e)

    abbrev promote : List ℕ
    promote =
        take (reserved_local_slots - count_if here (take cap ranked))
          (positions here cap (drop cap ranked))

    abbrev evict : List ℕ
    evict = take (length promote) (reverse (positions away 0 (take cap ranked)))

    promote-length :
        length promote
        ≡ min
            (reserved_local_slots - count_if here (take cap ranked))
            (count_if here (drop cap ranked))
    promote-length = omega (
      arith,
      length-take (reserved_local_slots - count_if here (take cap ranked))
          (positions here cap (drop cap ranked)),
      length-positions here cap (drop cap ranked),
    )

    evict-length : length evict ≡ min (length promote) (count_if away (take cap ranked))
    evict-length = omega (
      arith,
      length-take (length promote) (reverse (positions away 0 (take cap ranked))),
      length-reverse (positions away 0 (take cap ranked)),
      length-positions away 0 (take cap ranked),
    )

    pub count_if-promoted :
        (q : Entry F → Bool) → count_if q (promoted cap priority ranked) ≡ count_if q ranked
    unfolding promoted
    count_if-promoted q =
        count_if-swap_all here cap q promote evict ranked
          (IsDistinct-take _ _ (positions-IsDistinct here cap (drop cap ranked)))
          (IsDistinct-take _ _
            (IsDistinct-reverse _ (positions-IsDistinct away 0 (take cap ranked))))
          (All-take _ _ _ (positions-IsOutside here cap ranked))
          (All-take _ _ _ (All-reverse _ _ (positions-Inside here cap ranked)))

    locals-promoted :
        count_if here (take cap (promoted cap priority ranked))
        ≡ count_if here (take cap ranked) + min (length promote) (length evict)
    unfolding promoted
    locals-promoted =
        count_if-take-swap_all here cap promote evict ranked
          (IsDistinct-take _ _ (positions-IsDistinct here cap (drop cap ranked)))
          (IsDistinct-take _ _
            (IsDistinct-reverse _ (positions-IsDistinct away 0 (take cap ranked))))
          (All-take _ _ _ (positions-IsOutside here cap ranked))
          (All-take _ _ _ (All-reverse _ _ (positions-Inside here cap ranked)))

    -- The local documents behind the window, the first one first.
    abbrev pub behind : List (Entry F)
    behind = filter here (drop cap ranked)

    -- The others in the window, the last one first.
    abbrev pub others : List (Entry F)
    others = reverse (filter away (take cap ranked))

    -- How many documents change places.
    abbrev pub places : ℕ
    places =
        min (min (reserved_local_slots - count_if here (take cap ranked)) (length behind))
          (length others)

    others-length : length others ≡ count_if away (take cap ranked)
    others-length =
        length-reverse (filter away (take cap ranked)) ∙ length-filter away (take cap ranked)

    promote-Elements :
        Elements ranked promote
          (take (reserved_local_slots - count_if here (take cap ranked)) behind)
    promote-Elements =
        Elements-take (reserved_local_slots - count_if here (take cap ranked)) ranked behind
          (positions here cap (drop cap ranked))
          (Elements-positions here cap (drop cap ranked) ranked (λ k x e.
            sym (at-drop here cap (cap + k) ranked (omega arith))
            ∙ ap (λ m. at m (drop cap ranked)) (omega arith)
            ∙ e))

    evict-Elements : Elements ranked evict (take (length promote) others)
    evict-Elements =
        Elements-take (length promote) ranked others (reverse (positions away 0 (take cap ranked)))
          (Elements-reverse ranked (filter away (take cap ranked))
            (positions away 0 (take cap ranked))
            (Elements-positions away 0 (take cap ranked) ranked
              (λ k x e. ap (λ m. at m ranked) (omega arith) ∙ (at-take_in cap k x ranked e).1)))

    exchanged_counts :
        (q : Entry F → Bool)
        → count_if q (take cap (promoted cap priority ranked))
            + count_if q (take (length promote) (take (length promote) others))
          ≡ count_if q (take cap ranked)
            + count_if q (
                take
                  (length evict)
                  (take (reserved_local_slots - count_if here (take cap ranked)) behind))
    unfolding promoted
    exchanged_counts q =
        exchange here q cap promote evict _ _ ranked promote-Elements evict-Elements
          (IsDistinct-take _ _ (positions-IsDistinct here cap (drop cap ranked)))
          (IsDistinct-take _ _
            (IsDistinct-reverse _ (positions-IsDistinct away 0 (take cap ranked))))
          (All-take _ _ _ (positions-IsOutside here cap ranked))
          (All-take _ _ _ (All-reverse _ _ (positions-Inside here cap ranked)))

    -- The first ones behind the window come in for the last others in it.
    pub count_if-exchanged :
        (q : Entry F → Bool)
        → count_if q (take cap (promoted cap priority ranked)) + count_if q (take places others)
          ≡ count_if q (take cap ranked) + count_if q (take places behind)
    count_if-exchanged q =
        let missing = reserved_local_slots - count_if here (take cap ranked) in
        let h = exchanged_counts q in
        let behind_length = length-filter here (drop cap ranked) in
        let out : take (length promote) (take (length promote) others) ≡ take places others =
          take-take (length promote) (length promote) others
          ∙ take_same _ _ others (omega (arith, promote-length, behind_length)) in
        let in_ : take (length evict) (take missing behind) ≡ take places behind =
          take-take (length evict) missing behind
          ∙ ap (λ n. take n behind)
              (omega (arith, promote-length, evict-length, behind_length, others-length)) in
        omega (arith, h, ap (count_if q) out, ap (count_if q) in_)

    pub locals_reserved :
        cap ≤ length ranked
        → min (min reserved_local_slots cap) (count_if here ranked)
          ≤ count_if here (take cap (promoted cap priority ranked))
    locals_reserved long = omega (
      arith,
      long,
      locals-promoted,
      promote-length,
      evict-length,
      count_if-not here (take cap ranked),
      length-take cap ranked,
      count_if-parts here cap ranked,
    )

    pub promoted_none :
        reserved_local_slots ≤ count_if here (take cap ranked)
        → promoted cap priority ranked ≡ ranked
    unfolding promoted swap_all
    promoted_none enough =
        let s : reserved_local_slots - count_if here (take cap ranked) ≡ 0 =
          omega (arith, enough) in
        ap
          (λ n.
            let js = take n (positions here cap (drop cap ranked)) in
            swap_all js (take (length js) (reverse (positions away 0 (take cap ranked)))) ranked)
          s
