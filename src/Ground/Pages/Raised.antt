-- ===== src/Ground/Pages/Raised.antt =====
-- How a chunk changes the entries so far of `group_by_page`,
-- crates/hallouminate-domain/src/ground/bucket.rs.
use hallouminate.Common.{
  ℕ, zero, suc, ◌+◌, ◌≡◌, refl, ◌∙◌, sym, ap, Bool, true, false, Bool-cases, inl, inr, Option, none,
  some, List, [], ◌∷◌, ◌++◌, arith, if◌then◌else◌,
}
use hallouminate.Common.SortBy.{count_if}
use hallouminate.Ground.Pages.{page_label, PageEntry, stood_for, bump_at}
use hallouminate.Ground.Pages.Slots.{
  is_page, chunks_on, more, raised, slot_of, IsDistinct, raised-append,
}
use hallouminate.Search.Types.{SearchHit}
use mathlib.Core.List.{append_assoc}
use mathlib.Core.Path.{subst}
use hallouminate.Text.{Text}
use hallouminate.Text.Equal.{equal_iff, equal_self}

abbrev joins : Option Text → Option Text → Bool
joins none label = false
joins (some page) label = is_page page label

joins_sym : (page : Text) (o : Option Text) → is_page page o ≡ joins o (some page)
joins_sym page none = refl
joins_sym page (some other) = ground (arith, equal_iff page other, equal_iff other page)

more-suc : (count : Option ℕ) (n : ℕ) → more count (suc n) ≡ more (stood_for count) n
more-suc none n = refl
more-suc (some count) n = ap some (omega arith)

more_zero : (count : Option ℕ) → more count 0 ≡ count
more_zero none = refl
more_zero (some n) = ap some (omega arith)

chunks_on-nil : (F : Type 0) (o : Option Text) → chunks_on {F = F} o [] ≡ 0
unfolding count_if
chunks_on-nil F none = refl
chunks_on-nil F (some page) = refl

module _ {F : Type 0} where
  chunks_on-cons :
      (hit : SearchHit F) (hits : List (SearchHit F)) (o l : Option Text)
      → page_label hit ≡ l
      → chunks_on o (hit ∷ hits) ≡ (if joins o l then suc (chunks_on o hits) else chunks_on o hits)
  unfolding count_if
  chunks_on-cons hit hits none l e = refl
  chunks_on-cons hit hits (some page) l e = rw e refl

  unjoined :
      (h : SearchHit F) (count : Option ℕ) (es : List (PageEntry F)) (o l : Option Text)
      → page_label h ≡ o
      → ((page : Text) → is_page page l ≡ true → slot_of page ((h, count) ∷ es) ≡ none)
      → joins o l ≡ false
  unfolding slot_of
  unjoined h count es none l same new = refl
  unjoined h count es (some page) l same new = elim (Bool-cases (is_page page l)) [
    | inl here ↦ ground (arith, here, same, new page here, equal_self page)
    | inr other ↦ other
  ]

  -- A chunk of a page that has no entry changes none.
  pub raised-skip :
      (hit : SearchHit F) (hits : List (SearchHit F)) (l : Option Text) (es : List (PageEntry F))
      → page_label hit ≡ l
      → ((page : Text) → is_page page l ≡ true → slot_of page es ≡ none)
      → raised (hit ∷ hits) es ≡ raised hits es
  unfolding raised slot_of
  raised-skip hit hits l [] e new = refl
  raised-skip hit hits l ((h, count) ∷ es) e new =
      let rest = raised-skip hit hits l es e (λ page here. ground (arith, new page here)) in
      let same : chunks_on (page_label h) (hit ∷ hits) ≡ chunks_on (page_label h) hits =
        chunks_on-cons hit hits (page_label h) l e
        ∙ rw (unjoined h count es (page_label h) l refl new) refl in
      rw (same, rest) refl

  -- A chunk of a page that has an entry raises that.
  pub raised-bump_at :
      (hit : SearchHit F) (hits : List (SearchHit F)) (page : Text) (slot : ℕ)
      (es : List (PageEntry F))
      → page_label hit ≡ some page
      → slot_of page es ≡ some slot
      → IsDistinct es
      → raised (hit ∷ hits) es ≡ raised hits (bump_at slot es)
  unfolding raised slot_of bump_at
  raised-bump_at hit hits page slot [] e at d = ground (arith, at)
  raised-bump_at hit hits page zero ((h, count) ∷ es) e at (new, d) =
      let here : is_page page (page_label h) ≡ true = ground (arith, at) in
      let rest = raised-skip hit hits (some page) es e (λ p yes.
        new p (subst (λ q. is_page q (page_label h) ≡ true) ((equal_iff page p).0 yes) here)) in
      let one : chunks_on (page_label h) (hit ∷ hits) ≡ suc (chunks_on (page_label h) hits) =
        chunks_on-cons hit hits (page_label h) (some page) e
        ∙ rw (sym (joins_sym page (page_label h)) ∙ here) refl in
      rw (one, rest, more-suc count (chunks_on (page_label h) hits)) refl
  raised-bump_at hit hits page (suc slot) ((h, count) ∷ es) e at (new, d) =
      let other : is_page page (page_label h) ≡ false = ground (arith, at) in
      let rest = raised-bump_at hit hits page slot es e (ground (arith, at, other)) d in
      let same : chunks_on (page_label h) (hit ∷ hits) ≡ chunks_on (page_label h) hits =
        chunks_on-cons hit hits (page_label h) (some page) e
        ∙ rw (sym (joins_sym page (page_label h)) ∙ other) refl in
      rw (same, rest) refl

  pub raised-append_one :
      (hit : SearchHit F) (hits : List (SearchHit F)) (l : Option Text)
      (entries : List (PageEntry F)) (rest : List (PageEntry F))
      → page_label hit ≡ l
      → raised hits (entries ++ (hit, some 1) ∷ []) ++ rest
        ≡ raised hits entries ++ (hit, some (1 + chunks_on l hits)) ∷ rest
  unfolding raised
  raised-append_one hit hits l entries rest e =
      ap (λ es. es ++ rest) (raised-append hits entries ((hit, some 1) ∷ []))
      ∙ append_assoc (raised hits entries) (raised hits ((hit, some 1) ∷ [])) rest
      ∙ rw e refl

  pub raised-nil : (entries : List (PageEntry F)) → raised [] entries ≡ entries
  unfolding raised
  raised-nil [] = refl
  raised-nil ((h, count) ∷ entries) =
      rw (chunks_on-nil F (page_label h), more_zero count, raised-nil entries) refl
