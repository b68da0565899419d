-- ===== src/Ground/Pages/Slots.antt =====
-- The slots in which `group_by_page` of crates/hallouminate-domain/src/ground/bucket.rs finds the entry of
-- a page again.
use hallouminate.Common.{
  ℕ, zero, suc, ◌+◌, ◌≡◌, refl, ◌∙◌, ap, Bool, true, false, Option, none, some, List, [], ◌∷◌, ◌++◌,
  arith, length, if◌then◌else◌,
}
use hallouminate.Common.SortBy.{count_if}
use hallouminate.Ground.Pages.{page_label, PageEntry, bump_at}
use hallouminate.Search.Types.{SearchHit}
use hallouminate.Text.{Text, equal}

abbrev pub is_page : Text → Option Text → Bool
is_page page none = false
is_page page (some other) = equal other page

abbrev pub next : Option ℕ → Option ℕ
next none = none
next (some slot) = some (suc slot)

abbrev pub more : Option ℕ → ℕ → Option ℕ
more none n = none
more (some count) n = some (count + n)

abbrev pub or_last : Bool → ℕ → Option ℕ → Option ℕ
or_last true n none = some n
or_last false n none = none
or_last here n (some slot) = some slot

module _ {F : Type 0} where
  -- How many chunks are of a page; a chunk that is of none joins no other.
  abbrev pub chunks_on : Option Text → List (SearchHit F) → ℕ
  chunks_on none hits = 0
  chunks_on (some page) hits = count_if (λ h. is_page page (page_label h)) hits

  -- The entries after some more hits that join them.
  unfoldable pub raised : List (SearchHit F) → List (PageEntry F) → List (PageEntry F)
  unfolding count_if
  raised hits [] = []
  raised hits ((h, count) ∷ entries) =
      (h, more count (chunks_on (page_label h) hits)) ∷ raised hits entries

  unfoldable pub slot_of : Text → List (PageEntry F) → Option ℕ
  slot_of page [] = none
  slot_of page ((h, count) ∷ entries) =
      let rest = next (slot_of page entries) in if is_page page (page_label h) then some 0 else rest

  -- No page has two entries.
  abbrev pub IsDistinct : List (PageEntry F) → Type 0
  IsDistinct [] = Unit
  IsDistinct (e ∷ entries) =
      ((page : Text) → is_page page (page_label e.0) ≡ true → slot_of page entries ≡ none)
      × IsDistinct entries

  pub slot_of-bump_at :
      (page : Text) (slot : ℕ) (es : List (PageEntry F))
      → slot_of page (bump_at slot es) ≡ slot_of page es
  unfolding slot_of bump_at
  slot_of-bump_at page slot [] = refl
  slot_of-bump_at page zero ((h, count) ∷ es) = refl
  slot_of-bump_at page (suc slot) ((h, count) ∷ es) = ground (arith, slot_of-bump_at page slot es)

  pub bump_at-IsDistinct :
      (slot : ℕ) (es : List (PageEntry F)) → IsDistinct es → IsDistinct (bump_at slot es)
  unfolding bump_at
  bump_at-IsDistinct slot [] d = d
  bump_at-IsDistinct zero ((h, count) ∷ es) d = d
  bump_at-IsDistinct (suc slot) ((h, count) ∷ es) (new, d) =
      (λ page e. slot_of-bump_at page slot es ∙ new page e, bump_at-IsDistinct slot es d)

  pub slot_of-append :
      (page : Text) (e : PageEntry F) (es : List (PageEntry F))
      → slot_of page (es ++ e ∷ [])
        ≡ or_last (is_page page (page_label e.0)) (length es) (slot_of page es)
  unfolding slot_of
  slot_of-append page e [] = ground arith
  slot_of-append page e ((h, count) ∷ es) = ground (arith, slot_of-append page e es)

  pub append-IsDistinct :
      (e : PageEntry F) (es : List (PageEntry F))
      → IsDistinct es
      → ((page : Text) → is_page page (page_label e.0) ≡ true → slot_of page es ≡ none)
      → IsDistinct (es ++ e ∷ [])
  unfolding slot_of
  append-IsDistinct e [] d new = ((λ page s. refl), tt)
  append-IsDistinct e ((h, count) ∷ es) (first, d) new = (
    λ page here. ground (arith, here, first page here, new page, slot_of-append page e es),
    append-IsDistinct e es d (λ page here. ground (arith, new page here)),
  )

  pub raised-append :
      (hits : List (SearchHit F)) (es fs : List (PageEntry F))
      → raised hits (es ++ fs) ≡ raised hits es ++ raised hits fs
  unfolding raised
  raised-append hits [] fs = refl
  raised-append hits ((h, count) ∷ es) fs =
      ap (λ rest. (h, more count (chunks_on (page_label h) hits)) ∷ rest) (raised-append hits es fs)
