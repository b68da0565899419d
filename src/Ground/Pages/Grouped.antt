-- ===== src/Ground/Pages/Grouped.antt =====
-- What `group_by_page` of crates/hallouminate-domain/src/ground/bucket.rs makes of the chunks of a file.
use hallouminate.Assoc.{lookup, insert, lookup-insert}
use hallouminate.Common.{
  ◌==◌, if◌then◌else◌, Bool-cases, suc, ℕ, ◌+◌, ◌≡◌, refl, ◌∙◌, sym, ap, Bool, true, false, inl,
  inr, Option, none, some, Option-cases, List, [], ◌∷◌, ◌++◌, arith, length,
}
use hallouminate.Common.SortBy.{count_if}
use hallouminate.Ground.Pages.{
  page_label, PageEntry, labels_of, page_count, coverage_of, bump_at, group_from, group_by_page,
}
use hallouminate.Ground.Pages.Slots.{
  chunks_on, raised, slot_of, IsDistinct, slot_of-bump_at, bump_at-IsDistinct, slot_of-append,
  append-IsDistinct,
}
use hallouminate.Ground.Pages.Raised.{raised-skip, raised-bump_at, raised-append_one, raised-nil}
use hallouminate.Search.Fuse.{contains}
use hallouminate.Search.Terms.{unseen}
use hallouminate.Search.Types.{SearchHit}
use mathlib.Core.List.{append-nil}
use hallouminate.Text.{Text}
use hallouminate.Text.Equal.{equal_iff}

abbrev is_some : Option ℕ → Bool
is_some none = false
is_some (some n) = true

abbrev labelled : Option Text → Bool
labelled none = false
labelled (some page) = true

abbrev pub count_or_none : ℕ → Option ℕ
count_or_none n = if n == 0 then none else some n

page_count-length : (pages : List Text) → page_count pages ≡ count_or_none (length pages)
page_count-length [] = refl
page_count-length (page ∷ pages) = ground arith

module _ {F : Type 0} where
  -- Each chunk that opens an entry, with the number of chunks that it stands for: all those of its page,
  -- or itself alone where it is of none. The pages in the second argument have an entry.
  unfoldable pub grouped : List Text → List (SearchHit F) → List (PageEntry F)
  unfolding page_label contains count_if
  grouped seen [] = []
  grouped seen (hit ∷ hits) = elim (page_label hit) [
    | none ↦ (hit, some 1) ∷ grouped seen hits
    | some page ↦ elim (contains page seen) [
      | true ↦ grouped seen hits
      | false ↦ (hit, some (1 + chunks_on (some page) hits)) ∷ grouped (page ∷ seen) hits
    ]
  ]

  record Slots (seen : List Text) (entries : List (PageEntry F)) (slots : List (Text × ℕ))
      : Type 0 where
    kept : (page : Text) → lookup page slots ≡ slot_of page entries
    known : (page : Text) → contains page seen ≡ is_some (slot_of page entries)
    distinct : IsDistinct entries

  Slots-bump_at :
      (seen : List Text) (entries : List (PageEntry F)) (slots : List (Text × ℕ)) (slot : ℕ)
      → Slots seen entries slots
      → Slots seen (bump_at slot entries) slots
  Slots-bump_at seen entries slots slot s = record {
    kept = λ page. s.kept page ∙ sym (slot_of-bump_at page slot entries);
    known = λ page. s.known page ∙ ap is_some (sym (slot_of-bump_at page slot entries));
    distinct = bump_at-IsDistinct slot entries s.distinct;
  }

  Slots-alone :
      (hit : SearchHit F) (seen : List Text) (entries : List (PageEntry F))
      (slots : List (Text × ℕ))
      → page_label hit ≡ none
      → Slots seen entries slots
      → Slots seen (entries ++ (hit, some 1) ∷ []) slots
  Slots-alone hit seen entries slots e s = record {
    kept = λ page. s.kept page ∙ sym (same page);
    known = λ page. s.known page ∙ ap is_some (sym (same page));
    distinct =
        append-IsDistinct (hit, some 1) entries s.distinct (λ page here. ground (arith, e, here));
  }
    where
      same : (page : Text) → slot_of page (entries ++ (hit, some 1) ∷ []) ≡ slot_of page entries
      same page = ground (arith, slot_of-append page (hit, some 1) entries, e)

  Slots-opened :
      (hit : SearchHit F) (page : Text) (seen : List Text) (entries : List (PageEntry F))
      (slots : List (Text × ℕ))
      → page_label hit ≡ some page
      → slot_of page entries ≡ none
      → Slots seen entries slots
      → Slots (page ∷ seen) (entries ++ (hit, some 1) ∷ []) (insert page (length entries) slots)
  unfolding contains
  Slots-opened hit page seen entries slots e new s = record {
    kept = λ p. ground (
      arith,
      slot_of-append p (hit, some 1) entries,
      e,
      new,
      s.kept p,
      equal_iff page p,
      lookup-insert page p (length entries) slots,
    );
    known = λ p.
        ground (arith, slot_of-append p (hit, some 1) entries, e, new, s.known p, equal_iff page p);
    distinct =
        append-IsDistinct (hit, some 1) entries s.distinct
          (λ p here. ground (arith, e, here, new, equal_iff page p));
  }

  -- From any point of the loop on, the entries so far are raised and the others follow.
  group_from-grouped :
      (hits : List (SearchHit F)) (seen : List Text) (entries : List (PageEntry F))
      (slots : List (Text × ℕ))
      → Slots seen entries slots
      → group_from hits entries slots ≡ raised hits entries ++ grouped seen hits
  unfolding group_from grouped lookup
  group_from-grouped [] seen entries slots s =
      sym (append-nil (raised [] entries) ∙ raised-nil entries)
  group_from-grouped (hit ∷ hits) seen entries slots s =
      at_label (page_label hit) refl (group_from-grouped hits)
    where
      at_label :
          (l : Option Text)
          → page_label hit ≡ l
          → ((seen : List Text) (entries : List (PageEntry F)) (slots : List (Text × ℕ))
              → Slots seen entries slots
              → group_from hits entries slots ≡ raised hits entries ++ grouped seen hits)
          → group_from (hit ∷ hits) entries slots
            ≡ raised (hit ∷ hits) entries ++ grouped seen (hit ∷ hits)
      at_label none e ih =
          rw (e, group_from)
            (rw (e, grouped)
              (ih seen (entries ++ (hit, some 1) ∷ []) slots
                  (Slots-alone hit seen entries slots e s)
                ∙ raised-append_one hit hits none entries (grouped seen hits) e
                ∙ rw (raised-skip hit hits none entries e (λ page here. ground (arith, here)))
                    refl))
      at_label (some page) e ih = elim (Option-cases (slot_of page entries)) [
        | inl new ↦
            rw (e, group_from)
              (rw (s.kept page ∙ new, group_from)
                (rw (e, grouped)
                  (rw (s.known page ∙ ap is_some new, grouped)
                    (ih (page ∷ seen) (entries ++ (hit, some 1) ∷ [])
                        (insert page (length entries) slots)
                        (Slots-opened hit page seen entries slots e new s)
                      ∙ raised-append_one hit hits (some page) entries (grouped (page ∷ seen) hits)
                          e
                      ∙ rw
                          (raised-skip hit hits (some page) entries e (λ p here.
                            ap (λ q. slot_of q entries) (sym ((equal_iff page p).0 here)) ∙ new))
                          refl))))
        | inr (slot, found) ↦
            rw (e, group_from)
              (rw (s.kept page ∙ found, group_from)
                (rw (e, grouped)
                  (rw (s.known page ∙ ap is_some found, grouped)
                    (ih seen (bump_at slot entries) slots (Slots-bump_at seen entries slots slot s)
                      ∙ rw (raised-bump_at hit hits page slot entries e found s.distinct) refl))))
      ]

  abbrev pub has_page : PageEntry F → Bool
  has_page e = labelled (page_label e.0)

  -- The distinct pages are those of the entries.
  unseen-grouped :
      (seen : List Text) (hits : List (SearchHit F))
      → length (unseen seen (labels_of hits)) ≡ count_if has_page (grouped seen hits)
  unfolding unseen labels_of grouped count_if contains
  unseen-grouped seen [] = refl
  unseen-grouped seen (hit ∷ hits) =
      at_label (page_label hit) refl (λ seen. unseen-grouped seen hits)
    where
      at_label :
          (l : Option Text)
          → page_label hit ≡ l
          → ((seen : List Text)
              → length (unseen seen (labels_of hits)) ≡ count_if has_page (grouped seen hits))
          → length (unseen seen (labels_of (hit ∷ hits)))
            ≡ count_if has_page (grouped seen (hit ∷ hits))
      at_label none e ih = rw (e, labels_of) (rw (e, grouped) (rw (e, count_if) (ih seen)))
      at_label (some page) e ih = elim (Bool-cases (contains page seen)) [
        | inl old ↦ rw (e, labels_of) (rw (e, grouped) (rw (old, grouped) (ih seen)))
        | inr new ↦
            rw (e, labels_of)
              (rw (e, grouped) (rw (new, grouped) (rw (e, count_if) (ap suc (ih (page ∷ seen))))))
      ]

  -- What a file's hits are told by page.
  pub record Paged (hits : List (SearchHit F)) : Type 0 where
    pub entries : group_by_page hits ≡ grouped [] hits
    pub pages : (coverage_of hits).pages ≡ count_or_none (count_if has_page (group_by_page hits))

  -- The chunks of a page make one entry, at the place of the first of them and with their number; a chunk
  -- of no page makes its own. A file's coverage has as many pages as there are entries of pages, and none
  -- where there is no such entry.
  pub group_by_page-Paged : (hits : List (SearchHit F)) → Paged hits
  unfolding group_by_page coverage_of slot_of contains grouped raised
  group_by_page-Paged hits =
      let whole : group_by_page hits ≡ grouped [] hits =
        group_from-grouped hits [] [] []
          (record { kept = λ page. refl; known = λ page. refl; distinct = tt }) in
      record {
        entries = whole;
        pages =
            page_count-length (unseen [] (labels_of hits))
            ∙ ap count_or_none (unseen-grouped [] hits ∙ ap (count_if has_page) (sym whole));
      }
