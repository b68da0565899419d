-- ===== src/Corpus/Footnotes/Exclude.antt =====
-- Excluding footnotes removes exactly their characters.
use hallouminate.Common.{
  ℕ, ◌≤◌, ◌≡◌, refl, sym, ap, ◌∙◌, true, ◌&&◌, ◌||◌, none, List, [], ◌∷◌, leb, ltb, arith, All,
}
use hallouminate.Text.{Text}
use hallouminate.Corpus.Footnotes.{
  Range, Events, ranges_of, insert_range, sort_ranges, apply_deletions, exclude_footnotes,
}
use hallouminate.Corpus.Footnotes.Deletions.{
  inside, survivors, survivors_same, survivors_all, IsRange, Sorted, delete_from-survivors,
}

inside-insert_range :
    (i : ℕ) (r : Range) (qs : List Range) → inside (insert_range r qs) i ≡ inside (r ∷ qs) i
unfolding insert_range
inside-insert_range i r [] = refl
inside-insert_range i r (q ∷ qs) = ground (arith, inside-insert_range i r qs)

inside-sort_ranges : (i : ℕ) (rs : List Range) → inside (sort_ranges rs) i ≡ inside rs i
unfolding sort_ranges
inside-sort_ranges i [] = refl
inside-sort_ranges i (r ∷ rs) =
    inside-insert_range i r (sort_ranges rs)
    ∙ ap (λ b. (leb r.start i && ltb i r.end) || b) (inside-sort_ranges i rs)

insert_range-Sorted :
    (low : ℕ) (r : Range) (qs : List Range)
    → low ≤ r.start
    → IsRange r
    → Sorted low qs
    → Sorted low (insert_range r qs)
unfolding insert_range
insert_range-Sorted low r [] le range h = (le, range, tt)
insert_range-Sorted low r (q ∷ qs) le range h = ground (arith, insert_range-Sorted q.start r qs)

sort_ranges-Sorted : (rs : List Range) → All IsRange rs → Sorted 0 (sort_ranges rs)
unfolding sort_ranges
sort_ranges-Sorted [] h = tt
sort_ranges-Sorted (r ∷ rs) h =
    insert_range-Sorted 0 r (sort_ranges rs) (omega arith) h.0 (sort_ranges-Sorted rs h.1)

excluded :
    (content : Text) (rs : List Range)
    → All IsRange rs
    → (elim rs [ [] ↦ content | r ∷ ranges ↦ apply_deletions content (sort_ranges (r ∷ ranges)) ])
      ≡ survivors (inside rs) 0 content
unfolding apply_deletions
excluded content [] h = sym (survivors_all (inside []) 0 content (λ j. refl))
excluded content (r ∷ rs) h =
    delete_from-survivors content (sort_ranges (r ∷ rs)) 0 0 (sort_ranges-Sorted (r ∷ rs) h)
    ∙ survivors_same (inside (sort_ranges (r ∷ rs))) (inside (r ∷ rs)) 0 content
        (λ j le. inside-sort_ranges j (r ∷ rs))

-- Excluding the footnotes leaves exactly the characters that lie in no reference and no definition,
-- in their order, also where these overlap or come unsorted. No range that the parser gives ends
-- before it starts.
pub exclude_footnotes-survivors :
    (parse : Text → Events) (content : Text)
    → All IsRange (ranges_of true none (parse content))
    → exclude_footnotes parse content
      ≡ survivors (inside (ranges_of true none (parse content))) 0 content
unfolding exclude_footnotes
exclude_footnotes-survivors parse content h =
    excluded content (ranges_of true none (parse content)) h
