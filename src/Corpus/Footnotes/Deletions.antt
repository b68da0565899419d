-- ===== src/Corpus/Footnotes/Deletions.antt =====
-- What the deletions of footnotes leave of a text.
use hallouminate.Common.{
  ℕ, zero, suc, ◌+◌, ◌-◌, ◌≤◌, ◌<◌, max, ◌≡◌, refl, sym, ap, ◌∙◌, Bool, true, false, ◌&&◌, ◌||◌,
  List, [], ◌∷◌, ◌++◌, length, take, drop, leb, ltb, if◌then◌else◌, arith,
}
use hallouminate.Text.{Text}
use hallouminate.Corpus.Footnotes.{Range, slice, delete_from}

-- The position lies in one of the ranges.
abbrev pub inside : List Range → ℕ → Bool
inside [] i = false
inside (r ∷ rs) i = (leb r.start i && ltb i r.end) || inside rs i

-- The characters, counted from `i`, that lie in none of the ranges.
abbrev pub survivors : (ℕ → Bool) → ℕ → Text → Text
survivors gone i [] = []
survivors gone i (c ∷ s) = let rest = survivors gone (suc i) s in if gone i then rest else c ∷ rest

-- A range does not end before it starts.
abbrev pub IsRange : Range → Type 0
IsRange r = r.start ≤ r.end

abbrev pub Sorted : ℕ → List Range → Type 0
Sorted low [] = Unit {0}
Sorted low (r ∷ rs) = (low ≤ r.start) × IsRange r × Sorted r.start rs

pub survivors_same :
    (f g : ℕ → Bool) (i : ℕ) (s : Text)
    → ((j : ℕ) → i ≤ j → f j ≡ g j)
    → survivors f i s ≡ survivors g i s
survivors_same f g i [] h = refl
survivors_same f g i (c ∷ s) h =
    ground (arith, h i (omega arith), survivors_same f g (suc i) s (λ j le. h j (omega arith)))

survivors_kept :
    (f : ℕ → Bool) (k i : ℕ) (s : Text)
    → ((j : ℕ) → i ≤ j → j < i + k → f j ≡ false)
    → survivors f i s ≡ take k s ++ survivors f (i + k) (drop k s)
survivors_kept f zero i s h = let e : i + 0 ≡ i = omega arith in rw e
survivors_kept f (suc k) i [] h = refl
survivors_kept f (suc k) i (c ∷ s) h =
    let e : i + suc k ≡ suc i + k = omega arith in
    let here : f i ≡ false = h i (omega arith) (omega arith) in
    let ih = survivors_kept f k (suc i) s (λ j le lt. h j (omega arith) (omega arith)) in
    rw (here, e) (ap (λ t. c ∷ t) ih)

survivors_gone :
    (f : ℕ → Bool) (k i : ℕ) (s : Text)
    → ((j : ℕ) → i ≤ j → j < i + k → f j ≡ true)
    → survivors f i s ≡ survivors f (i + k) (drop k s)
survivors_gone f zero i s h = let e : i + 0 ≡ i = omega arith in rw e
survivors_gone f (suc k) i [] h = refl
survivors_gone f (suc k) i (c ∷ s) h =
    let e : i + suc k ≡ suc i + k = omega arith in
    let here : f i ≡ true = h i (omega arith) (omega arith) in
    let ih = survivors_gone f k (suc i) s (λ j le lt. h j (omega arith) (omega arith)) in
    rw (here, e) ih

pub survivors_all :
    (f : ℕ → Bool) (i : ℕ) (s : Text) → ((j : ℕ) → f j ≡ false) → survivors f i s ≡ s
survivors_all f i [] h = refl
survivors_all f i (c ∷ s) h = rw (h i) (ap (λ t. c ∷ t) (survivors_all f (suc i) s h))

drop_nil : (n : ℕ) → drop {A = ℕ} n [] ≡ []
drop_nil zero = refl
drop_nil (suc n) = refl

drop-drop : (k pos : ℕ) (s : Text) → drop k (drop pos s) ≡ drop (pos + k) s
drop-drop k zero s = let e : 0 + k ≡ k = omega arith in rw e
drop-drop k (suc pos) [] = drop_nil k ∙ sym (drop_nil (suc pos + k))
drop-drop k (suc pos) (c ∷ s) =
    let e : suc pos + k ≡ suc (pos + k) = omega arith in rw e (drop-drop k pos s)

drop_all : (n : ℕ) (s : Text) → length s ≤ n → drop n s ≡ []
drop_all zero [] h = refl
drop_all zero (c ∷ s) h = absurd (omega (arith, h))
drop_all (suc n) [] h = refl
drop_all (suc n) (c ∷ s) h = drop_all n s (omega (arith, h))

inside_below : (low i : ℕ) (rs : List Range) → Sorted low rs → i < low → inside rs i ≡ false
inside_below low i [] h lt = refl
inside_below low i (r ∷ rs) h lt =
    ground (arith, inside_below r.start i rs h.2 (omega (arith, lt, h.0)))

-- From a position within or behind the first range on, that range is skipped and the others stay.
skip_range :
    (content : Text) (r : Range) (rs : List Range) (i : ℕ)
    → r.start ≤ i
    → survivors (inside (r ∷ rs)) i (drop i content)
      ≡ survivors (inside rs) (max i r.end) (drop (max i r.end) content)
skip_range content r rs i le =
    let k = r.end - i in
    let e : i + k ≡ max i r.end = omega arith in
    survivors_gone (inside (r ∷ rs)) k i (drop i content) (λ j lo hi. ground (arith, lo, hi, le))
    ∙ ap (survivors (inside (r ∷ rs)) (i + k)) (drop-drop k i content)
    ∙ survivors_same (inside (r ∷ rs)) (inside rs) (i + k) (drop (i + k) content)
        (λ j lo. ground (arith, lo))
    ∙ ap (λ n. survivors (inside rs) n (drop n content)) e

keep_before :
    (content : Text) (r : Range) (rs : List Range) (pos : ℕ)
    → Sorted r.start rs
    → pos < r.start
    → survivors (inside (r ∷ rs)) pos (drop pos content)
      ≡ slice pos r.start content ++ survivors (inside (r ∷ rs)) r.start (drop r.start content)
keep_before content r rs pos sorted lt =
    let k = r.start - pos in
    let e : pos + k ≡ r.start = omega arith in
    survivors_kept (inside (r ∷ rs)) k pos (drop pos content)
      (λ j lo hi. ground (arith, lo, hi, lt, inside_below r.start j rs sorted))
    ∙ ap (λ t. take k (drop pos content) ++ survivors (inside (r ∷ rs)) (pos + k) t)
        (drop-drop k pos content)
    ∙ ap (λ n. take k (drop pos content) ++ survivors (inside (r ∷ rs)) n (drop n content)) e

cut :
    (content : Text) (r : Range) (rs : List Range) (pos : ℕ) (before : Bool)
    → ltb pos r.start ≡ before
    → IsRange r
    → Sorted r.start rs
    → (if before
        then slice pos r.start content
          ++ survivors (inside rs) (max pos r.end) (drop (max pos r.end) content)
        else survivors (inside rs) (max pos r.end) (drop (max pos r.end) content))
      ≡ survivors (inside (r ∷ rs)) pos (drop pos content)
cut content r rs pos true e range sorted =
    let lt : pos < r.start = ground (arith, e) in
    let m : max pos r.end ≡ max r.start r.end = omega (arith, lt, range) in
    ap (λ n. slice pos r.start content ++ survivors (inside rs) n (drop n content)) m
    ∙ ap (λ t. slice pos r.start content ++ t) (sym (skip_range content r rs r.start (omega arith)))
    ∙ sym (keep_before content r rs pos sorted lt)
cut content r rs pos false e range sorted = sym (skip_range content r rs pos (ground (arith, e)))

last_piece :
    (content : Text) (pos : ℕ)
    → (if ltb pos (length content) then drop pos content else []) ≡ drop pos content
last_piece content pos = ground (arith, drop_all pos content)

pub delete_from-survivors :
    (content : Text) (rs : List Range) (low pos : ℕ)
    → Sorted low rs
    → delete_from content pos rs ≡ survivors (inside rs) pos (drop pos content)
unfolding delete_from
delete_from-survivors content [] low pos h =
    last_piece content pos ∙ sym (survivors_all (inside []) pos (drop pos content) (λ j. refl))
delete_from-survivors content (r ∷ rs) low pos h =
    ap (λ rest. if ltb pos r.start then slice pos r.start content ++ rest else rest)
      (delete_from-survivors content rs r.start (max pos r.end) h.2)
    ∙ cut content r rs pos _ refl h.1 h.2
