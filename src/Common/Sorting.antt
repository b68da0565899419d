-- ===== src/Common/Sorting.antt =====
-- `sort_unstable` on words, as an insertion sort, and the facts the program relies on.
use hallouminate.Common.{
  ℕ, zero, suc, ◌≤◌, ◌<◌, max, ◌≡◌, refl, List, [], ◌∷◌, arith, leb, if◌then◌else◌, length, drop,
}

unfoldable pub insert : ℕ → List ℕ → List ℕ
insert x [] = x ∷ []
insert x (y ∷ ys) = if leb x y then x ∷ y ∷ ys else y ∷ insert x ys

unfoldable pub sort : List ℕ → List ℕ
unfolding insert
sort [] = []
sort (x ∷ xs) = insert x (sort xs)

-- The greatest element, and the last one; 0 for the empty list.
abbrev pub greatest : List ℕ → ℕ
greatest [] = 0
greatest (x ∷ xs) = max x (greatest xs)

abbrev pub last_from : ℕ → List ℕ → ℕ
last_from d [] = d
last_from d (x ∷ xs) = last_from x xs

abbrev pub IsSortedFrom : ℕ → List ℕ → Type 0
IsSortedFrom lo [] = Unit {0}
IsSortedFrom lo (x ∷ xs) = (lo ≤ x) × IsSortedFrom x xs

insert-IsSortedFrom :
    (x lo : ℕ) (ys : List ℕ) → lo ≤ x → IsSortedFrom lo ys → IsSortedFrom lo (insert x ys)
unfolding insert
insert-IsSortedFrom x lo [] h s = (h, tt)
insert-IsSortedFrom x lo (y ∷ ys) h s = ground (arith, insert-IsSortedFrom x y ys)

pub sort-IsSortedFrom : (xs : List ℕ) → IsSortedFrom 0 (sort xs)
unfolding sort
sort-IsSortedFrom [] = tt
sort-IsSortedFrom (x ∷ xs) = insert-IsSortedFrom x 0 (sort xs) (omega arith) (sort-IsSortedFrom xs)

length-insert : (x : ℕ) (ys : List ℕ) → length (insert x ys) ≡ suc (length ys)
unfolding insert
length-insert x [] = refl
length-insert x (y ∷ ys) = ground (arith, length-insert x ys)

pub length-sort : (xs : List ℕ) → length (sort xs) ≡ length xs
unfolding sort
length-sort [] = refl
length-sort (x ∷ xs) = omega (arith, length-insert x (sort xs), length-sort xs)

last_from_ge : (d : ℕ) (ys : List ℕ) → IsSortedFrom d ys → d ≤ last_from d ys
last_from_ge d [] s = omega arith
last_from_ge d (y ∷ ys) s = omega (arith, last_from_ge y ys s.1)

last_from-insert :
    (x lo : ℕ) (ys : List ℕ)
    → lo ≤ x
    → IsSortedFrom lo ys
    → last_from lo (insert x ys) ≡ max x (last_from lo ys)
unfolding insert
last_from-insert x lo [] h s = omega arith
last_from-insert x lo (y ∷ ys) h s = ground (arith, last_from_ge y ys s.1, last_from-insert x y ys)

-- The last of the sorted list is the greatest of the list.
pub last_from-sort : (xs : List ℕ) → last_from 0 (sort xs) ≡ greatest xs
unfolding sort
last_from-sort [] = refl
last_from-sort (x ∷ xs) =
    omega (
      arith,
      last_from-insert x 0 (sort xs) (omega arith) (sort-IsSortedFrom xs),
      last_from-sort xs,
    )

-- A list that is already sorted stays as it is.
pub sort-sorted : (lo : ℕ) (xs : List ℕ) → IsSortedFrom lo xs → sort xs ≡ xs
unfolding sort
sort-sorted lo [] s = refl
sort-sorted lo (x ∷ []) s = refl
sort-sorted lo (x ∷ y ∷ ys) s = rw (sort-sorted x (y ∷ ys) s.1) (ground arith)

pub last_from-drop :
    (k d e : ℕ) (xs : List ℕ) → k < length xs → last_from d (drop k xs) ≡ last_from e xs
last_from-drop zero d e [] h = elim h [ ]
last_from-drop zero d e (x ∷ xs) h = refl
last_from-drop (suc k) d e [] h = elim h [ ]
last_from-drop (suc k) d e (x ∷ []) h = absurd (omega arith)
last_from-drop (suc k) d e (x ∷ y ∷ xs) h = last_from-drop k d x (y ∷ xs) (omega arith)
