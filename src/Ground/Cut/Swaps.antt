-- ===== src/Ground/Cut/Swaps.antt =====
-- What a series of swaps across a border in a list leaves on its sides.
use hallouminate.Common.{
  ℕ, zero, suc, ◌+◌, ◌≤◌, ◌<◌, min, ◌≡◌, ◌≢◌, refl, ◌∙◌, sym, ap, Bool, true, false, Option, none,
  some, List, [], ◌∷◌, arith, length, take, set, All, if◌then◌else◌,
}
use hallouminate.Common.SortBy.{count_if}
use hallouminate.Ground.Cut.{at, swap, swap_all}

abbrev pub Apart : ℕ → List ℕ → Type 0
Apart k = All (λ m. m ≢ k)

abbrev pub IsDistinct : List ℕ → Type 0
IsDistinct [] = Unit
IsDistinct (k ∷ ks) = Apart k ks × IsDistinct ks

module _ {A : Type 0} where
  at-set_other : (i k : ℕ) (v : A) (xs : List A) → k ≢ i → at k (set xs i v) ≡ at k xs
  unfolding at
  at-set_other i k v [] ne = refl
  at-set_other zero zero v (x ∷ xs) ne = absurd (ne refl)
  at-set_other zero (suc k) v (x ∷ xs) ne = refl
  at-set_other (suc i) zero v (x ∷ xs) ne = refl
  at-set_other (suc i) (suc k) v (x ∷ xs) ne = at-set_other i k v xs (λ e. ne (ap suc e))

  abbrev pub weight : (A → Bool) → A → ℕ
  weight p x = if p x then 1 else 0

  count_if-set :
      (p : A → Bool) (i : ℕ) (a b : A) (xs : List A)
      → at i xs ≡ some a
      → count_if p (set xs i b) + weight p a ≡ count_if p xs + weight p b
  unfolding at count_if
  count_if-set p i a b [] e = ground (arith, e)
  count_if-set p zero a b (x ∷ xs) e =
      let same : ◌≡◌ {A = Option A} (some x) (some a) = e in
      ground (arith, ap {B = ℕ} (λ (o : Option A). elim o [ none ↦ 0 | some y ↦ weight p y ]) same)
  count_if-set p (suc i) a b (x ∷ xs) e = ground (arith, count_if-set p i a b xs e)

  take-set_in : (n i : ℕ) (v : A) (xs : List A) → take n (set xs i v) ≡ set (take n xs) i v
  take-set_in zero i v xs = refl
  take-set_in (suc n) i v [] = refl
  take-set_in (suc n) zero v (x ∷ xs) = refl
  take-set_in (suc n) (suc i) v (x ∷ xs) = ap (◌∷◌ x) (take-set_in n i v xs)

  take-set_out : (n j : ℕ) (v : A) (xs : List A) → n ≤ j → take n (set xs j v) ≡ take n xs
  take-set_out zero j v xs h = refl
  take-set_out (suc n) j v [] h = refl
  take-set_out (suc n) zero v (x ∷ xs) h = absurd (omega (arith, h))
  take-set_out (suc n) (suc j) v (x ∷ xs) h = ap (◌∷◌ x) (take-set_out n j v xs (omega (arith, h)))

  at-take : (n i : ℕ) (xs : List A) → i < n → at i (take n xs) ≡ at i xs
  unfolding at
  at-take zero i xs h = absurd (omega (arith, h))
  at-take (suc n) i [] h = refl
  at-take (suc n) zero (x ∷ xs) h = refl
  at-take (suc n) (suc i) (x ∷ xs) h = at-take n i xs (omega (arith, h))

  module _ (i j : ℕ) (a b : A) (xs : List A) (ei : at i xs ≡ some a) (ej : at j xs ≡ some b) where
    swap-sets : swap i j xs ≡ set (set xs i b) j a
    unfolding swap
    swap-sets = rw (ei, swap) (rw (ej, swap) refl)

    pub at-swap_other : (k : ℕ) → k ≢ i → k ≢ j → at k (swap i j xs) ≡ at k xs
    at-swap_other k ni nj =
        ap (at k) swap-sets ∙ at-set_other j k a (set xs i b) nj ∙ at-set_other i k b xs ni

    count_if-swap : (p : A → Bool) → i ≢ j → count_if p (swap i j xs) ≡ count_if p xs
    count_if-swap p ne =
        ap (count_if p) swap-sets
        ∙ omega (
          arith,
          count_if-set p j b a (set xs i b) (at-set_other i j b xs (λ e. ne (sym e)) ∙ ej),
          count_if-set p i a b xs ei,
        )

    pub count_if-take-swap :
        (p : A → Bool) (n : ℕ)
        → i < n
        → n ≤ j
        → count_if p (take n (swap i j xs)) + weight p a ≡ count_if p (take n xs) + weight p b
    count_if-take-swap p n hi hj =
        ap (λ ys. count_if p ys + weight p a)
          (ap (take n) swap-sets ∙ take-set_out n j a (set xs i b) hj ∙ take-set_in n i b xs)
        ∙ count_if-set p i a b (take n xs) (at-take n i xs hi ∙ ei)

  -- A position that holds an element with the property, or without it.
  abbrev pub Holds : (A → Bool) → Bool → ℕ → List A → Type 0
  Holds p v k xs = (x : A) × (at k xs ≡ some x) × (p x ≡ v)

  module _ (p : A → Bool) (n : ℕ) where
    abbrev pub Inside : List A → ℕ → Type 0
    Inside xs i = (i < n) × Holds p false i xs

    abbrev pub IsOutside : List A → ℕ → Type 0
    IsOutside xs j = (n ≤ j) × Holds p true j xs

    pub Inside-swap :
        (i j : ℕ) (a b : A) (xs : List A)
        → at i xs ≡ some a
        → at j xs ≡ some b
        → n ≤ j
        → (ks : List ℕ) → Apart i ks
        → All (Inside xs) ks
        → All (Inside (swap i j xs)) ks
    Inside-swap i j a b xs ei ej hj [] apart h = tt
    Inside-swap i j a b xs ei ej hj (k ∷ ks) (ne, apart) ((lt, (x, e, px)), h) = (
      (lt, (x, at-swap_other i j a b xs ei ej k ne (λ e. omega (arith, lt, hj, e)) ∙ e, px)),
      Inside-swap i j a b xs ei ej hj ks apart h,
    )

    pub IsOutside-swap :
        (i j : ℕ) (a b : A) (xs : List A)
        → at i xs ≡ some a
        → at j xs ≡ some b
        → i < n
        → (ks : List ℕ) → Apart j ks
        → All (IsOutside xs) ks
        → All (IsOutside (swap i j xs)) ks
    IsOutside-swap i j a b xs ei ej hi [] apart h = tt
    IsOutside-swap i j a b xs ei ej hi (k ∷ ks) (ne, apart) ((le, (x, e, px)), h) = (
      (le, (x, at-swap_other i j a b xs ei ej k (λ e. omega (arith, le, hi, e)) ne ∙ e, px)),
      IsOutside-swap i j a b xs ei ej hi ks apart h,
    )

    pub count_if-take-swap_all :
        (promote evict : List ℕ) (xs : List A)
        → IsDistinct promote
        → IsDistinct evict
        → All (IsOutside xs) promote
        → All (Inside xs) evict
        → count_if p (take n (swap_all promote evict xs))
          ≡ count_if p (take n xs) + min (length promote) (length evict)
    unfolding swap_all
    count_if-take-swap_all [] evict xs dp de hp he = omega arith
    count_if-take-swap_all (j ∷ promote) [] xs dp de hp he = omega arith
    count_if-take-swap_all (j ∷ promote) (i ∷ evict) xs (aj, dp) (ai, de) ((hj, (b, ej, pb)), hp)
          ((hi, (a, ei, pa)), he) =
        ground (
          arith,
          pa,
          pb,
          count_if-take-swap i j a b xs ei ej p n hi hj,
          count_if-take-swap_all promote evict (swap i j xs) dp de
              (IsOutside-swap i j a b xs ei ej hi promote aj hp)
              (Inside-swap i j a b xs ei ej hj evict ai he),
        )

    pub count_if-swap_all :
        (q : A → Bool) (promote evict : List ℕ) (xs : List A)
        → IsDistinct promote
        → IsDistinct evict
        → All (IsOutside xs) promote
        → All (Inside xs) evict
        → count_if q (swap_all promote evict xs) ≡ count_if q xs
    unfolding swap_all
    count_if-swap_all q [] evict xs dp de hp he = refl
    count_if-swap_all q (j ∷ promote) [] xs dp de hp he = refl
    count_if-swap_all q (j ∷ promote) (i ∷ evict) xs (aj, dp) (ai, de) ((hj, (b, ej, pb)), hp)
          ((hi, (a, ei, pa)), he) =
        count_if-swap_all q promote evict (swap i j xs) dp de
          (IsOutside-swap i j a b xs ei ej hi promote aj hp)
          (Inside-swap i j a b xs ei ej hj evict ai he)
        ∙ count_if-swap i j a b xs ei ej q (λ e. omega (arith, hi, hj, e))
