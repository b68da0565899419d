-- ===== src/Ground/Cut/Exchange.antt =====
-- Which documents the promotion in crates/hallouminate-domain/src/ground/orchestrate.rs brings into the
-- kept window, and which it puts out.
use mathlib.Core.List.{reverse, reverse_aux}
use hallouminate.Common.{
  ℕ, zero, suc, ◌+◌, ◌≤◌, ◌<◌, min, ◌≡◌, refl, ◌∙◌, sym, ap, Bool, Bool-cases, inl, inr, some, List,
  [], ◌∷◌, arith, length, take, All,
}
use hallouminate.Common.SortBy.{count_if, filter}
use hallouminate.Ground.Cut.{at, swap, swap_all, positions}
use hallouminate.Ground.Cut.Swaps.{
  Apart, IsDistinct, Inside, IsOutside, at-swap_other, count_if-take-swap, IsOutside-swap,
  Inside-swap,
}

module _ {A : Type 0} where
  -- The elements at some positions.
  abbrev pub Elements : List A → List ℕ → List A → Type 0
  Elements xs [] [] = Unit
  Elements xs [] (e ∷ es) = ⊥
  Elements xs (k ∷ ks) [] = ⊥
  Elements xs (k ∷ ks) (e ∷ es) = (at k xs ≡ some e) × Elements xs ks es

  pub Elements-take :
      (m : ℕ) (xs es : List A) (ks : List ℕ)
      → Elements xs ks es
      → Elements xs (take m ks) (take m es)
  Elements-take zero xs es ks h = tt
  Elements-take (suc m) xs [] [] h = tt
  Elements-take (suc m) xs (e ∷ es) [] h = elim h [ ]
  Elements-take (suc m) xs [] (k ∷ ks) h = elim h [ ]
  Elements-take (suc m) xs (e ∷ es) (k ∷ ks) (here, h) = (here, Elements-take m xs es ks h)

  Elements-reverse_aux :
      (xs es fs : List A) (ks js : List ℕ)
      → Elements xs ks es
      → Elements xs js fs
      → Elements xs (reverse_aux ks js) (reverse_aux es fs)
  Elements-reverse_aux xs [] fs [] js h hj = hj
  Elements-reverse_aux xs (e ∷ es) fs [] js h hj = elim h [ ]
  Elements-reverse_aux xs [] fs (k ∷ ks) js h hj = elim h [ ]
  Elements-reverse_aux xs (e ∷ es) fs (k ∷ ks) js (here, h) hj =
      Elements-reverse_aux xs es (e ∷ fs) ks (k ∷ js) h (here, hj)

  pub Elements-reverse :
      (xs es : List A) (ks : List ℕ) → Elements xs ks es → Elements xs (reverse ks) (reverse es)
  Elements-reverse xs es ks h = Elements-reverse_aux xs es [] ks [] h tt

  Elements-map :
      (xs ys : List A) (ks : List ℕ) (es : List A)
      → All (λ k. at k ys ≡ at k xs) ks
      → Elements xs ks es
      → Elements ys ks es
  Elements-map xs ys [] [] same h = h
  Elements-map xs ys [] (e ∷ es) same h = elim h [ ]
  Elements-map xs ys (k ∷ ks) [] same h = elim h [ ]
  Elements-map xs ys (k ∷ ks) (e ∷ es) (s, same) (here, h) =
      (s ∙ here, Elements-map xs ys ks es same h)

  module _ (p : A → Bool) where
    -- The positions from `i` on in a list, looked up in another one that it stands in.
    pub Elements-positions :
        (i : ℕ) (xs ys : List A)
        → ((k : ℕ) (x : A) → at k xs ≡ some x → at (i + k) ys ≡ some x)
        → Elements ys (positions p i xs) (filter p xs)
    unfolding positions filter at
    Elements-positions i [] ys same = tt
    Elements-positions i (x ∷ xs) ys same =
        let rest =
          Elements-positions (suc i) xs ys
            (λ k y e. ap (λ m. at m ys) (omega arith) ∙ same (suc k) y e) in
        elim (Bool-cases (p x)) [
          | inl yes_p ↦
              rw (yes_p, positions) (ap (λ m. at m ys) (omega arith) ∙ same zero x refl, rest)
          | inr no_p ↦ rw (no_p, positions) rest
        ]

  module _ (p q : A → Bool) (n : ℕ) where
    module _ (i j : ℕ) (a b : A) (xs : List A) (ei : at i xs ≡ some a) (ej : at j xs ≡ some b) where
      at-swap-IsOutside :
          i < n
          → (ks : List ℕ) → Apart j ks
          → All (IsOutside p n xs) ks
          → All (λ k. at k (swap i j xs) ≡ at k xs) ks
      at-swap-IsOutside hi [] apart h = tt
      at-swap-IsOutside hi (k ∷ ks) (ne, apart) ((le, x), h) = (
        at-swap_other i j a b xs ei ej k (λ e. omega (arith, le, hi, e)) ne,
        at-swap-IsOutside hi ks apart h,
      )

      at-swap-Inside :
          n ≤ j
          → (ks : List ℕ) → Apart i ks
          → All (Inside p n xs) ks
          → All (λ k. at k (swap i j xs) ≡ at k xs) ks
      at-swap-Inside hj [] apart h = tt
      at-swap-Inside hj (k ∷ ks) (ne, apart) ((lt, x), h) = (
        at-swap_other i j a b xs ei ej k ne (λ e. omega (arith, lt, hj, e)),
        at-swap-Inside hj ks apart h,
      )

    -- What comes into the window is what stood at the positions behind it, and what goes out of it is
    -- what stood at those inside.
    pub exchange :
        (promote evict : List ℕ) (ps es : List A) (xs : List A)
        → Elements xs promote ps
        → Elements xs evict es
        → IsDistinct promote
        → IsDistinct evict
        → All (IsOutside p n xs) promote
        → All (Inside p n xs) evict
        → count_if q (take n (swap_all promote evict xs)) + count_if q (take (length promote) es)
          ≡ count_if q (take n xs) + count_if q (take (length evict) ps)
    unfolding swap_all count_if
    exchange [] [] [] es xs hp he dp de op ie = refl
    exchange [] (i ∷ evict) [] es xs hp he dp de op ie = refl
    exchange [] evict (b ∷ ps) es xs hp he dp de op ie = elim hp [ ]
    exchange (j ∷ promote) [] ps [] xs hp he dp de op ie = refl
    exchange (j ∷ promote) [] ps (a ∷ es) xs hp he dp de op ie = elim he [ ]
    exchange (j ∷ promote) (i ∷ evict) [] es xs hp he dp de op ie = elim hp [ ]
    exchange (j ∷ promote) (i ∷ evict) (b ∷ ps) [] xs hp he dp de op ie = elim he [ ]
    exchange (j ∷ promote) (i ∷ evict) (b ∷ ps) (a ∷ es) xs (ej, hp) (ei, he) (aj, dp) (ai, de)
          ((hj, ob), op) ((hi, ia), ie) =
        let ys = swap i j xs in
        ground (
          arith,
          count_if-take-swap i j a b xs ei ej q n hi hj,
          exchange promote evict ps es ys
              (Elements-map xs ys promote ps (at-swap-IsOutside i j a b xs ei ej hi promote aj op)
                hp)
              (Elements-map xs ys evict es (at-swap-Inside i j a b xs ei ej hj evict ai ie) he) dp
              de (IsOutside-swap p n i j a b xs ei ej hi promote aj op)
              (Inside-swap p n i j a b xs ei ej hj evict ai ie),
        )

  pub take-take : (m n : ℕ) (xs : List A) → take m (take n xs) ≡ take (min m n) xs
  take-take zero n xs = let e : zero ≡ min zero n = omega arith in ap (λ k. take k xs) e
  take-take (suc m) zero xs = let e : zero ≡ min (suc m) zero = omega arith in ap (λ k. take k xs) e
  take-take (suc m) (suc n) [] =
      let e : suc (min m n) ≡ min (suc m) (suc n) = omega arith in
      ap {B = List A} (λ k. take {A = A} k []) e
  take-take (suc m) (suc n) (x ∷ xs) =
      let e : suc (min m n) ≡ min (suc m) (suc n) = omega arith in
      ap (◌∷◌ x) (take-take m n xs) ∙ ap (λ k. take k (x ∷ xs)) e

  take-length : (n : ℕ) (xs : List A) → take n xs ≡ take (min n (length xs)) xs
  take-length zero xs = let e : zero ≡ min zero (length xs) = omega arith in ap (λ k. take k xs) e
  take-length (suc n) [] =
      let e : zero ≡ min (suc n) zero = omega arith in ap {B = List A} (λ k. take {A = A} k []) e
  take-length (suc n) (x ∷ xs) =
      let e : suc (min n (length xs)) ≡ min (suc n) (length (x ∷ xs)) = omega arith in
      ap (◌∷◌ x) (take-length n xs) ∙ ap (λ k. take k (x ∷ xs)) e

  pub take_same :
      (m n : ℕ) (xs : List A) → min m (length xs) ≡ min n (length xs) → take m xs ≡ take n xs
  take_same m n xs e = take-length m xs ∙ ap (λ k. take k xs) e ∙ sym (take-length n xs)
