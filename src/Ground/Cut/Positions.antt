-- ===== src/Ground/Cut/Positions.antt =====
-- The positions of elements in a list, and the first or last few of them.
use mathlib.Core.List.{reverse, reverse_aux}
use hallouminate.Common.{
  ℕ, zero, suc, ◌+◌, ◌-◌, ◌≤◌, ◌<◌, ◌≡◌, ◌≢◌, refl, ◌∙◌, sym, ap, Bool, true, not, Bool-cases, inl,
  inr, some, List, [], ◌∷◌, arith, length, take, drop, All,
}
use hallouminate.Common.SortBy.{count_if}
use hallouminate.Ground.Cut.{at, positions}
use hallouminate.Ground.Cut.Swaps.{Holds, Apart, IsDistinct, Inside, IsOutside}

module _ {ℓ κ} {A : Type ℓ} (P : A → Type κ) where
  pub All-take : (n : ℕ) (xs : List A) → All P xs → All P (take n xs)
  All-take zero xs h = tt
  All-take (suc n) [] h = tt
  All-take (suc n) (x ∷ xs) (hx, h) = (hx, All-take n xs h)

  All-reverse_aux : (xs r : List A) → All P xs → All P r → All P (reverse_aux xs r)
  All-reverse_aux [] r h hr = hr
  All-reverse_aux (x ∷ xs) r (hx, h) hr = All-reverse_aux xs (x ∷ r) h (hx, hr)

  pub All-reverse : (xs : List A) → All P xs → All P (reverse xs)
  All-reverse xs h = All-reverse_aux xs [] h tt

  pub All-map {μ} : {Q : A → Type μ} (f : (x : A) → P x → Q x) (xs : List A) → All P xs → All Q xs
  All-map f [] h = tt
  All-map f (x ∷ xs) (hx, h) = (f x hx, All-map f xs h)

pub IsDistinct-take : (n : ℕ) (ks : List ℕ) → IsDistinct ks → IsDistinct (take n ks)
IsDistinct-take zero ks h = tt
IsDistinct-take (suc n) [] h = tt
IsDistinct-take (suc n) (k ∷ ks) (a, h) = (All-take (λ m. m ≢ k) n ks a, IsDistinct-take n ks h)

Apart-more :
    (k : ℕ) (r ks : List ℕ) → Apart k ks → All (λ m. Apart m r) ks → All (λ m. Apart m (k ∷ r)) ks
Apart-more k r [] a h = tt
Apart-more k r (m ∷ ks) (ne, a) (hm, h) = ((λ e. ne (sym e), hm), Apart-more k r ks a h)

IsDistinct-reverse_aux :
    (ks r : List ℕ)
    → IsDistinct ks
    → IsDistinct r
    → All (λ m. Apart m r) ks
    → IsDistinct (reverse_aux ks r)
IsDistinct-reverse_aux [] r d dr h = dr
IsDistinct-reverse_aux (k ∷ ks) r (a, d) dr (hk, h) =
    IsDistinct-reverse_aux ks (k ∷ r) d (hk, dr) (Apart-more k r ks a h)

All-Apart : (ks : List ℕ) → All (λ m. Apart m []) ks
All-Apart [] = tt
All-Apart (k ∷ ks) = (tt, All-Apart ks)

pub IsDistinct-reverse : (ks : List ℕ) → IsDistinct ks → IsDistinct (reverse ks)
IsDistinct-reverse ks d = IsDistinct-reverse_aux ks [] d tt (All-Apart ks)

length-reverse_aux {ℓ} :
    {A : Type ℓ} (xs r : List A) → length (reverse_aux xs r) ≡ length xs + length r
length-reverse_aux [] r = omega arith
length-reverse_aux (x ∷ xs) r = omega (arith, length-reverse_aux xs (x ∷ r))

pub length-reverse {ℓ} : {A : Type ℓ} (xs : List A) → length (reverse xs) ≡ length xs
length-reverse xs = omega (arith, length-reverse_aux xs [])

module _ {A : Type 0} (p : A → Bool) where
  abbrev Found : ℕ → List A → ℕ → Type 0
  Found i xs k = (i ≤ k) × Holds p true (k - i) xs

  Found-suc : (i : ℕ) (x : A) (xs : List A) (k : ℕ) → Found (suc i) xs k → Found i (x ∷ xs) k
  unfolding at
  Found-suc i x xs k (le, (y, e, py)) =
      let s : k - i ≡ suc (k - suc i) = omega (arith, le) in
      (omega (arith, le), (y, ap (λ m. at m (x ∷ xs)) s ∙ e, py))

  positions-Found : (i : ℕ) (xs : List A) → All (Found i xs) (positions p i xs)
  unfolding positions at
  positions-Found i [] = tt
  positions-Found i (x ∷ xs) =
      let rest =
        All-map (Found (suc i) xs) (Found-suc i x xs) (positions p (suc i) xs)
          (positions-Found (suc i) xs) in
      elim (Bool-cases (p x)) [
        | inl yes_p ↦
            rw (yes_p, positions)
              (let s : i - i ≡ zero = omega arith in
                ((omega arith, (x, ap (λ m. at m (x ∷ xs)) s, yes_p)), rest))
        | inr no_p ↦ rw (no_p, positions) rest
      ]

  pub positions-IsDistinct : (i : ℕ) (xs : List A) → IsDistinct (positions p i xs)
  unfolding positions
  positions-IsDistinct i [] = tt
  positions-IsDistinct i (x ∷ xs) = elim (Bool-cases (p x)) [
    | inl yes_p ↦
        rw (yes_p, positions)
          (
            All-map (Found (suc i) xs) (λ k f e. omega (arith, f.0, e)) (positions p (suc i) xs)
                (positions-Found (suc i) xs),
            positions-IsDistinct (suc i) xs,
          )
    | inr no_p ↦ rw (no_p, positions) (positions-IsDistinct (suc i) xs)
  ]

  pub length-positions : (i : ℕ) (xs : List A) → length (positions p i xs) ≡ count_if p xs
  unfolding positions count_if
  length-positions i [] = refl
  length-positions i (x ∷ xs) = ground (arith, length-positions (suc i) xs)

  pub at-drop : (n k : ℕ) (xs : List A) → n ≤ k → at (k - n) (drop n xs) ≡ at k xs
  unfolding at
  at-drop zero k xs h = ap (λ m. at m xs) (omega arith)
  at-drop (suc n) zero xs h = absurd (omega (arith, h))
  at-drop (suc n) (suc k) [] h = refl
  at-drop (suc n) (suc k) (x ∷ xs) h =
      ap (λ m. at m (drop n xs)) (omega arith) ∙ at-drop n k xs (omega (arith, h))

  pub positions-IsOutside :
      (n : ℕ) (xs : List A) → All (IsOutside p n xs) (positions p n (drop n xs))
  positions-IsOutside n xs =
      All-map (Found n (drop n xs)) (λ k f. (f.0, (f.1.0, sym (at-drop n k xs f.0) ∙ f.1.1, f.1.2)))
        (positions p n (drop n xs)) (positions-Found n (drop n xs))

pub at-take_in :
    {A : Type 0} (n k : ℕ) (x : A) (xs : List A)
    → at k (take n xs) ≡ some x
    → (k < n) × (at k xs ≡ some x)
unfolding at
at-take_in zero k x xs e = ground (arith, e)
at-take_in (suc n) k x [] e = ground (arith, e)
at-take_in (suc n) zero x (y ∷ xs) e = (omega arith, e)
at-take_in (suc n) (suc k) x (y ∷ xs) e = let h = at-take_in n k x xs e in (omega (arith, h.0), h.1)

pub positions-Inside :
    {A : Type 0} (p : A → Bool) (n : ℕ) (xs : List A)
    → All (Inside p n xs) (positions (λ x. not (p x)) 0 (take n xs))
positions-Inside p n xs =
    All-map (Found (λ x. not (p x)) 0 (take n xs))
      (λ k f.
        let e = at-take_in n k f.1.0 xs (ap (λ m. at m (take n xs)) (omega arith) ∙ f.1.1) in
        (e.0, (f.1.0, e.1, ground (arith, f.1.2))))
      (positions (λ x. not (p x)) 0 (take n xs)) (positions-Found (λ x. not (p x)) 0 (take n xs))
