-- ===== src/Ground/Cut/Counting.antt =====
-- How many elements of a list, of its parts and of what a filter leaves have a property.
use hallouminate.Common.{
  ℕ, zero, suc, ◌+◌, ◌-◌, ◌≤◌, ◌≡◌, refl, ◌∙◌, sym, ap, Bool, not, ◌&&◌, List, [], ◌∷◌, ◌++◌, arith,
  length, take, drop, take-append-drop,
}
use hallouminate.Common.SortBy.{filter, count_if, count_if-append}

module _ {A : Type 0} where
  pub count_if-take_le :
      (q : A → Bool) (n : ℕ) (xs : List A) → count_if q (take n xs) ≤ count_if q xs
  unfolding count_if
  count_if-take_le q zero xs = omega arith
  count_if-take_le q (suc n) [] = omega arith
  count_if-take_le q (suc n) (x ∷ xs) = ground (arith, count_if-take_le q n xs)

  pub count_if-parts :
      (q : A → Bool) (n : ℕ) (xs : List A)
      → count_if q (take n xs) + count_if q (drop n xs) ≡ count_if q xs
  count_if-parts q n xs =
      sym (count_if-append q (take n xs) (drop n xs)) ∙ ap (count_if q) (take-append-drop n xs)

  pub count_if-not :
      (q : A → Bool) (xs : List A) → count_if q xs + count_if (λ x. not (q x)) xs ≡ length xs
  unfolding count_if
  count_if-not q [] = omega arith
  count_if-not q (x ∷ xs) = ground (arith, count_if-not q xs)

  pub count_if-filter :
      (p q : A → Bool) (xs : List A) → count_if q (filter p xs) ≡ count_if (λ x. p x && q x) xs
  unfolding count_if filter
  count_if-filter p q [] = refl
  count_if-filter p q (x ∷ xs) = ground (arith, count_if-filter p q xs)

  pub take_all :
      (n : ℕ) (xs ys : List A) → length xs ≤ n → take n (xs ++ ys) ≡ xs ++ take (n - length xs) ys
  take_all n [] ys h = ap (λ m. take m ys) (omega arith)
  take_all zero (x ∷ xs) ys h = absurd (omega (arith, h))
  take_all (suc n) (x ∷ xs) ys h =
      let s : suc n - length (x ∷ xs) ≡ n - length xs = omega arith in
      ap (◌∷◌ x) (take_all n xs ys (omega (arith, h)) ∙ ap (λ m. xs ++ take m ys) (sym s))

  pub take_some : (n : ℕ) (xs ys : List A) → n ≤ length xs → take n (xs ++ ys) ≡ take n xs
  take_some zero xs ys h = refl
  take_some (suc n) [] ys h = absurd (omega (arith, h))
  take_some (suc n) (x ∷ xs) ys h = ap (◌∷◌ x) (take_some n xs ys (omega (arith, h)))

  pub count_if-split :
      (f q : A → Bool) (xs : List A)
      → count_if (λ x. not (f x) && q x) xs + count_if (λ x. f x && q x) xs ≡ count_if q xs
  unfolding count_if
  count_if-split f q [] = omega arith
  count_if-split f q (x ∷ xs) = ground (arith, count_if-split f q xs)

  pub count_if-never : (f : A → Bool) (xs : List A) → count_if (λ x. not (f x) && f x) xs ≡ 0
  unfolding count_if
  count_if-never f [] = refl
  count_if-never f (x ∷ xs) = ground (arith, count_if-never f xs)

  pub count_if-twice :
      (f : A → Bool) (xs : List A)
      → count_if (λ x. not (f x) && not (f x)) xs ≡ count_if (λ x. not (f x)) xs
  unfolding count_if
  count_if-twice f [] = refl
  count_if-twice f (x ∷ xs) = ground (arith, count_if-twice f xs)

  pub count_if-nested :
      (f q : A → Bool) (xs : List A)
      → count_if (λ x. not (f x) && (not (f x) && q x)) xs ≡ count_if (λ x. not (f x) && q x) xs
  unfolding count_if
  count_if-nested f q [] = refl
  count_if-nested f q (x ∷ xs) = ground (arith, count_if-nested f q xs)

  pub count_if-within :
      (f q : A → Bool) (xs : List A)
      → count_if q xs ≤ count_if (λ x. not (f x) && q x) xs + count_if f xs
  unfolding count_if
  count_if-within f q [] = omega arith
  count_if-within f q (x ∷ xs) = ground (arith, count_if-within f q xs)
