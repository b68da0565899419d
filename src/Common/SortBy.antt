-- ===== src/Common/SortBy.antt =====
-- `sort_by`, which is stable, as an insertion sort, for any comparison.
use hallouminate.Common.{
  ℕ, zero, suc, ◌+◌, ◌≤◌, ◌≡◌, refl, ◌∙◌, ap, map, inl, inr, Bool, true, false, Bool-cases, List,
  [], ◌∷◌, ◌++◌, arith, if◌then◌else◌, length, All, take, min,
}
use hallouminate.Common.Order.{Cmp, is_le, Lawful}

module _ {ℓ} {A : Type ℓ} where
  -- How many elements have a property.
  unfoldable pub count_if : (A → Bool) → List A → ℕ
  count_if p [] = 0
  count_if p (x ∷ xs) = let rest = count_if p xs in if p x then suc rest else rest

  unfoldable pub filter : (A → Bool) → List A → List A
  filter p [] = []
  filter p (x ∷ xs) = let rest = filter p xs in if p x then x ∷ rest else rest

  -- The same elements, each as often.
  abbrev pub SameBag : List A → List A → Type ℓ
  SameBag xs ys = (p : A → Bool) → count_if p xs ≡ count_if p ys

  pub count_if-append :
      (p : A → Bool) (xs ys : List A) → count_if p (xs ++ ys) ≡ count_if p xs + count_if p ys
  unfolding count_if
  count_if-append p [] ys = ground arith
  count_if-append p (x ∷ xs) ys = ground (arith, count_if-append p xs ys)

  pub count_if_le : (p : A → Bool) (xs : List A) → count_if p xs ≤ length xs
  unfolding count_if
  count_if_le p [] = omega arith
  count_if_le p (x ∷ xs) = ground (arith, count_if_le p xs)

  pub count_if_all : (xs : List A) → count_if (λ x. true) xs ≡ length xs
  unfolding count_if
  count_if_all [] = refl
  count_if_all (x ∷ xs) = omega (arith, count_if_all xs)

  pub length-filter : (p : A → Bool) (xs : List A) → length (filter p xs) ≡ count_if p xs
  unfolding filter count_if
  length-filter p [] = refl
  length-filter p (x ∷ xs) = ground (arith, length-filter p xs)

  pub length-take : (n : ℕ) (xs : List A) → length (take n xs) ≡ min n (length xs)
  length-take zero xs = omega arith
  length-take (suc n) [] = omega arith
  length-take (suc n) (x ∷ xs) = omega (arith, length-take n xs)

  module _ (cmp : Cmp A) where
    unfoldable pub insert_by : A → List A → List A
    insert_by x [] = x ∷ []
    insert_by x (y ∷ ys) =
        let rest = insert_by x ys in if is_le (cmp x y) then x ∷ y ∷ ys else y ∷ rest

    unfoldable pub sort_by : List A → List A
    unfolding insert_by
    sort_by [] = []
    sort_by (x ∷ xs) = insert_by x (sort_by xs)

    -- No element comes behind a later one.
    abbrev pub IsSortedBy : List A → Type ℓ
    IsSortedBy [] = Unit
    IsSortedBy (x ∷ xs) = All (λ y. is_le (cmp x y) ≡ true) xs × IsSortedBy xs

    pub count_if-insert_by :
        (p : A → Bool) (x : A) (ys : List A) → count_if p (insert_by x ys) ≡ count_if p (x ∷ ys)
    unfolding count_if insert_by
    count_if-insert_by p x [] = refl
    count_if-insert_by p x (y ∷ ys) = ground (arith, count_if-insert_by p x ys)

    pub count_if-sort_by : (p : A → Bool) (xs : List A) → count_if p (sort_by xs) ≡ count_if p xs
    unfolding count_if sort_by
    count_if-sort_by p [] = refl
    count_if-sort_by p (x ∷ xs) =
        ground (arith, count_if-insert_by p x (sort_by xs), count_if-sort_by p xs)

    pub length-insert_by : (x : A) (ys : List A) → length (insert_by x ys) ≡ suc (length ys)
    unfolding insert_by
    length-insert_by x [] = refl
    length-insert_by x (y ∷ ys) = ground (arith, length-insert_by x ys)

    pub length-sort_by : (xs : List A) → length (sort_by xs) ≡ length xs
    unfolding sort_by
    length-sort_by [] = refl
    length-sort_by (x ∷ xs) = omega (arith, length-insert_by x (sort_by xs), length-sort_by xs)

    module _ (l : Lawful cmp) where
      is_le_total : (a b : A) → is_le (cmp a b) ≡ false → is_le (cmp b a) ≡ true
      is_le_total a b h = ground (arith, h, l.flip a b)

      is_le_trans :
          (a b c : A) → is_le (cmp a b) ≡ true → is_le (cmp b c) ≡ true → is_le (cmp a c) ≡ true
      is_le_trans a b c h k = ground (arith, h, k, l.chain a b c h k)

      below :
          (a b : A) (xs : List A)
          → is_le (cmp a b) ≡ true
          → All (λ y. is_le (cmp b y) ≡ true) xs
          → All (λ y. is_le (cmp a y) ≡ true) xs
      below a b [] h k = tt
      below a b (x ∷ xs) h (hx, k) = (is_le_trans a b x h hx, below a b xs h k)

      insert_below :
          (a x : A) (ys : List A)
          → is_le (cmp a x) ≡ true
          → All (λ y. is_le (cmp a y) ≡ true) ys
          → All (λ y. is_le (cmp a y) ≡ true) (insert_by x ys)
      unfolding insert_by
      insert_below a x [] h k = (h, tt)
      insert_below a x (y ∷ ys) h (hy, k) = elim (Bool-cases (is_le (cmp x y))) [
        | inl le ↦ rw (le, insert_by) (h, (hy, k))
        | inr gt ↦ rw (gt, insert_by) (hy, insert_below a x ys h k)
      ]

      insert_by-IsSortedBy : (x : A) (ys : List A) → IsSortedBy ys → IsSortedBy (insert_by x ys)
      unfolding insert_by
      insert_by-IsSortedBy x [] s = (tt, tt)
      insert_by-IsSortedBy x (y ∷ ys) (hy, s) = elim (Bool-cases (is_le (cmp x y))) [
        | inl le ↦ rw (le, insert_by) ((le, below x y ys le hy), (hy, s))
        | inr gt ↦
            rw (gt, insert_by)
              (insert_below y x ys (is_le_total x y gt) hy, insert_by-IsSortedBy x ys s)
      ]

      pub sort_by-IsSortedBy : (xs : List A) → IsSortedBy (sort_by xs)
      unfolding sort_by
      sort_by-IsSortedBy [] = tt
      sort_by-IsSortedBy (x ∷ xs) = insert_by-IsSortedBy x (sort_by xs) (sort_by-IsSortedBy xs)

-- A map that keeps the order may be sorted before or behind it.
module _ {ℓ κ} {A : Type ℓ} {B : Type κ} (f : A → B) (c : Cmp A) (d : Cmp B)
    (same : (x y : A) → d (f x) (f y) ≡ c x y) where
  insert_by-map : (x : A) (ys : List A) → insert_by d (f x) (map f ys) ≡ map f (insert_by c x ys)
  unfolding insert_by
  insert_by-map x [] = refl
  insert_by-map x (y ∷ ys) = elim (Bool-cases (is_le (c x y))) [
    | inl le ↦ rw (ap is_le (same x y) ∙ le, le, insert_by) refl
    | inr gt ↦ rw (ap is_le (same x y) ∙ gt, gt, insert_by) (ap (◌∷◌ (f y)) (insert_by-map x ys))
  ]

  pub sort_by-map : (xs : List A) → sort_by d (map f xs) ≡ map f (sort_by c xs)
  unfolding sort_by
  sort_by-map [] = refl
  sort_by-map (x ∷ xs) = ap (insert_by d (f x)) (sort_by-map xs) ∙ insert_by-map x (sort_by c xs)
