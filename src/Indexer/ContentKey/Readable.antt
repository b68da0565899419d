-- ===== src/Indexer/ContentKey/Readable.antt =====
-- The writers of the hashed stream can be read back: what they write tells the value and the rest.
use hallouminate.Common.{
  ℕ, zero, suc, ◌/◌, ◌%◌, ◌^◌, ◌<◌, ◌≡◌, refl, ap, Option, none, some, List, [], ◌∷◌, ◌++◌, length,
  arith, All, u64_mod,
}
use hallouminate.Indexer.ContentKey.{
  Bytes, le_bytes, put_count, put, put_optional, put_all, put_list,
}

module _ {A : Type 0} where
  pub head_eq : {x y : A} {xs ys : List A} → x ∷ xs ≡ y ∷ ys → x ≡ y
  head_eq e = cc

  pub tail_eq : {x y : A} {xs ys : List A} → x ∷ xs ≡ y ∷ ys → xs ≡ ys
  tail_eq e = cc

  append_inj :
      (xs ys s t : List A) → length xs ≡ length ys → xs ++ s ≡ ys ++ t → (xs ≡ ys) × (s ≡ t)
  append_inj [] [] s t h e = (refl, e)
  append_inj [] (y ∷ ys) s t h e = absurd (omega (arith, h))
  append_inj (x ∷ xs) [] s t h e = absurd (omega (arith, h))
  append_inj (x ∷ xs) (y ∷ ys) s t h e =
      let (same, rest) = append_inj xs ys s t (omega (arith, h)) (tail_eq e) in (cc, rest)

-- A writer whose output tells the value and what follows it, for the values that fit.
abbrev pub Readable : {A : Type 0} → (A → Type 0) → (A → Bytes → Bytes) → Type 0
Readable {A} Fits p = (x y : A) (s t : Bytes) → Fits x → Fits y → p x s ≡ p y t → (x ≡ y) × (s ≡ t)

div_lt : (k x : ℕ) → x < 256 ^ suc k → x / 256 < 256 ^ k
div_lt k x h = omega (arith, h)

le_bytes-Readable : (k : ℕ) → Readable (λ n. n < 256 ^ k) (le_bytes k)
unfolding le_bytes
le_bytes-Readable zero x y s t hx hy e = (omega (arith, hx, hy), e)
le_bytes-Readable (suc k) x y s t hx hy e =
    let (high, rest) =
      le_bytes-Readable k (x / 256) (y / 256) s t (div_lt k x hx) (div_lt k y hy) (tail_eq e) in
    let low : x % 256 ≡ y % 256 = head_eq e in (omega (arith, high, low), rest)

-- A `usize` that goes into the stream.
abbrev pub IsWord : ℕ → Type 0
IsWord n = n < u64_mod

abbrev pub IsShort : Bytes → Type 0
IsShort bytes = length bytes < u64_mod

pub put_count-Readable : Readable IsWord put_count
unfolding put_count
put_count-Readable x y s t hx hy e = le_bytes-Readable 8 x y s t hx hy e

pub put-Readable : Readable IsShort put
unfolding put
put-Readable x y s t hx hy e =
    let (same, rest) = put_count-Readable (length x) (length y) (x ++ s) (y ++ t) hx hy e in
    append_inj x y s t same rest

abbrev pub Fitting : {A : Type 0} → (A → Type 0) → Option A → Type 0
Fitting Fits none = Unit
Fitting Fits (some x) = Fits x

pub put_optional-Readable : Readable (Fitting IsShort) put_optional
unfolding put_optional
put_optional-Readable none none s t hx hy e = (refl, tail_eq e)
put_optional-Readable none (some y) s t hx hy e = absurd (omega (arith, head_eq e))
put_optional-Readable (some x) none s t hx hy e = absurd (omega (arith, head_eq e))
put_optional-Readable (some x) (some y) s t hx hy e =
    let (same, rest) = put-Readable x y s t hx hy (tail_eq e) in (ap some same, rest)

-- A list of counted length whose elements fit.
abbrev pub Counted : {A : Type 0} → (A → Type 0) → List A → Type 0
Counted Fits xs = IsWord (length xs) × All Fits xs

module _ {A : Type 0} (Fits : A → Type 0) (p : A → Bytes → Bytes) (read : Readable Fits p) where
  put_all-inj :
      (xs ys : List A) (s t : Bytes)
      → length xs ≡ length ys
      → All Fits xs
      → All Fits ys
      → put_all p xs s ≡ put_all p ys t
      → (xs ≡ ys) × (s ≡ t)
  unfolding put_all
  put_all-inj [] [] s t h fx fy e = (refl, e)
  put_all-inj [] (y ∷ ys) s t h fx fy e = absurd (omega (arith, h))
  put_all-inj (x ∷ xs) [] s t h fx fy e = absurd (omega (arith, h))
  put_all-inj (x ∷ xs) (y ∷ ys) s t h fx fy e =
      let (first, later) = read x y (put_all p xs s) (put_all p ys t) fx.0 fy.0 e in
      let (others, rest) = put_all-inj xs ys s t (omega (arith, h)) fx.1 fy.1 later in (cc, rest)

  pub put_list-Readable : Readable (Counted Fits) (put_list p)
  unfolding put_list
  put_list-Readable xs ys s t hx hy e =
      let (same, rest) =
        put_count-Readable (length xs) (length ys) (put_all p xs s) (put_all p ys t) hx.0 hy.0 e in
      put_all-inj xs ys s t same hx.1 hy.1 rest
