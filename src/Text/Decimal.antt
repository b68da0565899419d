-- ===== src/Text/Decimal.antt =====
-- Printing a word and reading it back.
use hallouminate.Common.{
  ℕ, zero, suc, ◌+◌, ◌-◌, ◌*◌, ◌/◌, ◌%◌, ◌≤◌, ◌≡◌, ◌≢◌, refl, ◌∙◌, some, [], ◌∷◌, arith, u64_max,
  All, false,
}
use hallouminate.Text.{Text, read_digits, parse_u64, emit_digits, to_decimal, is_whitespace}

abbrev pub IsDigit : ℕ → Type 0
IsDigit c = (b'0' ≤ c) × (c ≤ b'9')

read_digits_step :
    (n : ℕ) (out : Text)
    → n ≤ u64_max
    → read_digits (n / 10) ((b'0' + n % 10) ∷ out) ≡ read_digits n out
unfolding read_digits
read_digits_step n out fits =
    let e : n / 10 * 10 + (b'0' + n % 10 - b'0') ≡ n = omega arith in rw e (ground arith)

read_digits_emit :
    (fuel n : ℕ) (out : Text)
    → n ≤ fuel
    → n ≤ u64_max
    → read_digits 0 (emit_digits fuel n out) ≡ read_digits n out
unfolding emit_digits
read_digits_emit zero n out h fits = let e : n ≡ 0 = omega arith in rw e
read_digits_emit (suc fuel) n out h fits =
    ground
      (arith, read_digits_step n out fits, read_digits_emit fuel (n / 10) ((b'0' + n % 10) ∷ out))

emit-digits : (fuel n : ℕ) (out : Text) → All IsDigit out → All IsDigit (emit_digits fuel n out)
unfolding emit_digits
emit-digits zero n out h = h
emit-digits (suc fuel) n out h =
    ground (arith, emit-digits fuel (n / 10) ((b'0' + n % 10) ∷ out) (omega arith, h))

pub to_decimal-digits : (n : ℕ) → All IsDigit (to_decimal n)
unfolding to_decimal
to_decimal-digits n = ground (arith, emit-digits n n [] tt)

emit_digits-ne-nil : (fuel n : ℕ) (out : Text) → out ≢ [] → emit_digits fuel n out ≢ []
unfolding emit_digits
emit_digits-ne-nil zero n out h = h
emit_digits-ne-nil (suc fuel) n out h =
    ground (arith, emit_digits-ne-nil fuel (n / 10) ((b'0' + n % 10) ∷ out))

to_decimal-ne-nil : (n : ℕ) → to_decimal n ≢ []
unfolding to_decimal
to_decimal-ne-nil zero = ground arith
to_decimal-ne-nil (suc n) =
    ground (arith, emit_digits-ne-nil n (suc n / 10) ((b'0' + suc n % 10) ∷ []))

parse_digits : (t : Text) → t ≢ [] → All IsDigit t → parse_u64 t ≡ read_digits 0 t
unfolding parse_u64
parse_digits [] h a = absurd (h refl)
parse_digits (c ∷ []) h a = refl
parse_digits (c ∷ d ∷ t) h a = ground arith

read_to_decimal : (n : ℕ) → n ≤ u64_max → read_digits 0 (to_decimal n) ≡ some n
unfolding to_decimal read_digits
read_to_decimal n fits = ground (arith, read_digits_emit n n [])

-- A printed word reads back as itself.
pub parse-to_decimal : (n : ℕ) → n ≤ u64_max → parse_u64 (to_decimal n) ≡ some n
parse-to_decimal n fits =
    parse_digits (to_decimal n) (to_decimal-ne-nil n) (to_decimal-digits n) ∙ read_to_decimal n fits

-- A digit is no white space, so that trimming leaves a printed word alone.
abbrev pub IsSolid : ℕ → Type 0
IsSolid c = is_whitespace c ≡ false

IsSolid-of_digits : (t : Text) → All IsDigit t → All IsSolid t
unfolding is_whitespace
IsSolid-of_digits [] a = tt
IsSolid-of_digits (c ∷ t) a = (ground arith, IsSolid-of_digits t a.1)

pub to_decimal-IsSolid : (n : ℕ) → All IsSolid (to_decimal n)
to_decimal-IsSolid n = IsSolid-of_digits (to_decimal n) (to_decimal-digits n)
