-- ===== src/Daemon/Backoff.antt =====
-- crates/hallouminate-daemon/src/backoff.rs: the shared exponential backoff curve, over `u64`.
use native.Mathlib.Decide.{dec_le}
use native.Mathlib.Nat.{pow-le-pow_right}
use hallouminate.Common.{
  ℕ, ◌-◌, ◌*◌, ◌^◌, ◌≤◌, ◌<◌, min, ◌≡◌, arith, ◌==◌, if◌then◌else◌, saturating_mul,
}

unfoldable pub exponential_backoff_secs : ℕ → ℕ → ℕ → ℕ
exponential_backoff_secs floor cap steps =
    if steps == 0
    then 0
    else (let exponent = min (steps - 1) 63 in min (saturating_mul floor (2 ^ exponent)) cap)

-- The wait never exceeds the cap, whatever the floor and the step count.
pub backoff-le-cap : (floor cap steps : ℕ) → exponential_backoff_secs floor cap steps ≤ cap
unfolding exponential_backoff_secs
backoff-le-cap floor cap steps = ground arith

pow_mono : (i j : ℕ) → i ≤ j → 2 ^ i ≤ 2 ^ j
pow_mono i j h = pow-le-pow_right (omega arith) h

mul_mono : (floor a b : ℕ) → a ≤ b → floor * a ≤ floor * b
mul_mono floor a b h = grind arith

-- More steps never shorten the wait.
pub backoff_mono :
    (floor cap s t : ℕ)
    → s ≤ t
    → exponential_backoff_secs floor cap s ≤ exponential_backoff_secs floor cap t
unfolding exponential_backoff_secs
backoff_mono floor cap s t h = ground (
  arith,
  pow_mono (min (s - 1) 63) (min (t - 1) 63),
  mul_mono floor (2 ^ min (s - 1) 63) (2 ^ min (t - 1) 63),
)

large_product : (floor e : ℕ) → 0 < floor → 63 ≤ e → 2 ^ 63 ≤ floor * 2 ^ e
large_product floor e pos h = grind (arith, pow_mono 63 e h)

-- Up to caps of 2^63 seconds the clamped exponent and the saturating product do not show: the wait
-- is `floor` doubled with each step past the first, cut off at `cap`, over unbounded numbers.
pub backoff-eq-curve :
    (floor cap steps : ℕ)
    → cap ≤ 2 ^ 63
    → 0 < steps
    → exponential_backoff_secs floor cap steps ≡ min (floor * 2 ^ (steps - 1)) cap
unfolding exponential_backoff_secs
backoff-eq-curve floor cap steps small pos = elim (dec_le steps 64) [
  | yes low ↦ let e : min (steps - 1) 63 ≡ steps - 1 = omega arith in rw e (ground arith)
  | no high ↦ let e : min (steps - 1) 63 ≡ 63 = omega arith in rw e (saturated high)
]
  where
    saturated :
        ¬ (steps ≤ 64)
        → (if steps == 0 then 0 else min (saturating_mul floor (2 ^ 63)) cap)
          ≡ min (floor * 2 ^ (steps - 1)) cap
    saturated high = elim (dec_le 1 floor) [
      | yes some_floor ↦
          ground
            (arith, large_product floor 63 some_floor, large_product floor (steps - 1) some_floor)
      | no zero_floor ↦ let z : floor ≡ 0 = omega arith in rw z (ground arith)
    ]
