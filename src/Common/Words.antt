-- ===== src/Common/Words.antt =====
-- Rust's unsigned words as bounded numbers, with the saturating operations the daemon uses.
use Prim.Native.Nat.{ℕ, ◌+◌, ◌*◌, min}

abbrev pub u32_max : ℕ
u32_max = 4294967295

abbrev pub u64_max : ℕ
u64_max = 18446744073709551615

-- `u64::saturating_mul`
abbrev pub saturating_mul : ℕ → ℕ → ℕ
saturating_mul a b = min (a * b) u64_max

-- `u64::saturating_add`
abbrev pub saturating_add : ℕ → ℕ → ℕ
saturating_add a b = min (a + b) u64_max

-- `u32::saturating_add`
abbrev pub saturating_add_u32 : ℕ → ℕ → ℕ
saturating_add_u32 a b = min (a + b) u32_max

abbrev pub u64_mod : ℕ
u64_mod = 18446744073709551616

abbrev pub u32_mod : ℕ
u32_mod = 4294967296
