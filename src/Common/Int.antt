-- ===== src/Common/Int.antt =====
-- Signed words as integers: `negsuc n` is -(n + 1).
use hallouminate.Common.{ℕ, zero, suc, Bool, true, false, leb, ◌==◌}

pub data ℤ : Type 0 where
  pos : ℕ → ℤ
  negsuc : ℕ → ℤ

abbrev pub pred_ℤ : ℤ → ℤ
pred_ℤ (pos zero) = negsuc 0
pred_ℤ (pos (suc n)) = pos n
pred_ℤ (negsuc n) = negsuc (suc n)

abbrev pub leb_ℤ : ℤ → ℤ → Bool
leb_ℤ (pos m) (pos n) = leb m n
leb_ℤ (pos m) (negsuc n) = false
leb_ℤ (negsuc m) (pos n) = true
leb_ℤ (negsuc m) (negsuc n) = leb n m

abbrev pub eq_ℤ : ℤ → ℤ → Bool
eq_ℤ (pos m) (pos n) = m == n
eq_ℤ (pos m) (negsuc n) = false
eq_ℤ (negsuc m) (pos n) = false
eq_ℤ (negsuc m) (negsuc n) = m == n
