-- ===== src/Common/Order.antt =====
-- Comparisons as Rust's `Ordering` gives them, how they are composed, and the laws of a total order.
use Prim.Native.Nat.{compare, Ordering}
use Prim.Native.Nat.Ordering.{lt, eq, gt}
use mathlib.Core.Path.{◌≡◌}
use mathlib.Core.Bool.{Bool, true, false}
use native.Mathlib.Omega.{arith}

abbrev pub Cmp {ℓ} : Type ℓ → Type ℓ
Cmp A = A → A → Ordering

abbrev pub then_with : Ordering → Ordering → Ordering
then_with lt o = lt
then_with eq o = o
then_with gt o = gt

abbrev pub reverse_order : Ordering → Ordering
reverse_order lt = gt
reverse_order eq = eq
reverse_order gt = lt

abbrev pub is_le : Ordering → Bool
is_le lt = true
is_le eq = true
is_le gt = false

-- `cmp` on Booleans
abbrev pub compare_bool : Cmp Bool
compare_bool false true = lt
compare_bool true false = gt
compare_bool false false = eq
compare_bool true true = eq

-- A total preorder: turned around it is reversed, and it passes from one pair to the next.
pub record Lawful {ℓ} {A : Type ℓ} (cmp : Cmp A) : Type ℓ where
  pub flip : (a b : A) → cmp b a ≡ reverse_order (cmp a b)
  pub chain :
      (a b c : A)
      → is_le (cmp a b) ≡ true
      → is_le (cmp b c) ≡ true
      → cmp a c ≡ then_with (cmp a b) (cmp b c)

pub compare-Lawful : Lawful compare
compare-Lawful = record { flip = λ a b. ground arith; chain = λ a b c h k. ground (arith, h, k) }

pub compare_bool-Lawful : Lawful compare_bool
compare_bool-Lawful = record {
  flip = λ a b. ground arith;
  chain = λ a b c h k. ground (arith, h, k);
}

module _ {ℓ} {A : Type ℓ} where
  pub then_with-Lawful :
      {c d : Cmp A} → Lawful c → Lawful d → Lawful (λ a b. then_with (c a b) (d a b))
  then_with-Lawful l m = record {
    flip = λ x y. ground (arith, l.flip x y, m.flip x y);
    chain = λ x y z h k. ground (arith, h, k, l.chain x y z, m.chain x y z);
  }

  pub reversed-Lawful : {c : Cmp A} → Lawful c → Lawful (λ a b. c b a)
  reversed-Lawful l = record {
    flip = λ x y. l.flip y x;
    chain = λ x y z h k. ground (arith, h, k, l.chain z y x);
  }

  pub on-Lawful {κ} :
      {B : Type κ} {c : Cmp B} (f : A → B) → Lawful c → Lawful (λ x y. c (f x) (f y))
  on-Lawful f l = record {
    flip = λ x y. l.flip (f x) (f y);
    chain = λ x y z. l.chain (f x) (f y) (f z);
  }
