-- ===== src/Text/Order.antt =====
-- `cmp` of texts. Rust compares the bytes of UTF-8, whose order is that of the code points.
use Prim.Native.Nat.{compare}
use Prim.Native.Nat.Ordering.{lt, eq, gt}
use hallouminate.Common.{◌≡◌, refl, true, [], ◌∷◌, arith}
use hallouminate.Common.Order.{Cmp, then_with, reverse_order, is_le, Lawful}
use hallouminate.Text.{Text}

unfoldable pub compare_text : Cmp Text
compare_text [] [] = eq
compare_text [] (d ∷ t) = lt
compare_text (c ∷ s) [] = gt
compare_text (c ∷ s) (d ∷ t) = then_with (compare c d) (compare_text s t)

flip_text : (s t : Text) → compare_text t s ≡ reverse_order (compare_text s t)
unfolding compare_text
flip_text [] [] = refl
flip_text [] (d ∷ t) = refl
flip_text (c ∷ s) [] = refl
flip_text (c ∷ s) (d ∷ t) = ground (arith, flip_text s t)

chain_text :
    (r s t : Text)
    → is_le (compare_text r s) ≡ true
    → is_le (compare_text s t) ≡ true
    → compare_text r t ≡ then_with (compare_text r s) (compare_text s t)
unfolding compare_text
chain_text [] [] t h k = refl
chain_text [] (d ∷ s) [] h k = ground (arith, k)
chain_text [] (d ∷ s) (e ∷ t) h k = refl
chain_text (c ∷ r) [] t h k = ground (arith, h)
chain_text (c ∷ r) (d ∷ s) [] h k = ground (arith, k)
chain_text (c ∷ r) (d ∷ s) (e ∷ t) h k = ground (arith, h, k, chain_text r s t)

pub compare_text-Lawful : Lawful compare_text
compare_text-Lawful = record { flip = flip_text; chain = chain_text }

-- Texts that compare equal are the same.
pub compare_text-eq : (s t : Text) → compare_text s t ≡ eq → s ≡ t
unfolding compare_text
compare_text-eq [] [] h = refl
compare_text-eq [] (d ∷ t) h = ground (arith, h)
compare_text-eq (c ∷ s) [] h = ground (arith, h)
compare_text-eq (c ∷ s) (d ∷ t) h = ground (arith, h, compare_text-eq s t)
