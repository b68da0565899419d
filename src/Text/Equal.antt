-- ===== src/Text/Equal.antt =====
-- Equality and order of texts.
use hallouminate.Common.{◌≡◌, refl, ◌↔◌, true, [], ◌∷◌, arith}
use hallouminate.Text.{Text, equal}

pub equal_iff : (s t : Text) → (equal s t ≡ true) ↔ (s ≡ t)
unfolding equal
equal_iff [] [] = ground arith
equal_iff [] (d ∷ t) = ground arith
equal_iff (c ∷ s) [] = ground arith
equal_iff (c ∷ s) (d ∷ t) = ground (arith, equal_iff s t)

pub equal_self : (s : Text) → equal s s ≡ true
equal_self s = (equal_iff s s).1 refl
