-- ===== src/Text/Tests.antt =====
-- Runs of the text operations.
use hallouminate.Common.{◌≡◌, refl, none, some, [], ◌∷◌}
use hallouminate.Text.{is_whitespace, parse_u64, to_decimal, lines, trim, codes}

samples :
    (parse_u64 (codes "+12") ≡ some 12)
    × (parse_u64 (codes "+") ≡ none)
    × (parse_u64 (codes "18446744073709551616") ≡ none)
    × (parse_u64 (to_decimal 1700000000) ≡ some 1700000000)
    × (lines (codes "a\n\nb\n") ≡ codes "a" ∷ [] ∷ codes "b" ∷ [])
    × (trim (codes " a b\t") ≡ codes "a b")
unfolding parse_u64 to_decimal lines trim is_whitespace
samples = (refl, refl, refl, refl, refl, refl)
