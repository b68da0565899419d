-- ===== src/Text.antt =====
-- Rust's `str` as the list of its code points, with the operations of the standard library that
-- the program calls. Offsets into a text count code points here.
pub mod Equal
pub mod Order
pub mod Lines
pub mod Search
pub mod Segments
pub mod Decimal
pub mod Paths
pub mod Words
mod Tests
use hallouminate.Common.{
  ℕ, suc, ◌+◌, ◌-◌, ◌*◌, ◌/◌, ◌%◌, Bool, true, false, ◌&&◌, ◌||◌, Option, none, some, List, [], ◌∷◌,
  ◌++◌, leb, ltb, ◌==◌, if◌then◌else◌, u64_max, ◌≡◌, refl, zero,
}
use Prim.Native.Char.{code}
use Prim.Native.String.{String}
use mathlib.Core.List.{reverse}

abbrev pub Text : Type 0
Text = List ℕ

abbrev pub codes : String → Text
codes String.[] = []
codes (String.◌∷◌ c s) = code c ∷ codes s

abbrev pub newline : ℕ
newline = 10

-- `char::is_whitespace`: Unicode's White_Space
unfoldable pub is_whitespace : ℕ → Bool
is_whitespace c =
    (leb 9 c && leb c 13)
    || c == 32
    || c == 0x85
    || c == 0xa0
    || c == 0x1680
    || (leb 0x2000 c && leb c 0x200a)
    || c == 0x2028
    || c == 0x2029
    || c == 0x202f
    || c == 0x205f
    || c == 0x3000

unfoldable pub trim_start : Text → Text
trim_start [] = []
trim_start (c ∷ s) = if is_whitespace c then trim_start s else c ∷ s

unfoldable pub trim : Text → Text
unfolding trim_start
trim s = reverse (trim_start (reverse (trim_start s)))

-- `==` on texts
unfoldable pub equal : Text → Text → Bool
equal [] [] = true
equal (c ∷ s) (d ∷ t) = c == d && equal s t
equal _ _ = false

-- `strip_prefix`, and `starts_with` as its test
unfoldable pub strip_prefix : Text → Text → Option Text
strip_prefix [] s = some s
strip_prefix (c ∷ p) [] = none
strip_prefix (c ∷ p) (d ∷ s) = if c == d then strip_prefix p s else none

-- `strip_suffix` of one character
unfoldable pub strip_last : ℕ → Text → Option Text
strip_last c [] = none
strip_last c (d ∷ []) = if d == c then some [] else none
strip_last c (d ∷ e ∷ s) = elim (strip_last c (e ∷ s)) [ none ↦ none | some t ↦ some (d ∷ t) ]

-- What `split_inclusive` does with a character that is no terminator.
abbrev pub push_first : ℕ → List Text → List Text
push_first c [] = (c ∷ []) ∷ []
push_first c (l ∷ ls) = (c ∷ l) ∷ ls

-- `split_inclusive('\n')`
unfoldable pub split_inclusive : Text → List Text
split_inclusive [] = []
split_inclusive (c ∷ s) =
    let rest = split_inclusive s in if c == newline then (c ∷ []) ∷ rest else push_first c rest

-- One line of `lines`: its segment without the terminator `\n` or `\r\n`.
abbrev pub strip_return : Text → Text
strip_return s = elim (strip_last 13 s) [ none ↦ s | some t ↦ t ]

abbrev pub line_of : Text → Text
line_of s = elim (strip_last newline s) [ none ↦ s | some t ↦ strip_return t ]

abbrev pub map_lines : List Text → List Text
map_lines [] = []
map_lines (s ∷ ss) = line_of s ∷ map_lines ss

unfoldable pub lines : Text → List Text
unfolding split_inclusive strip_last
lines s = map_lines (split_inclusive s)

-- The digits of `parse::<u64>`, read onto `n`.
unfoldable pub read_digits : ℕ → Text → Option ℕ
read_digits n [] = some n
read_digits n (c ∷ s) =
    let m = n * 10 + (c - b'0') in
    if leb b'0' c && leb c b'9' && leb m u64_max then read_digits m s else none

-- `parse::<u64>`: one optional plus sign, then at least one digit, in range.
unfoldable pub parse_u64 : Text → Option ℕ
unfolding read_digits
parse_u64 [] = none
parse_u64 (c ∷ []) = read_digits 0 (c ∷ [])
parse_u64 (c ∷ d ∷ s) = if c == b'+' then read_digits 0 (d ∷ s) else read_digits 0 (c ∷ d ∷ s)

-- `to_string` of a word; one round of fuel for each unit of `n` is more than its digits need.
unfoldable pub emit_digits : ℕ → ℕ → Text → Text
emit_digits zero n out = out
emit_digits (suc fuel) n out =
    let rest = emit_digits fuel (n / 10) ((b'0' + n % 10) ∷ out) in if n == 0 then out else rest

unfoldable pub to_decimal : ℕ → Text
unfolding emit_digits
to_decimal n = if n == 0 then b'0' ∷ [] else emit_digits n n []

-- `str::len`: the bytes of the text in UTF-8.
abbrev pub len_utf8 : ℕ → ℕ
len_utf8 c = if ltb c 0x80 then 1 else if ltb c 0x800 then 2 else if ltb c 0x10000 then 3 else 4

unfoldable pub byte_len : Text → ℕ
byte_len [] = 0
byte_len (c ∷ s) = len_utf8 c + byte_len s

-- `find` of a pattern: the text before its first occurrence, and the text behind it.
abbrev pub after_char : ℕ → Option (Text × Text) → Option (Text × Text)
after_char c none = none
after_char c (some (before, after)) = some (c ∷ before, after)

unfoldable pub break_on : Text → Text → Option (Text × Text)
unfolding strip_prefix
break_on p [] = elim (strip_prefix p []) [ none ↦ none | some rest ↦ some ([], rest) ]
break_on p (c ∷ s) =
    let later = after_char c (break_on p s) in
    elim (strip_prefix p (c ∷ s)) [ none ↦ later | some rest ↦ some ([], rest) ]

-- `find` of the first character of a kind: the text before it, and the text from it on.
abbrev pub push_front : ℕ → Text × Text → Text × Text
push_front c (before, after) = (c ∷ before, after)

unfoldable pub break_at : (ℕ → Bool) → Text → Text × Text
break_at p [] = ([], [])
break_at p (c ∷ s) = let rest = push_front c (break_at p s) in if p c then ([], c ∷ s) else rest

-- `to_ascii_lowercase`
unfoldable pub to_ascii_lowercase : Text → Text
to_ascii_lowercase [] = []
to_ascii_lowercase (c ∷ s) = (if leb b'A' c && leb c b'Z' then c + 32 else c) ∷ to_ascii_lowercase s
