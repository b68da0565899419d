-- ===== src/Search/Whole.antt =====
-- Whole numbers in the place of floating-point ones, with an arithmetic that keeps the order: what the
-- tests run the ranking of crates/hallouminate-domain/src/search.rs with.
use Prim.Native.Nat.{compare}
use hallouminate.Common.{ℕ, ◌+◌, ◌-◌, ◌*◌, some}
use hallouminate.Common.Order.{Lawful, compare-Lawful}
use hallouminate.Search.Types.{Floats, compare_score}

abbrev pub whole : Floats ℕ
whole = record {
  literal = λ n d. n;
  of_nat = λ n. n;
  add = λ a b. a + b;
  mul = λ a b. a * b;
  div = λ a b. a - b;
  partial_cmp = λ a b. some (compare a b);
  total_cmp = compare;
}

pub whole-Lawful : Lawful (compare_score whole)
whole-Lawful = record { flip = compare-Lawful.flip; chain = compare-Lawful.chain }
