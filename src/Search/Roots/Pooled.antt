-- ===== src/Search/Roots/Pooled.antt =====
-- The pool of all roots in `fuse_together` of crates/hallouminate-domain/src/search.rs: no chunk of a root
-- is lost, and the keys of two roots never meet.
use hallouminate.Assoc.{lookup, insert, lookup-insert}
use hallouminate.Common.{
  Bool, true, false, u64_max, ℕ, suc, ◌≤◌, ◌≡◌, refl, ◌∙◌, sym, ap, Option, none, some, List, [],
  ◌∷◌, ◌++◌, arith, All, if◌then◌else◌,
}
use hallouminate.Search.Resolve.{Pool}
use hallouminate.Search.Roots.{RootSignals, key_of, add_hits, merge_hits}
use hallouminate.Search.Types.{Floats, SearchHit}
use hallouminate.Text.{Text, equal, to_decimal, parse_u64}
use hallouminate.Text.Decimal.{IsDigit, to_decimal-digits, parse-to_decimal}

abbrev head_of : Text → ℕ
head_of [] = 0
head_of (c ∷ s) = c

abbrev tail_of : Text → Text
tail_of [] = []
tail_of (c ∷ s) = s

digits_then-slash :
    (a b x y : Text)
    → All IsDigit a
    → All IsDigit b
    → a ++ b'/' ∷ x ≡ b ++ b'/' ∷ y
    → (a ≡ b) × (x ≡ y)
digits_then-slash [] [] x y da db e = (refl, ap tail_of e)
digits_then-slash [] (d ∷ b) x y da db e = absurd (omega (arith, ap head_of e, db.0))
digits_then-slash (c ∷ a) [] x y da db e = absurd (omega (arith, ap head_of e, da.0))
digits_then-slash (c ∷ a) (d ∷ b) x y da db e =
    let rest = digits_then-slash a b x y da.1 db.1 (ap tail_of e) in
    (ap (λ h. h ∷ a) (ap head_of e) ∙ ap (◌∷◌ d) rest.0, rest.1)

-- Two chunks of one key are the same chunk of the same root.
abbrev pub Apart : Type 0
Apart =
    (i j : ℕ) (a b : Text) → i ≤ u64_max → j ≤ u64_max → key_of i a ≡ key_of j b → (i ≡ j) × (a ≡ b)

pub key_of-Apart : Apart
key_of-Apart i j a b hi hj e =
    let (numbers, ids) =
      digits_then-slash (to_decimal i) (to_decimal j) a b (to_decimal-digits i)
        (to_decimal-digits j) e in
    let same : ◌≡◌ {A = Option ℕ} (some i) (some j) =
      sym (parse-to_decimal i hi) ∙ ap parse_u64 numbers ∙ parse-to_decimal j hj in
    (ap (λ (o : Option ℕ). elim o [ none ↦ i | some n ↦ n ]) same, ids)

module _ {F : Type 0} where
  abbrev pub or_else : Option (SearchHit F) → Option (SearchHit F) → Option (SearchHit F)
  or_else none later = later
  or_else (some hit) later = some hit

  -- The last chunk of a root's pool that has a key, and the last one of all roots, from a number on.
  unfoldable pub in_root : ℕ → Text → Pool F → Option (SearchHit F)
  unfolding equal
  in_root root key [] = none
  in_root root key ((id, hit) ∷ pool) =
      or_else (in_root root key pool) (if equal (key_of root id) key then some hit else none)

  unfoldable pub pooled : ℕ → Text → List (RootSignals F) → Option (SearchHit F)
  unfolding in_root
  pooled root key [] = none
  pooled root key (r ∷ roots) = or_else (pooled (suc root) key roots) (in_root root key r.hits)

  or_else_assoc : (a b c : Option (SearchHit F)) → or_else a (or_else b c) ≡ or_else (or_else a b) c
  or_else_assoc none b c = refl
  or_else_assoc (some a) b c = refl

  module _ (num : Floats F) where
    lookup-add_hits :
        (root : ℕ) (key : Text) (pool hits : Pool F)
        → lookup key (add_hits num root pool hits)
          ≡ or_else (in_root root key pool) (lookup key hits)
    unfolding add_hits in_root
    lookup-add_hits root key [] hits = refl
    lookup-add_hits root key ((id, hit) ∷ pool) hits =
        lookup-add_hits root key pool (insert (key_of root id) hit hits)
        ∙ ap (or_else (in_root root key pool))
            (lookup-insert (key_of root id) key hit hits ∙ chosen (equal (key_of root id) key))
        ∙ or_else_assoc (in_root root key pool)
            (if equal (key_of root id) key then some hit else none) (lookup key hits)
      where
        chosen :
            (b : Bool)
            → (if b then some hit else lookup key hits)
              ≡ or_else (if b then some hit else none) (lookup key hits)
        chosen true = refl
        chosen false = refl

    lookup-merge_from :
        (root : ℕ) (key : Text) (roots : List (RootSignals F)) (hits : Pool F)
        → lookup key (merge_hits num root roots hits)
          ≡ or_else (pooled root key roots) (lookup key hits)
    unfolding merge_hits pooled
    lookup-merge_from root key [] hits = refl
    lookup-merge_from root key (r ∷ roots) hits =
        lookup-merge_from (suc root) key roots (add_hits num root r.hits hits)
        ∙ ap (or_else (pooled (suc root) key roots)) (lookup-add_hits root key r.hits hits)
        ∙ or_else_assoc (pooled (suc root) key roots) (in_root root key r.hits) (lookup key hits)

    or_else-none : (o : Option (SearchHit F)) → or_else o none ≡ o
    or_else-none none = refl
    or_else-none (some hit) = refl

    pub lookup-merge_hits :
        (key : Text) (roots : List (RootSignals F))
        → lookup key (merge_hits num 0 roots []) ≡ pooled 0 key roots
    unfolding lookup
    lookup-merge_hits key roots =
        lookup-merge_from 0 key roots [] ∙ or_else-none (pooled 0 key roots)
