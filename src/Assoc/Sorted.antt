-- ===== src/Assoc/Sorted.antt =====
-- A map's entries in another order are the same map.
use hallouminate.Assoc.{lookup, IsMap}
use hallouminate.Common.{
  ◌≡◌, refl, ◌∙◌, sym, ap, Bool-cases, All, inl, inr, true, none, some, List, [], ◌∷◌, arith,
  if◌then◌else◌,
}
use Prim.Native.Nat.Ordering.{eq}
use mathlib.Core.Path.{subst, ap₂}
use hallouminate.Common.Order.{Cmp, is_le, Lawful}
use hallouminate.Common.SortBy.{insert_by, sort_by, IsSortedBy}
use hallouminate.Text.{Text, equal}
use hallouminate.Text.Equal.{equal_iff, equal_self}

pair_eq {ℓ} : {V : Type ℓ} {i j : Text} {v w : V} → i ≡ j → v ≡ w → ◌≡◌ {A = Text × V} (i, v) (j, w)
pair_eq p q = ap₂ (λ i v. (i, v)) p q

module _ {ℓ} {V : Type ℓ} (cmp : Cmp (Text × V)) where
  lookup-insert_by :
      (id j : Text) (v : V) (m : List (Text × V))
      → lookup j m ≡ none
      → lookup id (insert_by cmp (j, v) m) ≡ (if equal j id then some v else lookup id m)
  unfolding lookup insert_by
  lookup-insert_by id j v [] new = refl
  lookup-insert_by id j v ((i, w) ∷ m) new = elim (Bool-cases (is_le (cmp (j, v) (i, w)))) [
    | inl le ↦ rw (le, insert_by) refl
    | inr gt ↦
        rw (gt, insert_by)
          (ground
            (arith, new, equal_iff i j, equal_iff i id, equal_iff j id, lookup-insert_by id j v m))
  ]

  pub insert_by-IsMap :
      (j : Text) (v : V) (m : List (Text × V))
      → lookup j m ≡ none
      → IsMap m
      → IsMap (insert_by cmp (j, v) m)
  unfolding lookup insert_by
  insert_by-IsMap j v [] new once = (new, once)
  insert_by-IsMap j v ((i, w) ∷ m) new (here, once) =
      elim (Bool-cases (is_le (cmp (j, v) (i, w)))) [
        | inl le ↦ rw (le, insert_by) (new, (here, once))
        | inr gt ↦
            rw (gt, insert_by)
              (
                ground (arith, new, here, equal_iff i j, equal_iff j i, lookup-insert_by i j v m),
                insert_by-IsMap j v m (ground (arith, new)) once,
              )
      ]

  pub lookup-sort_by :
      (id : Text) (m : List (Text × V)) → IsMap m → lookup id (sort_by cmp m) ≡ lookup id m
  unfolding lookup sort_by
  lookup-sort_by id [] once = refl
  lookup-sort_by id ((j, v) ∷ m) (here, once) = ground (
    arith,
    here,
    lookup-insert_by id j v (sort_by cmp m),
    lookup-sort_by j m once,
    lookup-sort_by id m once,
  )

  pub sort_by-IsMap : (m : List (Text × V)) → IsMap m → IsMap (sort_by cmp m)
  unfolding sort_by
  sort_by-IsMap [] once = once
  sort_by-IsMap ((j, v) ∷ m) (here, once) =
      insert_by-IsMap j v (sort_by cmp m) (lookup-sort_by j m once ∙ here) (sort_by-IsMap m once)

  pub lookup-below :
      (a : Text × V) (id : Text) (v : V) (m : List (Text × V))
      → All (λ b. is_le (cmp a b) ≡ true) m
      → lookup id m ≡ some v
      → is_le (cmp a (id, v)) ≡ true
  unfolding lookup
  lookup-below a id v [] h found = ground (arith, found)
  lookup-below a id v ((j, w) ∷ m) (hj, h) found = elim (Bool-cases (equal j id)) [
    | inl same ↦
        subst (λ c. is_le (cmp a c) ≡ true)
          (pair_eq ((equal_iff j id).0 same) (ground (arith, found, same))) hj
    | inr other ↦ lookup-below a id v m h (ground (arith, found, other))
  ]

  -- Of the maps with the same values only one list is sorted.
  module _ (l : Lawful cmp) (keyed : (a b : Text × V) → cmp a b ≡ eq → a.0 ≡ b.0) where
    heads_eq :
        (i j : Text) (v w : V) (m n : List (Text × V))
        → All (λ b. is_le (cmp (i, v) b) ≡ true) m
        → All (λ b. is_le (cmp (j, w) b) ≡ true) n
        → lookup i ((j, w) ∷ n) ≡ some v
        → lookup j ((i, v) ∷ m) ≡ some w
        → i ≡ j
    unfolding lookup
    heads_eq i j v w m n hm hn fi fj = elim (Bool-cases (equal i j)) [
      | inl same ↦ (equal_iff i j).0 same
      | inr other ↦
          keyed (i, v) (j, w)
            (ground (
              arith,
              l.flip (i, v) (j, w),
              lookup-below (i, v) j w m hm (ground (arith, fj, other)),
              lookup-below (j, w) i v n hn
                  (ground (arith, fi, other, equal_iff i j, equal_iff j i)),
            ))
    ]

    pub sorted_unique :
        (m n : List (Text × V))
        → IsMap m
        → IsMap n
        → IsSortedBy cmp m
        → IsSortedBy cmp n
        → ((id : Text) → lookup id m ≡ lookup id n)
        → m ≡ n
    unfolding lookup
    sorted_unique [] [] om on sm sn same = refl
    sorted_unique [] ((j, w) ∷ n) om on sm sn same = ground (arith, same j, equal_self j)
    sorted_unique ((i, v) ∷ m) [] om on sm sn same = ground (arith, same i, equal_self i)
    sorted_unique ((i, v) ∷ m) ((j, w) ∷ n) (ni, om) (nj, on) (hm, sm) (hn, sn) same =
        let ij =
          heads_eq i j v w m n hm hn (ground (arith, same i, equal_self i))
            (ground (arith, same j, equal_self j)) in
        ap₂ ◌∷◌ (pair_eq ij (ground (arith, same j, equal_self j, (equal_iff i j).1 ij))) (
          sorted_unique m n om on sm sn (λ id. elim (Bool-cases (equal i id)) [
            | inl here ↦
                let e = (equal_iff i id).0 here in
                ap (λ c. lookup c m) (sym e) ∙ ni ∙ sym nj ∙ ap (λ c. lookup c n) (sym ij ∙ e)
            | inr other ↦
                ground
                  (arith, other, same id, equal_iff i id, equal_iff j id, (λ (e : j ≡ id). ij ∙ e))
          ]))
