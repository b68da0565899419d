-- ===== src/Assoc.antt =====
-- `HashMap`s keyed by text, as association lists with one entry for each key. A hash map is iterated
-- in no particular order; the order here is one of those, and no statement depends on it.
pub mod Sorted
use hallouminate.Common.{
  ◌≡◌, refl, ap, true, false, Option, none, some, List, [], ◌∷◌, arith, if◌then◌else◌,
}
use hallouminate.Text.{Text, equal}
use hallouminate.Text.Equal.{equal_iff}

module _ {ℓ} {V : Type ℓ} where
  unfoldable pub lookup : Text → List (Text × V) → Option V
  lookup k [] = none
  lookup k ((j, v) ∷ m) = if equal j k then some v else lookup k m

  -- Replaces the value of a key, or adds the key.
  unfoldable pub insert : Text → V → List (Text × V) → List (Text × V)
  insert k v [] = (k, v) ∷ []
  insert k v ((j, w) ∷ m) = if equal j k then (j, v) ∷ m else (j, w) ∷ insert k v m

  unfoldable pub remove : Text → List (Text × V) → List (Text × V)
  remove k [] = []
  remove k ((j, w) ∷ m) = if equal j k then m else (j, w) ∷ remove k m

  unfoldable pub values : List (Text × V) → List V
  values [] = []
  values ((j, w) ∷ m) = w ∷ values m

  -- No key occurs twice.
  abbrev pub IsMap : List (Text × V) → Type ℓ
  IsMap [] = Unit {ℓ}
  IsMap ((j, w) ∷ m) = (lookup j m ≡ none) × IsMap m

  pub lookup-insert :
      (k j : Text) (v : V) (m : List (Text × V))
      → lookup j (insert k v m) ≡ (if equal k j then some v else lookup j m)
  unfolding lookup insert
  lookup-insert k j v [] = refl
  lookup-insert k j v ((i, w) ∷ m) =
      ground (arith, equal_iff k j, equal_iff i k, equal_iff i j, lookup-insert k j v m)

  pub lookup-equal : (k j : Text) (m : List (Text × V)) → equal k j ≡ true → lookup k m ≡ lookup j m
  lookup-equal k j m e = ap (λ i. lookup i m) ((equal_iff k j).0 e)

  pub lookup-remove_ne :
      (k j : Text) (m : List (Text × V)) → equal k j ≡ false → lookup j (remove k m) ≡ lookup j m
  unfolding lookup remove
  lookup-remove_ne k j [] h = refl
  lookup-remove_ne k j ((i, w) ∷ m) h =
      ground (arith, equal_iff k j, equal_iff i k, equal_iff i j, lookup-remove_ne k j m h)

  pub lookup-remove_self : (k : Text) (m : List (Text × V)) → IsMap m → lookup k (remove k m) ≡ none
  unfolding lookup remove
  lookup-remove_self k [] h = refl
  lookup-remove_self k ((i, w) ∷ m) h = ground (arith, equal_iff i k, lookup-remove_self k m h.1)

  pub insert-IsMap : (k : Text) (v : V) (m : List (Text × V)) → IsMap m → IsMap (insert k v m)
  unfolding lookup insert
  insert-IsMap k v [] h = (refl, tt)
  insert-IsMap k v ((i, w) ∷ m) h =
      ground (arith, equal_iff k i, equal_iff i k, insert-IsMap k v m h.1, lookup-insert k i v m)

  pub remove-IsMap : (k : Text) (m : List (Text × V)) → IsMap m → IsMap (remove k m)
  unfolding lookup remove
  remove-IsMap k [] h = h
  remove-IsMap k ((i, w) ∷ m) h =
      ground (arith, equal_iff k i, equal_iff i k, remove-IsMap k m h.1, lookup-remove_ne k i m)
