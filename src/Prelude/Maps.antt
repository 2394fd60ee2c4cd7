-- ===== src/Prelude/Maps.antt =====
-- Go maps with string keys, as association lists: the first entry of a key counts.
use mathlib.Core.Path.{◌≡◌, refl}
use mathlib.Core.List.{List, [], ◌∷◌}
use mathlib.Core.Option.{Option, none, some}
use native.Mathlib.Omega.{arith}
use exalsius_operator.Prelude.Tests.{if◌then◌else◌}
use exalsius_operator.Prelude.Bytes.{Text, text_eq, text_eq_iff, text_eq_refl}

module _ {ℓ} {V : Type ℓ} where
  -- `v, ok := m[k]`
  unfoldable pub lookup : Text → List (Text × V) → Option V
  lookup k [] = none
  lookup k ((j, v) ∷ m) = if text_eq j k then some v else lookup k m

  -- `m[k] = v`
  unfoldable pub insert : Text → V → List (Text × V) → List (Text × V)
  insert k v [] = (k, v) ∷ []
  insert k v ((j, w) ∷ m) = if text_eq j k then (j, v) ∷ m else (j, w) ∷ insert k v m

  -- `for k, v := range n { m[k] = v }`; the keys of `n` are distinct, so that the order is free.
  unfoldable pub merge : List (Text × V) → List (Text × V) → List (Text × V)
  merge m [] = m
  merge m ((k, v) ∷ n) = insert k v (merge m n)

  pub lookup-insert :
      (k j : Text) (v : V) (m : List (Text × V))
      → lookup j (insert k v m) ≡ (if text_eq k j then some v else lookup j m)
  unfolding lookup insert
  lookup-insert k j v [] = refl
  lookup-insert k j v ((i, w) ∷ m) =
      ground (arith, text_eq_iff k j, text_eq_iff i k, text_eq_iff i j, lookup-insert k j v m)

  pub lookup-insert_self :
      (k : Text) (v : V) (m : List (Text × V)) → lookup k (insert k v m) ≡ some v
  lookup-insert_self k v m = simp (lookup-insert, text_eq_refl)

module _ {ℓ} {V : Type ℓ} where
  abbrev pub or_else : Option V → Option V → Option V
  or_else none o = o
  or_else (some v) o = some v

  pub lookup-merge :
      (j : Text) (m n : List (Text × V)) → lookup j (merge m n) ≡ or_else (lookup j n) (lookup j m)
  unfolding merge lookup
  lookup-merge j m [] = refl
  lookup-merge j m ((k, v) ∷ n) =
      ground (arith, lookup-insert k j v (merge m n), lookup-merge j m n)

-- `m[k]` of a map to strings: a missing key reads as the empty string.
unfoldable pub label : Text → List (Text × Text) → Text
label k m = elim (lookup k m) [ none ↦ [] | some v ↦ v ]
