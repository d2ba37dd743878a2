-- ===== src/Prelude/GoMap.antt =====
-- Go's `map[K]V` as an association list: an assignment replaces in place or appends, a missing
-- key reads as `none`. The order of entries stands for the unspecified order of iteration.
use Prim.Native.Nat.{◌+◌, ◌≤◌}
use mathlib.Core.Path.{◌≡◌, refl}
use mathlib.Core.Bool.{Bool, true, false, not, ◌&&◌}
use mathlib.Core.Option.{Option, none, some}
use mathlib.Core.List.{List, [], ◌∷◌}
use native.Mathlib.Omega.{arith}
use oragono.Prelude.Tests.{if◌then◌else◌}
use oragono.Prelude.Lists.{length}
use oragono.Prelude.Equality.{Eq, ◌==◌, beq_refl}

abbrev pub GoMap {ℓ κ} : Type ℓ → Type κ → Type (ℓ ⊔ κ)
GoMap K V = List (K × V)

module _ {ℓ κ} {K : Type ℓ} {V : Type κ} ⦃e : Eq K⦄ where
  -- v, ok := m[k]
  unfoldable pub lookup : GoMap K V → K → Option V
  lookup [] k = none
  lookup ((j, v) ∷ m) k = if j == k then some v else lookup m k

  -- _, ok := m[k]
  abbrev pub has : GoMap K V → K → Bool
  has m k = elim (lookup m k) [ none ↦ false | some v ↦ true ]

  -- m[k] = v
  unfoldable pub insert : GoMap K V → K → V → GoMap K V
  insert [] k v = (k, v) ∷ []
  insert ((j, w) ∷ m) k v = if j == k then (k, v) ∷ m else (j, w) ∷ insert m k v

  -- delete(m, k)
  unfoldable pub delete : GoMap K V → K → GoMap K V
  delete [] k = []
  delete ((j, w) ∷ m) k = let rest = delete m k in if j == k then rest else (j, w) ∷ rest

  -- No key stands twice, as in a map of Go.
  unfoldable pub distinct : GoMap K V → Bool
  unfolding lookup
  distinct [] = true
  distinct ((k, v) ∷ m) = not (has m k) && distinct m

  pub lookup-insert :
      (m : GoMap K V) (k j : K) (v : V)
      → lookup (insert m k v) j ≡ (if k == j then some v else lookup m j)
  unfolding lookup insert
  lookup-insert [] k j v = refl
  lookup-insert ((i, w) ∷ m) k j v =
      ground (arith, e.equals_iff k j, e.equals_iff i k, e.equals_iff i j, lookup-insert m k j v)

  pub lookup-delete :
      (m : GoMap K V) (k j : K) → lookup (delete m k) j ≡ (if k == j then none else lookup m j)
  unfolding lookup delete
  lookup-delete [] k j = ground arith
  lookup-delete ((i, w) ∷ m) k j =
      ground (arith, e.equals_iff k j, e.equals_iff i k, e.equals_iff i j, lookup-delete m k j)

  pub distinct-insert :
      (m : GoMap K V) (k : K) (v : V) → distinct m ≡ true → distinct (insert m k v) ≡ true
  unfolding distinct insert lookup
  distinct-insert [] k v d = refl
  distinct-insert ((j, w) ∷ m) k v d =
      ground
        (arith, distinct-insert m k v, lookup-insert m k j v, e.equals_iff j k, e.equals_iff k j)

  pub distinct-delete : (m : GoMap K V) (k : K) → distinct m ≡ true → distinct (delete m k) ≡ true
  unfolding distinct delete lookup
  distinct-delete [] k d = refl
  distinct-delete ((j, w) ∷ m) k d = ground (arith, distinct-delete m k, lookup-delete m k j)

  pub length-insert :
      (m : GoMap K V) (k : K) (v : V)
      → length (insert m k v) ≡ (if has m k then length m else length m + 1)
  unfolding lookup insert
  length-insert [] k v = omega arith
  length-insert ((i, w) ∷ m) k v = ground (arith, length-insert m k v)

  pub length-delete-le : (m : GoMap K V) (k : K) → length (delete m k) ≤ length m
  unfolding delete
  length-delete-le [] k = omega arith
  length-delete-le ((i, w) ∷ m) k = ground (arith, length-delete-le m k)

  pub lookup-insert_self : (m : GoMap K V) (k : K) (v : V) → lookup (insert m k v) k ≡ some v
  lookup-insert_self m k v = ground (arith, lookup-insert m k k v, beq_refl k)

pub ruleset map_laws = (lookup-insert, lookup-delete)
