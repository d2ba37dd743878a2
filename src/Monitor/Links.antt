-- ===== src/Monitor/Links.antt =====
-- What an operation on one map of a map of maps does to its entries.
use oragono.Prelude.{
  ◌≡◌, refl, Bool, true, false, ◌&&◌, Option, none, some, [], arith, if◌then◌else◌, Eq, ◌==◌,
  nat_eq, string_eq,
}
use oragono.Prelude.GoMap.{GoMap, lookup, has, insert, delete, lookup-insert, lookup-delete}
use oragono.Monitor.{inner, ensure, delete_inner}

module _ {ℓ κ μ} {K : Type ℓ} {J : Type κ} {V : Type μ} ⦃e : Eq K⦄ ⦃d : Eq J⦄ where
  -- _, ok := m[k][j]
  unfoldable pub linked : GoMap K (GoMap J V) → K → J → Bool
  linked m k j = has (inner m k) j

  pub linked-has : (m : GoMap K (GoMap J V)) (k : K) (j : J) → linked m k j ≡ has (inner m k) j
  unfolding linked
  linked-has m k j = refl

  inner-insert :
      (m : GoMap K (GoMap J V)) (k r : K) (n : GoMap J V)
      → inner (insert m k n) r ≡ (if k == r then n else inner m r)
  unfolding inner
  inner-insert m k r n = ground (arith, lookup-insert m k r n)

  pub linked-delete :
      (m : GoMap K (GoMap J V)) (k r : K) (i : J)
      → linked (delete m k) r i ≡ (if k == r then false else linked m r i)
  unfolding linked inner lookup
  linked-delete m k r i = ground (arith, lookup-delete m k r)

  pub linked-ensure :
      (m : GoMap K (GoMap J V)) (k r : K) (i : J) → linked (ensure m k) r i ≡ linked m r i
  unfolding linked ensure
  linked-ensure m k r i = ground (arith, inner-insert m k r (inner m k), e.equals_iff k r)

  pub linked-insert :
      (m : GoMap K (GoMap J V)) (k r : K) (j i : J) (v : V)
      → linked (insert m k (insert (inner m k) j v)) r i
        ≡ (if k == r && j == i then true else linked m r i)
  unfolding linked
  linked-insert m k r j i v = ground (
    arith,
    inner-insert m k r (insert (inner m k) j v),
    lookup-insert (inner m k) j i v,
    e.equals_iff k r,
  )

  inner_of :
      (m : GoMap K (GoMap J V)) (k : K) → inner m k ≡ elim (lookup m k) [ none ↦ [] | some n ↦ n ]
  unfolding inner
  inner_of m k = refl

  delete_inner-found :
      (m : GoMap K (GoMap J V)) (k r : K) (j i : J) (o : Option (GoMap J V))
      → lookup m k ≡ o
      → linked (elim o [ none ↦ m | some n ↦ insert m k (delete n j) ]) r i
        ≡ (if k == r && j == i then false else linked m r i)
  unfolding linked lookup
  delete_inner-found m k r j i none missing =
      ground (arith, missing, inner_of m r, e.equals_iff k r)
  delete_inner-found m k r j i (some n) found = ground (
    arith,
    found,
    inner_of m r,
    inner-insert m k r (delete n j),
    lookup-delete n j i,
    e.equals_iff k r,
  )

  pub linked-delete_inner :
      (m : GoMap K (GoMap J V)) (k r : K) (j i : J)
      → linked (delete_inner m k j) r i ≡ (if k == r && j == i then false else linked m r i)
  unfolding delete_inner
  linked-delete_inner m k r j i = delete_inner-found m k r j i (lookup m k) refl
