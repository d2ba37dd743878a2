-- ===== src/Monitor.antt =====
-- irc/monitor.go: who is watching which nickname. A session is known by its address, a number; a nil map
-- reads as the empty one, and deleting from it does nothing. CasefoldName is a parameter.
pub mod Links
pub mod Mirror
use oragono.Prelude.{
  ℕ, zero, suc, ◌+◌, ◌-◌, ◌*◌, ◌/◌, ◌%◌, ◌^◌, ◌≤◌, ◌<◌, min, max, bit_and, bit_or, String, ◌≡◌,
  refl, sym, ap, subst, ◌∙◌, fun_ext, ◌≢◌, ◌↔◌, ◌⊎◌, inl, inr, Bool, true, false, not, ◌&&◌, ◌||◌,
  Option, none, some, List, [], ◌∷◌, ◌++◌, map, reverse, arith, ltb, leb, nat_beq, if◌then◌else◌,
  ltb→lt, lt→ltb, leb→le, nat_beq_iff, nat_beq_refl, Bool-cases, Option-cases, length, get_elem?,
  set, length-append, length-set, get_elem?-set_self, get_elem?-set_ne, get_or, take, drop,
  replicate, take-append-drop, length-take, length-drop, length-replicate, length-map, Eq, ◌==◌,
  ◌!=◌, nat_eq, string_eq, beq_refl, beq_ne, beq→eq, beq→ne,
}
use oragono.Prelude.GoMap.{
  GoMap, lookup, has, insert, delete, lookup-insert, lookup-delete, length-insert, length-delete-le,
  lookup-insert_self,
}

pub record MonitorManager : Type 0 where
  pub watching : GoMap ℕ (GoMap String String)
  pub watched_by : GoMap String (GoMap ℕ Bool)

pub data MonitorResult : Type 0 where
  invalid_name limit_exceeded done : MonitorResult

-- m[k] of a map of maps
unfoldable pub inner {ℓ κ μ} :
    {K : Type ℓ} {J : Type κ} {V : Type μ} ⦃e : Eq K⦄ → GoMap K (GoMap J V) → K → GoMap J V
inner m k = elim (lookup m k) [ none ↦ [] | some n ↦ n ]

-- if m[k] == nil { m[k] = make(...) }
unfoldable pub ensure {ℓ κ μ} :
    {K : Type ℓ} {J : Type κ} {V : Type μ} ⦃e : Eq K⦄
    → GoMap K (GoMap J V)
    → K
    → GoMap K (GoMap J V)
ensure m k = insert m k (inner m k)

-- delete(m[k], j)
unfoldable pub delete_inner {ℓ κ μ} :
    {K : Type ℓ} {J : Type κ} {V : Type μ} ⦃e : Eq K⦄ ⦃d : Eq J⦄
    → GoMap K (GoMap J V)
    → K
    → J
    → GoMap K (GoMap J V)
delete_inner m k j = elim (lookup m k) [ none ↦ m | some n ↦ insert m k (delete n j) ]

unfoldable pub initialize : MonitorManager
initialize = record { watching = []; watched_by = [] }

-- The sessions that AlertAbout tells.
unfoldable pub watchers : MonitorManager → String → List ℕ
watchers manager cfnick = map (λ entry. entry.0) (inner manager.watched_by cfnick)

unfoldable pub add_folded :
    MonitorManager → ℕ → String → ℕ → Option String → MonitorManager × MonitorResult
unfolding ensure
add_folded manager session nick limit none = (manager, invalid_name)
add_folded manager session nick limit (some cfnick) =
    let watching = ensure manager.watching session in
    let watched_by = ensure manager.watched_by cfnick in
    if leb limit (length (inner watching session))
    then (record { watching = watching; watched_by = watched_by }, limit_exceeded)
    else (
      record {
        watching = insert watching session (insert (inner watching session) cfnick nick);
        watched_by = insert watched_by cfnick (insert (inner watched_by cfnick) session true);
      },
      done,
    )

unfoldable pub remove_folded : MonitorManager → ℕ → Option String → MonitorManager × MonitorResult
unfolding delete_inner
remove_folded manager session none = (manager, invalid_name)
remove_folded manager session (some cfnick) = (
  record {
    watching = delete_inner manager.watching session cfnick;
    watched_by = delete_inner manager.watched_by cfnick session;
  },
  done,
)

-- The loop of RemoveAll over the names that the session watches.
unfoldable pub forget :
    GoMap String (GoMap ℕ Bool) → ℕ → GoMap String String → GoMap String (GoMap ℕ Bool)
unfolding delete_inner
forget watched_by session [] = watched_by
forget watched_by session ((cfnick, _) ∷ rest) =
    forget (delete_inner watched_by cfnick session) session rest

-- RemoveAll
unfoldable pub remove_all : MonitorManager → ℕ → MonitorManager
unfolding forget
remove_all manager session = record {
  watching = delete manager.watching session;
  watched_by = forget manager.watched_by session (inner manager.watching session);
}

-- List
unfoldable pub list : MonitorManager → ℕ → List String
list manager session = map (λ entry. entry.1) (inner manager.watching session)

module _ (casefold_name : String → Option String) where
  -- Add
  unfoldable pub add : MonitorManager → ℕ → String → ℕ → MonitorManager × MonitorResult
  unfolding add_folded
  add manager session nick limit = add_folded manager session nick limit (casefold_name nick)

  -- Remove
  unfoldable pub remove : MonitorManager → ℕ → String → MonitorManager × MonitorResult
  unfolding remove_folded
  remove manager session nick = remove_folded manager session (casefold_name nick)
