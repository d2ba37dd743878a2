-- ===== src/Monitor/Mirror.antt =====
-- The two tables say the same of who watches what, after every operation.
use oragono.Prelude.{
  ℕ, String, ◌≡◌, Bool, true, false, ◌&&◌, Option, none, some, [], ◌∷◌, arith, if◌then◌else◌, ◌==◌,
  nat_eq, string_eq,
}
use oragono.Prelude.GoMap.{GoMap, lookup, has}
use oragono.Monitor.Links.{
  linked, linked-has, linked-delete, linked-ensure, linked-insert, linked-delete_inner,
}
use oragono.Monitor.{
  MonitorManager, inner, ensure, delete_inner, add_folded, remove_folded, forget, remove_all, add,
  remove,
}

-- A session is among the watchers of a name just if the name is among those that it watches.
abbrev pub IsMirrored : MonitorManager → Type 0
IsMirrored manager =
    (s : ℕ) (k : String) → linked manager.watching s k ≡ linked manager.watched_by k s

-- What a session watches when the loop of RemoveAll is over.
linked-forget :
    (w : GoMap String (GoMap ℕ Bool)) (session : ℕ) (names : GoMap String String) (k : String)
    (s : ℕ)
    → linked (forget w session names) k s
      ≡ (if session == s && has names k then false else linked w k s)
unfolding forget lookup
linked-forget w session [] k s = ground arith
linked-forget w session ((j, n) ∷ names) k s = ground (
  arith,
  linked-forget (delete_inner w j session) session names k s,
  linked-delete_inner w j k session s,
)

add_folded-IsMirrored :
    (manager : MonitorManager) (session limit : ℕ) (nick : String) (o : Option String)
    → IsMirrored manager
    → IsMirrored (add_folded manager session nick limit o).0
unfolding add_folded
add_folded-IsMirrored manager session limit nick none mirrored s k = mirrored s k
add_folded-IsMirrored manager session limit nick (some cf) mirrored s k =
    let w = ensure manager.watching session in
    let b = ensure manager.watched_by cf in
    ground (
      arith,
      linked-insert w session s cf k nick,
      linked-insert b cf k session s true,
      linked-ensure manager.watching session s k,
      linked-ensure manager.watched_by cf k s,
      mirrored s k,
    )

remove_folded-IsMirrored :
    (manager : MonitorManager) (session : ℕ) (o : Option String)
    → IsMirrored manager
    → IsMirrored (remove_folded manager session o).0
unfolding remove_folded
remove_folded-IsMirrored manager session none mirrored s k = mirrored s k
remove_folded-IsMirrored manager session (some cf) mirrored s k = ground (
  arith,
  linked-delete_inner manager.watching session s cf k,
  linked-delete_inner manager.watched_by cf k session s,
  mirrored s k,
)

module _ (casefold_name : String → Option String) where
  -- Adding a name to those that a session watches keeps the two tables in agreement, also where the
  -- name is invalid or the session watches too many.
  add-IsMirrored :
      (manager : MonitorManager) (session limit : ℕ) (nick : String)
      → IsMirrored manager
      → IsMirrored (add casefold_name manager session nick limit).0
  unfolding add
  add-IsMirrored manager session limit nick mirrored s k =
      add_folded-IsMirrored manager session limit nick (casefold_name nick) mirrored s k

  -- Removing a name from those that a session watches keeps the two tables in agreement.
  remove-IsMirrored :
      (manager : MonitorManager) (session : ℕ) (nick : String)
      → IsMirrored manager
      → IsMirrored (remove casefold_name manager session nick).0
  unfolding remove
  remove-IsMirrored manager session nick mirrored s k =
      remove_folded-IsMirrored manager session (casefold_name nick) mirrored s k

-- Where the two tables agree: when everything that a session watches is removed, nobody else
-- watches less, the session is among no name's watchers, and the two tables still agree.
remove_all_lem :
    (manager : MonitorManager) (session : ℕ)
    → IsMirrored manager
    → (s : ℕ) (k : String)
    → (linked (remove_all manager session).watching s k
        ≡ (if session == s then false else linked manager.watching s k))
      × (linked (remove_all manager session).watched_by k s
          ≡ linked (remove_all manager session).watching s k)
unfolding remove_all
remove_all_lem manager session mirrored s k = ground (
  arith,
  linked-forget manager.watched_by session (inner manager.watching session) k s,
  linked-delete manager.watching session s k,
  mirrored s k,
  nat_eq.equals_iff session s,
  linked-has manager.watching session k,
)
