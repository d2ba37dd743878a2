-- ===== src/Bans/Dline/Stored.antt =====
-- What the database holds of the bans, and which of them a start takes from it.
use oragono.Prelude.{
  ℕ, ◌+◌, ◌≤◌, ◌<◌, String, ◌≡◌, refl, sym, ap, ◌∙◌, ◌⊎◌, inl, inr, Bool, true, not, ◌&&◌, Option,
  none, some, [], ◌∷◌, arith, leb, if◌then◌else◌, Bool-cases, ◌==◌, nat_eq, string_eq,
}
use oragono.Prelude.GoMap.{GoMap, lookup, distinct, lookup-insert, lookup-delete}
use oragono.Limits.Flatip.{IpNet}
use oragono.Bans.Info.{IpBanInfo, StoredBan, Returns, with_ttl, has_time_left, in_force}
use oragono.Bans.Dline.{
  DLineManager, net_eq, same_net_iff, cancel_timer, set_timer, add_network_internal,
  process_expiration, persist_dline, unpersist_dline, add_network, remove_network, load_entries,
  new_dline_manager,
}

-- A ban without an operator gets the name of the server when it is loaded.
abbrev pub named : String → IpBanInfo → IpBanInfo
named server info = if info.oper_name == "" then record info { oper_name = server } else info

pub in_force-named :
    (server : String) (info : IpBanInfo) (now : ℕ)
    → in_force (named server info) now ≡ in_force info now
unfolding in_force has_time_left
in_force-named server info now = ground arith

named-named :
    (server : String) (info : IpBanInfo) → named server (named server info) ≡ named server info
named-named server info = ground arith

-- The ban that a loaded entry becomes, or the one that was there.
abbrev pub loaded_over :
    Returns → String → ℕ → Option StoredBan → Option IpBanInfo → Option IpBanInfo
loaded_over returns server now none there = there
loaded_over returns server now (some s) there =
    if returns s now && in_force s.info now then some (named server s.info) else there

add_network_internal-networks :
    (dm : DLineManager) (net : IpNet) (info : IpBanInfo) (now : ℕ) (k : IpNet)
    → lookup (add_network_internal dm net info now).networks k
      ≡ (if net == k && in_force info now then some info else lookup dm.networks k)
unfolding add_network_internal cancel_timer set_timer
add_network_internal-networks dm net info now k =
    ground (arith, lookup-insert dm.networks net k info)

load_entries-networks :
    (returns : Returns) (dm : DLineManager) (stored : GoMap IpNet StoredBan) (server : String)
    (now : ℕ) (k : IpNet)
    → distinct stored ≡ true
    → lookup (load_entries returns dm stored server now).networks k
      ≡ loaded_over returns server now (lookup stored k) (lookup dm.networks k)
unfolding load_entries lookup distinct
load_entries-networks returns dm [] server now k d = refl
load_entries-networks returns dm ((net, s) ∷ stored) server now k d =
    let next = add_network_internal dm net (named server s.info) now in
    ground (
      arith,
      load_entries-networks returns (if returns s now then next else dm) stored server now k
          (ground (arith, d)),
      add_network_internal-networks dm net (named server s.info) now k,
      in_force-named server s.info now,
      same_net_iff net k,
      d,
    )

-- The manager after a start has exactly those bans that the database returns and whose time is not over,
-- each with an operator's name.
pub new_dline_manager-networks :
    (returns : Returns) (stored : GoMap IpNet StoredBan) (server : String) (now : ℕ) (net : IpNet)
    → distinct stored ≡ true
    → lookup (new_dline_manager returns stored server now).networks net
      ≡ loaded_over returns server now (lookup stored net) none
unfolding new_dline_manager lookup
new_dline_manager-networks returns stored server now net d =
    load_entries-networks returns (record { networks = []; expiration_timers = []; store = stored })
      stored server now net d

-- An entry expires, if it does, only with its ban's time or after it.
abbrev pub outlasts : StoredBan → Bool
outlasts s = elim s.expires [
  | none ↦ true
  | some t ↦ not (s.info.duration == 0) && leb (s.info.time_created + s.info.duration) t
]

with_ttl-outlasts :
    (info : IpBanInfo) (written : ℕ)
    → info.time_created ≤ written
    → outlasts (with_ttl info written) ≡ true
unfolding with_ttl
with_ttl-outlasts info written later = ground (arith, later)

-- Every ban is in the database, but for the name that a start gives it, and outlasts its time there.
unfoldable pub IsStored : String → DLineManager → Type 0
IsStored server dm =
    (net : IpNet) (info : IpBanInfo)
    → lookup dm.networks net ≡ some info
    → (s : StoredBan) × (lookup dm.store net ≡ some s)
      × (named server s.info ≡ named server info)
      × (outlasts s ≡ true)

pub add_network-IsStored :
    (server : String) (dm : DLineManager) (net : IpNet) (duration : ℕ)
    (reason oper_reason oper_name : String) (created now written : ℕ)
    → (duration ≡ 0) ⊎ (now < created + duration)
    → created ≤ written
    → IsStored server dm
    → IsStored server
        (add_network dm net duration reason oper_reason oper_name created now written true).0
unfolding IsStored add_network add_network_internal persist_dline cancel_timer set_timer in_force
    has_time_left
add_network-IsStored server dm net duration reason oper_reason oper_name created now written fresh
      later held k i p =
    let info : IpBanInfo = record {
      reason = reason;
      oper_reason = oper_reason;
      oper_name = oper_name;
      time_created = created;
      duration = duration;
    } in
    let s = with_ttl info written in
    elim (Bool-cases (net == k)) [
      | inl e ↦ (
        s,
        ground (arith, lookup-insert dm.store net k s, e),
        unfold with_ttl in ground (arith, fresh, p, lookup-insert dm.networks net k info, e),
        with_ttl-outlasts info written later,
      )
      | inr e ↦
          (let (t, q, r, kept) =
              held k i (ground (arith, fresh, p, lookup-insert dm.networks net k info, e)) in
            (t, ground (arith, lookup-insert dm.store net k s, e, q), r, kept))
    ]

pub remove_network-IsStored :
    (server : String) (dm : DLineManager) (net : IpNet) (deleted : Bool)
    → IsStored server dm
    → IsStored server (remove_network dm net deleted).0
unfolding IsStored remove_network cancel_timer unpersist_dline
remove_network-IsStored server dm net deleted held k i p =
    let (s, q, r, kept) = held k i (ground (arith, p, lookup-delete dm.networks net k)) in
    (
      s,
      ground (arith, q, p, lookup-delete dm.networks net k, lookup-delete dm.store net k),
      r,
      kept,
    )

pub process_expiration-IsStored :
    (server : String) (dm : DLineManager) (net : IpNet) (created : ℕ)
    → IsStored server dm
    → IsStored server (process_expiration dm net created)
unfolding IsStored process_expiration
process_expiration-IsStored server dm net created held k i p =
    let (s, q, r, kept) = held k i (ground (arith, p, lookup-delete dm.networks net k)) in
    (s, ground (arith, q), r, kept)

load_entries-store :
    (returns : Returns) (dm : DLineManager) (stored : GoMap IpNet StoredBan) (server : String)
    (now : ℕ)
    → (load_entries returns dm stored server now).store ≡ dm.store
unfolding load_entries add_network_internal cancel_timer set_timer
load_entries-store returns dm [] server now = refl
load_entries-store returns dm ((net, s) ∷ stored) server now =
    let next = add_network_internal dm net (named server s.info) now in
    ground
      (arith, load_entries-store returns (if returns s now then next else dm) stored server now)

pub new_dline_manager-store :
    (returns : Returns) (server : String) (stored : GoMap IpNet StoredBan) (now : ℕ)
    → (new_dline_manager returns stored server now).store ≡ stored
unfolding new_dline_manager
new_dline_manager-store returns server stored now =
    load_entries-store returns (record { networks = []; expiration_timers = []; store = stored })
      stored server now

loaded_from :
    (returns : Returns) (server : String) (now : ℕ) (o : Option StoredBan) (info : IpBanInfo)
    → loaded_over returns server now o none ≡ some info
    → (s : StoredBan) × (o ≡ some s) × (named server s.info ≡ named server info)
loaded_from returns server now none info p = ground (arith, p)
loaded_from returns server now (some s) info p =
    (s, refl, ground (arith, p, named-named server s.info))

pub new_dline_manager-IsStored :
    (returns : Returns) (server : String) (stored : GoMap IpNet StoredBan) (now : ℕ)
    → distinct stored ≡ true
    → ((net : IpNet) (s : StoredBan) → lookup stored net ≡ some s → outlasts s ≡ true)
    → IsStored server (new_dline_manager returns stored server now)
unfolding IsStored
new_dline_manager-IsStored returns server stored now d lasting k i p =
    let (s, q, r) =
      loaded_from returns server now (lookup stored k) i
        (sym (new_dline_manager-networks returns stored server now k d) ∙ p) in
    (
      s,
      ap (λ m. lookup m k) (new_dline_manager-store returns server stored now) ∙ q,
      r,
      lasting k s q,
    )
