-- ===== src/Bans/Dline.antt =====
-- DLineManager of irc/dline.go: the networks that are banned and the timers that end the bans, and the
-- database, as a map from the networks. A timer stands for the call that it will make: the time of creation
-- that the closure holds. The clock is read for the creation, again for the time that is left, and again by
-- the database. Whether a write to the database succeeds is an argument; one that fails changes nothing.
pub mod Expiry
pub mod Check
pub mod Stored
pub mod Restart
use oragono.Prelude.{
  ℕ, zero, suc, ◌+◌, ◌-◌, ◌*◌, ◌/◌, ◌%◌, ◌^◌, ◌≤◌, ◌<◌, min, max, bit_and, bit_or, String, ◌≡◌,
  refl, sym, ap, subst, ◌∙◌, fun_ext, ◌≢◌, ◌↔◌, ◌⊎◌, inl, inr, Bool, true, false, not, ◌&&◌, ◌||◌,
  Option, none, some, List, [], ◌∷◌, ◌++◌, map, reverse, arith, ltb, leb, nat_beq, if◌then◌else◌,
  ltb→lt, lt→ltb, leb→le, nat_beq_iff, nat_beq_refl, Bool-cases, Option-cases, length, get_elem?,
  set, length-append, length-set, get_elem?-set_self, get_elem?-set_ne, get_or, take, drop,
  replicate, take-append-drop, length-take, length-drop, length-replicate, length-map, Eq, ◌==◌,
  ◌!=◌, nat_eq, string_eq, beq_refl, beq_ne, beq→eq, beq→ne,
}
use oragono.Prelude.GoMap.{
  GoMap, lookup, has, insert, delete, distinct, distinct-insert, distinct-delete, lookup-insert,
  lookup-delete, length-insert, length-delete-le, lookup-insert_self,
}
use oragono.Limits.Flatip.{Ip, IpNet, same_bytes, same_bytes_iff, is_ipv4, contains}
use oragono.Bans.Info.{IpBanInfo, StoredBan, Returns, with_ttl, in_force}

abbrev same_net : IpNet → IpNet → Bool
same_net a b = same_bytes a.ip b.ip && a.prefix_len == b.prefix_len

pub same_net_iff : (a b : IpNet) → (same_net a b ≡ true) ↔ (a ≡ b)
same_net_iff a b = ground (arith, same_bytes_iff a.ip b.ip, nat_beq_iff a.prefix_len b.prefix_len)

instance abbrev pub net_eq : Eq IpNet
net_eq = record { equals = same_net; equals_iff = same_net_iff }

pub record DLineManager : Type 0 where
  pub networks : GoMap IpNet IpBanInfo
  pub expiration_timers : GoMap IpNet ℕ
  pub store : GoMap IpNet StoredBan

pub data DlineError : Type 0 where
  no_existing_ban store_failed : DlineError

unfoldable pub cancel_timer : DLineManager → IpNet → DLineManager
cancel_timer dm net = record dm { expiration_timers = delete dm.expiration_timers net }

-- The new timer, unless the ban is permanent.
unfoldable pub set_timer : DLineManager → IpNet → IpBanInfo → DLineManager
set_timer dm net info =
    if info.duration == 0
    then dm
    else record dm { expiration_timers = insert dm.expiration_timers net info.time_created }

unfoldable pub add_network_internal : DLineManager → IpNet → IpBanInfo → ℕ → DLineManager
unfolding cancel_timer set_timer in_force
add_network_internal dm net info now =
    if in_force info now
    then set_timer (cancel_timer (record dm { networks = insert dm.networks net info }) net) net
        info
    else dm

-- The function of a timer, for a ban of `net` that was created at `created`.
unfoldable pub process_expiration : DLineManager → IpNet → ℕ → DLineManager
process_expiration dm net created = elim (lookup dm.networks net) [
  | none ↦ dm
  | some info ↦
      if info.time_created == created
      then record dm {
        networks = delete dm.networks net;
        expiration_timers = delete dm.expiration_timers net;
      }
      else dm
]

-- `stored` says that the ban can be encoded and the transaction succeeds.
unfoldable pub persist_dline :
    DLineManager → IpNet → IpBanInfo → ℕ → Bool → DLineManager × Option DlineError
unfolding with_ttl
persist_dline dm net info written stored =
    if stored
    then (record dm { store = insert dm.store net (with_ttl info written) }, none)
    else (dm, some store_failed)

unfoldable pub unpersist_dline : DLineManager → IpNet → Bool → DLineManager × Option DlineError
unpersist_dline dm net deleted =
    if deleted then (record dm { store = delete dm.store net }, none) else (dm, some store_failed)

unfoldable pub add_network :
    DLineManager
    → IpNet
    → ℕ
    → String
    → String
    → String
    → ℕ
    → ℕ
    → ℕ
    → Bool
    → DLineManager × Option DlineError
unfolding add_network_internal persist_dline
add_network dm net duration reason oper_reason oper_name created now written stored =
    let info : IpBanInfo = record {
      reason = reason;
      oper_reason = oper_reason;
      oper_name = oper_name;
      time_created = created;
      duration = duration;
    } in
    persist_dline (add_network_internal dm net info now) net info written stored

unfoldable pub remove_network : DLineManager → IpNet → Bool → DLineManager × Option DlineError
unfolding cancel_timer unpersist_dline
remove_network dm net deleted =
    let gone = cancel_timer (record dm { networks = delete dm.networks net }) net in
    if has dm.networks net then unpersist_dline gone net deleted else (gone, some no_existing_ban)

-- IPv6loopback
abbrev ipv6_loopback : Ip
ipv6_loopback = 0 ∷ 0 ∷ 0 ∷ 0 ∷ 0 ∷ 0 ∷ 0 ∷ 0 ∷ 0 ∷ 0 ∷ 0 ∷ 0 ∷ 0 ∷ 0 ∷ 0 ∷ 1 ∷ []

unfoldable pub is_loopback : Ip → Bool
unfolding is_ipv4
is_loopback ip = if is_ipv4 ip then get_or ip 12 0 == 127 else same_bytes ip ipv6_loopback

-- for flatnet, info := range dm.networks
unfoldable pub find_network : GoMap IpNet IpBanInfo → Ip → Option IpBanInfo
find_network [] addr = none
find_network ((net, info) ∷ m) addr =
    let rest = find_network m addr in if contains net addr then some info else rest

unfoldable pub check_ip : DLineManager → Ip → Option IpBanInfo
unfolding find_network is_loopback
check_ip dm addr = if is_loopback addr then none else find_network dm.networks addr

-- The loop of loadFromDatastore over the keys and values that can be read and that the database returns;
-- `server` is its name.
unfoldable pub load_entries :
    Returns → DLineManager → GoMap IpNet StoredBan → String → ℕ → DLineManager
unfolding add_network_internal
load_entries returns dm [] server now = dm
load_entries returns dm ((net, s) ∷ stored) server now =
    let info = s.info in
    let named = if info.oper_name == "" then record info { oper_name = server } else info in
    load_entries returns (if returns s now then add_network_internal dm net named now else dm)
      stored server now

-- NewDLineManager
unfoldable pub new_dline_manager : Returns → GoMap IpNet StoredBan → String → ℕ → DLineManager
unfolding load_entries
new_dline_manager returns stored server now =
    load_entries returns (record { networks = []; expiration_timers = []; store = stored }) stored
      server now
