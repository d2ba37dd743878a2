-- ===== src/Bans/Dline/Check.antt =====
-- Who is banned by address, and for how long a ban holds.
use oragono.Prelude.{
  ℕ, ◌+◌, ◌<◌, String, ◌≡◌, ◌≢◌, ◌↔◌, ◌⊎◌, inl, inr, Bool, true, false, none, some, [], ◌∷◌, arith,
  if◌then◌else◌, nat_beq_iff, nat_beq_refl, Bool-cases, ◌==◌, nat_eq, string_eq,
}
use oragono.Prelude.GoMap.{GoMap, lookup, lookup-insert, lookup-delete}
use oragono.Limits.Flatip.{Ip, IpNet, contains}
use oragono.Bans.Info.{IpBanInfo, has_time_left, in_force, is_some}
use oragono.Bans.Dline.Expiry.{process_expiration_lem}
use oragono.Bans.Dline.{
  DLineManager, net_eq, same_net_iff, is_loopback, find_network, check_ip, add_network_internal,
  cancel_timer, set_timer, persist_dline, unpersist_dline, add_network, remove_network,
  process_expiration,
}

-- Some network of the map contains the address.
abbrev pub Covers : GoMap IpNet IpBanInfo → Ip → Type 0
Covers m addr =
    (net : IpNet) × (info : IpBanInfo) × (lookup m net ≡ some info) × (contains net addr ≡ true)

found-Covers :
    (m : GoMap IpNet IpBanInfo) (addr : Ip) → is_some (find_network m addr) ≡ true → Covers m addr
unfolding find_network lookup
found-Covers [] addr h = ground (arith, h)
found-Covers ((net, info) ∷ m) addr h = elim (Bool-cases (contains net addr)) [
  | inl e ↦ (net, info, ground (arith, same_net_iff net net), e)
  | inr e ↦
      (let (k, i, p, q) = found-Covers m addr (ground (arith, h, e)) in
        (k, i, ground (arith, p, q, e, same_net_iff net k), q))
]

Covers-found :
    (m : GoMap IpNet IpBanInfo) (addr : Ip) → Covers m addr → is_some (find_network m addr) ≡ true
unfolding find_network lookup
Covers-found [] addr (net, info, p, q) = ground (arith, p)
Covers-found ((j, i) ∷ m) addr (net, info, p, q) = elim (Bool-cases (j == net)) [
  | inl e ↦ ground (arith, same_net_iff j net, e, q)
  | inr e ↦ ground (arith, Covers-found m addr (net, info, ground (arith, p, e), q))
]

-- An address is banned exactly if it is no loopback address and a network that is banned contains it.
pub check_ip_iff :
    (dm : DLineManager) (addr : Ip)
    → (is_some (check_ip dm addr) ≡ true) ↔ ((is_loopback addr ≡ false) × Covers dm.networks addr)
unfolding check_ip
check_ip_iff dm addr = (
  λ h. (ground (arith, h), found-Covers dm.networks addr (ground (arith, h))),
  λ (outside, covered). ground (arith, outside, Covers-found dm.networks addr covered),
)

uncovered :
    (dm : DLineManager) (addr : Ip)
    → ((net : IpNet) (info : IpBanInfo)
        → lookup dm.networks net ≡ some info
        → contains net addr ≡ true
        → ⊥)
    → is_some (check_ip dm addr) ≡ false
uncovered dm addr bare = elim (Bool-cases (is_some (check_ip dm addr))) [
  | inl e ↦
      (let (outside, (net, info, p, q)) = (check_ip_iff dm addr).0 e in absurd (bare net info p q))
  | inr e ↦ e
]

covered :
    (dm : DLineManager) (addr : Ip) (net : IpNet) (info : IpBanInfo)
    → is_loopback addr ≡ false
    → lookup dm.networks net ≡ some info
    → contains net addr ≡ true
    → is_some (check_ip dm addr) ≡ true
covered dm addr net info outside p q = (check_ip_iff dm addr).1 (outside, (net, info, p, q))

still_bare :
    (dm : DLineManager) (addr : Ip) (m : GoMap IpNet IpBanInfo) (net : IpNet)
    → ((k : IpNet) (i : IpBanInfo) → lookup m k ≡ some i → contains k addr ≡ true → k ≡ net)
    → ((k : IpNet) → lookup dm.networks k ≡ (if net == k then none else lookup m k))
    → is_some (check_ip dm addr) ≡ false
still_bare dm addr m net only gone = uncovered dm addr λ k i p q. ground (
  arith,
  gone k,
  p,
  same_net_iff net k,
  only k i (ground (arith, gone k, p, same_net_iff net k)) q,
)

module _ (dm : DLineManager) (net : IpNet) (addr : Ip) (duration : ℕ)
    (reason oper_reason oper_name : String) (created now written : ℕ) (stored : Bool) where
  abbrev banned_for : DLineManager
  banned_for =
      (add_network dm net duration reason oper_reason oper_name created now written stored).0

  abbrev new_ban : IpBanInfo
  new_ban = record {
    reason = reason;
    oper_reason = oper_reason;
    oper_name = oper_name;
    time_created = created;
    duration = duration;
  }

  banned_for_networks :
      (duration ≡ 0) ⊎ (now < created + duration)
      → (k : IpNet)
      → lookup banned_for.networks k ≡ (if net == k then some new_ban else lookup dm.networks k)
  unfolding add_network add_network_internal persist_dline cancel_timer set_timer in_force
      has_time_left
  banned_for_networks fresh k = ground (arith, fresh, lookup-insert dm.networks net k new_ban)

  remove_network-networks :
      (d : DLineManager) (deleted : Bool) (k : IpNet)
      → lookup (remove_network d net deleted).0.networks k
        ≡ (if net == k then none else lookup d.networks k)
  unfolding remove_network cancel_timer unpersist_dline
  remove_network-networks d deleted k = ground (arith, lookup-delete d.networks net k)

  -- An address outside the loopback network, of a network that is banned for a time that is not over, and of
  -- no other banned network: it is banned, it stays banned when a timer of another creation of that ban runs
  -- late, and the end of the ban's own timer, or RemoveNetwork, ends that, whether or not the writes to the
  -- database succeed.
  pub ban_lifecycle :
      (other : ℕ) (deleted : Bool)
      → (duration ≡ 0) ⊎ (now < created + duration)
      → is_loopback addr ≡ false
      → contains net addr ≡ true
      → other ≢ created
      → ((k : IpNet) (i : IpBanInfo)
          → lookup dm.networks k ≡ some i
          → contains k addr ≡ true
          → k ≡ net)
      → let dm' =
          (add_network dm net duration reason oper_reason oper_name created now written stored).0 in
        (is_some (check_ip dm' addr) ≡ true)
        × (is_some (check_ip (process_expiration dm' net other) addr) ≡ true)
        × (is_some (check_ip (process_expiration dm' net created) addr) ≡ false)
        × (is_some (check_ip (remove_network dm' net deleted).0 addr) ≡ false)
  ban_lifecycle other deleted fresh outside inside differs only =
      let at = banned_for_networks fresh in
      let own : (lookup banned_for.networks net ≡ some new_ban) =
        ground (arith, at net, same_net_iff net net) in
      (
        covered banned_for addr net new_ban outside own inside,
        covered (process_expiration banned_for net other) addr net new_ban outside
            (ground (
              arith,
              process_expiration_lem banned_for net net other,
              own,
              differs,
              nat_beq_iff created other,
            ))
            inside,
        still_bare (process_expiration banned_for net created) addr dm.networks net only λ k.
            ground (
              arith,
              process_expiration_lem banned_for net k created,
              own,
              at k,
              same_net_iff net k,
              nat_beq_refl created,
            ),
        still_bare (remove_network banned_for net deleted).0 addr dm.networks net only
            λ k. ground (arith, remove_network-networks banned_for deleted k, at k),
      )
