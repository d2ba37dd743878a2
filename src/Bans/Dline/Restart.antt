-- ===== src/Bans/Dline/Restart.antt =====
-- Which bans are there again when the server is started again.
use oragono.Prelude.{
  ℕ, ◌+◌, ◌≤◌, ◌<◌, String, ◌≡◌, refl, sym, ap, ◌∙◌, ◌⊎◌, Bool, true, Option, none, some, arith,
  nat_eq, string_eq,
}
use oragono.Prelude.GoMap.{GoMap, lookup, distinct, distinct-insert, distinct-delete}
use oragono.Limits.Flatip.{IpNet}
use oragono.Bans.Info.{IpBanInfo, StoredBan, Returns, with_ttl, has_time_left, in_force}
use oragono.Bans.Dline.Stored.{
  named, in_force-named, loaded_over, new_dline_manager-networks, outlasts, IsStored,
  add_network-IsStored, remove_network-IsStored, process_expiration-IsStored,
  new_dline_manager-IsStored, new_dline_manager-store,
}
use oragono.Bans.Dline.{
  DLineManager, net_eq, cancel_timer, set_timer, add_network_internal, process_expiration,
  persist_dline, unpersist_dline, add_network, remove_network, new_dline_manager,
}

-- The managers that come about: by a start from a database whose entries outlast their bans, and by bans
-- whose time is not over when they are added and whose write succeeds, after their creation; by removals,
-- whether or not the database deletes; by expirations; and by further starts.
pub data Reachable (server : String) : DLineManager → Type 0 where
  started :
      (returns : Returns) (stored : GoMap IpNet StoredBan) (now : ℕ)
      → distinct stored ≡ true
      → ((net : IpNet) (s : StoredBan) → lookup stored net ≡ some s → outlasts s ≡ true)
      → Reachable server (new_dline_manager returns stored server now)
  added :
      {dm : DLineManager} (net : IpNet) (duration : ℕ) (reason oper_reason oper_name : String)
      (created now written : ℕ)
      → (duration ≡ 0) ⊎ (now < created + duration)
      → created ≤ written
      → Reachable server dm
      → Reachable server
          (add_network dm net duration reason oper_reason oper_name created now written true).0
  removed :
      {dm : DLineManager} (net : IpNet) (deleted : Bool)
      → Reachable server dm
      → Reachable server (remove_network dm net deleted).0
  expired :
      {dm : DLineManager} (net : IpNet) (created : ℕ)
      → Reachable server dm
      → Reachable server (process_expiration dm net created)

reachable-IsStored :
    {server : String} {dm : DLineManager} → Reachable server dm → IsStored server dm
reachable-IsStored {server} (started returns stored now d lasting) =
    new_dline_manager-IsStored returns server stored now d lasting
reachable-IsStored {server}
      (added {dm} net duration reason oper_reason oper_name created now written fresh later r) =
    add_network-IsStored server dm net duration reason oper_reason oper_name created now written
      fresh later (reachable-IsStored r)
reachable-IsStored {server} (removed {dm} net deleted r) =
    remove_network-IsStored server dm net deleted (reachable-IsStored r)
reachable-IsStored {server} (expired {dm} net created r) =
    process_expiration-IsStored server dm net created (reachable-IsStored r)

reachable-distinct :
    {server : String} {dm : DLineManager} → Reachable server dm → distinct dm.store ≡ true
unfolding process_expiration remove_network cancel_timer unpersist_dline add_network persist_dline
    add_network_internal set_timer
reachable-distinct {server} (started returns stored now d lasting) =
    ap distinct (new_dline_manager-store returns server stored now) ∙ d
reachable-distinct
      (added {dm} net duration reason oper_reason oper_name created now written fresh later r) =
    let info : IpBanInfo = record {
      reason = reason;
      oper_reason = oper_reason;
      oper_name = oper_name;
      time_created = created;
      duration = duration;
    } in
    ground (arith, distinct-insert dm.store net (with_ttl info written) (reachable-distinct r))
reachable-distinct (removed {dm} net deleted r) =
    ground (arith, distinct-delete dm.store net (reachable-distinct r), reachable-distinct r)
reachable-distinct (expired {dm} net created r) = ground (arith, reachable-distinct r)

-- What the database promises: it returns an entry that does not expire, and one that expires more than
-- `slack` later.
pub record Keeps (returns : Returns) (slack : ℕ) : Type 0 where
  pub permanent : (s : StoredBan) (now : ℕ) → s.expires ≡ none → returns s now ≡ true
  pub temporary :
      (s : StoredBan) (now t : ℕ) → s.expires ≡ some t → now + slack < t → returns s now ≡ true

returned :
    (returns : Returns) (slack : ℕ) (s : StoredBan) (now : ℕ) (o : Option ℕ)
    → Keeps returns slack
    → s.expires ≡ o
    → outlasts s ≡ true
    → in_force s.info (now + slack) ≡ true
    → returns s now ≡ true
unfolding in_force has_time_left
returned returns slack s now none keeps q lasting holds = keeps.permanent s now q
returned returns slack s now (some t) keeps q lasting holds =
    keeps.temporary s now t q (ground (arith, q, lasting, holds))

in_force-earlier :
    (info : IpBanInfo) (now slack : ℕ)
    → in_force info (now + slack) ≡ true
    → in_force info now ≡ true
unfolding in_force has_time_left
in_force-earlier info now slack h = ground (arith, h)

restored_ban :
    (returns : Returns) (slack : ℕ) (server : String) (now : ℕ) (o : Option StoredBan)
    (s : StoredBan) (info : IpBanInfo)
    → Keeps returns slack
    → o ≡ some s
    → named server s.info ≡ named server info
    → outlasts s ≡ true
    → in_force info (now + slack) ≡ true
    → loaded_over returns server now o none ≡ some (named server info)
restored_ban returns slack server now o s info keeps q r lasting holds =
    let later : (in_force s.info (now + slack) ≡ true) =
      sym (in_force-named server s.info (now + slack))
      ∙ ap (λ i. in_force i (now + slack)) r
      ∙ in_force-named server info (now + slack)
      ∙ holds in
    ground (
      arith,
      q,
      r,
      in_force-earlier s.info now slack later,
      returned returns slack s now s.expires keeps refl lasting later,
    )

-- Let the database return every entry that does not expire, or expires more than `slack` later; let the
-- server start from entries that do not expire before their bans, and each later ban be added before its
-- time is over, with a write that succeeds after its creation and gives it its duration as the time to
-- live. Whatever bans were added, removed (the database may fail to delete them) and ended before: a ban
-- that is there, and is permanent or lasts for more than `slack` longer, is there again when the server is
-- started from its database, with its times and reasons, and with the name of the server if it had no
-- operator.
pub restart-networks :
    {server : String} {dm : DLineManager} (returns : Returns) (slack : ℕ) (net : IpNet)
    (info : IpBanInfo) (now : ℕ)
    → Keeps returns slack
    → Reachable server dm
    → lookup dm.networks net ≡ some info
    → in_force info (now + slack) ≡ true
    → lookup (new_dline_manager returns dm.store server now).networks net ≡ some (named server info)
unfolding IsStored
restart-networks {server} {dm} returns slack net info now keeps r p holds =
    let (s, q, same, lasting) = reachable-IsStored r net info p in
    new_dline_manager-networks returns dm.store server now net (reachable-distinct r)
    ∙ restored_ban returns slack server now (lookup dm.store net) s info keeps q same lasting holds
