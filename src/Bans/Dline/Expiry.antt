-- ===== src/Bans/Dline/Expiry.antt =====
-- The timers agree with the bans, and a timer ends no ban but its own.
use oragono.Prelude.{
  ℕ, String, ◌≡◌, refl, Bool, true, false, ◌&&◌, Option, none, some, [], ◌∷◌, arith, if◌then◌else◌,
  ◌==◌, nat_eq, string_eq,
}
use oragono.Prelude.GoMap.{GoMap, lookup, delete, lookup-insert, lookup-delete}
use oragono.Limits.Flatip.{IpNet}
use oragono.Bans.Info.{IpBanInfo, StoredBan, Returns}
use oragono.Bans.Dline.{
  DLineManager, net_eq, same_net_iff, cancel_timer, set_timer, add_network_internal,
  process_expiration, persist_dline, unpersist_dline, add_network, remove_network, load_entries,
  new_dline_manager,
}

-- The timer that a ban should have.
timer_of : Option IpBanInfo → Option ℕ
timer_of none = none
timer_of (some info) = if info.duration == 0 then none else some info.time_created

-- Each temporary ban has its own timer, and nothing else has one.
pub IsTimed : DLineManager → Type 0
IsTimed dm = (net : IpNet) → lookup dm.expiration_timers net ≡ timer_of (lookup dm.networks net)

add_network_internal-IsTimed :
    (dm : DLineManager) (net : IpNet) (info : IpBanInfo) (now : ℕ)
    → IsTimed dm
    → IsTimed (add_network_internal dm net info now)
unfolding IsTimed timer_of add_network_internal cancel_timer set_timer
add_network_internal-IsTimed dm net info now timed other = ground (
  arith,
  timed other,
  lookup-insert dm.networks net other info,
  lookup-delete dm.expiration_timers net other,
  lookup-insert (delete dm.expiration_timers net) net other info.time_created,
)

process_expiration-IsTimed :
    (dm : DLineManager) (net : IpNet) (created : ℕ)
    → IsTimed dm
    → IsTimed (process_expiration dm net created)
unfolding IsTimed timer_of process_expiration
process_expiration-IsTimed dm net created timed other = ground (
  arith,
  timed other,
  lookup-delete dm.networks net other,
  lookup-delete dm.expiration_timers net other,
)

remove_network-IsTimed :
    (dm : DLineManager) (net : IpNet) (deleted : Bool)
    → IsTimed dm
    → IsTimed (remove_network dm net deleted).0
unfolding IsTimed timer_of remove_network cancel_timer unpersist_dline
remove_network-IsTimed dm net deleted timed other = ground (
  arith,
  timed other,
  lookup-delete dm.networks net other,
  lookup-delete dm.expiration_timers net other,
)

either_IsTimed :
    (b : Bool) (dm dm' : DLineManager) → IsTimed dm → IsTimed dm' → IsTimed (if b then dm else dm')
either_IsTimed true dm dm' timed timed' = timed
either_IsTimed false dm dm' timed timed' = timed'

load_entries-IsTimed :
    (returns : Returns) (dm : DLineManager) (stored : GoMap IpNet StoredBan) (server : String)
    (now : ℕ)
    → IsTimed dm
    → IsTimed (load_entries returns dm stored server now)
unfolding load_entries
load_entries-IsTimed returns dm [] server now timed = timed
load_entries-IsTimed returns dm ((net, s) ∷ stored) server now timed =
    let info = s.info in
    let named = if info.oper_name == "" then record info { oper_name = server } else info in
    let next = add_network_internal dm net named now in
    let next_timed = add_network_internal-IsTimed dm net named now timed in
    load_entries-IsTimed returns (if returns s now then next else dm) stored server now
      (either_IsTimed (returns s now) next dm next_timed timed)

-- What the manager can do from one lock to the next. A timer that is stopped may have started already, so
-- any expiration can happen, and a write to the database may fail.
data Step (server : String) : DLineManager → DLineManager → Type 0 where
  starts :
      {dm : DLineManager} (returns : Returns) (stored : GoMap IpNet StoredBan) (now : ℕ)
      → Step server dm (new_dline_manager returns stored server now)
  adds :
      {dm : DLineManager} (net : IpNet) (duration : ℕ) (reason oper_reason oper_name : String)
      (created now written : ℕ) (stored : Bool)
      → Step server dm
          (add_network dm net duration reason oper_reason oper_name created now written stored).0
  removes :
      {dm : DLineManager} (net : IpNet) (deleted : Bool)
      → Step server dm (remove_network dm net deleted).0
  expires :
      {dm : DLineManager} (net : IpNet) (created : ℕ)
      → Step server dm (process_expiration dm net created)

-- A restart, AddNetwork, RemoveNetwork and every expiration, late ones too, keep the timers and the bans in
-- agreement: each temporary ban has the timer of its own creation, and no other network has a timer.
Step-IsTimed :
    {server : String} {dm dm' : DLineManager} → Step server dm dm' → IsTimed dm → IsTimed dm'
unfolding new_dline_manager add_network persist_dline
Step-IsTimed {server} (starts returns stored now) timed =
    load_entries-IsTimed returns (record { networks = []; expiration_timers = []; store = stored })
      stored server now (unfold IsTimed timer_of lookup in λ net. refl)
Step-IsTimed {dm = dm} (adds net duration reason oper_reason oper_name created now written true)
      timed =
    let info : IpBanInfo = record {
      reason = reason;
      oper_reason = oper_reason;
      oper_name = oper_name;
      time_created = created;
      duration = duration;
    } in
    unfold IsTimed in add_network_internal-IsTimed dm net info now timed
Step-IsTimed {dm = dm} (adds net duration reason oper_reason oper_name created now written false)
      timed =
    let info : IpBanInfo = record {
      reason = reason;
      oper_reason = oper_reason;
      oper_name = oper_name;
      time_created = created;
      duration = duration;
    } in
    unfold IsTimed in add_network_internal-IsTimed dm net info now timed
Step-IsTimed {dm = dm} (removes net deleted) timed = remove_network-IsTimed dm net deleted timed
Step-IsTimed {dm = dm} (expires net created) timed = process_expiration-IsTimed dm net created timed

abbrev pub created_at : Option IpBanInfo → ℕ → Bool
created_at none t = false
created_at (some info) t = info.time_created == t

-- The function of a timer removes the ban of its network if that ban has the timer's time of creation; a ban
-- that was renewed at another time stays, and so do all other bans.
pub process_expiration_lem :
    (dm : DLineManager) (net other : IpNet) (created : ℕ)
    → lookup (process_expiration dm net created).networks other ≡ (
        if net == other && created_at (lookup dm.networks net) created
        then none
        else lookup dm.networks other)
unfolding process_expiration
process_expiration_lem dm net other created =
    ground (arith, lookup-delete dm.networks net other, same_net_iff net other)
