-- ===== src/Channel/Registration/Ownership.antt =====
-- A registered channel has one founder, and only those entitled to it change who that is or what
-- statuses the accounts have.
use oragono.Prelude.{
  String, ◌≡◌, refl, ◌≢◌, ◌⊎◌, inl, inr, Bool, true, false, not, ◌&&◌, Option, none, some, arith,
  if◌then◌else◌, Bool-cases, ◌==◌, ◌!=◌, nat_eq, string_eq, beq_refl,
}
use oragono.Prelude.GoMap.{lookup, delete, lookup-insert, lookup-delete}
use oragono.Modes.Letters.{ModeOp, add, list, remove, ModeChange, channel_founder}
use oragono.Modes.Privileges.{has_privs_over}
use oragono.Channel.State.{Channel, persistent_mode}
use oragono.Channel.Registration.{
  set_unregistered, transfer, accept_transfer, AcceptError, process_account_to_umode_change,
  may_change_umode, umode_change, mode_after, is_list, is_removal,
}

-- A transfer of a registered channel by one with privileges takes effect at once: the new founder has
-- +q and the old one, if he is another, has no status left. Any other transfer only records the offer,
-- and offering the channel to its founder withdraws the offer.
transfer_lem :
    (ch : Channel) (target : String) (has_privs : Bool)
    → ch.registered_founder ≢ ""
    → let (ch', status) = transfer ch (some target) has_privs in
      (ch'.registered_founder ≡ (if has_privs then target else ch.registered_founder))
      × (ch'.transfer_pending_to
          ≡ (if has_privs then "" else if ch.registered_founder == target then "" else target))
      × ((account : String)
          → lookup ch'.account_to_umode account ≡ (
              if not has_privs
              then lookup ch.account_to_umode account
              else if target == account
              then some channel_founder
              else if ch.registered_founder == account
              then none
              else lookup ch.account_to_umode account))
unfolding transfer
transfer_lem ch target has_privs registered = (
  ground (arith, string_eq.equals_iff ch.registered_founder ""),
  ground (arith, string_eq.equals_iff ch.registered_founder ""),
  λ account. ground (
    arith,
    string_eq.equals_iff ch.registered_founder "",
    lookup-insert (delete ch.account_to_umode ch.registered_founder) target account channel_founder,
    lookup-delete ch.account_to_umode ch.registered_founder account,
  ),
)

abbrev pub succeeds : Option AcceptError → Bool
succeeds none = true
succeeds (some e) = false

-- Accepting succeeds exactly for the account to which the channel is offered. This account is then the
-- founder and has +q, the old founder, if he is another, has no status left, and the offer is gone;
-- otherwise these stay as they are.
accept_transfer_lem :
    (ch : Channel) (account j : String)
    → let (ch', failure) = accept_transfer ch account in
      let accepted = account != "" && account == ch.transfer_pending_to in
      (succeeds failure ≡ accepted)
      × (ch'.registered_founder ≡ (if accepted then account else ch.registered_founder))
      × (ch'.transfer_pending_to ≡ (if accepted then "" else ch.transfer_pending_to))
      × (lookup ch'.account_to_umode j ≡ (
          if not accepted
          then lookup ch.account_to_umode j
          else if account == j
          then some channel_founder
          else if ch.registered_founder == j
          then none
          else lookup ch.account_to_umode j))
unfolding accept_transfer
accept_transfer_lem ch account j = (
  ground arith,
  ground arith,
  ground arith,
  ground (
    arith,
    lookup-insert (delete ch.account_to_umode ch.registered_founder) account j channel_founder,
    lookup-delete ch.account_to_umode ch.registered_founder j,
  ),
)

-- An offer outlives the registration: an account that was offered a channel can accept it after
-- its founder has dropped it, and is then the founder of a channel that was not registered any
-- more.
pub accept-set_unregistered :
    (ch : Channel) (account : String)
    → ch.transfer_pending_to ≡ account
    → account ≢ ""
    → let dropped = set_unregistered ch ch.registered_founder in
      (dropped.registered_founder ≡ "")
      × ((accept_transfer dropped account).1 ≡ none)
      × ((accept_transfer dropped account).0.registered_founder ≡ account)
unfolding set_unregistered accept_transfer
accept-set_unregistered ch account offered named =
    let same = beq_refl ch.registered_founder in
    let own = beq_refl account in
    ground (
      arith,
      same,
      own,
      string_eq.equals_iff account "",
      string_eq.equals_iff account ch.transfer_pending_to,
    )

umode_change-other :
    (ch : Channel) (c : ModeChange) (op : ModeOp) (j : String)
    → lookup (umode_change ch c op).0.account_to_umode j ≢ lookup ch.account_to_umode j
    → (j ≡ c.arg) × (is_list op ≡ false)
unfolding umode_change
umode_change-other ch c add j h =
    ground (arith, lookup-insert ch.account_to_umode c.arg j c.mode, string_eq.equals_iff c.arg j)
umode_change-other ch c remove j h =
    ground (arith, lookup-delete ch.account_to_umode c.arg j, string_eq.equals_iff c.arg j)
umode_change-other ch c list j h = absurd (h refl)

may_change_umode_lem :
    (ch : Channel) (account : String) (is_oper_change : Bool) (c : ModeChange)
    → may_change_umode ch account is_oper_change c ≡ true
    → is_list c.op ≡ false
    → (is_oper_change ≡ true)
      ⊎ ((account ≢ "") × (account ≡ ch.registered_founder))
      ⊎ ((has_privs_over (persistent_mode ch account) (persistent_mode ch c.arg) ≡ true)
          × (has_privs_over (persistent_mode ch account) (mode_after c) ≡ true))
      ⊎ ((is_removal c.op ≡ true) × (account ≡ c.arg))
unfolding may_change_umode
may_change_umode_lem ch account is_oper_change c h l = ground (
  arith,
  string_eq.equals_iff account "",
  string_eq.equals_iff account ch.registered_founder,
  string_eq.equals_iff account c.arg,
)

-- If the status of an account changes, it is that of the account named, and the change is by one
-- who may make it: a server operator, the founder, one whose own status has privileges over the
-- old and the new one, or the account itself, by a removal.
process_account_to_umode_change_lem :
    (ch : Channel) (account : String) (is_oper_change : Bool) (c : ModeChange) (j : String)
    → let ch' = (process_account_to_umode_change ch account is_oper_change c).0 in
      lookup ch'.account_to_umode j ≢ lookup ch.account_to_umode j
      → (j ≡ c.arg)
        × ((is_oper_change ≡ true)
            ⊎ ((account ≢ "") × (account ≡ ch.registered_founder))
            ⊎ ((has_privs_over (persistent_mode ch account) (persistent_mode ch c.arg) ≡ true)
                × (has_privs_over (persistent_mode ch account) (mode_after c) ≡ true))
            ⊎ ((is_removal c.op ≡ true) × (account ≡ c.arg)))
unfolding process_account_to_umode_change
process_account_to_umode_change_lem ch account is_oper_change c j h =
    elim (Bool-cases (may_change_umode ch account is_oper_change c)) [
      | inl may ↦
          let (this, changed) =
            umode_change-other ch c c.op j (rw (process_account_to_umode_change, may) at h) in
          (this, may_change_umode_lem ch account is_oper_change c may changed)
      | inr not_so ↦ absurd ((rw (process_account_to_umode_change, not_so) at h) refl)
    ]
