-- ===== src/Channel/Registration.antt =====
-- Who owns a channel: SetRegistered, SetUnregistered, resetAccess, Transfer and AcceptTransfer
-- of irc/channel.go, and the persistent statuses of accounts, ProcessAccountToUmodeChange of
-- irc/modes.go.
pub mod Ownership
use oragono.Prelude.{
  ℕ, zero, suc, ◌+◌, ◌-◌, ◌*◌, ◌/◌, ◌%◌, ◌^◌, ◌≤◌, ◌<◌, min, max, bit_and, bit_or, String, ◌≡◌,
  refl, sym, ap, subst, ◌∙◌, fun_ext, ◌≢◌, ◌↔◌, ◌⊎◌, inl, inr, Bool, true, false, not, ◌&&◌, ◌||◌,
  Option, none, some, List, [], ◌∷◌, ◌++◌, map, reverse, arith, ltb, leb, nat_beq, if◌then◌else◌,
  ltb→lt, lt→ltb, leb→le, nat_beq_iff, nat_beq_refl, Bool-cases, Option-cases, length, get_elem?,
  set, length-append, length-set, get_elem?-set_self, get_elem?-set_ne, get_or, take, drop,
  replicate, take-append-drop, length-take, length-drop, length-replicate, length-map, Eq, ◌==◌,
  ◌!=◌, nat_eq, string_eq, beq_refl, beq_ne, beq→eq, beq→ne,
}
use oragono.Prelude.GoMap.{
  GoMap, lookup, has, insert, delete, lookup-insert, lookup-delete, length-insert, length-delete-le,
  lookup-insert_self,
}
use oragono.Modes.Letters.{
  Mode, ModeOp, add, list, remove, ModeChange, no_mode, channel_founder, halfop,
}
use oragono.Modes.Privileges.{has_privs_over, umode_greater_than}
use oragono.Masks.{new_user_mask_set}
use oragono.Channel.State.{Client, Channel, persistent_mode, mark_dirty, include_lists}

-- SetRegistered; `none` is errChannelAlreadyRegistered.
unfoldable pub set_registered : Channel → String → ℕ → Option Channel
set_registered ch founder now =
    if ch.registered_founder != ""
    then none
    else some (record ch {
      registered_founder = founder;
      registered_time = now;
      account_to_umode = insert ch.account_to_umode founder channel_founder;
    })

unfoldable pub set_unregistered : Channel → String → Channel
set_unregistered ch expected_founder =
    if ch.registered_founder != expected_founder
    then ch
    else record ch { registered_founder = ""; registered_time = 0; account_to_umode = [] }

abbrev pub initialize_lists : Channel → Channel
initialize_lists ch = record ch {
  bans = new_user_mask_set;
  excepts = new_user_mask_set;
  invites = new_user_mask_set;
  account_to_umode = [];
}

unfoldable pub reset_access : Channel → Channel
reset_access ch =
    let ch' = initialize_lists ch in
    mark_dirty include_lists (
      if ch.registered_founder != ""
      then record ch' {
        account_to_umode = insert ch'.account_to_umode ch.registered_founder channel_founder;
      }
      else ch')

unfoldable pub transfer_ownership : Channel → String → Channel
transfer_ownership ch new_owner = record ch {
  registered_founder = new_owner;
  account_to_umode =
      insert (delete ch.account_to_umode ch.registered_founder) new_owner channel_founder;
  transfer_pending_to = "";
}

pub data TransferStatus : Type 0 where
  complete pending cancelled : TransferStatus
  not_an_account not_owned : TransferStatus

-- Transfer; `target` is the casefolded account name, if it has one.
unfoldable pub transfer : Channel → Option String → Bool → Channel × TransferStatus
unfolding transfer_ownership
transfer ch none has_privs = (ch, not_an_account)
transfer ch (some target) has_privs =
    if ch.registered_founder == ""
    then (ch, not_owned)
    else if has_privs
    then (transfer_ownership ch target, complete)
    else if ch.registered_founder == target
    then (record ch { transfer_pending_to = "" }, cancelled)
    else (record ch { transfer_pending_to = target }, pending)

pub data AcceptError : Type 0 where
  not_logged_in not_offered : AcceptError

unfoldable pub accept_transfer : Channel → String → Channel × Option AcceptError
unfolding transfer_ownership
accept_transfer ch account =
    if account == ""
    then (ch, some not_logged_in)
    else if account != ch.transfer_pending_to
    then (ch, some not_offered)
    else (transfer_ownership ch account, none)

-- What the statuses answer: the changes that were made or that are listed, or errInsufficientPrivs.
pub data UmodeResult : Type 0 where
  insufficient_privs : UmodeResult
  changes : List ModeChange → UmodeResult

abbrev pub listing : GoMap String Mode → List ModeChange
listing [] = []
listing ((account, m) ∷ rest) = record { mode = m; op = add; arg = account } ∷ listing rest

abbrev pub mode_after : ModeChange → Mode
mode_after c = elim c.op [ add ↦ c.mode | list ↦ no_mode | remove ↦ no_mode ]

abbrev pub is_list : ModeOp → Bool
is_list op = elim op [ add ↦ false | list ↦ true | remove ↦ false ]

abbrev pub is_removal : ModeOp → Bool
is_removal op = elim op [ add ↦ false | list ↦ false | remove ↦ true ]

-- Who may make the change: a server operator, the founder, for a listing halfop and up, who has
-- privileges over the mode before and after, and everybody over himself for a removal.
unfoldable pub may_change_umode : Channel → String → Bool → ModeChange → Bool
may_change_umode ch account is_oper_change c =
    let mine = persistent_mode ch account in
    is_oper_change
    || (account != "" && account == ch.registered_founder)
    || (is_list c.op && (mine == halfop || umode_greater_than mine halfop))
    || (has_privs_over mine (persistent_mode ch c.arg) && has_privs_over mine (mode_after c))
    || (is_removal c.op && account == c.arg)

unfoldable pub umode_change : Channel → ModeChange → ModeOp → Channel × UmodeResult
umode_change ch c add =
    if persistent_mode ch c.arg != c.mode
    then (
      mark_dirty include_lists
          (record ch { account_to_umode = insert ch.account_to_umode c.arg c.mode }),
      changes (c ∷ []),
    )
    else (ch, changes [])
umode_change ch c remove =
    if persistent_mode ch c.arg == c.mode
    then (
      mark_dirty include_lists (record ch { account_to_umode = delete ch.account_to_umode c.arg }),
      changes (c ∷ []),
    )
    else (ch, changes [])
umode_change ch c list = (ch, changes (listing ch.account_to_umode))

unfoldable pub process_account_to_umode_change :
    Channel → String → Bool → ModeChange → Channel × UmodeResult
unfolding may_change_umode umode_change
process_account_to_umode_change ch account is_oper_change c =
    if may_change_umode ch account is_oper_change c
    then umode_change ch c c.op
    else (ch, insufficient_privs)
