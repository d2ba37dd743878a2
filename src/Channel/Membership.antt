-- ===== src/Channel/Membership.antt =====
-- Who is on a channel: Join, Quit, Part and Kick of irc/channel.go, with the
-- client's side of them in irc/client.go. The messages are modelled by their audience.
pub mod Admission
pub mod Agreement
pub mod Removal
use oragono.Prelude.{
  ℕ, zero, suc, ◌+◌, ◌-◌, ◌*◌, ◌/◌, ◌%◌, ◌^◌, ◌≤◌, ◌<◌, min, max, bit_and, bit_or, String, ◌≡◌,
  refl, sym, ap, subst, ◌∙◌, fun_ext, ◌≢◌, ◌↔◌, ◌⊎◌, inl, inr, Bool, true, false, not, ◌&&◌, ◌||◌,
  Option, none, some, List, [], ◌∷◌, ◌++◌, map, reverse, arith, ltb, leb, nat_beq, if◌then◌else◌,
  ltb→lt, lt→ltb, leb→le, nat_beq_iff, nat_beq_refl, Bool-cases, Option-cases, length, get_elem?,
  set, length-append, length-set, get_elem?-set_self, get_elem?-set_ne, get_or, take, drop,
  replicate, take-append-drop, length-take, length-drop, length-replicate, length-map, Eq, ◌==◌,
  ◌!=◌, nat_eq, string_eq, beq_refl, beq_ne, beq→eq, beq→ne,
}
use oragono.Prelude.GoMap.{
  GoMap, lookup, has, insert, delete, lookup-insert, lookup-delete, length-insert, length-delete-le,
  lookup-insert_self,
}
use oragono.Prelude.Int.{ℤ, pos, negsuc}
use oragono.Modes.Letters.{
  Mode, no_mode, voice, halfop, channel_operator, invite_only, registered_only, auditorium,
  operator,
}
use oragono.Modes.ModeSet.{ModeSet, has_mode, set_mode, new_mode_set}
use oragono.Masks.{RegexpPackage, match}
use oragono.Channel.State.{
  Config, Client, ChannelInvite, Channel, Net, set_client, with_client, has_member_mode,
  highest_member_mode, persistent_mode, regenerate_members_cache, mark_client_dirty,
  include_channels,
}
use oragono.Channel.Access.{client_is_at_least, client_has_privs_over, has_client}

pub data JoinError : Type 0 where
  limit_exceeded wrong_channel_key invite_only_channel banned registered_only_channel : JoinError
  client_destroyed too_many_channels : JoinError

-- What Join returns and tells: nothing, an error, or the mode that was given, the members that the
-- JOIN is shown to, and whether it goes into the history.
pub data JoinOutcome : Type 0 where
  already_joined : JoinOutcome
  refused : JoinError → JoinOutcome
  joined : Mode → List ℕ → Bool → JoinOutcome

-- The numerics of a refused PART or KICK; or the members that it is shown to, whether it goes into the
-- history, and whether the channel is now empty.
pub data LeaveOutcome : Type 0 where
  not_on_channel chan_op_privs_needed user_not_in_channel : LeaveOutcome
  left : List ℕ → Bool → Bool → LeaveOutcome

-- Client.CheckInvited: an invitation is used up, whether or not it is still good.
unfoldable pub check_invited : Config → Client → String → ℕ → ℕ → Client × Bool
check_invited cfg c chname created_at now = elim (lookup c.invited_to chname) [
  | none ↦ (c, false)
  | some inv ↦ (
    record c { invited_to = delete c.invited_to chname },
    (cfg.invite_expiration == 0 || ltb now (inv.invited_at + cfg.invite_expiration))
        && created_at == inv.channel_created_at,
  )
]

-- Client.addChannel; `self` is the channel.
unfoldable pub add_channel : Config → Client → ℕ → Bool → Client × Option JoinError
add_channel cfg c self simulated =
    if c.destroyed
    then (c, some client_destroyed)
    else if not c.is_oper && leb cfg.max_channels_per_client (length c.channels)
    then (c, some too_many_channels)
    else let c' = record c { channels = insert c.channels self tt } in
      (if c.always_on && not simulated then mark_client_dirty include_channels c' else c', none)

unfoldable pub remove_channel : Client → ℕ → Client
remove_channel c self =
    let c' = record c { channels = delete c.channels self } in
    if c.always_on then mark_client_dirty include_channels c' else c'

-- `limit != 0 && chcount >= limit` on Go's int
unfoldable pub over_limit : ℤ → ℕ → Bool
over_limit (pos zero) count = false
over_limit (pos (suc n)) count = leb (suc n) count
over_limit (negsuc n) count = true

-- The modes of a new member.
unfoldable pub fresh_modes : Mode → ModeSet
fresh_modes given = if given == no_mode then new_mode_set else (set_mode new_mode_set given true).0

module _ (re : RegexpPackage) (cfg : Config) (self : ℕ) where
  -- The checks for a client without privileges, in their order.
  unfoldable pub join_refusal : Channel → Client → String → Option JoinError
  unfolding over_limit
  join_refusal ch c key =
      if over_limit ch.user_limit (length ch.members)
      then some limit_exceeded
      else if ch.key != "" && not (ch.key == key)
      then some wrong_channel_key
      else if has_mode ch.flags invite_only && not (match re ch.invites c.nick_mask_casefolded)
      then some invite_only_channel
      else if match re ch.bans c.nick_mask_casefolded
          && not (match re ch.excepts c.nick_mask_casefolded)
          && not (match re ch.invites c.nick_mask_casefolded)
      then some banned
      else if c.account == "" && (has_mode ch.flags registered_only || leb cfg.defcon 2)
      then some registered_only_channel
      else none

  -- SAJOIN, the founder, and those who are given halfop or more.
  unfoldable pub join_exempt : Channel → Client → Bool → Bool
  join_exempt ch c is_sajoin =
      is_sajoin
      || (ch.registered_founder != "" && ch.registered_founder == c.account)
      || (persistent_mode ch c.account != no_mode && persistent_mode ch c.account != voice)

  -- The members are added to under the lock; the first client of an unregistered channel is opped.
  unfoldable pub add_member : Channel → ℕ → Mode → Channel × Mode
  unfolding regenerate_members_cache
  add_member ch who persistent =
      let members = insert ch.members who new_mode_set in
      let given =
        if length members == 1 && ch.registered_founder == ""
        then channel_operator
        else persistent in
      (
        regenerate_members_cache (record ch { members = insert members who (fresh_modes given) }),
        given,
      )

  -- Those who see a status change of `hidden` standing: everybody, or under +u the members with one.
  unfoldable pub audience : Channel → Bool → List ℕ → List ℕ
  audience ch hidden [] = []
  audience ch hidden (m ∷ ms) =
      let rest = audience ch hidden ms in
      if hidden && highest_member_mode (lookup ch.members m) == no_mode then rest else m ∷ rest

  -- `simulated` is a join with no response buffer, at the restart of the server.
  unfoldable pub enter : Net → ℕ → Bool → Client → Net × JoinOutcome
  unfolding add_member audience add_channel
  enter net who simulated c =
      let (c', failure) = add_channel cfg c self simulated in
      let (ch, given) = add_member net.channel who (persistent_mode net.channel c.account) in
      let hidden = given == no_mode && has_mode ch.flags auditorium in
      elim failure [
        | some e ↦ (with_client net who c', refused e)
        | none ↦ (
          with_client (record net { channel = ch }) who c',
          joined given (if simulated then [] else audience ch hidden ch.members_cache)
              (not simulated && not hidden),
        )
      ]

  -- The client after the test for privileges, and whether he has them. An invitation is looked at, and
  -- used up, only if nothing else exempts him.
  unfoldable pub test_privs : Channel → Client → Bool → ℕ → Client × Bool
  unfolding join_exempt check_invited
  test_privs ch c is_sajoin now =
      if join_exempt ch c is_sajoin
      then (c, true)
      else check_invited cfg c ch.name_casefolded ch.created_time now

  unfoldable pub admit : Net → ℕ → Bool → Client × Bool → Option JoinError → Net × JoinOutcome
  unfolding enter
  admit net who simulated (c, true) refusal = enter net who simulated c
  admit net who simulated (c, false) none = enter net who simulated c
  admit net who simulated (c, false) (some e) = (with_client net who c, refused e)

  unfoldable pub join : Net → ℕ → String → Bool → Bool → ℕ → Net × JoinOutcome
  unfolding admit join_refusal test_privs
  join net who key is_sajoin simulated now =
      let ch = net.channel in
      let c = net.clients who in
      if has_client ch who
      then (net, already_joined)
      else admit net who simulated (test_privs ch c is_sajoin now) (join_refusal ch c key)

  -- Quit; the flag says that the channel is now empty, and the manager is asked to clean it up.
  unfoldable pub quit : Net → ℕ → Net × Bool
  unfolding regenerate_members_cache remove_channel
  quit net who =
      let members = delete net.channel.members who in
      let ch = regenerate_members_cache (record net.channel { members = members }) in
      (
        with_client (record net { channel = ch }) who (remove_channel (net.clients who) self),
        length members == 0,
      )

  unfoldable pub part : Net → ℕ → Net × LeaveOutcome
  unfolding quit audience
  part net who =
      let before = lookup net.channel.members who in
      let (net', empty) = quit net who in
      let hidden = has_mode net.channel.flags auditorium && highest_member_mode before == no_mode in
      if has_client net.channel who
      then (net', left (audience net'.channel hidden net'.channel.members_cache) (not hidden) empty)
      else (net, not_on_channel)

  -- Kick; with `has_privs` set, ChanServ or a server operator asks.
  unfoldable pub kick : Net → ℕ → ℕ → Bool → Net × LeaveOutcome
  unfolding quit
  kick net who target has_privs =
      let (net', empty) = quit net target in
      if not has_privs
        && not (has_mode (net.clients who).modes operator || has_client net.channel who)
      then (net, not_on_channel)
      else if not has_privs && not (client_has_privs_over net who target)
      then (net, chan_op_privs_needed)
      else if not (has_client net.channel target)
      then (net, user_not_in_channel)
      else (net', left net.channel.members_cache true empty)
