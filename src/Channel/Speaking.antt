-- ===== src/Channel/Speaking.antt =====
-- Who may speak, and who hears: CanSpeak, isMuted, SendSplitMessage, SetTopic and auditoriumFriends of
-- irc/channel.go.
pub mod Rules
use oragono.Prelude.{
  ℕ, zero, suc, ◌+◌, ◌-◌, ◌*◌, ◌/◌, ◌%◌, ◌^◌, ◌≤◌, ◌<◌, min, max, bit_and, bit_or, String, ◌≡◌,
  refl, sym, ap, subst, ◌∙◌, fun_ext, ◌≢◌, ◌↔◌, ◌⊎◌, inl, inr, Bool, true, false, not, ◌&&◌, ◌||◌,
  Option, none, some, List, [], ◌∷◌, ◌++◌, map, reverse, arith, ltb, leb, nat_beq, if◌then◌else◌,
  ltb→lt, lt→ltb, leb→le, nat_beq_iff, nat_beq_refl, Bool-cases, Option-cases, length, get_elem?,
  set, length-append, length-set, get_elem?-set_self, get_elem?-set_ne, get_or, take, drop,
  replicate, take-append-drop, length-take, length-drop, length-replicate, length-map, Eq, ◌==◌,
  ◌!=◌, nat_eq, string_eq, beq_refl, beq_ne, beq→eq, beq→ne,
}
use oragono.Prelude.GoMap.{
  GoMap, lookup, has, insert, delete, distinct, distinct-insert, distinct-delete, lookup-insert,
  lookup-delete, length-insert, length-delete-le, lookup-insert_self,
}
use oragono.Modes.Letters.{
  Mode, no_mode, voice, halfop, channel_operator, no_outside, ban_mask, moderated, registered_only,
  registered_only_speak, no_ctcp, op_moderated, op_only_topic, auditorium, operator,
}
use oragono.Modes.ModeSet.{ModeSet, has_mode}
use oragono.Masks.{RegexpPackage, match_regexp, match_mute}
use Prim.Native.String.{slice, len}
use oragono.Channel.State.{
  Config, Client, Channel, Net, highest_member_mode, mark_dirty, include_topic,
}
use oragono.Channel.Access.{client_is_at_least, has_client}

abbrev pub member_missing : Option ModeSet → Bool
member_missing none = true
member_missing (some s) = false

pub data HistType : Type 0 where
  privmsg notice tagmsg : HistType

-- msgCommandToHistType; `none` is errInvalidParams.
unfoldable pub msg_command_to_hist_type : String → Option HistType
msg_command_to_hist_type command =
    if command == "PRIVMSG"
    then some privmsg
    else if command == "NOTICE"
    then some notice
    else if command == "TAGMSG"
    then some tagmsg
    else none

-- What sending does: nothing, a refusal with the mode that is told to the sender (a NOTICE is refused
-- in silence), or the sessions that get the message, and whether it goes into the history.
pub data SendOutcome : Type 0 where
  ignored : SendOutcome
  cannot_send : Option Mode → SendOutcome
  sent : List ℕ → Bool → SendOutcome

unfoldable pub refusal_told : HistType → Mode → SendOutcome
refusal_told notice mode = cannot_send none
refusal_told privmsg mode = cannot_send (some mode)
refusal_told tagmsg mode = cannot_send (some mode)

-- max(statusmsg_minmode, halfop), for a speaker without status under +U
unfoldable pub effective_min_prefix : Channel → Option ModeSet → Mode → Mode
effective_min_prefix ch member min_prefix =
    if has_mode ch.flags op_moderated
      && highest_member_mode member == no_mode
      && (min_prefix == no_mode || min_prefix == voice)
    then halfop
    else min_prefix

-- What the loop over the sessions of a member reads of a session.
pub record Session : Type 0 where
  pub address : ℕ
  pub is_tor : Bool

-- The sessions of a member that get the message: not the sender's own session, which has its echo, and, if
-- the message is CTCP, no session over Tor.
unfoldable pub told_sessions : ℕ → Bool → List Session → List ℕ
told_sessions own is_ctcp [] = []
told_sessions own is_ctcp (s ∷ ss) =
    let rest = told_sessions own is_ctcp ss in
    if s.address == own then rest else if is_ctcp && s.is_tor then rest else s.address ∷ rest

-- The sessions that get the message, over the members; `sessions` is Client.Sessions.
unfoldable pub hearers : Net → (ℕ → List Session) → ℕ → Mode → Bool → List ℕ → List ℕ
unfolding told_sessions
hearers net sessions own min_prefix is_ctcp [] = []
hearers net sessions own min_prefix is_ctcp (m ∷ ms) =
    let rest = hearers net sessions own min_prefix is_ctcp ms in
    if min_prefix != no_mode && not (client_is_at_least net m min_prefix)
    then rest
    else told_sessions own is_ctcp (sessions m) ++ rest

-- SetTopic: the numeric of a refusal, or the new topic.
pub data TopicOutcome : Type 0 where
  not_on_channel chan_op_privs_needed : TopicOutcome
  topic_set : TopicOutcome

unfoldable pub set_topic : Config → Net → ℕ → String → ℕ → Net × TopicOutcome
set_topic cfg net who topic now =
    let ch = net.channel in
    let c = net.clients who in
    let topic' = if ltb cfg.topic_len (len topic) then slice topic 0 cfg.topic_len else topic in
    if not (has_mode c.modes operator || has_client ch who)
    then (net, not_on_channel)
    else if has_mode ch.flags op_only_topic && not (client_is_at_least net who channel_operator)
    then (net, chan_op_privs_needed)
    else (
      record net {
        channel =
            mark_dirty include_topic
              (record ch { topic = topic'; topic_set_by = c.nick_mask; topic_set_time = now });
      },
      topic_set,
    )

unfoldable pub members_with_status : GoMap ℕ ModeSet → List ℕ
members_with_status [] = []
members_with_status ((m, s) ∷ ms) =
    let rest = members_with_status ms in
    if highest_member_mode (some s) != no_mode then m ∷ rest else rest

unfoldable pub auditorium_friends : Channel → Option ModeSet → List ℕ
unfolding members_with_status
auditorium_friends ch none = []
auditorium_friends ch (some s) =
    if not (has_mode ch.flags auditorium)
    then ch.members_cache
    else if highest_member_mode (some s) != no_mode
    then ch.members_cache
    else members_with_status ch.members

module _ (re : RegexpPackage) where
  unfoldable pub is_muted : Channel → Client → Bool
  is_muted ch c = elim ch.bans.mute_regexp [
    | none ↦ false
    | some expr ↦
        match_regexp re (some expr) c.nick_mask_casefolded
        && not (match_mute re ch.excepts c.nick_mask_casefolded)
  ]

  -- CanSpeak; `some` is the mode that prevents the client from speaking.
  unfoldable pub can_speak : Channel → Client → Option ModeSet → Option Mode
  can_speak ch c member =
      if member_missing member && has_mode ch.flags no_outside
      then some no_outside
      else if is_muted ch c && highest_member_mode member == no_mode
      then some ban_mask
      else if has_mode ch.flags moderated && highest_member_mode member == no_mode
      then some moderated
      else if has_mode ch.flags registered_only && c.account == ""
      then some registered_only
      else if has_mode ch.flags registered_only_speak
          && c.account == ""
          && highest_member_mode member != no_mode
      then some registered_only_speak
      else none

  -- The rest of SendSplitMessage after the checks, from the sender's session `own`.
  unfoldable pub deliver : Net → (ℕ → List Session) → ℕ → ℕ → Mode → Bool → SendOutcome
  unfolding hearers
  deliver net sessions own who min_prefix is_ctcp =
      let m = effective_min_prefix net.channel (lookup net.channel.members who) min_prefix in
      sent (hearers net sessions own m is_ctcp net.channel.members_cache) (m == no_mode)

  unfoldable pub send_as : Net → (ℕ → List Session) → ℕ → ℕ → Mode → Bool → HistType → SendOutcome
  unfolding deliver
  send_as net sessions own who min_prefix is_ctcp kind =
      let ch = net.channel in
      elim (can_speak ch (net.clients who) (lookup ch.members who)) [
        | some mode ↦ refusal_told kind mode
        | none ↦
            if is_ctcp && has_mode ch.flags no_ctcp
            then refusal_told kind no_ctcp
            else deliver net sessions own who min_prefix is_ctcp
      ]

  unfoldable pub send_known :
      Net → (ℕ → List Session) → ℕ → ℕ → Mode → Bool → Option HistType → SendOutcome
  unfolding send_as
  send_known net sessions own who min_prefix is_ctcp none = ignored
  send_known net sessions own who min_prefix is_ctcp (some kind) =
      send_as net sessions own who min_prefix is_ctcp kind

  -- SendSplitMessage, with rb.session as `own`; `is_ctcp` says that the text is a CTCP message other than
  -- an action. The echo to `own` is not modelled.
  unfoldable pub send_split_message :
      Net → (ℕ → List Session) → ℕ → ℕ → String → Mode → Bool → SendOutcome
  unfolding send_known
  send_split_message net sessions own who command min_prefix is_ctcp =
      send_known net sessions own who min_prefix is_ctcp (msg_command_to_hist_type command)
