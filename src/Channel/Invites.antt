-- ===== src/Channel/Invites.antt =====
-- Invite and Uninvite of irc/channel.go, with the client's side of them in irc/client.go.
pub mod Effects
use oragono.Prelude.{
  ℕ, String, not, ◌&&◌, ◌||◌, Option, none, some, List, [], ◌∷◌, if◌then◌else◌, ◌==◌, nat_eq,
  string_eq,
}
use oragono.Prelude.GoMap.{insert, delete}
use oragono.Modes.Letters.{halfop, channel_operator, invite_only}
use oragono.Modes.ModeSet.{has_mode}
use oragono.Channel.State.{Client, Net, with_client}
use oragono.Channel.Access.{client_is_at_least, has_client}

pub data InviteOutcome : Type 0 where
  inviter_not_on_channel invite_privs_needed user_on_channel : InviteOutcome
  inviting : List ℕ → InviteOutcome

pub data UninviteError : Type 0 where
  not_invite_only privs_needed : UninviteError

-- Client.Invite and Client.Uninvite
unfoldable pub record_invite : Client → String → ℕ → ℕ → Client
record_invite c chname created_at now = record c {
  invited_to =
      insert c.invited_to chname (record { channel_created_at = created_at; invited_at = now });
}

unfoldable pub drop_invite : Client → String → Client
drop_invite c chname = record c { invited_to = delete c.invited_to chname }

-- The members that an INVITE is announced to, if they ask for such notices.
unfoldable pub invite_audience : Net → ℕ → ℕ → List ℕ → List ℕ
invite_audience net invitee inviter [] = []
invite_audience net invitee inviter (m ∷ ms) =
    let rest = invite_audience net invitee inviter ms in
    if m == inviter || m == invitee || not (client_is_at_least net m halfop) then rest else m ∷ rest

unfoldable pub invite : Net → ℕ → ℕ → ℕ → Net × InviteOutcome
unfolding record_invite invite_audience
invite net invitee inviter now =
    let ch = net.channel in
    let only = has_mode ch.flags invite_only in
    if not (has_client ch inviter)
    then (net, inviter_not_on_channel)
    else if only && not (client_is_at_least net inviter channel_operator)
    then (net, invite_privs_needed)
    else if has_client ch invitee
    then (net, user_on_channel)
    else (
      if only
          then with_client net invitee
              (record_invite (net.clients invitee) ch.name_casefolded ch.created_time now)
          else net,
      inviting (invite_audience net invitee inviter ch.members_cache),
    )

unfoldable pub uninvite : Net → ℕ → ℕ → Net × Option UninviteError
unfolding drop_invite
uninvite net invitee inviter =
    let ch = net.channel in
    if not (has_mode ch.flags invite_only)
    then (net, some not_invite_only)
    else if not (client_is_at_least net inviter channel_operator)
    then (net, some privs_needed)
    else (with_client net invitee (drop_invite (net.clients invitee) ch.name_casefolded), none)
