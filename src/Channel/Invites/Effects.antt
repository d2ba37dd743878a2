-- ===== src/Channel/Invites/Effects.antt =====
-- What an invitation, its withdrawal and its use do to the next join.
use oragono.Prelude.{
  ℕ, ◌+◌, ◌<◌, String, ◌≡◌, ◌⊎◌, inl, Bool, true, false, none, List, arith, nat_beq_refl, length,
  nat_eq, string_eq, beq_refl,
}
use oragono.Prelude.GoMap.{has, lookup-delete, lookup-insert_self}
use oragono.Modes.Letters.{invite_only}
use oragono.Modes.ModeSet.{has_mode}
use oragono.Masks.{RegexpPackage}
use oragono.Channel.State.{Config, ChannelInvite, Client, Channel, Net, set_client}
use oragono.Channel.Access.{has_client}
use oragono.Channel.Membership.{check_invited, test_privs, join}
use oragono.Channel.Membership.Admission.{passes, was_joined, admissible-join}
use oragono.Channel.Invites.{inviting, record_invite, drop_invite, invite, uninvite}

-- The invitation of a client that is announced on a +i channel is recorded.
invite_recorded :
    (net : Net) (invitee inviter now : ℕ) (told : List ℕ)
    → has_mode net.channel.flags invite_only ≡ true
    → (invite net invitee inviter now).1 ≡ inviting told
    → ((invite net invitee inviter now).0.channel ≡ net.channel)
      × (has net.channel.members invitee ≡ false)
      × ((invite net invitee inviter now).0.clients invitee
          ≡ record_invite
              (net.clients invitee)
              net.channel.name_casefolded
              net.channel.created_time
              now)
unfolding invite has_client set_client
invite_recorded net invitee inviter now told only announced = ground (arith, nat_beq_refl invitee)

module _ (re : RegexpPackage) (cfg : Config) (self : ℕ) where
  recorded-passes :
      (ch : Channel) (c : Client) (now later : ℕ)
      → (cfg.invite_expiration ≡ 0) ⊎ (later < now + cfg.invite_expiration)
      → passes re cfg self ch (record_invite c ch.name_casefolded ch.created_time now) false later
        ≡ true
  unfolding test_privs check_invited record_invite
  recorded-passes ch c now later fresh =
      let inv : ChannelInvite = record { channel_created_at = ch.created_time; invited_at = now } in
      ground (
        arith,
        lookup-insert_self c.invited_to ch.name_casefolded inv,
        nat_beq_refl ch.created_time,
        fresh,
      )

  -- Who is invited to a +i channel by one who may can join it until the invitation expires, whatever the
  -- key, the limit and the bans, if he is not being disconnected and is an operator or has a channel left.
  pub invite-join :
      (net : Net) (invitee inviter now later : ℕ) (told : List ℕ) (key : String) (simulated : Bool)
      → has_mode net.channel.flags invite_only ≡ true
      → (invite net invitee inviter now).1 ≡ inviting told
      → (cfg.invite_expiration ≡ 0) ⊎ (later < now + cfg.invite_expiration)
      → (net.clients invitee).destroyed ≡ false
      → ((net.clients invitee).is_oper ≡ true)
        ⊎ (length (net.clients invitee).channels < cfg.max_channels_per_client)
      → was_joined re cfg self
          (join re cfg self (invite net invitee inviter now).0 invitee key false simulated later).1
        ≡ true
  unfolding record_invite
  invite-join net invitee inviter now later told key simulated only announced fresh alive room =
      let (same, outside, recorded) = invite_recorded net invitee inviter now told only announced in
      admissible-join re cfg self (invite net invitee inviter now).0 invitee key false simulated
        later (rw same outside)
        (inl
          (rw (same, recorded) (recorded-passes net.channel (net.clients invitee) now later fresh)))
        (rw recorded alive) (rw recorded room)

  -- An invitation is good for one look at it, whether it had expired or not: the next one finds none.
  check_invited_once :
      (c : Client) (chname : String) (created_at now later : ℕ)
      → (check_invited cfg (check_invited cfg c chname created_at now).0 chname created_at later).1
        ≡ false
  unfolding check_invited
  check_invited_once c chname created_at now later =
      ground (arith, lookup-delete c.invited_to chname chname, beq_refl chname)

  -- After a withdrawal that succeeds, the client holds no invitation to the channel.
  uninvite-check_invited :
      (net : Net) (invitee inviter later : ℕ)
      → (uninvite net invitee inviter).1 ≡ none
      → let ch = net.channel in
        (check_invited cfg
          ((uninvite net invitee inviter).0.clients invitee)
          ch.name_casefolded
          ch.created_time
          later).1
        ≡ false
  unfolding uninvite check_invited set_client drop_invite
  uninvite-check_invited net invitee inviter later done = ground (
    arith,
    lookup-delete (net.clients invitee).invited_to net.channel.name_casefolded
        net.channel.name_casefolded,
    beq_refl net.channel.name_casefolded,
    nat_beq_refl invitee,
  )
