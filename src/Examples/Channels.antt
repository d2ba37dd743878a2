-- ===== src/Examples/Channels.antt =====
-- The theorems on channels at the lobby.
use oragono.Prelude.{
  ℕ, ◌+◌, ◌*◌, ◌^◌, ◌<◌, ◌≡◌, refl, ◌⊎◌, inl, inr, true, false, none, some, List, [], ◌∷◌, arith,
  nat_beq_iff, length, nat_eq, string_eq, beq→ne,
}
use oragono.Prelude.GoMap.{lookup, has, delete}
use oragono.Modes.Letters.{voice, registered_only_speak, add, ModeChange}
use oragono.Modes.ModeSet.{has_mode}
use oragono.Modes.Privileges.{has_privs_over, is_channel_user_mode}
use oragono.Masks.{match}
use oragono.Channel.State.{Channel, highest_member_mode, persistent_mode}
use oragono.Channel.Access.{is_founder, client_is_at_least, client_has_privs_over, has_client}
use oragono.Channel.Membership.{
  join, kick, enter, admit, test_privs, check_invited, join_refusal, over_limit, add_channel,
}
use oragono.Channel.Membership.Admission.{
  IsAdmissible, was_joined, passes, join-IsAdmissible, admissible-join,
}
use oragono.Channel.Membership.Agreement.{InSync, joins, kicks, here, next, Reach-InSync}
use oragono.Channel.Membership.Removal.{has_left, kick_lem}
use oragono.Channel.Speaking.{can_speak, is_muted, Session}
use oragono.Channel.Speaking.Rules.{registered_only_speak_inverted}
use oragono.Channel.Registration.{set_unregistered, accept_transfer}
use oragono.Channel.Registration.Ownership.{accept-set_unregistered}
use oragono.Modes.ModeSet.{highest_channel_user_mode}
use oragono.Channel.Invites.{invite, invite_audience}
use oragono.Channel.Invites.Effects.{invite-join}
use oragono.Channel.State.{Net}
use oragono.Channel.State.{has_member_mode}
use oragono.Examples.Setting.{plain_text, config, voice_set, alice, bob, lobby, net}

join-IsAdmissible_example :
    (has net.channel.members 2 ≡ false)
    × ((passes plain_text config 7 lobby bob false 9 ≡ true)
        ⊎ IsAdmissible plain_text config lobby bob "sesame")
    × (bob.destroyed ≡ false)
    × ((bob.is_oper ≡ true) ⊎ (length bob.channels < 10))
unfolding join has_client admit enter test_privs check_invited join_refusal add_channel over_limit
    match has_mode lookup persistent_mode
join-IsAdmissible_example = join-IsAdmissible plain_text config 7 net 2 "sesame" false false 9 refl

admissible-join_example :
    was_joined plain_text config 7 (join plain_text config 7 net 2 "sesame" false false 9).1 ≡ true
unfolding join_refusal match has_mode lookup
admissible-join_example =
    admissible-join plain_text config 7 net 2 "sesame" false false 9 refl
      (inr (record {
        has_room = inr (ground arith);
        right_key = inr refl;
        is_invited = λ h. ground arith;
        not_banned = λ h. ground arith;
        is_known = inr (refl, ground arith);
      }))
      refl (inr (ground arith))

-- Bob comes, and the operator kicks him.
Reach-InSync_example :
    InSync 7
      (kick plain_text config 7
        (join plain_text config 7 net 2 "sesame" false false 9).0
        1
        2
        false).0
unfolding lookup
Reach-InSync_example =
    Reach-InSync plain_text config 7 {start = net}
      (next (next here (joins net 2 "sesame" false false 9)) (kicks _ 1 2 false))
      (record {
        cached = refl;
        agreed = λ who. ground (arith, nat_beq_iff 1 who, nat_beq_iff who 1);
      })

kick_lem_example :
    (has_left plain_text config 7 (kick plain_text config 7 net 1 1 false).1 ≡ true)
    × (lookup (kick plain_text config 7 net 1 1 false).0.channel.members 1 ≡ none)
    × (((kick plain_text config 7 net 1 1 false).0.clients 1).channels ≡ delete alice.channels 7)
unfolding lookup has_mode client_has_privs_over highest_member_mode is_founder has_privs_over
    is_channel_user_mode highest_channel_user_mode delete
kick_lem_example = kick_lem plain_text config 7 net 1 1 1 false

abbrev speaking_registered : Channel
speaking_registered = record lobby { flags = record { lo = 2 ^ 12; hi = 0 } }

registered_only_speak_inverted_example :
    can_speak plain_text speaking_registered bob (some voice_set) ≡ some registered_only_speak
unfolding has_mode is_muted highest_member_mode highest_channel_user_mode
registered_only_speak_inverted_example =
    registered_only_speak_inverted plain_text speaking_registered bob voice_set refl refl refl refl
      refl

-- Each client has a session over Tor and one that is not.
abbrev two_sessions : ℕ → List Session
two_sessions m =
    (record { address = m * 10; is_tor = false })
    ∷ (record { address = m * 10 + 1; is_tor = true })
    ∷ []

accept-set_unregistered_example :
    ((set_unregistered lobby "carol").registered_founder ≡ "")
    × ((accept_transfer (set_unregistered lobby "carol") "dave").1 ≡ none)
    × ((accept_transfer (set_unregistered lobby "carol") "dave").0.registered_founder ≡ "dave")
accept-set_unregistered_example = accept-set_unregistered lobby "dave" refl (beq→ne "dave" "" refl)

abbrev voiced_bob : ModeChange
voiced_bob = record { mode = voice; op = add; arg = "bob" }

-- The lobby under +i, where Alice is an operator, and Bob is invited.
abbrev closed_net : Net
closed_net = record net { channel = record lobby { flags = record { lo = 0; hi = 2 ^ 8 } } }

invite-join_example :
    was_joined plain_text config 7
      (join plain_text config 7 (invite closed_net 2 1 9).0 2 "" false false 11).1
    ≡ true
unfolding invite has_client client_is_at_least highest_member_mode is_founder has_mode lookup
    invite_audience has_member_mode
invite-join_example =
    invite-join plain_text config 7 closed_net 2 1 9 11 [] "" false refl refl (inl refl) refl
      (inr (ground arith))
