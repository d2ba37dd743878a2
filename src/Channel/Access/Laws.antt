-- ===== src/Channel/Access/Laws.antt =====
-- What the privilege checks come to.
use oragono.Prelude.{
  ℕ, ◌≤◌, ◌≡◌, refl, true, false, ◌&&◌, ◌||◌, Option, none, some, arith, ltb, leb, if◌then◌else◌,
  ◌==◌, nat_eq, string_eq,
}
use oragono.Prelude.GoMap.{lookup}
use oragono.Modes.Letters.{Mode, channel_user_modes}
use oragono.Modes.Privileges.{is_channel_user_mode}
use oragono.Modes.Privileges.Order.{rank, IsStatus, has_privs_over-rank}
use oragono.Modes.ModeSet.{ModeSet, has_mode, highest_channel_user_mode}
use oragono.Channel.State.{Net, has_member_mode, highest_member_mode}
use oragono.Channel.Access.{is_founder, client_is_at_least, client_has_privs_over, holds_down_to}

rank_of_highest :
    (s : Option ModeSet) (p : Mode)
    → is_channel_user_mode p ≡ true
    → holds_down_to s p channel_user_modes ≡ leb (rank p) (rank (highest_member_mode s))
unfolding holds_down_to highest_member_mode has_member_mode highest_channel_user_mode
    is_channel_user_mode
rank_of_highest none p h = ground arith
rank_of_highest (some s) p h = ground arith

-- A permission that is a channel-user mode is held by the founder of a registered channel, and by
-- the members whose highest mode is at least as high.
client_is_at_least_lem :
    (net : Net) (who : ℕ) (p : Mode)
    → is_channel_user_mode p ≡ true
    → client_is_at_least net who p ≡ (
        is_founder net.channel (net.clients who)
        || leb (rank p) (rank (highest_member_mode (lookup net.channel.members who))))
unfolding client_is_at_least
client_is_at_least_lem net who p h =
    ground (arith, rank_of_highest (lookup net.channel.members who) p h)

-- Where a member has a channel-user mode, his highest mode is one of his, and this mode does not
-- stand above it.
highest_member_mode_max :
    (s : ModeSet) (m : Mode)
    → is_channel_user_mode m ≡ true
    → has_mode s m ≡ true
    → (rank m ≤ rank (highest_member_mode (some s)))
      × (has_mode s (highest_member_mode (some s)) ≡ true)
unfolding highest_member_mode highest_channel_user_mode is_channel_user_mode
highest_member_mode_max s m h k = ground arith

highest-IsStatus : (s : Option ModeSet) → IsStatus (highest_member_mode s)
unfolding highest_member_mode highest_channel_user_mode is_channel_user_mode
highest-IsStatus none = refl
highest-IsStatus (some s) = ground arith

-- Who may act on a member: on a registered channel the founder on everybody, and nobody else on the
-- founder; otherwise a member from halfop on, on whoever stands below him, an operator also on
-- operators, and a client with +q also on others with +q.
client_has_privs_over_lem :
    (net : Net) (who target : ℕ)
    → let mine = rank (highest_member_mode (lookup net.channel.members who)) in
      let theirs = rank (highest_member_mode (lookup net.channel.members target)) in
      client_has_privs_over net who target ≡ (
        if is_founder net.channel (net.clients who)
        then true
        else if is_founder net.channel (net.clients target)
        then false
        else ltb 1 mine && (ltb theirs mine || (theirs == mine && (mine == 5 || mine == 3))))
unfolding client_has_privs_over is_founder
client_has_privs_over_lem net who target =
    let s = lookup net.channel.members who in
    let t = lookup net.channel.members target in
    ground (
      arith,
      has_privs_over-rank (highest_member_mode s) (highest_member_mode t) (highest-IsStatus t),
    )
