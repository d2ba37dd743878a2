-- ===== src/Modes/Privileges/Order.antt =====
-- The order of the channel-user modes.
use oragono.Prelude.{ℕ, ◌≡◌, true, ◌&&◌, ◌||◌, arith, ltb, if◌then◌else◌, ◌==◌, nat_eq, string_eq}
use oragono.Modes.Letters.{
  Mode, no_mode, channel_founder, channel_admin, channel_operator, halfop, voice,
}
use oragono.Modes.Privileges.{umode_greater_than, has_privs_over, is_channel_user_mode}

-- The documented ranks: founder, admin, operator, halfop, voice, and everybody else.
abbrev pub rank : Mode → ℕ
rank m =
    if m == channel_founder
    then 5
    else if m == channel_admin
    then 4
    else if m == channel_operator
    then 3
    else if m == halfop
    then 2
    else if m == voice
    then 1
    else 0

-- The loop over the channel-user modes decides the order of the ranks, of which a mode of no
-- member has the lowest.
umode_greater_than-rank : (l r : Mode) → umode_greater_than l r ≡ ltb (rank r) (rank l)
unfolding umode_greater_than
umode_greater_than-rank l r = ground arith

-- The status of a member: one of the channel-user modes, or none.
abbrev pub IsStatus : Mode → Type 0
IsStatus m = (is_channel_user_mode m || m == no_mode) ≡ true

-- Where the target mode is a channel-user mode or none: from halfop on, a client acts on whoever
-- stands below him; a founder also on founders, and an operator also on operators. Nobody else
-- acts on anyone.
pub has_privs_over-rank :
    (c t : Mode)
    → IsStatus t
    → has_privs_over c t ≡ (
        ltb 1 (rank c)
        && (ltb (rank t) (rank c) || (rank t == rank c && (rank c == 5 || rank c == 3))))
unfolding has_privs_over is_channel_user_mode
has_privs_over-rank c t h = ground arith
