-- ===== src/Modes/Privileges.antt =====
-- Which channel-user modes stand above which: umodeGreaterThan (irc/modes.go) and
-- channelUserModeHasPrivsOver (irc/channel.go).
pub mod Order
use oragono.Prelude.{
  ℕ, zero, suc, ◌+◌, ◌-◌, ◌*◌, ◌/◌, ◌%◌, ◌^◌, ◌≤◌, ◌<◌, min, max, bit_and, bit_or, String, ◌≡◌,
  refl, sym, ap, subst, ◌∙◌, fun_ext, ◌≢◌, ◌↔◌, ◌⊎◌, inl, inr, Bool, true, false, not, ◌&&◌, ◌||◌,
  Option, none, some, List, [], ◌∷◌, ◌++◌, map, reverse, arith, ltb, leb, nat_beq, if◌then◌else◌,
  ltb→lt, lt→ltb, leb→le, nat_beq_iff, nat_beq_refl, Bool-cases, Option-cases, length, get_elem?,
  set, length-append, length-set, get_elem?-set_self, get_elem?-set_ne, get_or, take, drop,
  replicate, take-append-drop, length-take, length-drop, length-replicate, length-map, Eq, ◌==◌,
  ◌!=◌, nat_eq, string_eq, beq_refl, beq_ne, beq→eq, beq→ne,
}
use oragono.Prelude.GoMap.{
  GoMap, lookup, has, insert, delete, lookup-insert, lookup-delete, length-insert, length-delete-le,
  lookup-insert_self,
}
use oragono.Modes.Letters.{
  Mode, no_mode, channel_user_modes, channel_founder, channel_admin, channel_operator, halfop,
  voice,
}

greater_in : Mode → Mode → List Mode → Bool
greater_in l r [] = false
greater_in l r (mode ∷ rest) =
    let later = greater_in l r rest in
    if l == mode && r != mode then true else if r == mode then false else later

-- l > r
unfoldable pub umode_greater_than : Mode → Mode → Bool
unfolding greater_in
umode_greater_than l r = greater_in l r channel_user_modes

-- May a client of the first mode grant or take the second, or kick its holders?
unfoldable pub has_privs_over : Mode → Mode → Bool
has_privs_over client target =
    if client == channel_founder
    then true
    else if client == channel_admin || client == channel_operator
    then target != channel_founder && target != channel_admin
    else if client == halfop
    then target == voice || target == no_mode
    else false

unfoldable pub is_channel_user_mode : Mode → Bool
is_channel_user_mode m =
    m == channel_founder || m == channel_admin || m == channel_operator || m == halfop || m == voice
