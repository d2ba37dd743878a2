-- ===== src/Channel/Access.antt =====
-- Who may do what on a channel: ClientIsAtLeast and ClientHasPrivsOver of irc/channel.go.
pub mod Laws
use oragono.Prelude.{
  ℕ, zero, suc, ◌+◌, ◌-◌, ◌*◌, ◌/◌, ◌%◌, ◌^◌, ◌≤◌, ◌<◌, min, max, bit_and, bit_or, String, ◌≡◌,
  refl, sym, ap, subst, ◌∙◌, fun_ext, ◌≢◌, ◌↔◌, ◌⊎◌, inl, inr, Bool, true, false, not, ◌&&◌, ◌||◌,
  Option, none, some, List, [], ◌∷◌, ◌++◌, map, reverse, arith, ltb, leb, nat_beq, if◌then◌else◌,
  ltb→lt, lt→ltb, leb→le, nat_beq_iff, nat_beq_refl, Bool-cases, Option-cases, length, get_elem?,
  set, length-append, length-set, get_elem?-set_self, get_elem?-set_ne, get_or, take, drop,
  replicate, take-append-drop, length-take, length-drop, length-replicate, length-map, Eq, ◌==◌,
  ◌!=◌, nat_eq, string_eq, beq_refl, beq_ne, beq→eq, beq→ne,
}
use oragono.Prelude.GoMap.{
  GoMap, lookup, has, insert, delete, lookup-insert, lookup-delete, length-insert, length-delete-le,
  lookup-insert_self,
}
use oragono.Modes.Letters.{Mode, channel_user_modes}
use oragono.Modes.Privileges.{has_privs_over}
use oragono.Modes.ModeSet.{ModeSet}
use oragono.Channel.State.{Client, Channel, Net, has_member_mode, highest_member_mode}

-- The loop over the modes from the highest down to the permission asked for.
unfoldable pub holds_down_to : Option ModeSet → Mode → List Mode → Bool
holds_down_to s permission [] = false
holds_down_to s permission (m ∷ ms) =
    let rest = holds_down_to s permission ms in
    if has_member_mode s m then true else if m == permission then false else rest

unfoldable pub is_founder : Channel → Client → Bool
is_founder ch c = ch.registered_founder != "" && ch.registered_founder == c.account

unfoldable pub client_is_at_least : Net → ℕ → Mode → Bool
unfolding holds_down_to is_founder
client_is_at_least net who permission =
    if is_founder net.channel (net.clients who)
    then true
    else holds_down_to (lookup net.channel.members who) permission channel_user_modes

unfoldable pub client_has_privs_over : Net → ℕ → ℕ → Bool
client_has_privs_over net who target =
    let ch = net.channel in
    let by_modes =
      has_privs_over (highest_member_mode (lookup ch.members who))
        (highest_member_mode (lookup ch.members target)) in
    if ch.registered_founder != ""
    then (if ch.registered_founder == (net.clients who).account
        then true
        else if ch.registered_founder == (net.clients target).account
        then false
        else by_modes)
    else by_modes

unfoldable pub has_client : Channel → ℕ → Bool
has_client ch who = has ch.members who
