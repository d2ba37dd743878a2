-- ===== src/Channel/ModeChanges.antt =====
-- ApplyChannelModeChanges of irc/modes.go and applyModeToMember of irc/channel.go, without the replies. The two
-- warnings that are given once are replies, too.
pub mod Guards
pub mod Frame
use oragono.Prelude.{
  ℕ, zero, suc, ◌+◌, ◌-◌, ◌*◌, ◌/◌, ◌%◌, ◌^◌, ◌≤◌, ◌<◌, min, max, bit_and, bit_or, String, ◌≡◌,
  refl, sym, ap, subst, ◌∙◌, fun_ext, ◌≢◌, ◌↔◌, ◌⊎◌, inl, inr, Bool, true, false, not, ◌&&◌, ◌||◌,
  Option, none, some, List, [], ◌∷◌, ◌++◌, map, reverse, arith, ltb, leb, nat_beq, if◌then◌else◌,
  ltb→lt, lt→ltb, leb→le, nat_beq_iff, nat_beq_refl, Bool-cases, Option-cases, length, get_elem?,
  set, length-append, length-set, get_elem?-set_self, get_elem?-set_ne, get_or, take, drop,
  replicate, take-append-drop, length-take, length-drop, length-replicate, length-map, Eq, ◌==◌,
  ◌!=◌, nat_eq, string_eq, beq_refl, beq_ne, beq→eq, beq→ne,
}
use oragono.Prelude.GoMap.{
  GoMap, lookup, has, insert, delete, lookup-insert, lookup-delete, length-insert, length-delete-le,
  lookup-insert_self,
}
use oragono.Prelude.Int.{ℤ, pos}
use oragono.Modes.Letters.{
  Mode, ModeOp, add, list, remove, ModeChange, channel_founder, channel_admin, channel_operator,
  halfop, voice, ban_mask, except_mask, invite_mask, user_limit_mode, key_mode,
}
use oragono.Modes.ModeSet.{set_mode}
use oragono.Modes.Privileges.{has_privs_over}
use oragono.Masks.{runes, RegexpPackage, MaskInfo, UserMaskSet, add_mask, remove_mask}
use oragono.Channel.State.{
  Channel, Client, Net, Config, with_client, highest_member_mode, mark_dirty, mark_client_dirty,
  include_modes, include_lists, include_channels,
}
use oragono.Channel.Access.{client_is_at_least}

-- CanonicalizeMaskWildcard, ClientManager.Get, CasefoldName, which gives the empty text for an error, and
-- strconv.Atoi.
pub record Texts : Type 0 where
  pub canonical : String → Option String
  pub client_named : String → Option ℕ
  pub casefold_name : String → String
  pub atoi : String → Option ℤ

abbrev pub is_op : ModeOp → ModeOp → Bool
is_op add add = true
is_op list list = true
is_op remove remove = true
is_op add list = false
is_op add remove = false
is_op list add = false
is_op list remove = false
is_op remove add = false
is_op remove list = false

-- The modes of a member.
abbrev pub is_member_mode : Mode → Bool
is_member_mode m =
    m == channel_founder || m == channel_admin || m == channel_operator || m == halfop || m == voice

abbrev pub is_list_mode : Mode → Bool
is_list_mode m = m == ban_mask || m == except_mask || m == invite_mask

abbrev has_space : List ℕ → Bool
has_space [] = false
has_space (c ∷ cs) = c == b' ' || has_space cs

-- validateChannelKey
unfoldable pub validate_channel_key : String → Bool
validate_channel_key k = elim (runes k) [
  | [] ↦ true
  | c ∷ cs ↦ not (c == b':') && not (has_space (c ∷ cs))
]

module _ (env : Texts) where
  -- The function `hasPrivs` of ApplyChannelModeChanges.
  unfoldable pub has_privs : Net → ℕ → Bool → ModeChange → Bool
  has_privs net who is_samode change =
      let c = net.clients who in
      let ch = net.channel in
      if is_samode
      then true
      else if c.account != "" && c.account == ch.registered_founder
      then true
      else if is_member_mode change.mode
      then if is_op change.op list
        then true
        else if is_op change.op remove && env.casefold_name change.arg == c.nick_casefolded
        then true
        else has_privs_over (highest_member_mode (lookup ch.members who)) change.mode
      else if change.mode == invite_mask || change.mode == except_mask
      then client_is_at_least net who channel_operator
      else is_op change.op list || client_is_at_least net who channel_operator

  -- applyModeToMember, for the client that has the nickname.
  unfoldable pub apply_to_target : Net → ModeChange → Option ℕ → Net × Option ModeChange
  apply_to_target net change none = (net, none)
  apply_to_target net change (some target) =
      let ch = net.channel in
      let c = net.clients target in
      elim (lookup ch.members target) [
        | none ↦ (net, none)
        | some modes ↦
            let (modes', changed) = set_mode modes change.mode (is_op change.op add) in
            let net' = record net {
              channel = record ch { members = insert ch.members target modes' };
            } in
            if changed
            then (
              with_client net' target (mark_client_dirty include_channels c),
              some (record change { arg = c.nick }),
            )
            else (net, none)
      ]

  unfoldable pub apply_mode_to_member : Net → ModeChange → Net × Option ModeChange
  unfolding apply_to_target
  apply_mode_to_member net change = apply_to_target net change (env.client_named change.arg)

  unfoldable pub apply_user_limit : Net → ModeChange → Net × Option ModeChange
  apply_user_limit net change =
      let with_limit =
        λ (n : ℤ). record net { channel = record (net.channel) { user_limit = n } } in
      if is_op change.op add
      then elim (env.atoi change.arg) [ none ↦ (net, none) | some n ↦ (with_limit n, some change) ]
      else if is_op change.op remove
      then (with_limit (pos 0), some change)
      else (net, none)

unfoldable pub apply_key : Net → ModeChange → Net × Option ModeChange
apply_key net change =
    let with_key = λ (k : String). record net { channel = record (net.channel) { key = k } } in
    if is_op change.op add
    then if validate_channel_key change.arg then (with_key change.arg, some change) else (net, none)
    else if is_op change.op remove
    then (with_key "", some change)
    else (net, none)

-- channel.lists
abbrev pub list_of : Channel → Mode → UserMaskSet
list_of ch m =
    if m == ban_mask then ch.bans else if m == except_mask then ch.excepts else ch.invites

abbrev pub with_list : Channel → Mode → UserMaskSet → Channel
with_list ch m s =
    if m == ban_mask
    then record ch { bans = s }
    else if m == except_mask
    then record ch { excepts = s }
    else record ch { invites = s }

-- What has to be written after the changes.
unfoldable pub include_flags : List ModeChange → ℕ
include_flags [] = 0
include_flags (change ∷ changes) =
    let rest = include_flags changes in
    if is_list_mode change.mode
    then bit_or include_lists rest
    else if is_member_mode change.mode
    then rest
    else bit_or include_modes rest

module _ (re : RegexpPackage) (env : Texts) (cfg : Config) where
  -- A change of a list of masks.
  unfoldable pub apply_mask : Net → ℕ → ℕ → ModeChange → Net × Option ModeChange
  unfolding add_mask remove_mask
  apply_mask net who now change =
      let ch = net.channel in
      let c = net.clients who in
      let masks = list_of ch change.mode in
      let info : MaskInfo = record {
        time_created = now;
        creator_nickmask = c.nick_mask;
        creator_account = c.account_name;
      } in
      let (added, mask) = add_mask re masks (env.canonical change.arg) info in
      let (left, removed) = remove_mask re masks (env.canonical change.arg) in
      if is_op change.op list
      then (net, none)
      else if is_op change.op add
      then if leb cfg.chan_list_modes (length masks.masks) then (net, none) else elim mask [
        | none ↦ (net, none)
        | some m ↦ (
          record net { channel = with_list ch change.mode added },
          some (record change { arg = m }),
        )
      ]
      else elim removed [
        | none ↦ (net, none)
        | some m ↦ (
          record net { channel = with_list ch change.mode left },
          some (record change { arg = m }),
        )
      ]

  unfoldable pub apply_flag : Net → ModeChange → Net × Option ModeChange
  apply_flag net change =
      let ch = net.channel in
      let (flags, changed) = set_mode ch.flags change.mode (is_op change.op add) in
      if is_op change.op list
      then (net, none)
      else if changed
      then (record net { channel = record ch { flags = flags } }, some change)
      else (net, none)

  -- The body of the loop over the changes, after the privileges.
  unfoldable pub apply_change : Net → ℕ → ℕ → ModeChange → Net × Option ModeChange
  unfolding apply_mask apply_flag apply_key apply_user_limit apply_mode_to_member
  apply_change net who now change =
      if is_list_mode change.mode
      then apply_mask net who now change
      else if change.mode == user_limit_mode
      then apply_user_limit env net change
      else if change.mode == key_mode
      then apply_key net change
      else if is_member_mode change.mode
      then if is_op change.op list || change.arg == ""
        then (net, none)
        else apply_mode_to_member env net change
      else apply_flag net change

  -- The loop, and the changes that were applied.
  unfoldable pub apply_changes : Net → ℕ → Bool → ℕ → List ModeChange → Net × List ModeChange
  unfolding has_privs apply_change
  apply_changes net who is_samode now [] = (net, [])
  apply_changes net who is_samode now (change ∷ changes) =
      let (net', applied) =
        if has_privs env net who is_samode change
        then apply_change net who now change
        else (net, none) in
      let (net'', rest) = apply_changes net' who is_samode now changes in
      (net'', elim applied [ none ↦ rest | some a ↦ a ∷ rest ])

  unfoldable pub apply_channel_mode_changes :
      Net → ℕ → Bool → ℕ → List ModeChange → Net × List ModeChange
  unfolding apply_changes include_flags
  apply_channel_mode_changes net who is_samode now changes =
      let (net', applied) = apply_changes net who is_samode now changes in
      let flags = include_flags applied in
      (
        if flags == 0 then net' else record net' { channel = mark_dirty flags net'.channel },
        applied,
      )
