-- ===== src/UserModes.antt =====
-- The modes of users and what is counted and listed for them: Stats of irc/stats.go, SnoManager of
-- irc/snomanager.go with the masks of irc/sno/constants.go, and ApplyUserModeChanges of irc/modes.go. A mask
-- for server notices is a text of one rune. The host name that an oper class gives, and the messages, are
-- left out.
pub mod Counters
pub mod Notices
use oragono.Prelude.{
  ℕ, zero, suc, ◌+◌, ◌-◌, ◌*◌, ◌/◌, ◌%◌, ◌^◌, ◌≤◌, ◌<◌, min, max, bit_and, bit_or, String, ◌≡◌,
  refl, sym, ap, subst, ◌∙◌, fun_ext, ◌≢◌, ◌↔◌, ◌⊎◌, inl, inr, Bool, true, false, not, ◌&&◌, ◌||◌,
  Option, none, some, List, [], ◌∷◌, ◌++◌, map, reverse, arith, ltb, leb, nat_beq, if◌then◌else◌,
  ltb→lt, lt→ltb, leb→le, nat_beq_iff, nat_beq_refl, Bool-cases, Option-cases, length, get_elem?,
  set, length-append, length-set, get_elem?-set_self, get_elem?-set_ne, get_or, take, drop,
  replicate, take-append-drop, length-take, length-drop, length-replicate, length-map, Eq, ◌==◌,
  ◌!=◌, nat_eq, string_eq, beq_refl, beq_ne, beq→eq, beq→ne,
}
use oragono.Prelude.GoMap.{
  GoMap, lookup, has, insert, delete, distinct, distinct-insert, distinct-delete, lookup-insert,
  lookup-delete, length-insert, length-delete-le, lookup-insert_self,
}
use Prim.Native.String.{◌++◌ as append}
use oragono.Prelude.Int.{ℤ, pos, negsuc, ◌+ℤ◌, ◌-ℤ◌, ltb_ℤ}
use oragono.Modes.Letters.{
  Mode, ModeOp, ModeChange, add, list, remove, invisible, operator, local_operator, server_notice,
}
use oragono.Modes.ModeSet.{ModeSet, has_mode, set_mode}
use oragono.Channel.State.{Client, mark_client_dirty}

pub record StatsValues : Type 0 where
  pub unknown : ℤ
  pub total : ℤ
  pub highest : ℤ
  pub invisibles : ℤ
  pub operators : ℤ

abbrev pub one_if : Bool → ℤ
one_if true = pos 1
one_if false = pos 0

-- Add
unfoldable pub add_unregistered : StatsValues → StatsValues
add_unregistered s = record s { unknown = s.unknown +ℤ pos 1 }

unfoldable pub set_max : StatsValues → StatsValues
set_max s = if ltb_ℤ s.highest s.total then record s { highest = s.total } else s

unfoldable pub add_registered : StatsValues → Bool → Bool → StatsValues
unfolding set_max
add_registered s is_invisible is_operator = set_max (record s {
  invisibles = s.invisibles +ℤ one_if is_invisible;
  operators = s.operators +ℤ one_if is_operator;
  total = s.total +ℤ pos 1;
})

unfoldable pub register : StatsValues → Bool → StatsValues
unfolding set_max
register s is_invisible = set_max (record s {
  unknown = s.unknown -ℤ pos 1;
  invisibles = s.invisibles +ℤ one_if is_invisible;
  total = s.total +ℤ pos 1;
})

unfoldable pub change_invisible : StatsValues → ℤ → StatsValues
change_invisible s increment = record s { invisibles = s.invisibles +ℤ increment }

unfoldable pub change_operators : StatsValues → ℤ → StatsValues
change_operators s increment = record s { operators = s.operators +ℤ increment }

-- Remove
unfoldable pub remove_user : StatsValues → Bool → Bool → Bool → StatsValues
remove_user s registered is_invisible is_operator = record s {
  total = if registered then s.total -ℤ pos 1 else s.total;
  unknown = if registered then s.unknown else s.unknown -ℤ pos 1;
  invisibles = s.invisibles -ℤ one_if is_invisible;
  operators = s.operators -ℤ one_if is_operator;
}

-- sno.Mask
abbrev pub Mask : Type 0
Mask = String

abbrev valid_masks : List Mask
valid_masks = "a" ∷ "c" ∷ "j" ∷ "k" ∷ "n" ∷ "o" ∷ "q" ∷ "t" ∷ "u" ∷ "x" ∷ "v" ∷ []

one_of : Mask → List Mask → Bool
one_of mask [] = false
one_of mask (m ∷ ms) = m == mask || one_of mask ms

-- sno.ValidMasks[mask]
unfoldable pub is_valid_mask : Mask → Bool
unfolding one_of
is_valid_mask mask = one_of mask valid_masks

-- SnoManager: the clients that get the notices of a mask.
abbrev pub SendLists : Type 0
SendLists = GoMap Mask (GoMap ℕ Bool)

-- m.sendLists[mask]
abbrev pub send_list : SendLists → Mask → GoMap ℕ Bool
send_list lists mask = elim (lookup lists mask) [ none ↦ [] | some clients ↦ clients ]

unfoldable pub add_masks : SendLists → ℕ → List Mask → SendLists
unfolding is_valid_mask
add_masks lists c [] = lists
add_masks lists c (mask ∷ masks) =
    let added =
      if is_valid_mask mask
      then insert lists mask (insert (send_list lists mask) c true)
      else lists in
    add_masks added c masks

-- The clients without this one; an empty list stays as it is.
abbrev without_client : GoMap ℕ Bool → ℕ → GoMap ℕ Bool
without_client [] c = []
without_client (entry ∷ clients) c = delete (entry ∷ clients) c

unfoldable pub remove_masks : SendLists → ℕ → List Mask → SendLists
remove_masks lists c [] = lists
remove_masks lists c (mask ∷ masks) =
    let removed =
      if length (send_list lists mask) == 0
      then lists
      else insert lists mask (delete (send_list lists mask) c) in
    remove_masks removed c masks

-- RemoveClient: for mask := range m.sendLists
unfoldable pub remove_client : SendLists → ℕ → SendLists
remove_client [] c = []
remove_client ((mask, clients) ∷ lists) c =
    let rest = remove_client lists c in (mask, without_client clients c) ∷ rest

-- String: the masks of the client.
unfoldable pub masks_of : SendLists → ℕ → String
masks_of [] c = ""
masks_of ((mask, clients) ∷ lists) c =
    let rest = masks_of lists c in if has clients c then append mask rest else rest

-- The part of the server that the modes of users change.
pub record Tallies : Type 0 where
  pub stats : StatsValues
  pub send_lists : SendLists

-- for _, char := range change.Arg: the valid masks.
unfoldable pub valid_chars : String → List Mask
unfolding is_valid_mask
valid_chars String.[] = []
valid_chars (String.◌∷◌ c s) =
    let rest = valid_chars s in
    let mask = String.◌∷◌ c String.[] in if is_valid_mask mask then mask ∷ rest else rest

-- newArg
unfoldable pub joined : List Mask → String
joined [] = ""
joined (m ∷ ms) = append m (joined ms)

abbrev pub is_oper_mode : Mode → Bool
is_oper_mode m = m == operator || m == local_operator

-- ApplyUserModeChanges on one client: the client, the tallies, and the changes that were applied.
abbrev pub UserState : Type 0
UserState = Client × Tallies

-- The counters after the mode `m` of a client has changed.
unfoldable pub counted : StatsValues → Mode → ℤ → StatsValues
unfolding change_invisible change_operators
counted s m increment =
    if m == invisible
    then change_invisible s increment
    else if is_oper_mode m
    then change_operators s increment
    else s

unfoldable pub apply_add : Client → Tallies → ModeChange → Bool → UserState × List ModeChange
unfolding counted
apply_add c t change allowed =
    let (new_modes, changed) = set_mode c.modes change.mode true in
    if is_oper_mode change.mode && not allowed
    then ((c, t), [])
    else if changed
    then (
      (record c { modes = new_modes }, record t { stats = counted t.stats change.mode (pos 1) }),
      change ∷ [],
    )
    else ((c, t), [])

-- The removal of the masks when a client is no operator any more.
unfoldable pub drop_notices : ℕ → Tallies → Tallies
unfolding remove_client masks_of
drop_notices who t =
    if masks_of t.send_lists who == ""
    then t
    else record t { send_lists = remove_client t.send_lists who }

unfoldable pub apply_remove : ℕ → Client → Tallies → ModeChange → UserState × List ModeChange
unfolding counted drop_notices masks_of
apply_remove who c t change =
    let (new_modes, changed) = set_mode c.modes change.mode false in
    let after = record t { stats = counted t.stats change.mode (negsuc 0) } in
    let masks = masks_of t.send_lists who in
    let notice : ModeChange = record { mode = server_notice; op = remove; arg = masks } in
    if not changed
    then ((c, t), [])
    else if is_oper_mode change.mode
    then (
      (record c { modes = new_modes; is_oper = false }, drop_notices who after),
      if masks == "" then change ∷ [] else change ∷ notice ∷ [],
    )
    else ((record c { modes = new_modes }, after), change ∷ [])

unfoldable pub apply_notices : ℕ → Client → Tallies → ModeChange → UserState × List ModeChange
unfolding add_masks remove_masks valid_chars joined
apply_notices who c t change =
    let masks = valid_chars change.arg in
    let applied = record change { arg = joined masks } in
    if not (has_mode c.modes operator) then ((c, t), []) else elim change.op [
      | add ↦ ((c, record t { send_lists = add_masks t.send_lists who masks }), applied ∷ [])
      | list ↦ ((c, t), [])
      | remove ↦ ((c, record t { send_lists = remove_masks t.send_lists who masks }), applied ∷ [])
    ]

-- One round of the loop; `allowed` is `force && oper != nil`.
unfoldable pub apply_user_change :
    ℕ → Bool → Client → Tallies → ModeChange → UserState × List ModeChange
unfolding apply_add apply_remove apply_notices
apply_user_change who allowed c t change =
    if change.mode == server_notice then apply_notices who c t change else elim change.op [
      | add ↦ apply_add c t change allowed
      | list ↦ ((c, t), [])
      | remove ↦ apply_remove who c t change
    ]

unfoldable pub apply_user_changes :
    ℕ → Bool → Client → Tallies → List ModeChange → UserState × List ModeChange
unfolding apply_user_change
apply_user_changes who allowed c t [] = ((c, t), [])
apply_user_changes who allowed c t (change ∷ changes) =
    let ((c', t'), applied) = apply_user_change who allowed c t change in
    let (state, more) = apply_user_changes who allowed c' t' changes in (state, applied ++ more)

-- IncludeUserModes
abbrev include_user_modes : ℕ
include_user_modes = 4

abbrev pub marked : UserState × List ModeChange → UserState × List ModeChange
marked (s, []) = (s, [])
marked ((c, t), change ∷ changes) = ((mark_client_dirty include_user_modes c, t), change ∷ changes)

unfoldable pub apply_user_mode_changes :
    ℕ → Bool → Client → Tallies → List ModeChange → UserState × List ModeChange
unfolding apply_user_changes
apply_user_mode_changes who allowed c t changes =
    marked (apply_user_changes who allowed c t changes)
