-- ===== src/Modes/Parse.antt =====
-- ParseUserModeChanges, ParseChannelModeChanges and ModeChanges.Strings of irc/modes/modes.go.
-- The first parameter, the mode letters, is a list of runes; the others are texts, and stand at
-- their index less one.
pub mod Sound
pub mod RoundTrip
use oragono.Prelude.{
  ℕ, zero, suc, ◌+◌, ◌-◌, ◌*◌, ◌/◌, ◌%◌, ◌^◌, ◌≤◌, ◌<◌, min, max, bit_and, bit_or, String, ◌≡◌,
  refl, sym, ap, subst, ◌∙◌, fun_ext, ◌≢◌, ◌↔◌, ◌⊎◌, inl, inr, Bool, true, false, not, ◌&&◌, ◌||◌,
  Option, none, some, List, [], ◌∷◌, ◌++◌, map, reverse, arith, ltb, leb, nat_beq, if◌then◌else◌,
  ltb→lt, lt→ltb, leb→le, nat_beq_iff, nat_beq_refl, Bool-cases, Option-cases, length, get_elem?,
  set, length-append, length-set, get_elem?-set_self, get_elem?-set_ne, get_or, take, drop,
  replicate, take-append-drop, length-take, length-drop, length-replicate, length-map, Eq, ◌==◌,
  ◌!=◌, nat_eq, string_eq, beq_refl, beq_ne, beq→eq, beq→ne,
}
use oragono.Prelude.GoMap.{
  GoMap, lookup, has, insert, delete, lookup-insert, lookup-delete, length-insert, length-delete-le,
  lookup-insert_self,
}
use oragono.Modes.Letters.{
  Mode, ModeOp, add, list, remove, ModeChange, ban_mask, except_mask, invite_mask, user_limit_mode,
  key_mode, server_notice, channel_user_modes, supported_channel_modes, supported_user_modes,
}
use oragono.Modes.Privileges.{is_channel_user_mode}

pub record ParseState : Type 0 where
  pub op : ModeOp
  pub skip_args : ℕ
  pub changes : List ModeChange
  pub unknown : GoMap ℕ Bool

unfoldable pub is_add : ModeOp → Bool
is_add add = true
is_add list = false
is_add remove = false

unfoldable pub is_remove : ModeOp → Bool
is_remove add = false
is_remove list = false
is_remove remove = true

unfoldable pub is_mask_mode : Mode → Bool
is_mask_mode m = m == ban_mask || m == except_mask || m == invite_mask

-- params[i], if len(params) > i
unfoldable pub param : List String → ℕ → Option String
param args i = get_elem? args (i - 1)

abbrev pub with_arg : ModeChange → String → ModeChange
with_arg c a = record c { arg = a }

-- The switch that attaches an argument; `none` is `continue`.
mask_arg : Option String → ℕ → ModeChange → Option (ModeChange × ℕ)
mask_arg (some a) skip c = some (with_arg c a, skip + 1)
mask_arg none skip c = some (record c { op = list }, skip)

required_arg : Option String → ℕ → ModeChange → Option (ModeChange × ℕ)
required_arg (some a) skip c = some (with_arg c a, skip + 1)
required_arg none skip c = none

key_arg : Option String → ℕ → ModeChange → Option (ModeChange × ℕ)
key_arg (some a) skip c =
    let c' = if is_add c.op then with_arg c a else c in
    some (if is_remove c.op then with_arg c' "*" else c', skip + 1)
key_arg none skip c =
    if is_add c.op then none else some (if is_remove c.op then with_arg c "*" else c, skip)

unfoldable pub channel_arg : List String → ℕ → ModeChange → Option (ModeChange × ℕ)
unfolding mask_arg required_arg key_arg is_add is_remove is_mask_mode is_channel_user_mode param
channel_arg args skip c =
    if is_mask_mode c.mode
    then mask_arg (param args skip) skip c
    else if is_channel_user_mode c.mode
    then required_arg (param args skip) skip c
    else if c.mode == user_limit_mode
    then (if is_add c.op then required_arg (param args skip) skip c else some (c, skip))
    else if c.mode == key_mode
    then key_arg (param args skip) skip c
    else some (c, skip)

unfoldable pub user_arg : List String → ℕ → ModeChange → Option (ModeChange × ℕ)
unfolding required_arg param
user_arg args skip c =
    if c.mode == server_notice then required_arg (param args skip) skip c else some (c, skip)

-- `for _, supportedMode := range …`
unfoldable pub supports : List Mode → Mode → Bool
supports [] m = false
supports (s ∷ ss) m = let rest = supports ss m in if s == m then true else rest

unfoldable pub channel_supports : Mode → Bool
unfolding supports
channel_supports m = supports supported_channel_modes m || supports channel_user_modes m

unfoldable pub user_supports : Mode → Bool
unfolding supports
user_supports m = supports supported_user_modes m

unfoldable pub record_change : (Mode → Bool) → ParseState → Option (ModeChange × ℕ) → ParseState
record_change known st none = st
record_change known st (some (c, skip)) =
    if known c.mode
    then record st { changes = st.changes ++ c ∷ []; skip_args = skip }
    else record st { unknown = insert st.unknown c.mode true; skip_args = skip }

abbrev blank_change : ModeOp → Mode → ModeChange
blank_change op m = record { mode = m; op = op; arg = "" }

-- One round of the loop over the letters.
unfoldable pub parse_letter :
    (Mode → Bool) → (ℕ → ModeChange → Option (ModeChange × ℕ)) → ParseState → ℕ → ParseState
unfolding record_change
parse_letter known arg_of st m =
    if m == b'-'
    then record st { op = remove }
    else if m == b'+'
    then record st { op = add }
    else record_change known st (arg_of st.skip_args (blank_change st.op m))

unfoldable pub parse_letters :
    (Mode → Bool) → (ℕ → ModeChange → Option (ModeChange × ℕ)) → ParseState → List ℕ → ParseState
parse_letters known arg_of st [] = st
parse_letters known arg_of st (m ∷ ms) =
    parse_letters known arg_of (parse_letter known arg_of st m) ms

abbrev pub parse_start : ParseState
parse_start = record { op = list; skip_args = 1; changes = []; unknown = [] }

-- `none` is a call with no parameters.
unfoldable pub parse_channel_mode_changes :
    Option (List ℕ) → List String → List ModeChange × GoMap ℕ Bool
unfolding parse_letters
parse_channel_mode_changes none args = ([], [])
parse_channel_mode_changes (some letters) args =
    let st = parse_letters channel_supports (channel_arg args) parse_start letters in
    (st.changes, st.unknown)

unfoldable pub parse_user_mode_changes :
    Option (List ℕ) → List String → List ModeChange × GoMap ℕ Bool
unfolding parse_letters
parse_user_mode_changes none args = ([], [])
parse_user_mode_changes (some letters) args =
    let st = parse_letters user_supports (user_arg args) parse_start letters in
    (st.changes, st.unknown)

unfoldable pub op_rune : ModeOp → ℕ
op_rune add = b'+'
op_rune list = b'='
op_rune remove = b'-'

unfoldable pub same_op : ModeOp → ModeOp → Bool
same_op add add = true
same_op list list = true
same_op remove remove = true
same_op _ _ = false

-- The builder after the first sign, with the sign that is in force.
unfoldable pub letters_from : ModeOp → List ModeChange → List ℕ
letters_from op [] = []
letters_from op (c ∷ cs) =
    let rest = letters_from c.op cs in
    if same_op c.op op then c.mode ∷ rest else op_rune c.op ∷ c.mode ∷ rest

unfoldable pub args_of : List ModeChange → List String
args_of [] = []
args_of (c ∷ cs) = let rest = args_of cs in if c.arg == "" then rest else c.arg ∷ rest

-- Strings; `none` is the empty result.
unfoldable pub strings : List ModeChange → Option (List ℕ × List String)
unfolding letters_from args_of same_op op_rune
strings [] = none
strings (c ∷ cs) = some (op_rune c.op ∷ letters_from c.op (c ∷ cs), args_of (c ∷ cs))
