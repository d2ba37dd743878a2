-- ===== src/Masks.antt =====
-- irc/utils/glob.go and irc/usermaskset.go: glob expressions and the sets of ban, exception and
-- invite masks. The package regexp is a parameter; a compiled expression is its source text.
pub mod Coherence
use oragono.Prelude.{
  ℕ, zero, suc, ◌+◌, ◌-◌, ◌*◌, ◌/◌, ◌%◌, ◌^◌, ◌≤◌, ◌<◌, min, max, bit_and, bit_or, String, ◌≡◌,
  refl, sym, ap, subst, ◌∙◌, fun_ext, ◌≢◌, ◌↔◌, ◌⊎◌, inl, inr, Bool, true, false, not, ◌&&◌, ◌||◌,
  Option, none, some, List, [], ◌∷◌, ◌++◌, map, reverse, arith, ltb, leb, nat_beq, if◌then◌else◌,
  ltb→lt, lt→ltb, leb→le, nat_beq_iff, nat_beq_refl, Bool-cases, Option-cases, length, get_elem?,
  set, length-append, length-set, get_elem?-set_self, get_elem?-set_ne, get_or, take, drop,
  replicate, take-append-drop, length-take, length-drop, length-replicate, length-map, Eq, ◌==◌,
  ◌!=◌, nat_eq, string_eq, beq_refl, beq_ne, beq→eq, beq→ne,
}
use oragono.Prelude.GoMap.{
  GoMap, lookup, has, insert, delete, lookup-insert, lookup-delete, length-insert, length-delete-le,
  lookup-insert_self,
}
use Prim.Native.Char.{code}
use Prim.Native.String.{slice, len}
use text.Mathlib.Text.{starts_with}

-- The runes of a text.
abbrev pub runes : String → List ℕ
runes String.[] = []
runes (String.◌∷◌ c s) = code c ∷ runes s

pub record RegexpPackage : Type 0 where
  pub quote_meta : ℕ → List ℕ
  pub compiles : List ℕ → Bool
  pub match_string : List ℕ → String → Bool

abbrev pub Regexp : Type 0
Regexp = List ℕ

pub record MaskInfo : Type 0 where
  pub time_created : ℕ
  pub creator_nickmask : String
  pub creator_account : String

-- `none` is the null pointer of an expression that is not there.
pub record UserMaskSet : Type 0 where
  pub masks : GoMap String MaskInfo
  pub regexp : Option Regexp
  pub mute_regexp : Option Regexp

abbrev pub new_user_mask_set : UserMaskSet
new_user_mask_set = record { masks = []; regexp = none; mute_regexp = none }

module _ (re : RegexpPackage) where
  open re use {quote_meta, compiles, match_string}

  -- The text of one rune, or the error on the replacement rune.
  rune_regexp : Bool → ℕ → Option (List ℕ)
  rune_regexp submatch r =
      if r == b'*'
      then some (if submatch then b'(' ∷ b'.' ∷ b'*' ∷ b')' ∷ [] else b'.' ∷ b'*' ∷ [])
      else if r == b'?'
      then some (if submatch then b'(' ∷ b'.' ∷ b')' ∷ [] else b'.' ∷ [])
      else if r == 0xFFFD
      then none
      else some (quote_meta r)

  append_both : Option (List ℕ) → Option (List ℕ) → Option (List ℕ)
  append_both none t = none
  append_both (some s) none = none
  append_both (some s) (some t) = some (s ++ t)

  unfoldable pub add_regexp : List ℕ → Bool → Option (List ℕ)
  unfolding rune_regexp append_both
  add_regexp [] submatch = some []
  add_regexp (r ∷ glob) submatch = append_both (rune_regexp submatch r) (add_regexp glob submatch)

  compile : Option (List ℕ) → Option Regexp
  compile none = none
  compile (some expr) = if compiles expr then some expr else none

  enclose : List ℕ → List ℕ → Option (List ℕ) → Option (List ℕ)
  enclose before after none = none
  enclose before after (some expr) = some (before ++ expr ++ after)

  unfoldable pub compile_glob : List ℕ → Bool → Option Regexp
  unfolding compile enclose add_regexp
  compile_glob glob submatch = compile (enclose (b'^' ∷ []) (b'$' ∷ []) (add_regexp glob submatch))

  -- The masks, with `|` between them.
  alternatives : List (List ℕ) → Option (List ℕ)
  unfolding append_both
  alternatives [] = some []
  alternatives (mask ∷ []) = add_regexp mask false
  alternatives (mask ∷ next ∷ rest) =
      append_both (add_regexp mask false)
        (append_both (some (b'|' ∷ [])) (alternatives (next ∷ rest)))

  unfoldable pub compile_masks : List (List ℕ) → Option Regexp
  unfolding compile enclose alternatives
  compile_masks masks = compile (enclose (b'^' ∷ b'(' ∷ []) (b')' ∷ b'$' ∷ []) (alternatives masks))

  is_mute : String → Bool
  is_mute mask = starts_with mask "m:"

  mute_exprs : GoMap String MaskInfo → List (List ℕ)
  unfolding is_mute
  mute_exprs [] = []
  mute_exprs ((mask, info) ∷ m) =
      let rest = mute_exprs m in
      if is_mute mask then runes (slice mask 2 (len mask)) ∷ rest else rest

  mask_exprs : GoMap String MaskInfo → List (List ℕ)
  unfolding is_mute
  mask_exprs [] = []
  mask_exprs ((mask, info) ∷ m) =
      let rest = mask_exprs m in if is_mute mask then rest else runes mask ∷ rest

  compile_some : List (List ℕ) → Option Regexp
  compile_some [] = none
  compile_some (mask ∷ masks) = compile_masks (mask ∷ masks)

  unfoldable pub set_regexp : UserMaskSet → UserMaskSet
  unfolding compile_some mute_exprs mask_exprs
  set_regexp s = record s {
    regexp = compile_some (mask_exprs s.masks);
    mute_regexp = compile_some (mute_exprs s.masks);
  }

  -- The set, and the mask that was added; `none` is the empty text. `canonical` is what
  -- CanonicalizeMaskWildcard makes of the mask, if it accepts it.
  unfoldable pub add_mask : UserMaskSet → Option String → MaskInfo → UserMaskSet × Option String
  unfolding set_regexp
  add_mask s none info = (s, none)
  add_mask s (some mask) info =
      if has s.masks mask
      then (s, none)
      else (set_regexp (record s { masks = insert s.masks mask info }), some mask)

  unfoldable pub remove_mask : UserMaskSet → Option String → UserMaskSet × Option String
  unfolding set_regexp
  remove_mask s none = (s, none)
  remove_mask s (some mask) =
      if has s.masks mask
      then (set_regexp (record s { masks = delete s.masks mask }), some mask)
      else (s, none)

  unfoldable pub set_masks : UserMaskSet → GoMap String MaskInfo → UserMaskSet
  unfolding set_regexp
  set_masks s masks = set_regexp (record s { masks = masks })

  unfoldable pub match_regexp : Option Regexp → String → Bool
  match_regexp none text = false
  match_regexp (some expr) text = match_string expr text

  -- Match and MatchMute
  unfoldable pub match : UserMaskSet → String → Bool
  unfolding match_regexp
  match s userhost = match_regexp s.regexp userhost

  unfoldable pub match_mute : UserMaskSet → String → Bool
  unfolding match_regexp
  match_mute s userhost = match_regexp s.mute_regexp userhost
