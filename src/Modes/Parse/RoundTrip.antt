-- ===== src/Modes/Parse/RoundTrip.antt =====
-- ParseChannelModeChanges reads back what ModeChanges.Strings prints.
use oragono.Prelude.{
  ℕ, suc, ◌+◌, ◌-◌, String, ◌≡◌, refl, sym, ap, subst, ◌∙◌, ◌≢◌, inl, inr, Bool, true, false, ◌||◌,
  Option, none, some, List, [], ◌∷◌, ◌++◌, arith, nat_beq, if◌then◌else◌, Bool-cases, length,
  get_elem?, length-append, ◌==◌, ◌!=◌, nat_eq, string_eq, beq→eq,
}
use oragono.Prelude.GoMap.{GoMap}
use mathlib.Core.List.{append-nil, append_assoc}
use oragono.Modes.Letters.{Mode, list, ModeChange, user_limit_mode, key_mode}
use oragono.Modes.Privileges.{is_channel_user_mode}
use oragono.Modes.Parse.{
  ParseState, is_add, is_mask_mode, param, channel_arg, channel_supports, parse_letter,
  parse_letters, parse_start, parse_channel_mode_changes, letters_from, args_of, strings, same_op,
  op_rune, blank_change,
}

-- The argument is the one that the letter takes in its direction.
unfoldable pub has_right_arg : ModeChange → Bool
unfolding is_add
has_right_arg c =
    if is_mask_mode c.mode || is_channel_user_mode c.mode
    then c.arg != ""
    else if c.mode == user_limit_mode
    then (if is_add c.op then c.arg != "" else c.arg == "")
    else if c.mode == key_mode
    then (if is_add c.op then c.arg != "" else c.arg == "*")
    else c.arg == ""

-- A change that a client may ask for and the server announce.
pub record IsCanonical (c : ModeChange) : Type 0 where
  pub signed : c.op ≢ list
  pub supported : channel_supports c.mode ≡ true
  pub right_arg : has_right_arg c ≡ true

abbrev pub AllCanonical : List ModeChange → Type 0
AllCanonical [] = Unit {0}
AllCanonical (c ∷ cs) = IsCanonical c × AllCanonical cs

-- The signs are no modes.
sign_free :
    (m : Mode) → channel_supports m ≡ true → (nat_beq m b'-' ≡ false) × (nat_beq m b'+' ≡ false)
unfolding channel_supports
sign_free m h = ground arith

get_elem?-middle {ℓ} :
    {A : Type ℓ} (xs : List A) (a : A) (ys : List A) → get_elem? (xs ++ a ∷ ys) (length xs) ≡ some a
get_elem?-middle [] a ys = refl
get_elem?-middle (x ∷ xs) a ys = get_elem?-middle xs a ys

star_not_empty : (string_eq.equals "" "*") ≡ false
star_not_empty = refl

abbrev arg_count : ModeChange → ℕ
arg_count c = if c.arg == "" then 0 else 1

module _ (args : List String) where
  read_arg :
      (c : ModeChange) (skip : ℕ)
      → IsCanonical c
      → ((c.arg == "") ≡ false → param args skip ≡ some c.arg)
      → channel_arg args skip (blank_change c.op c.mode) ≡ some (c, skip + arg_count c)
  unfolding channel_arg has_right_arg
  read_arg c skip k p = elim (Bool-cases (c.arg == "")) [
    | inl e ↦
        let empty = beq→eq c.arg "" e in
        ground (arith, empty, subst (λ (a : String). (a == "*") ≡ false) (sym empty) star_not_empty)
    | inr e ↦ ground (arith, p e, string_eq.equals_iff c.arg "*")
  ]

  read_letter :
      (c : ModeChange) (st : ParseState)
      → IsCanonical c
      → st.op ≡ c.op
      → ((c.arg == "") ≡ false → param args st.skip_args ≡ some c.arg)
      → parse_letter channel_supports (channel_arg args) st c.mode
        ≡ record st { changes = st.changes ++ c ∷ []; skip_args = st.skip_args + arg_count c }
  unfolding parse_letter
  read_letter c st k o p =
      ground (arith, sign_free c.mode k.supported, read_arg c st.skip_args k p, k.supported)

  -- A sign is printed where the direction changes; it is read back as that direction.
  read_sign :
      (c : ModeChange) (cs : List ModeChange) (st : ParseState)
      → c.op ≢ list
      → parse_letters channel_supports (channel_arg args) st (letters_from st.op (c ∷ cs))
        ≡ parse_letters channel_supports
            (channel_arg args)
            (record st { op = c.op })
            (c.mode ∷ letters_from c.op cs)
  unfolding letters_from same_op op_rune parse_letters parse_letter
  read_sign c cs st h = ground arith

  abbrev read_change : ModeChange → ParseState → ParseState
  read_change c st = record st {
    op = c.op;
    changes = st.changes ++ c ∷ [];
    skip_args = st.skip_args + arg_count c;
  }

  read_head :
      (c : ModeChange) (cs : List ModeChange) (st : ParseState)
      → IsCanonical c
      → ((c.arg == "") ≡ false → param args st.skip_args ≡ some c.arg)
      → parse_letters channel_supports (channel_arg args) st (letters_from st.op (c ∷ cs))
        ≡ parse_letters channel_supports
            (channel_arg args)
            (read_change c st)
            (letters_from c.op cs)
  read_head c cs st k p = read_sign c cs st k.signed ∙ go
    where
      go :
          parse_letters channel_supports
            (channel_arg args)
            (record st { op = c.op })
            (c.mode ∷ letters_from c.op cs)
          ≡ parse_letters channel_supports
              (channel_arg args)
              (read_change c st)
              (letters_from c.op cs)
      go =
          unfold parse_letters in
          ap (λ s. parse_letters channel_supports (channel_arg args) s (letters_from c.op cs))
            (read_letter c (record st { op = c.op }) k refl p)

  next_arg :
      (c : ModeChange) (cs : List ModeChange) (pre : List String) (skip : ℕ)
      → args ≡ pre ++ args_of (c ∷ cs)
      → skip ≡ suc (length pre)
      → (c.arg == "") ≡ false
      → param args skip ≡ some c.arg
  unfolding args_of param
  next_arg c cs pre skip e n h =
      let at : skip - 1 ≡ length pre = omega arith in
      rw (at, e, h) (get_elem?-middle pre c.arg (args_of cs))

  -- The letters from some point on, with the arguments from the same point on.
  read_letters :
      (cs : List ModeChange) (pre : List String) (st : ParseState)
      → AllCanonical cs
      → args ≡ pre ++ args_of cs
      → st.skip_args ≡ suc (length pre)
      → let end = parse_letters channel_supports (channel_arg args) st (letters_from st.op cs) in
        (end.changes ≡ st.changes ++ cs) × (end.unknown ≡ st.unknown)
  unfolding args_of
  read_letters [] pre st k e n =
      unfold parse_letters letters_from in (sym (append-nil st.changes), refl)
  read_letters (c ∷ cs) pre st (k, ks) e n = elim (Bool-cases (c.arg == "")) [
    | inl bare ↦
        let (same, others) =
          read_letters cs pre (read_change c st) ks (rw (args_of, bare) at e)
            (ground (arith, bare)) in
        rw (read_head c cs st k (next_arg c cs pre st.skip_args e n))
          (same ∙ append_assoc st.changes (c ∷ []) cs, others)
    | inr one ↦
        let (same, others) =
          read_letters cs (pre ++ c.arg ∷ []) (read_change c st) ks
            (rw (args_of, one) at e ∙ sym (append_assoc pre (c.arg ∷ []) (args_of cs)))
            (ground (arith, one, length-append pre (c.arg ∷ []))) in
        rw (read_head c cs st k (next_arg c cs pre st.skip_args e n))
          (same ∙ append_assoc st.changes (c ∷ []) cs, others)
  ]

abbrev pub reparse : Option (List ℕ × List String) → List ModeChange × GoMap ℕ Bool
reparse none = parse_channel_mode_changes none []
reparse (some (letters, args)) = parse_channel_mode_changes (some letters) args

first_sign :
    (c : ModeChange) (cs : List ModeChange)
    → c.op ≢ list
    → op_rune c.op ∷ letters_from c.op (c ∷ cs) ≡ letters_from list (c ∷ cs)
unfolding letters_from same_op op_rune
first_sign c cs h = ground arith

-- Mode changes that are printed, as in a MODE line, are parsed back as they were, with no letter
-- unknown, provided that each adds or removes a known letter and has the argument that this letter
-- takes in this direction.
pub reparse-strings : (cs : List ModeChange) → AllCanonical cs → reparse (strings cs) ≡ (cs, [])
unfolding strings parse_channel_mode_changes
reparse-strings [] k = refl
reparse-strings (c ∷ cs) k =
    let (same, others) = read_letters (args_of (c ∷ cs)) (c ∷ cs) [] parse_start k refl refl in
    rw (first_sign c cs k.0.signed) (ground (arith, same, others))
