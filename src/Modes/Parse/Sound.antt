-- ===== src/Modes/Parse/Sound.antt =====
-- What parsing yields, for the channel and for the user letters.
use oragono.Prelude.{
  ℕ, ◌-◌, String, ◌≡◌, refl, inl, inr, Bool, true, false, ◌&&◌, ◌||◌, Option, none, some, List, [],
  ◌∷◌, ◌++◌, arith, Bool-cases, get_elem?, ◌==◌, nat_eq, string_eq,
}
use oragono.Prelude.GoMap.{lookup, has, insert, lookup-insert}
use mathlib.Core.Bool.{false≢true}
use oragono.Modes.Letters.{Mode, ModeOp, ModeChange, key_mode, user_limit_mode}
use oragono.Modes.Privileges.{is_channel_user_mode}
use oragono.Modes.Parse.{
  ParseState, is_add, is_remove, is_mask_mode, channel_arg, channel_supports, parse_letter,
  parse_letters, parse_start, record_change, parse_channel_mode_changes, blank_change,
}

abbrev pub All {ℓ κ} : {A : Type ℓ} → (A → Type κ) → List A → Type κ
All P [] = Unit
All P (x ∷ xs) = P x × All P xs

All-snoc {ℓ κ} :
    {A : Type ℓ} (P : A → Type κ) (xs : List A) (x : A) → All P xs → P x → All P (xs ++ x ∷ [])
All-snoc P [] x h p = (p, tt)
All-snoc P (y ∷ xs) x h p = (h.0, All-snoc P xs x h.1 p)

-- Must the change have an argument from the line? A status, a limit or a key that is set, and a mask
-- that is added or removed.
unfoldable pub needs_arg : ModeChange → Bool
unfolding is_add is_remove
needs_arg c =
    is_channel_user_mode c.mode
    || ((c.mode == user_limit_mode || c.mode == key_mode) && is_add c.op)
    || (is_mask_mode c.mode && (is_add c.op || is_remove c.op))

-- Some argument of the line is the change's.
abbrev pub IsGiven : List String → ModeChange → Type 0
IsGiven args c = (i : ℕ) × (get_elem? args i ≡ some c.arg)

channel_arg-given :
    (args : List String) (skip n : ℕ) (op : ModeOp) (m : Mode) (c : ModeChange)
    → channel_arg args skip (blank_change op m) ≡ some (c, n)
    → (c.mode ≡ m) × (needs_arg c ≡ true → get_elem? args (skip - 1) ≡ some c.arg)
unfolding channel_arg needs_arg
channel_arg-given args skip n op m c h = ground arith

module _ (known : Mode → Bool) (arg_of : ℕ → ModeChange → Option (ModeChange × ℕ))
    (P : ModeChange → Type 0)
    (good_arg : (skip : ℕ) (op : ModeOp) (m : Mode) (c : ModeChange) (n : ℕ)
      → arg_of skip (blank_change op m) ≡ some (c, n)
      → P c) where
  record IsGood (st : ParseState) : Type 0 where
    kept : All (λ c. (known c.mode ≡ true) × P c) st.changes
    refused : (m : Mode) → has st.unknown m ≡ true → known m ≡ false

  refuse :
      (st : ParseState) (m : Mode)
      → known m ≡ false
      → ((k : Mode) → has st.unknown k ≡ true → known k ≡ false)
      → (k : Mode) → has (insert st.unknown m true) k ≡ true
      → known k ≡ false
  refuse st m h old k p = ground (arith, lookup-insert st.unknown m k true, old k)

  record_change-IsGood :
      (st : ParseState) (r : Option (ModeChange × ℕ))
      → ((c : ModeChange) (n : ℕ) → r ≡ some (c, n) → P c)
      → IsGood st
      → IsGood (record_change known st r)
  unfolding record_change
  record_change-IsGood st none p g = g
  record_change-IsGood st (some (c, n)) p g = elim (Bool-cases (known c.mode)) [
    | inl k ↦
        rw k (record { kept = All-snoc _ st.changes c g.kept (k, p c n refl); refused = g.refused })
    | inr k ↦ rw k (record { kept = g.kept; refused = refuse st c.mode k g.refused })
  ]

  parse_letter-IsGood :
      (st : ParseState) (m : Mode) → IsGood st → IsGood (parse_letter known arg_of st m)
  unfolding parse_letter
  parse_letter-IsGood st m g = elim (Bool-cases (m == b'-')) [
    | inl e ↦ rw e (record { kept = g.kept; refused = g.refused })
    | inr e ↦ elim (Bool-cases (m == b'+')) [
      | inl e' ↦ rw (e, e') (record { kept = g.kept; refused = g.refused })
      | inr e' ↦ rw (e, e') (record_change-IsGood st _ (good_arg st.skip_args st.op m) g)
    ]
  ]

  parse_letters-IsGood :
      (ms : List ℕ) (st : ParseState) → IsGood st → IsGood (parse_letters known arg_of st ms)
  unfolding parse_letters
  parse_letters-IsGood [] st g = g
  parse_letters-IsGood (m ∷ ms) st g = parse_letters-IsGood ms _ (parse_letter-IsGood st m g)

channel_arg-IsGiven :
    (args : List String) (skip : ℕ) (op : ModeOp) (m : Mode) (c : ModeChange) (n : ℕ)
    → channel_arg args skip (blank_change op m) ≡ some (c, n)
    → needs_arg c ≡ true
    → IsGiven args c
channel_arg-IsGiven args skip op m c n h need =
    (skip - 1, (channel_arg-given args skip n op m c h).1 need)

-- Every change that a channel MODE line yields is of a supported letter and has the argument that it
-- needs from the line; every letter reported as unknown is unsupported.
pub parse_channel_mode_changes_sound :
    (letters : List ℕ) (args : List String)
    → let (changes, unknown) = parse_channel_mode_changes (some letters) args in
      All (λ c. (channel_supports c.mode ≡ true) × (needs_arg c ≡ true → IsGiven args c)) changes
      × ((m : Mode) → has unknown m ≡ true → channel_supports m ≡ false)
unfolding parse_channel_mode_changes lookup
parse_channel_mode_changes_sound letters args = (end.kept, end.refused)
  where
    end :
        IsGood channel_supports
          (channel_arg args)
          (λ c. needs_arg c ≡ true → IsGiven args c)
          (channel_arg-IsGiven args)
          (parse_letters channel_supports (channel_arg args) parse_start letters)
    end =
        parse_letters-IsGood _ _ _ (channel_arg-IsGiven args) letters parse_start
          (record { kept = tt; refused = λ m h. absurd (false≢true h) })
