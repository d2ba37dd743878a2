-- ===== src/Modes/ModeSet.antt =====
-- ModeSet of irc/modes/modes.go over the bitset functions of irc/utils/bitset.go. A run of one
-- thread: the compare-and-swap of BitsetSet succeeds at its first attempt.
pub mod Laws
use oragono.Prelude.{
  ℕ, zero, suc, ◌+◌, ◌-◌, ◌*◌, ◌/◌, ◌%◌, ◌^◌, ◌≤◌, ◌<◌, min, max, bit_and, bit_or, String, ◌≡◌,
  refl, sym, ap, subst, ◌∙◌, fun_ext, ◌≢◌, ◌↔◌, ◌⊎◌, inl, inr, Bool, true, false, not, ◌&&◌, ◌||◌,
  Option, none, some, List, [], ◌∷◌, ◌++◌, map, reverse, arith, ltb, leb, nat_beq, if◌then◌else◌,
  ltb→lt, lt→ltb, leb→le, nat_beq_iff, nat_beq_refl, Bool-cases, Option-cases, length, get_elem?,
  set, length-append, length-set, get_elem?-set_self, get_elem?-set_ne, get_or, take, drop,
  replicate, take-append-drop, length-take, length-drop, length-replicate, length-map, Eq, ◌==◌,
  ◌!=◌, nat_eq, string_eq, beq_refl, beq_ne, beq→eq, beq→ne,
}
use oragono.Prelude.GoMap.{
  GoMap, lookup, has, insert, delete, lookup-insert, lookup-delete, length-insert, length-delete-le,
  lookup-insert_self,
}
use oragono.Modes.Letters.{Mode, no_mode, channel_user_modes, channel_mode_prefix}

-- ^mask on uint32
unfoldable pub complement32 : ℕ → ℕ
complement32 mask = 2 ^ 32 - 1 - mask

-- `none` is the panic of an index out of range.
unfoldable pub bitset_get : List ℕ → ℕ → Option Bool
bitset_get words position = elim (get_elem? words (position / 32)) [
  | none ↦ none
  | some block ↦ some (bit_and block (2 ^ (position % 32)) != 0)
]

unfoldable pub desired_block : ℕ → ℕ → Bool → ℕ
unfolding complement32
desired_block current mask true = bit_or current mask
desired_block current mask false = bit_and current (complement32 mask)

-- The new words, and whether the bit changed.
unfoldable pub bitset_set : List ℕ → ℕ → Bool → Option (List ℕ × Bool)
unfolding desired_block
bitset_set words position on = elim (get_elem? words (position / 32)) [
  | none ↦ none
  | some current ↦
      let desired = desired_block current (2 ^ (position % 32)) on in
      if current == desired
      then some (words, false)
      else some (set words (position / 32) desired, true)
]

-- [2]uint32
pub record ModeSet : Type 0 where
  pub lo : ℕ
  pub hi : ℕ

abbrev pub words : ModeSet → List ℕ
words s = s.lo ∷ s.hi ∷ []

abbrev pub new_mode_set : ModeSet
new_mode_set = record { lo = 0; hi = 0 }

-- uint(mode) - minMode, which wraps below 'A'.
abbrev pub position_of : Mode → ℕ
position_of mode = (mode + 2 ^ 64 - 65) % 2 ^ 64

-- A mode outside 'A'..'\x80' panics in Go; here it reads as absent, and setting it does nothing.
unfoldable pub has_mode : ModeSet → Mode → Bool
unfolding bitset_get
has_mode s mode = elim (bitset_get (words s) (position_of mode)) [ none ↦ false | some b ↦ b ]

of_words : ModeSet → Option (List ℕ × Bool) → ModeSet × Bool
of_words s (some (lo ∷ hi ∷ [], changed)) = (record { lo = lo; hi = hi }, changed)
of_words s _ = (s, false)

unfoldable pub set_mode : ModeSet → Mode → Bool → ModeSet × Bool
unfolding bitset_set of_words
set_mode s mode on = of_words s (bitset_set (words s) (position_of mode) on)

unfoldable pub modes_from : ModeSet → ℕ → Mode → List Mode
modes_from s zero i = []
modes_from s (suc n) i =
    let rest = modes_from s n (i + 1) in if has_mode s i then i ∷ rest else rest

-- for i = 'A'; i <= 'z'; i++
unfoldable pub all_modes : ModeSet → List Mode
unfolding modes_from has_mode
all_modes s = modes_from s 58 65

highest_among : ModeSet → List Mode → Mode
highest_among s [] = no_mode
highest_among s (m ∷ ms) = let rest = highest_among s ms in if has_mode s m then m else rest

-- HighestChannelUserMode
unfoldable pub highest_channel_user_mode : ModeSet → Mode
unfolding highest_among
highest_channel_user_mode s = highest_among s channel_user_modes

prefixes_among : ModeSet → List Mode → List ℕ
prefixes_among s [] = []
prefixes_among s (m ∷ ms) =
    let rest = prefixes_among s ms in if has_mode s m then channel_mode_prefix m ++ rest else rest

first_byte : List ℕ → List ℕ
first_byte [] = []
first_byte (b ∷ bs) = b ∷ []

-- Prefixes
unfoldable pub prefixes : ModeSet → Bool → List ℕ
unfolding prefixes_among first_byte channel_mode_prefix
prefixes s true = prefixes_among s channel_user_modes
prefixes s false = first_byte (prefixes_among s channel_user_modes)
