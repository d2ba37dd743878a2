-- ===== src/Modes/ModeSet/Laws.antt =====
-- A mode set behaves as a set of modes.
use oragono.Prelude.{
  ℕ, ◌-◌, ◌/◌, ◌%◌, ◌^◌, ◌≤◌, ◌<◌, ◌≡◌, inl, inr, Bool, true, false, not, arith, ltb, nat_beq,
  if◌then◌else◌, ltb→lt, Bool-cases, ◌==◌, nat_eq, string_eq,
}
use oragono.Prelude.Bits.{
  bit, bit-bit_and, bit-bit_or, bit-pow, bit-complement, bit-le, bit_and-pow, pow-lt,
  lt-pow_of_bits, bits_ext, bit-above,
}
use oragono.Modes.Letters.{Mode}
use oragono.Modes.ModeSet.{
  ModeSet, desired_block, complement32, bitset_get, bitset_set, has_mode, set_mode, position_of,
}

-- The letters that the set has room for.
abbrev pub IsModeLetter : Mode → Type 0
IsModeLetter m = (65 ≤ m) × (m < 129)

bit-desired :
    (cur i j : ℕ) (on : Bool)
    → i < 32
    → j < 32
    → bit (desired_block cur (2 ^ i) on) j
      ≡ (if nat_beq i j then (if on then 1 else 0) else bit cur j)
unfolding desired_block
bit-desired cur i j true p q = ground (arith, bit-bit_or j cur (2 ^ i), bit-pow i j, bit-le j cur)
bit-desired cur i j false p q = ground (
  arith,
  bit-bit_and j cur (complement32 (2 ^ i)),
  bit-complement 32 j (2 ^ i) (pow-lt i 32 p) q,
  bit-pow i j,
  bit-le j cur,
)

-- Writing the value that is there changes nothing.
desired_unchanged :
    (cur i : ℕ) (on : Bool)
    → i < 32
    → cur < 2 ^ 32
    → bit cur i ≡ (if on then 1 else 0)
    → desired_block cur (2 ^ i) on ≡ cur
unfolding desired_block
desired_unchanged cur i true p q h =
    bits_ext _ _ λ j. ground (arith, bit-bit_or j cur (2 ^ i), bit-pow i j, bit-le j cur)
desired_unchanged cur i false p q h = bits_ext _ _ λ j. elim (Bool-cases (ltb j 32)) [
  | inl low ↦ ground (
    arith,
    bit-bit_and j cur (complement32 (2 ^ i)),
    bit-complement 32 j (2 ^ i) (pow-lt i 32 p) (ltb→lt j 32 low),
    bit-pow i j,
    bit-le j cur,
  )
  | inr high ↦
      ground (arith, bit-bit_and j cur (complement32 (2 ^ i)), bit-above 32 j cur q (ground arith))
]

desired_bound :
    (cur i : ℕ) (on : Bool) → i < 32 → cur < 2 ^ 32 → desired_block cur (2 ^ i) on < 2 ^ 32
unfolding desired_block
desired_bound cur i true p q =
    lt-pow_of_bits 32 _
      λ j h. ground (arith, bit-bit_or j cur (2 ^ i), bit-pow i j, bit-above 32 j cur q h)
desired_bound cur i false p q =
    lt-pow_of_bits 32 _
      λ j h. ground (arith, bit-bit_and j cur (complement32 (2 ^ i)), bit-above 32 j cur q h)

abbrev pub block_of : ModeSet → Mode → ℕ
block_of s m = if ltb m 97 then s.lo else s.hi

abbrev pub offset_of : Mode → ℕ
offset_of m = if ltb m 97 then m - 65 else m - 97

position_low :
    (m : Mode) → 65 ≤ m → m < 97 → (position_of m / 32 ≡ 0) × (position_of m % 32 ≡ m - 65)
position_low m p q = omega arith

position_high :
    (m : Mode) → 97 ≤ m → m < 129 → (position_of m / 32 ≡ 1) × (position_of m % 32 ≡ m - 97)
position_high m p q = omega arith

pub has_mode-bit :
    (s : ModeSet) (m : Mode)
    → IsModeLetter m
    → has_mode s m ≡ nat_beq (bit (block_of s m) (offset_of m)) 1
unfolding has_mode
has_mode-bit s m h = elim (Bool-cases (ltb m 97)) [
  | inl low ↦
      let at = position_low m h.0 (ltb→lt m 97 low) in
      rw (low, at.0, at.1, has_mode, bitset_get)
        (ground (arith, bit_and-pow s.lo (m - 65), bit-le (m - 65) s.lo))
  | inr high ↦
      let at = position_high m (ground arith) h.1 in
      rw (high, at.0, at.1, has_mode, bitset_get)
        (ground (arith, bit_and-pow s.hi (m - 97), bit-le (m - 97) s.hi))
]

-- What SetMode computes, as a function of the block that holds the letter.
put_block : ModeSet → Mode → ℕ → ModeSet
put_block s m b = if ltb m 97 then record s { lo = b } else record s { hi = b }

set_mode-block :
    (s : ModeSet) (m : Mode) (on : Bool)
    → IsModeLetter m
    → let new = desired_block (block_of s m) (2 ^ offset_of m) on in
      set_mode s m on ≡ (if block_of s m == new then (s, false) else (put_block s m new, true))
unfolding set_mode put_block
set_mode-block s m on h = elim (Bool-cases (ltb m 97)) [
  | inl low ↦
      let at = position_low m h.0 (ltb→lt m 97 low) in
      rw (low, at.0, at.1, set_mode, bitset_set) (ground arith)
  | inr high ↦
      let at = position_high m (ground arith) h.1 in
      rw (high, at.0, at.1, set_mode, bitset_set) (ground arith)
]

pub record IsWords (s : ModeSet) : Type 0 where
  pub lo_fits : s.lo < 2 ^ 32
  pub hi_fits : s.hi < 2 ^ 32

block_fits : (s : ModeSet) (m : Mode) → IsWords s → block_of s m < 2 ^ 32
block_fits s m w = ground arith

offset-lt : (m : Mode) → IsModeLetter m → offset_of m < 32
offset-lt m h = ground arith

block-put :
    (s : ModeSet) (m k : Mode) (b : ℕ)
    → IsModeLetter m
    → IsModeLetter k
    → bit (block_of (put_block s m b) k) (offset_of k) ≡ (
        if ltb m 97
        then (if ltb k 97 then bit b (offset_of k) else bit (block_of s k) (offset_of k))
        else (if ltb k 97 then bit (block_of s k) (offset_of k) else bit b (offset_of k)))
unfolding put_block
block-put s m k b p q = ground arith

-- Setting one of the letters that have a bit sets or clears that letter and leaves all others.
pub has_mode-set_mode :
    (s : ModeSet) (m k : Mode) (on : Bool)
    → IsModeLetter m
    → IsModeLetter k
    → has_mode (set_mode s m on).0 k ≡ (if m == k then on else has_mode s k)
has_mode-set_mode s m k on p q =
    let new = desired_block (block_of s m) (2 ^ offset_of m) on in
    ground (
      arith,
      set_mode-block s m on p,
      has_mode-bit s k q,
      has_mode-bit (put_block s m new) k q,
      block-put s m k new p q,
      bit-desired (block_of s m) (offset_of m) (offset_of k) on (offset-lt m p) (offset-lt k q),
    )

-- Where the two words have 32 bits, setting a letter that has a bit reports a change exactly when
-- the letter changes.
pub changed-set_mode :
    (s : ModeSet) (m : Mode) (on : Bool)
    → IsModeLetter m
    → IsWords s
    → (set_mode s m on).1 ≡ (if has_mode s m then not on else on)
changed-set_mode s m on p w = ground (
  arith,
  set_mode-block s m on p,
  has_mode-bit s m p,
  bit-desired (block_of s m) (offset_of m) (offset_of m) on (offset-lt m p) (offset-lt m p),
  desired_unchanged (block_of s m) (offset_of m) on (offset-lt m p) (block_fits s m w),
  bit-le (offset_of m) (block_of s m),
)

pub set_mode-IsWords :
    (s : ModeSet) (m : Mode) (on : Bool) → IsModeLetter m → IsWords s → IsWords (set_mode s m on).0
unfolding put_block
set_mode-IsWords s m on p w = ground (
  arith,
  set_mode-block s m on p,
  desired_bound (block_of s m) (offset_of m) on (offset-lt m p) (block_fits s m w),
)
