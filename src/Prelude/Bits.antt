-- ===== src/Prelude/Bits.antt =====
-- `&` and `|` on machine words, read bit by bit. `^mask` of a `w`-bit mask is `2 ^ w - 1 - mask`.
use Prim.Native.Nat.{
  ℕ, zero, suc, ◌+◌, ◌-◌, ◌*◌, ◌/◌, ◌%◌, ◌^◌, ◌≤◌, ◌<◌, min, max, bit_and, bit_or, digits,
  bit_and-bitwise, bit_or-bitwise,
}
use mathlib.Core.Path.{◌≡◌, refl, sym, ap, ◌∙◌}
use mathlib.Core.Bool.{false}
use native.Mathlib.Omega.{arith}
use native.Mathlib.Nat.{pow-suc, pow-le-pow_right, one-le-pow}
use oragono.Prelude.Tests.{if◌then◌else◌, nat_beq, nat_beq_iff, Bool-cases}
use mathlib.Core.Logic.{◌⊎◌, inl, inr}

-- Bit `j` of `a`: 0 or 1.
pub bit : ℕ → ℕ → ℕ
bit a zero = a % 2
bit a (suc j) = bit (a / 2) j

-- The library's `&` and `|` run on the digits of the first number with it as the fuel, which is enough.
module _ (rest : ℕ → ℕ) (f : ℕ → ℕ → ℕ) where
  no_digits : (fuel b : ℕ) → digits rest f fuel zero b ≡ rest b
  no_digits zero b = refl
  no_digits (suc fuel) b = refl

  any_fuel :
      (a b fuel more : ℕ) → a ≤ fuel → a ≤ more → digits rest f fuel a b ≡ digits rest f more a b
  any_fuel zero b fuel more h k = no_digits fuel b ∙ sym (no_digits more b)
  any_fuel (suc a) b zero more h k = absurd (omega arith)
  any_fuel (suc a) b (suc fuel) zero h k = absurd (omega arith)
  any_fuel (suc a) b (suc fuel) (suc more) h k =
      ap (λ (n : ℕ). n * 2 + f (suc a % 2) (b % 2))
        (any_fuel (suc a / 2) (b / 2) fuel more (omega arith) (omega arith))

  lowest_digit :
      (op : ℕ → ℕ → ℕ) (a b : ℕ)
      → ((n m : ℕ) → op n m ≡ digits rest f n n m)
      → op (suc a) b ≡ op (suc a / 2) (b / 2) * 2 + f (suc a % 2) (b % 2)
  lowest_digit op a b runs =
      runs (suc a) b
      ∙ ap (λ (n : ℕ). n * 2 + f (suc a % 2) (b % 2))
          (any_fuel (suc a / 2) (b / 2) a (suc a / 2) (omega arith) (omega arith)
            ∙ sym (runs (suc a / 2) (b / 2)))

halve-bit_and : (b a : ℕ) → bit_and a b ≡ bit_and (a / 2) (b / 2) * 2 + min (a % 2) (b % 2)
halve-bit_and b zero = omega (arith, bit_and-bitwise zero b, bit_and-bitwise zero (b / 2))
halve-bit_and b (suc a) = lowest_digit (λ m. zero) min bit_and a b bit_and-bitwise

halve-bit_or : (b a : ℕ) → bit_or a b ≡ bit_or (a / 2) (b / 2) * 2 + max (a % 2) (b % 2)
halve-bit_or b zero = omega (arith, bit_or-bitwise zero b, bit_or-bitwise zero (b / 2))
halve-bit_or b (suc a) = lowest_digit (λ m. m) max bit_or a b bit_or-bitwise

pub bit-bit_and : (j a b : ℕ) → bit (bit_and a b) j ≡ min (bit a j) (bit b j)
unfolding bit
bit-bit_and zero a b = omega (arith, halve-bit_and b a)
bit-bit_and (suc j) a b =
    let half : bit_and a b / 2 ≡ bit_and (a / 2) (b / 2) = omega (arith, halve-bit_and b a) in
    rw half (bit-bit_and j (a / 2) (b / 2))

pub bit-bit_or : (j a b : ℕ) → bit (bit_or a b) j ≡ max (bit a j) (bit b j)
unfolding bit
bit-bit_or zero a b = omega (arith, halve-bit_or b a)
bit-bit_or (suc j) a b =
    let half : bit_or a b / 2 ≡ bit_or (a / 2) (b / 2) = omega (arith, halve-bit_or b a) in
    rw half (bit-bit_or j (a / 2) (b / 2))

pub bit-zero : (j : ℕ) → bit 0 j ≡ 0
unfolding bit
bit-zero zero = refl
bit-zero (suc j) = bit-zero j

-- `1 << i` has bit `i` only.
pub bit-pow : (i j : ℕ) → bit (2 ^ i) j ≡ (if nat_beq i j then 1 else 0)
unfolding bit
bit-pow zero zero = refl
bit-pow zero (suc j) = ground (arith, bit-zero j)
bit-pow (suc i) zero = ground (arith, pow-suc 2 i)
bit-pow (suc i) (suc j) =
    let half : 2 ^ suc i / 2 ≡ 2 ^ i = omega (arith, pow-suc 2 i) in
    rw half (ground (arith, bit-pow i j))

pub bit-complement : (w j a : ℕ) → a < 2 ^ w → j < w → bit (2 ^ w - 1 - a) j ≡ 1 - bit a j
unfolding bit
bit-complement zero j a p q = absurd (omega arith)
bit-complement (suc w) zero a p q = omega (arith, pow-suc 2 w)
bit-complement (suc w) (suc j) a p q =
    let half : (2 ^ suc w - 1 - a) / 2 ≡ 2 ^ w - 1 - a / 2 = omega (arith, pow-suc 2 w) in
    rw half (bit-complement w j (a / 2) (omega (arith, pow-suc 2 w)) (omega arith))

pub bit-le : (j a : ℕ) → bit a j ≤ 1
unfolding bit
bit-le zero a = omega arith
bit-le (suc j) a = bit-le j (a / 2)

-- A number whose bits are all 0 is 0.
all_bits_zero_below : (n a : ℕ) → a ≤ n → ((j : ℕ) → bit a j ≡ 0) → a ≡ 0
unfolding bit
all_bits_zero_below zero a p h = omega arith
all_bits_zero_below (suc n) zero p h = refl
all_bits_zero_below (suc n) (suc a) p h =
    let half : suc a / 2 ≡ 0 = all_bits_zero_below n (suc a / 2) (omega arith) (λ j. h (suc j)) in
    omega (arith, h 0)

-- The single-bit test `(a & (1 << i)) != 0`.
pub bit_and-pow : (a i : ℕ) → nat_beq (bit_and a (2 ^ i)) 0 ≡ nat_beq (bit a i) 0
bit_and-pow a i = elim (zero_or_one (bit a i) (bit-le i a)) [
  | inl off ↦ rw (off, all_zero off) refl
  | inr on ↦ rw on (clear on)
]
  where
    zero_or_one : (n : ℕ) → n ≤ 1 → (n ≡ 0) ⊎ (n ≡ 1)
    zero_or_one n h = omega arith

    meet : (j : ℕ) → bit (bit_and a (2 ^ i)) j ≡ min (bit a j) (if nat_beq i j then 1 else 0)
    meet j = rw (bit-bit_and, bit-pow) refl

    at : bit a i ≡ 0 → (j : ℕ) → bit (bit_and a (2 ^ i)) j ≡ 0
    at off j = elim (Bool-cases (nat_beq i j)) [
      | inl e ↦
          rw (meet j, e)
            (let s : i ≡ j = (nat_beq_iff i j).0 e in
              let o : bit a j ≡ 0 = rw s at off in omega arith)
      | inr e ↦ rw (meet j, e) (omega arith)
    ]

    all_zero : bit a i ≡ 0 → bit_and a (2 ^ i) ≡ 0
    all_zero off =
        all_bits_zero_below (bit_and a (2 ^ i)) (bit_and a (2 ^ i)) (omega arith) (at off)

    clear : bit a i ≡ 1 → nat_beq (bit_and a (2 ^ i)) 0 ≡ false
    clear on = ground (arith, meet i, bit-zero i, ap (λ (x : ℕ). bit x i))

bits_ext_below : (n a b : ℕ) → a ≤ n → b ≤ n → ((j : ℕ) → bit a j ≡ bit b j) → a ≡ b
unfolding bit
bits_ext_below zero a b p q h = omega arith
bits_ext_below (suc n) zero zero p q h = refl
bits_ext_below (suc n) (suc a) b p q h =
    let half : suc a / 2 ≡ b / 2 =
      bits_ext_below n (suc a / 2) (b / 2) (omega arith) (omega arith) (λ j. h (suc j)) in
    omega (arith, h 0)
bits_ext_below (suc n) zero (suc b) p q h =
    let half : zero / 2 ≡ suc b / 2 =
      bits_ext_below n (zero / 2) (suc b / 2) (omega arith) (omega arith) (λ j. h (suc j)) in
    omega (arith, h 0)

-- Numbers with the same bits are equal.
pub bits_ext : (a b : ℕ) → ((j : ℕ) → bit a j ≡ bit b j) → a ≡ b
bits_ext a b h = bits_ext_below (a + b) a b (omega arith) (omega arith) h

le_of_bits_below : (n a b : ℕ) → a ≤ n → ((j : ℕ) → bit a j ≤ bit b j) → a ≤ b
unfolding bit
le_of_bits_below zero a b p h = omega arith
le_of_bits_below (suc n) zero b p h = omega arith
le_of_bits_below (suc n) (suc a) b p h =
    let half : suc a / 2 ≤ b / 2 =
      le_of_bits_below n (suc a / 2) (b / 2) (omega arith) (λ j. h (suc j)) in
    omega (arith, h 0)

-- An or is at least its first part.
pub le-bit_or : (a b : ℕ) → a ≤ bit_or a b
le-bit_or a b = le_of_bits_below a a (bit_or a b) (omega arith) λ j. omega (arith, bit-bit_or j a b)

pub bit-above : (w j a : ℕ) → a < 2 ^ w → w ≤ j → bit a j ≡ 0
unfolding bit
bit-above zero j a p q = let e : a ≡ 0 = omega arith in rw e (bit-zero j)
bit-above (suc w) zero a p q = absurd (omega arith)
bit-above (suc w) (suc j) a p q = bit-above w j (a / 2) (omega (arith, pow-suc 2 w)) (omega arith)

-- A number with no bit from `w` on is below `2 ^ w`.
pub lt-pow_of_bits : (w a : ℕ) → ((j : ℕ) → w ≤ j → bit a j ≡ 0) → a < 2 ^ w
unfolding bit
lt-pow_of_bits zero a h =
    let e : a ≡ 0 = all_bits_zero_below a a (omega arith) (λ j. h j (omega arith)) in omega arith
lt-pow_of_bits (suc w) a h =
    omega (arith, pow-suc 2 w, lt-pow_of_bits w (a / 2) (λ j p. h (suc j) (omega arith)))

pub pow-lt : (i k : ℕ) → i < k → 2 ^ i < 2 ^ k
pow-lt i k h = omega (
  arith,
  pow-le-pow_right {n = 2} (omega arith) {i = suc i} {j = k} h,
  pow-suc 2 i,
  one-le-pow i 2,
)
