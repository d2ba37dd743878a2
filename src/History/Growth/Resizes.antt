-- ===== src/History/Growth/Resizes.antt =====
-- Any new size but 0 keeps the last items that fit.
use oragono.Prelude.{
  ℕ, zero, suc, ◌-◌, ◌/◌, ◌^◌, ◌≤◌, ◌<◌, ◌≡◌, refl, inl, inr, true, some, [], arith, Option-cases,
  length, take, drop, replicate, length-replicate, nat_eq, string_eq,
}
use oragono.Prelude.Bits.{le-bit_or}
use oragono.Ring.{contents, in_bounds}
use oragono.History.Buffer.{Item, uninitialized_item, Buffer, items, used}
use oragono.History.Growth.{smear, smear_all, round_up_to_power_of_two, resize_buffer}
use oragono.History.Growth.Copies.{discard_all}
use oragono.History.Growth.Kept.{Resized, shrink_or_grow_lem, length-items}

smear-le : (a v k : ℕ) → a ≤ v → a ≤ smear v k
smear-le a v k h = omega (arith, le-bit_or v (v / 2 ^ k))

smear_all-le : (v : ℕ) → v ≤ smear_all v
unfolding smear_all
smear_all-le v =
    let a = smear v 1 in
    let b = smear a 2 in
    let c = smear b 4 in
    let d = smear c 8 in
    smear-le v d 16
      (smear-le v c 8 (smear-le v b 4 (smear-le v a 2 (smear-le v v 1 (omega arith)))))

-- The power of two is not below the number.
pub round_up_to_power_of_two-le : (v : ℕ) → 0 < v → v ≤ round_up_to_power_of_two v
unfolding round_up_to_power_of_two
round_up_to_power_of_two-le v h = ground (arith, h, smear_all-le (v - 1))

pub drop_nil : {A : Type 0} (n : ℕ) → drop {A = A} n [] ≡ []
drop_nil zero = refl
drop_nil (suc n) = refl

pub take_nil : {A : Type 0} (n : ℕ) → take {A = A} n [] ≡ []
take_nil zero = refl
take_nil (suc n) = refl

pub resize_buffer_lem :
    (l : Buffer) (size : ℕ)
    → in_bounds l.buffer l.start l.end ≡ true
    → 0 < size
    → (l' : Buffer) × ((resize_buffer l size ≡ some l') × Resized l size l')
unfolding resize_buffer contents discard_all
resize_buffer_lem l size sound room = elim (Option-cases l.start) [
  | inl empty ↦ (
    record l { buffer = replicate size uninitialized_item },
    (
      rw empty refl,
      record {
        kept = ground (arith, empty, drop_nil {A = Item} (0 - size));
        lost = ground (arith, empty, take_nil {A = Item} (0 - size));
        bounded = rw empty refl;
        sized = length-replicate size uninitialized_item;
        limited = refl;
        timed = refl;
      },
    ),
  )
  | inr (start, at) ↦
      let r =
        shrink_or_grow_lem l size start at (ground (arith, at, sound)) (ground (arith, at, sound))
          room in
      (r.0, (ground (arith, at, room, r.1.0), r.1.1))
]

pub length-items-le :
    (l : Buffer)
    → in_bounds l.buffer l.start l.end ≡ true
    → (length (items l) ≡ used l) × (used l ≤ length l.buffer)
unfolding used contents
length-items-le l sound = elim (Option-cases l.start) [
  | inl empty ↦ ground (arith, empty)
  | inr (start, at) ↦ ground (arith, at, sound, length-items l start at)
]
