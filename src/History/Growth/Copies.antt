-- ===== src/History/Growth/Copies.antt =====
-- What `resize` copies and what it forgets.
use oragono.Prelude.{
  ℕ, zero, suc, ◌+◌, ◌-◌, ◌≤◌, ◌<◌, min, ◌≡◌, refl, ap, inl, inr, some, List, [], ◌∷◌, ◌++◌, arith,
  ltb, Bool-cases, Option-cases, length, get_elem?, length-append, take, drop, replicate,
  length-drop, length-replicate, nat_eq, string_eq,
}
use oragono.Ring.{next, count}
use oragono.History.Buffer.{Item, uninitialized_item, Buffer, used, discard}
use oragono.History.Growth.{discard_until, copy, copy_items, kept_start}
use oragono.Ring.{visit, distance, forward, contents}
use oragono.Ring.Walk.{
  drop-append, mod-next, length-element, length-visit, visit-take, visit_around, take_all,
}
use mathlib.Core.List.{append_assoc}
use oragono.Ring.Scan.{Reaches}

unfoldable pub discard_all : ℕ → List Item → ℕ
unfolding discard
discard_all t [] = t
discard_all t (x ∷ xs) = discard_all (discard t x) xs

pub discard_until_lem :
    (buf : List Item) (stop n fuel i t : ℕ)
    → i < length buf
    → n ≤ fuel
    → Reaches (next (length buf)) stop n i
    → discard_until buf stop fuel i t ≡ some (discard_all t (visit (next (length buf)) buf i n))
unfolding discard_until Reaches visit discard_all
discard_until_lem buf stop zero zero i t hi enough r = ground (arith, r)
discard_until_lem buf stop zero (suc fuel) i t hi enough r = ground (arith, r)
discard_until_lem buf stop (suc n) zero i t hi enough r = elim enough [ ]
discard_until_lem buf stop (suc n) (suc fuel) i t hi enough r =
    elim (Option-cases (get_elem? buf i)) [
      | inl e ↦ ground (arith, e, length-element buf i hi)
      | inr (x, e) ↦ ground (
        arith,
        e,
        r,
        mod-next (length buf) i hi,
        discard_until_lem buf stop n fuel (next (length buf) i) (discard t x) (ground arith)
            (ground arith),
      )
    ]

-- The place and the number of the items that are kept.
pub kept_start_lem :
    (l : Buffer) (size start : ℕ)
    → l.start ≡ some start
    → start < length l.buffer
    → l.end < length l.buffer
    → 0 < size
    → (kept_start l size start < length l.buffer)
      × (kept_start l size start ≡ forward (length l.buffer) start (used l - size))
      × (distance (length l.buffer) start (kept_start l size start) ≡ used l - size)
      × (count (length l.buffer) (kept_start l size start) l.end ≡ min size (used l))
unfolding kept_start used
kept_start_lem l size start at hs he room = ground (arith, at)

pub take-append_self : {A : Type 0} (xs ys : List A) → take (length xs) (xs ++ ys) ≡ xs
take-append_self [] ys = refl
take-append_self (x ∷ xs) ys = ap (λ zs. x ∷ zs) (take-append_self xs ys)

copy_after :
    (front back xs : List Item)
    → length xs ≤ length back
    → copy (front ++ back) (length front) xs
      ≡ some ((front ++ xs) ++ drop (length xs) back, length xs)
copy_after front back xs small = ground (
  arith,
  length-append front back,
  take-append_self front back,
  take_all (length back) xs small,
  drop-append front back (length xs),
  append_assoc front xs (drop (length xs) back),
)

-- The items are copied, and nothing else changes the length of the new slice.
unfoldable pub Copied : Buffer → ℕ → ℕ → List Item → Type 0
Copied l size start xs =
    (rest : List Item) × ((copy_items l size start ≡ some (xs ++ rest, length xs))
      × (length (xs ++ rest) ≡ size))

copy_straight :
    (l : Buffer) (size start : ℕ) (xs : List Item)
    → start < l.end
    → xs ≡ take (l.end - start) (drop start l.buffer)
    → length xs ≤ size
    → Copied l size start xs
unfolding Copied copy_items
copy_straight l size start xs straight segment small =
    let blank = replicate size uninitialized_item in
    (
      drop (length xs) blank,
      (
        ground (
          arith,
          straight,
          segment,
          copy_after [] blank xs,
          length-replicate size uninitialized_item,
          small,
        ),
        ground (
          arith,
          length-append xs (drop (length xs) blank),
          length-drop (length xs) blank,
          length-replicate size uninitialized_item,
          small,
        ),
      ),
    )

copy_around :
    (l : Buffer) (size start : ℕ) (front back : List Item)
    → l.end ≤ start
    → start < length l.buffer
    → front ≡ drop start l.buffer
    → back ≡ take l.end l.buffer
    → length front + length back ≤ size
    → Copied l size start (front ++ back)
unfolding Copied copy_items
copy_around l size start front back around hs before after small =
    let blank = replicate size uninitialized_item in
    let rest = drop (length front) blank in
    let room : length rest ≡ size - length front =
      ground (arith, length-drop (length front) blank, length-replicate size uninitialized_item) in
    let offset : length l.buffer - start ≡ length front =
      ground (arith, before, length-drop start l.buffer) in
    (
      drop (length back) rest,
      (
        ground (
          arith,
          around,
          before,
          after,
          offset,
          room,
          copy_after [] blank front,
          copy_after front rest back,
          length-append front back,
          length-replicate size uninitialized_item,
          small,
        ),
        ground (
          arith,
          length-append (front ++ back) (drop (length back) rest),
          length-append front back,
          length-drop (length back) rest,
          room,
          small,
        ),
      ),
    )

-- All items between the indices are copied.
pub copy_items_lem :
    (l : Buffer) (size start : ℕ)
    → start < length l.buffer
    → l.end < length l.buffer
    → count (length l.buffer) start l.end ≤ size
    → Copied l size start (contents l.buffer (some start) l.end)
unfolding contents
copy_items_lem l size start hs he small =
    let k = count (length l.buffer) start l.end in
    let xs = visit (next (length l.buffer)) l.buffer start k in
    let n : length xs ≡ k = length-visit l.buffer start k hs in
    elim (Bool-cases (ltb start l.end)) [
      | inl straight ↦
          copy_straight l size start xs (ground (arith, straight))
            (ground (arith, straight, visit-take l.buffer start k)) (ground (arith, n, small))
      | inr around ↦
          let turned : xs ≡ drop start l.buffer ++ take l.end l.buffer =
            ground (arith, around, visit_around l.buffer start l.end hs) in
          rw turned (
            copy_around l size start (drop start l.buffer) (take l.end l.buffer)
              (ground (arith, around)) hs refl refl
              (ground (
                arith,
                turned,
                n,
                small,
                length-append (drop start l.buffer) (take l.end l.buffer),
              )))
    ]
