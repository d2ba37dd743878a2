-- ===== src/History/Growth.antt =====
-- Resize and Add of irc/history/history.go, with the growth of a full buffer.
pub mod Copies
pub mod Kept
pub mod Resizes
pub mod Pushes
pub mod Log
pub mod Expansion
pub mod Refinement
use oragono.Prelude.{
  ℕ, zero, suc, ◌+◌, ◌-◌, ◌*◌, ◌/◌, ◌%◌, ◌^◌, ◌≤◌, ◌<◌, min, max, bit_and, bit_or, String, ◌≡◌,
  refl, sym, ap, subst, ◌∙◌, fun_ext, ◌≢◌, ◌↔◌, ◌⊎◌, inl, inr, Bool, true, false, not, ◌&&◌, ◌||◌,
  Option, none, some, List, [], ◌∷◌, ◌++◌, map, reverse, arith, ltb, leb, nat_beq, if◌then◌else◌,
  ltb→lt, lt→ltb, leb→le, nat_beq_iff, nat_beq_refl, Bool-cases, Option-cases, length, get_elem?,
  set, length-append, length-set, get_elem?-set_self, get_elem?-set_ne, get_or, take, drop,
  replicate, take-append-drop, length-take, length-drop, length-replicate, length-map, Eq, ◌==◌,
  ◌!=◌, nat_eq, string_eq, beq_refl, beq_ne, beq→eq, beq→ne,
}
use oragono.Prelude.GoMap.{
  GoMap, lookup, has, insert, delete, lookup-insert, lookup-delete, length-insert, length-delete-le,
  lookup-insert_self,
}
use oragono.Ring.{next, prev, count}
use oragono.History.Buffer.{
  Item, uninitialized_item, Buffer, initial_size, used, discard, push, stamped,
}

-- v |= v >> k
abbrev pub smear : ℕ → ℕ → ℕ
smear v k = bit_or v (v / 2 ^ k)

unfoldable pub smear_all : ℕ → ℕ
smear_all v = smear (smear (smear (smear (smear v 1) 2) 4) 8) 16

-- utils.RoundUpToPowerOfTwo
unfoldable pub round_up_to_power_of_two : ℕ → ℕ
unfolding smear_all
round_up_to_power_of_two v = if v == 0 then 0 else smear_all (v - 1) + 1

-- The loop of `resize` over the items from `i` to before `stop`, for at most `fuel` items.
unfoldable pub discard_until : List Item → ℕ → ℕ → ℕ → ℕ → Option ℕ
unfolding discard
discard_until buf stop zero i last = if i != stop then none else some last
discard_until buf stop (suc fuel) i last = elim (get_elem? buf i) [
  | none ↦ if i != stop then none else some last
  | some item ↦
      let rest = discard_until buf stop fuel ((i + 1) % length buf) (discard last item) in
      if i != stop then rest else some last
]

-- copy(dst[offset:], src), and what it copies.
abbrev pub copy : List Item → ℕ → List Item → Option (List Item × ℕ)
copy dst offset src =
    if ltb (length dst) offset
    then none
    else some (
      take offset dst ++ (take (length dst - offset) src ++ drop (offset + length src) dst),
      min (length dst - offset) (length src),
    )

-- The two copies of `resize` into the new buffer, for the items from `start` on.
unfoldable pub copy_items : Buffer → ℕ → ℕ → Option (List Item × ℕ)
copy_items l size start =
    let blank = replicate size uninitialized_item in
    let initial = length l.buffer - start in
    if ltb start l.end
    then copy blank 0 (take (l.end - start) (drop start l.buffer))
    else elim (copy blank 0 (drop start l.buffer)) [
      | none ↦ none
      | some (items, copied) ↦ elim (copy items initial (take l.end l.buffer)) [
        | none ↦ none
        | some (items', copied') ↦ some (items', copied + copied')
      ]
    ]

-- Where the items that are kept begin, if there are more than `size`.
unfoldable pub kept_start : Buffer → ℕ → ℕ → ℕ
unfolding used
kept_start l size start =
    if ltb size (used l)
    then if leb size l.end then l.end - size else l.end + length l.buffer - size
    else start

-- The last branch of `resize`.
unfoldable pub shrink_or_grow : Buffer → ℕ → ℕ → Option Buffer
unfolding kept_start discard_until copy_items
shrink_or_grow l size start =
    let from = kept_start l size start in
    elim (discard_until l.buffer from (length l.buffer) start l.last_discarded) [
      | none ↦ none
      | some last ↦ elim (copy_items l size from) [
        | none ↦ none
        | some (items, copied) ↦ some (record l {
          buffer = items;
          start = some 0;
          end = copied % size;
          last_discarded = last;
        })
      ]
    ]

unfoldable pub resize_buffer : Buffer → ℕ → Option Buffer
unfolding shrink_or_grow
resize_buffer l size = elim l.start [
  | none ↦ some (record l { buffer = replicate size uninitialized_item })
  | some start ↦
      if size == 0
      then some (record l { buffer = []; start = none; end = 0 })
      else shrink_or_grow l size start
]

unfoldable pub resize : Buffer → ℕ → ℕ → Option Buffer
unfolding resize_buffer initial_size
resize l maximum_size window =
    let l' = record l { maximum_size = maximum_size; window = window } in
    if l.maximum_size == maximum_size && l.window == window
    then some l
    else if window == 0 || ltb maximum_size (length l.buffer)
    then resize_buffer l' maximum_size
    else if ltb (length l.buffer) (initial_size maximum_size window)
    then resize_buffer l' (initial_size maximum_size window)
    else some l'

-- The size to which a full buffer grows.
unfoldable pub expanded_size : Buffer → ℕ
unfolding used round_up_to_power_of_two
expanded_size l =
    let size = round_up_to_power_of_two (used l + 1) in
    if ltb l.maximum_size size then l.maximum_size else size

unfoldable pub maybe_expand : Buffer → ℕ → Option Buffer
unfolding used expanded_size resize_buffer
maybe_expand l now =
    if l.window == 0
    then some l
    else if ltb (used l) (length l.buffer)
    then some l
    else if length l.buffer == l.maximum_size
    then some l
    else elim l.start [
      | none ↦ none
      | some start ↦ elim (get_elem? l.buffer start) [
        | none ↦ none
        | some oldest ↦
            if ltb l.window (now - oldest.time) then some l else resize_buffer l (expanded_size l)
      ]
    ]

unfoldable pub add : Buffer → Item → ℕ → Option Buffer
unfolding maybe_expand push
add l item now =
    if length l.buffer == 0
    then some l
    else elim (maybe_expand l now) [ none ↦ none | some l' ↦ push l' (stamped item now) ]
