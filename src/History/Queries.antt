-- ===== src/History/Queries.antt =====
-- The queries on a buffer of irc/history/history.go and irc/history/queries.go, and Delete. A loop over the buffer
-- is given as many steps as the buffer has places; `none` is a panic, or more steps.
pub mod Loops
pub mod Complete
pub mod Deletion
pub mod Forgetting
use oragono.Prelude.{
  ℕ, zero, suc, ◌+◌, ◌-◌, ◌*◌, ◌/◌, ◌%◌, ◌^◌, ◌≤◌, ◌<◌, min, max, bit_and, bit_or, String, ◌≡◌,
  refl, sym, ap, subst, ◌∙◌, fun_ext, ◌≢◌, ◌↔◌, ◌⊎◌, inl, inr, Bool, true, false, not, ◌&&◌, ◌||◌,
  Option, none, some, List, [], ◌∷◌, ◌++◌, map, reverse, arith, ltb, leb, nat_beq, if◌then◌else◌,
  ltb→lt, lt→ltb, leb→le, nat_beq_iff, nat_beq_refl, Bool-cases, Option-cases, length, get_elem?,
  set, length-append, length-set, get_elem?-set_self, get_elem?-set_ne, get_or, take, drop,
  replicate, take-append-drop, length-take, length-drop, length-replicate, length-map, Eq, ◌==◌,
  ◌!=◌, nat_eq, string_eq, beq_refl, beq_ne, beq→eq, beq→ne,
}
use oragono.Prelude.GoMap.{
  GoMap, lookup, has, insert, delete, lookup-insert, lookup-delete, length-insert, length-delete-le,
  lookup-insert_self,
}
use oragono.Ring.{next, prev}
use oragono.History.Buffer.{Item, uninitialized_item, Buffer}

-- The loop of matchInternal.
unfoldable pub match_loop :
    (Item → Bool) → (ℕ → ℕ) → ℕ → List Item → ℕ → ℕ → ℕ → List Item → Option (List Item)
match_loop predicate step limit buf stop zero pos results = none
match_loop predicate step limit buf stop (suc fuel) pos results = elim (get_elem? buf pos) [
  | none ↦ none
  | some item ↦
      let results' = if predicate item then results ++ item ∷ [] else results in
      let rest = match_loop predicate step limit buf stop fuel (step pos) results' in
      if pos == stop || (limit != 0 && length results' == limit) then some results' else rest
]

unfoldable pub match_internal : Buffer → (Item → Bool) → Bool → ℕ → Option (List Item)
unfolding match_loop
match_internal l predicate ascending limit =
    let size = length l.buffer in
    elim l.start [
      | none ↦ some []
      | some start ↦
          if size == 0
          then some []
          else if ascending
          then match_loop predicate (next size) limit l.buffer (prev size l.end) size start []
          else match_loop predicate (prev size) limit l.buffer start size (prev size l.end) []
    ]

-- The loop of Delete: the buffer, and how many items were deleted.
unfoldable pub delete_loop : (Item → Bool) → ℕ → ℕ → ℕ → List Item → ℕ → Option (List Item × ℕ)
delete_loop predicate stop zero pos buf deleted = none
delete_loop predicate stop (suc fuel) pos buf deleted = elim (get_elem? buf pos) [
  | none ↦ none
  | some item ↦
      let buf' = if predicate item then set buf pos uninitialized_item else buf in
      let deleted' = if predicate item then deleted + 1 else deleted in
      let rest = delete_loop predicate stop fuel (next (length buf) pos) buf' deleted' in
      if pos == stop then some (buf', deleted') else rest
]

unfoldable pub delete_items : Buffer → (Item → Bool) → Option (Buffer × ℕ)
unfolding delete_loop
delete_items l predicate =
    let size = length l.buffer in
    elim l.start [
      | none ↦ some (l, 0)
      | some start ↦
          if size == 0
          then some (l, 0)
          else elim (delete_loop predicate (prev size l.end) size start l.buffer 0) [
            | none ↦ none
            | some (buf, deleted) ↦ some (record l { buffer = buf }, deleted)
          ]
    ]

pub record Selector : Type 0 where
  pub msgid : String
  pub time : ℕ

-- The bounds that MinMaxAsc gives, and whether the items are wanted in ascending order.
pub record Interval : Type 0 where
  pub after : ℕ
  pub before : ℕ
  pub ascending : Bool

-- MinMaxAsc before the cutoff is looked at.
unfoldable pub order_of : ℕ → ℕ → Interval
order_of after before =
    if after != 0 && before == 0
    then record { after = after; before = before; ascending = true }
    else if after == 0 && before != 0
    then record { after = after; before = before; ascending = false }
    else if after != 0 && before != 0
    then if ltb before after
      then record { after = before; before = after; ascending = false }
      else record { after = after; before = before; ascending = true }
    else record { after = after; before = before; ascending = false }

unfoldable pub min_max_asc : ℕ → ℕ → ℕ → Interval
unfolding order_of
min_max_asc after before cutoff =
    let i = order_of after before in
    if i.after == 0 || ltb i.after cutoff then record i { after = cutoff } else i

-- The predicate `satisfies` of betweenHelper.
unfoldable pub satisfies : Interval → Option (Item → Bool) → Item → Bool
satisfies i pred item =
    (i.after == 0 || ltb i.after item.time)
    && (i.before == 0 || ltb item.time i.before)
    && elim pred [ none ↦ true | some p ↦ p item ]

-- The method `lookup`: of a panic, or no item.
unfoldable pub lookup_msgid : Buffer → String → Option (Option Item)
unfolding match_internal
lookup_msgid l msgid = elim (match_internal l (λ item. item.msgid == msgid) false 1) [
  | none ↦ none
  | some [] ↦ some none
  | some (item ∷ items) ↦ some (some item)
]

-- The time that a selector stands for; none if its item is not found.
unfoldable pub selected_time : Buffer → Selector → Option (Option ℕ)
unfolding lookup_msgid
selected_time l s =
    let found = lookup_msgid l s.msgid in
    if s.msgid != ""
    then elim found [
      | none ↦ none
      | some none ↦ some none
      | some (some item) ↦ some (some item.time)
    ]
    else some (some s.time)

-- The end of betweenHelper, with the times known.
unfoldable pub between_times :
    Buffer → ℕ → ℕ → ℕ → Option (Item → Bool) → ℕ → Option (List Item × Bool)
unfolding min_max_asc satisfies match_internal
between_times l after before cutoff pred limit =
    let i = min_max_asc after before cutoff in
    elim (match_internal l (satisfies i pred) i.ascending limit) [
      | none ↦ none
      | some results ↦
          some (if i.ascending then results else reverse results, leb l.last_discarded i.after)
    ]

-- betweenHelper: the items, and whether no other item can match.
unfoldable pub between_helper :
    Buffer → Selector → Selector → ℕ → Option (Item → Bool) → ℕ → Option (List Item × Bool)
unfolding selected_time between_times
between_helper l start end cutoff pred limit =
    if length l.buffer == 0 then some ([], false) else elim (selected_time l start) [
      | none ↦ none
      | some none ↦ some ([], false)
      | some (some after) ↦ elim (selected_time l end) [
        | none ↦ none
        | some none ↦ some ([], false)
        | some (some before) ↦ between_times l after before cutoff pred limit
      ]
    ]

-- MakeSequence and Between of bufferSequence; `correspondent` is empty for all items.
unfoldable pub sequence_between :
    Buffer → String → ℕ → Selector → Selector → ℕ → Option (List Item × Bool)
unfolding between_helper
sequence_between l correspondent cutoff start end limit =
    between_helper l start end cutoff
      (if correspondent != "" then some (λ item. item.cf_correspondent == correspondent) else none)
      limit

-- GenericAround over such a sequence.
unfoldable pub around : Buffer → String → ℕ → Selector → ℕ → Option (List Item)
unfolding sequence_between
around l correspondent cutoff start limit =
    let zero_time : Selector = record { msgid = ""; time = 0 } in
    elim (sequence_between l correspondent cutoff zero_time start ((limit + 1) / 2)) [
      | none ↦ none
      | some ([], complete) ↦ some []
      | some (first ∷ rest, complete) ↦
          elim (sequence_between l correspondent cutoff (record { msgid = ""; time = first.time })
            zero_time limit) [ none ↦ none | some (results, complete') ↦ some results ]
    ]
