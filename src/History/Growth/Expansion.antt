-- ===== src/History/Growth/Expansion.antt =====
-- When a buffer grows before an item is added.
use oragono.Prelude.{
  ℕ, ◌+◌, ◌-◌, ◌≤◌, ◌<◌, ◌≡◌, refl, ◌∙◌, ◌⊎◌, inl, inr, true, ◌||◌, none, some, List, arith, ltb,
  nat_beq_iff, Bool-cases, Option-cases, length, ◌==◌, nat_eq, string_eq,
}
use oragono.History.Buffer.{Item, Buffer, items, used}
use oragono.History.Growth.{expanded_size, maybe_expand, resize_buffer}
use oragono.History.Growth.Kept.{is_sound}
use oragono.History.Growth.Resizes.{resize_buffer_lem, length-items-le, round_up_to_power_of_two-le}
use oragono.Ring.Push.{get_elem?-lt}
use oragono.History.Growth.Log.{Represents, resized}

used-empty : (l : Buffer) → l.start ≡ none → used l ≡ 0
unfolding used
used-empty l empty = ground (arith, empty)

expanded_size_lem :
    (l : Buffer)
    → used l < l.maximum_size
    → (used l < expanded_size l) × (expanded_size l ≤ l.maximum_size)
unfolding expanded_size
expanded_size_lem l room =
    ground (arith, room, round_up_to_power_of_two-le (used l + 1) (omega arith))

-- A buffer that grows has been full, and gets larger.
maybe_expand-cases :
    (l : Buffer) (now : ℕ)
    → is_sound l ≡ true
    → 0 < length l.buffer
    → (maybe_expand l now ≡ some l)
      ⊎ ((maybe_expand l now ≡ resize_buffer l (expanded_size l))
          × ((length l.buffer < expanded_size l) × (expanded_size l ≤ l.maximum_size)))
unfolding maybe_expand
maybe_expand-cases l now sound room =
    let full = length-items-le l (ground (arith, sound)) in
    elim (Bool-cases
      (l.window == 0 || ltb (used l) (length l.buffer) || length l.buffer == l.maximum_size)) [
        | inl stays ↦ inl (ground (arith, stays))
        | inr grows ↦ elim (Option-cases l.start) [
          | inl empty ↦ inl (ground (arith, grows, used-empty l empty, room))
          | inr (start, at) ↦
              let oldest = get_elem?-lt l.buffer start (ground (arith, at, sound)) in
              let larger = expanded_size_lem l (
                ground (arith, grows, full, sound, nat_beq_iff (length l.buffer) l.maximum_size)) in
              elim (Bool-cases (ltb l.window (now - oldest.0.time))) [
                | inl old ↦ inl (ground (arith, grows, at, oldest.1, old))
                | inr young ↦ inr (
                  ground (arith, grows, at, oldest.1, young),
                  ground (arith, larger, grows, full),
                )
              ]
        ]
      ]

-- Expanding a full buffer keeps all items.
pub maybe_expand-Represents :
    (l : Buffer) (now : ℕ) (log : List Item)
    → Represents l log
    → 0 < length l.buffer
    → (l' : Buffer) × ((maybe_expand l now ≡ some l')
        × (Represents l' log
            × ((length l.buffer ≤ length l'.buffer)
                × ((items l' ≡ items l) × (l'.maximum_size ≡ l.maximum_size)))))
maybe_expand-Represents l now log r room = elim (maybe_expand-cases l now r.sound room) [
  | inl stays ↦ (l, (stays, (r, (omega arith, (refl, refl)))))
  | inr (grows, larger) ↦
      let s =
        resize_buffer_lem l (expanded_size l) (ground (arith, r.sound)) (ground (arith, larger)) in
      let full = length-items-le l (ground (arith, r.sound)) in
      (
        s.0,
        (
          grows ∙ s.1.0,
          (
            resized l s.0 (expanded_size l) log r s.1.1 larger.1,
            (
              ground (arith, s.1.1.sized, larger),
              (s.1.1.kept ∙ ground (arith, full, larger), s.1.1.limited),
            ),
          ),
        ),
      )
]
