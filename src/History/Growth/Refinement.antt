-- ===== src/History/Growth/Refinement.antt =====
-- Add and Resize against the log.
use oragono.Prelude.{
  ℕ, ◌+◌, ◌-◌, ◌≤◌, ◌<◌, ◌≡◌, refl, sym, ap, subst, ◌∙◌, inl, inr, true, ◌&&◌, ◌||◌, some, List, [],
  ◌∷◌, ◌++◌, arith, ltb, nat_beq_iff, Bool-cases, length, length-append, drop, ◌==◌, nat_eq,
  string_eq,
}
use mathlib.Core.List.{append-nil}
use oragono.Ring.{last}
use oragono.History.Buffer.{Item, Buffer, items, push, stamped}
use oragono.History.Growth.{add, resize_buffer, resize}
use oragono.History.Growth.Kept.{is_sound, Resized}
use oragono.History.Growth.Resizes.{resize_buffer_lem}
use oragono.History.Growth.Pushes.{Pushed, push_lem}
use oragono.Ring.Push.{drop-append_small}
use oragono.History.Growth.Log.{Represents, shortened, reset}
use oragono.History.Growth.Expansion.{maybe_expand-Represents}
use oragono.History.Buffer.{initial_size}

is_sound-push : (l l' : Buffer) (x : Item) → Pushed l x l' → is_sound l ≡ true → is_sound l' ≡ true
is_sound-push l l' x p sound = ground (arith, p.bounded, p.sized, p.limited, sound)

drop_of_push :
    (l l' : Buffer) (x : Item)
    → Pushed l x l'
    → 0 < length l.buffer
    → items l' ≡ drop (length (items l) + 1 - length l.buffer) (items l) ++ x ∷ []
drop_of_push l l' x p room =
    p.kept
    ∙ ground (
      arith,
      room,
      length-append (items l) (x ∷ []),
      drop-append_small (length (items l) + 1 - length l.buffer) (items l) x,
    )

push-Represents :
    (l : Buffer) (x : Item) (log : List Item)
    → Represents l log
    → 0 < length l.buffer
    → 0 < x.time
    → (l' : Buffer) × ((push l x ≡ some l')
        × (Represents l' (log ++ x ∷ [])
            × ((length l'.buffer ≡ length l.buffer)
                × (items l' ≡ last (length l'.buffer) (items l ++ x ∷ [])))))
push-Represents l x log r room clock =
    let p = push_lem l x (ground (arith, r.sound)) room in
    (
      p.0,
      (
        p.1.0,
        (
          shortened l p.0 (length (items l) + 1 - length l.buffer) log (x ∷ []) r
              (drop_of_push l p.0 x p.1.1 room) p.1.1.lost (ground (arith, clock))
              (is_sound-push l p.0 x p.1.1 r.sound),
          (p.1.1.sized, rw p.1.1.sized p.1.1.kept),
        ),
      ),
    )

-- Adding an item at a time that is not zero to a buffer that represents a log and has room for some item
-- does not panic, and the buffer represents the log with the item, which has got the time if it had none:
-- it holds as many of the last items as fit, and it has not shrunk.
pub add-Represents :
    (l : Buffer) (item : Item) (now : ℕ) (log : List Item)
    → Represents l log
    → 0 < length l.buffer
    → 0 < now
    → (l' : Buffer) × ((add l item now ≡ some l')
        × (Represents l' (log ++ stamped item now ∷ [])
            × ((length l.buffer ≤ length l'.buffer)
                × (items l' ≡ last (length l'.buffer) (items l ++ stamped item now ∷ [])))))
unfolding add
add-Represents l item now log r room clock =
    let e = maybe_expand-Represents l now log r room in
    let p =
      push-Represents e.0 (stamped item now) log e.1.1.0 (ground (arith, e.1.1.1.0, room))
        (ground (arith, clock)) in
    let added : add l item now ≡ some p.0 = ground (arith, room, e.1.0, p.1.0) in
    (
      p.0,
      (
        added,
        (
          p.1.1.0,
          (
            ground (arith, e.1.1.1.0, p.1.1.1.0),
            p.1.1.1.1
                ∙ ap (λ xs. last (length p.0.buffer) (xs ++ stamped item now ∷ [])) e.1.1.1.1.0,
          ),
        ),
      ),
    )

initial_size-pos : (size window : ℕ) → 0 < size → 0 < initial_size size window
unfolding initial_size
initial_size-pos size window room = ground (arith, room)

initial_size-le : (size window : ℕ) → initial_size size window ≤ size
unfolding initial_size
initial_size-le size window = ground arith

log_after_reset :
    (l l' : Buffer) (maximum_size window size : ℕ) (log : List Item)
    → Represents l log
    → Resized (record l { maximum_size = maximum_size; window = window }) size l'
    → size ≤ maximum_size
    → Represents l' log
log_after_reset l l' maximum_size window size log r s small =
    subst (Represents l') (append-nil log) (
      shortened l l' (length (items l) - size) log [] r
        (s.kept ∙ sym (append-nil (drop (length (items l) - size) (items l)))) s.lost refl
        (ground (arith, s.bounded, s.sized, s.limited, small)))

resize_buffer-Represents :
    (l : Buffer) (maximum_size window size : ℕ) (log : List Item)
    → Represents l log
    → 0 < size
    → size ≤ maximum_size
    → (l' : Buffer) × ((resize_buffer
            (record l { maximum_size = maximum_size; window = window })
            size
          ≡ some l')
        × (Represents l' log × (length l'.buffer ≤ maximum_size)))
resize_buffer-Represents l maximum_size window size log r room small =
    let b =
      resize_buffer_lem (record l { maximum_size = maximum_size; window = window }) size
        (ground (arith, r.sound)) room in
    (
      b.0,
      (
        b.1.0,
        (
          log_after_reset l b.0 maximum_size window size log r b.1.1 small,
          ground (arith, b.1.1.sized, small),
        ),
      ),
    )

-- Resize to any size but 0 does not panic, and the buffer represents the same log as before.
pub resize-Represents :
    (l : Buffer) (maximum_size window : ℕ) (log : List Item)
    → Represents l log
    → 0 < maximum_size
    → (l' : Buffer) × ((resize l maximum_size window ≡ some l')
        × (Represents l' log × (length l'.buffer ≤ maximum_size)))
unfolding resize
resize-Represents l maximum_size window log r room =
    let l' = record l { maximum_size = maximum_size; window = window } in
    elim (Bool-cases (l.maximum_size == maximum_size && l.window == window)) [
      | inl same ↦ (
        l,
        (
          ground (arith, same),
          (r, ground (arith, same, r.sound, nat_beq_iff l.maximum_size maximum_size)),
        ),
      )
      | inr other ↦ elim (Bool-cases (window == 0 || ltb maximum_size (length l.buffer))) [
        | inl cut ↦
            let b =
              resize_buffer-Represents l maximum_size window maximum_size log r room
                (omega arith) in
            (b.0, (ground (arith, other, cut, b.1.0), b.1.1))
        | inr kept ↦ elim (Bool-cases (ltb (length l.buffer) (initial_size maximum_size window))) [
          | inl grown ↦
              let b =
                resize_buffer-Represents l maximum_size window (initial_size maximum_size window)
                  log r (initial_size-pos maximum_size window room)
                  (initial_size-le maximum_size window) in
              (b.0, (ground (arith, other, kept, grown, b.1.0), b.1.1))
          | inr large ↦ (
            l',
            (
              ground (arith, other, kept, large),
              (reset l maximum_size window log r (ground (arith, kept)), ground (arith, kept)),
            ),
          )
        ]
      ]
    ]
