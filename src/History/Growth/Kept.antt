-- ===== src/History/Growth/Kept.antt =====
-- The new size of a buffer, and the items that it keeps.
use oragono.Prelude.{
  ℕ, ◌+◌, ◌-◌, ◌%◌, ◌≤◌, ◌<◌, ◌≡◌, refl, ap, ◌∙◌, Bool, true, ◌&&◌, some, List, ◌++◌, arith, leb,
  length, length-append, take, length-drop, nat_eq, string_eq,
}
use native.Mathlib.Nat.{mod-lt, mod-eq_of_lt, mod_self}
use oragono.Ring.{visit, next, count, forward, contents, in_bounds, last}
use oragono.Ring.Walk.{length-visit, drop-visit, visit-take, visit-add}
use oragono.Ring.Scan.{next-Reaches}
use oragono.History.Buffer.{Item, Buffer, items, used}
use oragono.History.Growth.{discard_until, copy_items, kept_start, shrink_or_grow}
use oragono.History.Growth.Copies.{
  discard_all, discard_until_lem, kept_start_lem, Copied, copy_items_lem, take-append_self,
}

-- The indices are positions of the buffer, which is not larger than it may be.
abbrev pub is_sound : Buffer → Bool
is_sound l = in_bounds l.buffer l.start l.end && leb (length l.buffer) l.maximum_size

-- A buffer of a new size: it keeps the last items that fit, and the time up to which items are lost covers
-- the others.
pub record Resized (l : Buffer) (size : ℕ) (l' : Buffer) : Type 0 where
  pub kept : items l' ≡ last size (items l)
  pub lost :
      l'.last_discarded ≡ discard_all l.last_discarded (take (length (items l) - size) (items l))
  pub bounded : in_bounds l'.buffer l'.start l'.end ≡ true
  pub sized : length l'.buffer ≡ size
  pub limited : l'.maximum_size ≡ l.maximum_size
  pub timed : l'.window ≡ l.window

take-visit :
    (buf : List Item) (pos k n : ℕ)
    → pos < length buf
    → k ≤ length buf
    → take k (visit (next (length buf)) buf pos (k + n)) ≡ visit (next (length buf)) buf pos k
take-visit buf pos k n h small =
    let front = visit (next (length buf)) buf pos k in
    ground (
      arith,
      visit-add (length buf) buf pos k n h small,
      length-visit buf pos k h,
      take-append_self front (visit (next (length buf)) buf (forward (length buf) pos k) n),
    )

-- The items that were copied to the beginning of a slice.
contents_front :
    (xs rest : List Item) (size : ℕ)
    → length (xs ++ rest) ≡ size
    → 0 < length xs
    → (contents (xs ++ rest) (some 0) (length xs % size) ≡ xs)
      × (in_bounds (xs ++ rest) (some 0) (length xs % size) ≡ true)
unfolding contents
contents_front xs rest size fit some_item =
    let long : size ≡ length xs + length rest = ground (arith, fit, length-append xs rest) in
    let all : count size 0 (length xs % size) ≡ length xs =
      ground (arith, long, some_item, mod-eq_of_lt {n = length xs} {m = size}, mod_self size) in
    (
      rw fit (
          rw all (
            ground
              (arith, long, fit, visit-take (xs ++ rest) 0 (length xs), take-append_self xs rest))),
      ground (arith, long, fit, some_item, mod-lt (length xs) {m = size}),
    )

assembled :
    (l : Buffer) (size start lost : ℕ) (xs rest : List Item)
    → discard_until l.buffer (kept_start l size start) (length l.buffer) start l.last_discarded
      ≡ some lost
    → copy_items l size (kept_start l size start) ≡ some (xs ++ rest, length xs)
    → shrink_or_grow l size start
      ≡ some (record l {
        buffer = xs ++ rest;
        start = some 0;
        end = length xs % size;
        last_discarded = lost;
      })
unfolding shrink_or_grow
assembled l size start lost xs rest forgotten copied = ground (arith, forgotten, copied)

pub length-items :
    (l : Buffer) (start : ℕ)
    → l.start ≡ some start
    → start < length l.buffer
    → l.end < length l.buffer
    → (items l ≡ visit (next (length l.buffer)) l.buffer start (used l))
      × ((length (items l) ≡ used l) × (used l ≡ count (length l.buffer) start l.end))
unfolding contents used
length-items l start at hs he =
    ground (arith, at, length-visit l.buffer start (count (length l.buffer) start l.end) hs)

kept_items :
    (l : Buffer) (size start : ℕ)
    → l.start ≡ some start
    → start < length l.buffer
    → l.end < length l.buffer
    → 0 < size
    → (contents l.buffer (some (kept_start l size start)) l.end ≡ last size (items l))
      × (visit (next (length l.buffer)) l.buffer start (used l - size)
          ≡ take (length (items l) - size) (items l))
unfolding contents
kept_items l size start at hs he room =
    let n = length-items l start at hs he in
    let k = kept_start_lem l size start at hs he room in
    (
      ground (
        arith,
        n,
        k,
        room,
        drop-visit l.buffer start (used l) (used l - size) hs (ground arith) (ground (arith, n)),
      ),
      ground (
        arith,
        n,
        take-visit l.buffer start (used l - size) (used l - (used l - size)) hs (ground (arith, n)),
      ),
    )

pub shrink_or_grow_lem :
    (l : Buffer) (size start : ℕ)
    → l.start ≡ some start
    → start < length l.buffer
    → l.end < length l.buffer
    → 0 < size
    → (l' : Buffer) × ((shrink_or_grow l size start ≡ some l') × Resized l size l')
unfolding Copied
shrink_or_grow_lem l size start at hs he room =
    let from = kept_start l size start in
    let k = kept_start_lem l size start at hs he room in
    let n = length-items l start at hs he in
    let xs = contents l.buffer (some from) l.end in
    let same = kept_items l size start at hs he room in
    let copied = copy_items_lem l size from k.0 he (ground (arith, k)) in
    let some_item : 0 < length xs =
      ground (arith, same, n, room, length-drop (length (items l) - size) (items l)) in
    let lost =
      discard_all l.last_discarded
        (visit (next (length l.buffer)) l.buffer start (used l - size)) in
    let forgotten : discard_until l.buffer from (length l.buffer) start l.last_discarded
        ≡ some lost =
      discard_until_lem l.buffer from (used l - size) (length l.buffer) start l.last_discarded hs
        (ground (arith, n))
        (next-Reaches (length l.buffer) from (used l - size) start hs k.0 (ground (arith, k))) in
    let front = contents_front xs copied.0 size copied.1.1 some_item in
    (
      record l {
        buffer = xs ++ copied.0;
        start = some 0;
        end = length xs % size;
        last_discarded = lost;
      },
      (
        assembled l size start lost xs copied.0 forgotten copied.1.0,
        record {
          kept = front.0 ∙ same.0;
          lost = ap (discard_all l.last_discarded) same.1;
          bounded = front.1;
          sized = copied.1.1;
          limited = refl;
          timed = refl;
        },
      ),
    )
