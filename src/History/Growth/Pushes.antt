-- ===== src/History/Growth/Pushes.antt =====
-- What the end of Add does to the items of a buffer.
use oragono.Prelude.{
  ℕ, zero, suc, ◌+◌, ◌-◌, ◌%◌, ◌<◌, ◌≡◌, refl, ◌≢◌, inl, inr, true, none, some, List, [], ◌∷◌, ◌++◌,
  arith, nat_beq_iff, nat_beq_refl, Option-cases, length, get_elem?, set, length-append, length-set,
  take, nat_eq, string_eq,
}
use native.Mathlib.Nat.{mod-lt, mod-eq_of_lt, mod_self}
use oragono.Ring.{visit, next, contents, in_bounds, last}
use oragono.Ring.Push.{get_elem?-lt, nat_eq_or, drop-append_small, push_first, push_more, push_full}
use oragono.History.Buffer.{Item, Buffer, items, used, discard, push}
use oragono.History.Growth.Copies.{discard_all}
use oragono.History.Growth.Kept.{length-items}
use oragono.History.Growth.Resizes.{take_nil}

-- A buffer that has got one more item, the oldest of which may have gone.
pub record Pushed (l : Buffer) (item : Item) (l' : Buffer) : Type 0 where
  pub kept : items l' ≡ last (length l.buffer) (items l ++ item ∷ [])
  pub lost :
      l'.last_discarded
      ≡ discard_all l.last_discarded (take (length (items l) + 1 - length l.buffer) (items l))
  pub bounded : in_bounds l'.buffer l'.start l'.end ≡ true
  pub sized : length l'.buffer ≡ length l.buffer
  pub limited : l'.maximum_size ≡ l.maximum_size
  pub timed : l'.window ≡ l.window

items-empty : (l : Buffer) → l.start ≡ none → items l ≡ []
unfolding contents
items-empty l empty = ground (arith, empty)

take-visit_one :
    {A : Type 0} (step : ℕ → ℕ) (buf : List A) (pos n : ℕ) (x : A)
    → 0 < n
    → get_elem? buf pos ≡ some x
    → take 1 (visit step buf pos n) ≡ x ∷ []
unfolding visit
take-visit_one step buf pos zero x h at = elim h [ ]
take-visit_one step buf pos (suc n) x h at = ground (arith, at)

-- The oldest item.
take-items_one :
    (l : Buffer) (start : ℕ) (x : Item)
    → l.start ≡ some start
    → start < length l.buffer
    → l.end < length l.buffer
    → get_elem? l.buffer start ≡ some x
    → take 1 (items l) ≡ x ∷ []
take-items_one l start x at hs he first =
    let n = length-items l start at hs he in
    rw n.0
      (take-visit_one (next (length l.buffer)) l.buffer start (used l) x (ground (arith, n)) first)

push-empty :
    (l : Buffer) (item : Item)
    → 0 < length l.buffer
    → l.start ≡ none
    → (l' : Buffer) × ((push l item ≡ some l') × Pushed l item l')
unfolding push discard_all
push-empty l item room empty = (
  record l { buffer = set l.buffer 0 item; start = some 0; end = 1 % length l.buffer },
  (
    ground (arith, empty, room),
    record {
      kept = ground (
        arith,
        items-empty l empty,
        room,
        push_first l.buffer item (1 % length l.buffer) room (
            ground (
              arith,
              room,
              mod-eq_of_lt {n = 1} {m = length l.buffer},
              mod_self (length l.buffer),
            )),
      );
      lost = ground (arith, items-empty l empty, take_nil {A = Item} (0 + 1 - length l.buffer));
      bounded =
          ground (arith, room, length-set l.buffer 0 item, mod-lt 1 {m = length l.buffer} room);
      sized = length-set l.buffer 0 item;
      limited = refl;
      timed = refl;
    },
  ),
)

push-more :
    (l : Buffer) (item : Item) (start : ℕ)
    → l.start ≡ some start
    → start < length l.buffer
    → l.end < length l.buffer
    → start ≢ l.end
    → (l' : Buffer) × ((push l item ≡ some l') × Pushed l item l')
unfolding push discard_all
push-more l item start at hs he apart =
    let n = length-items l start at hs he in
    (
      record l { buffer = set l.buffer l.end item; end = (l.end + 1) % length l.buffer },
      (
        ground (arith, at, he, nat_beq_iff start l.end, apart),
        record {
          kept = ground (
            arith,
            at,
            n,
            apart,
            hs,
            he,
            push_more l.buffer item start l.end hs he apart,
            length-append (items l) (item ∷ []),
          );
          lost = ground (arith, n, apart, hs, he);
          bounded = ground (
            arith,
            at,
            hs,
            length-set l.buffer l.end item,
            mod-lt (l.end + 1) {m = length l.buffer} (omega arith),
          );
          sized = length-set l.buffer l.end item;
          limited = refl;
          timed = refl;
        },
      ),
    )

push-full :
    (l : Buffer) (item : Item)
    → l.start ≡ some l.end
    → l.end < length l.buffer
    → (l' : Buffer) × ((push l item ≡ some l') × Pushed l item l')
unfolding push discard_all
push-full l item at he =
    let n = length-items l l.end at he he in
    let oldest = get_elem?-lt l.buffer l.end he in
    let after = (l.end + 1) % length l.buffer in
    (
      record l {
        buffer = set l.buffer l.end item;
        start = some after;
        end = after;
        last_discarded = discard l.last_discarded oldest.0;
      },
      (
        ground (arith, at, he, oldest.1, nat_beq_refl l.end),
        record {
          kept = ground (
            arith,
            at,
            n,
            push_full l.buffer item l.end he,
            length-append (items l) (item ∷ []),
            drop-append_small 1 (items l) item,
          );
          lost = ground (arith, n, take-items_one l l.end oldest.0 at he he oldest.1);
          bounded = ground (
            arith,
            length-set l.buffer l.end item,
            mod-lt (l.end + 1) {m = length l.buffer} (omega arith),
          );
          sized = length-set l.buffer l.end item;
          limited = refl;
          timed = refl;
        },
      ),
    )

pub push_lem :
    (l : Buffer) (item : Item)
    → in_bounds l.buffer l.start l.end ≡ true
    → 0 < length l.buffer
    → (l' : Buffer) × ((push l item ≡ some l') × Pushed l item l')
push_lem l item sound room = elim (Option-cases l.start) [
  | inl empty ↦ push-empty l item room empty
  | inr (start, at) ↦ elim (nat_eq_or start l.end) [
    | inl same ↦ push-full l item (ground (arith, at, same)) (ground (arith, at, sound))
    | inr apart ↦
        push-more l item start at (ground (arith, at, sound)) (ground (arith, at, sound)) apart
  ]
]
