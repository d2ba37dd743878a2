-- ===== src/History/Queries/Loops.antt =====
-- The loops over a buffer end, and see its items in order.
use oragono.Prelude.{
  ℕ, zero, suc, ◌+◌, ◌-◌, ◌<◌, ◌≡◌, refl, inl, inr, Bool, true, false, none, some, List, [], ◌∷◌,
  ◌++◌, reverse, arith, if◌then◌else◌, Option-cases, length, nat_eq, string_eq,
}
use oragono.Ring.{visit, next, prev, count, contents, in_bounds}
use oragono.Ring.Scan.{
  prev-forward, Reaches, next-Reaches, prev-Reaches, visit-prev, matching, limited, collect,
  collect_lem,
}
use oragono.History.Buffer.{Item, Buffer, items}
use oragono.Ring.Push.{get_elem?-lt}
use oragono.History.Queries.{match_loop, match_internal}

-- All positions of the walk lie in the buffer.
Inside : (ℕ → ℕ) → ℕ → Type 0
Inside step size = (pos : ℕ) → pos < size → step pos < size

match_loop_lem :
    (predicate : Item → Bool) (step : ℕ → ℕ) (limit : ℕ) (buf : List Item) (stop n fuel pos : ℕ)
    (results : List Item)
    → Inside step (length buf)
    → pos < length buf
    → n < fuel
    → Reaches step stop n pos
    → match_loop predicate step limit buf stop fuel pos results
      ≡ some (collect predicate limit results (visit step buf pos (n + 1)))
unfolding match_loop Reaches visit collect Inside
match_loop_lem predicate step limit buf stop n zero pos results inside hp enough r = elim enough [ ]
match_loop_lem predicate step limit buf stop zero (suc fuel) pos results inside hp enough r =
    let first = get_elem?-lt buf pos hp in ground (arith, first.1, r)
match_loop_lem predicate step limit buf stop (suc n) (suc fuel) pos results inside hp enough r =
    let first = get_elem?-lt buf pos hp in
    let results' = if predicate first.0 then results ++ first.0 ∷ [] else results in
    ground (
      arith,
      first.1,
      r,
      match_loop_lem predicate step limit buf stop n fuel (step pos) results' inside (inside pos hp)
          (omega arith) r.1,
    )

Inside-next : (size : ℕ) → Inside (next size) size
unfolding Inside
Inside-next size pos h = ground (arith, h)

Inside-prev : (size : ℕ) → Inside (prev size) size
unfolding Inside
Inside-prev size pos h = ground (arith, h)

match_empty :
    (l : Buffer) (predicate : Item → Bool) (ascending : Bool) (limit : ℕ)
    → l.start ≡ none
    → match_internal l predicate ascending limit
      ≡ some (limited limit (matching predicate (if ascending then items l else reverse (items l))))
unfolding match_internal contents
match_empty l predicate true zero empty = rw empty refl
match_empty l predicate true (suc limit) empty = rw empty (ground arith)
match_empty l predicate false zero empty = rw empty refl
match_empty l predicate false (suc limit) empty = rw empty (ground arith)

match_forward :
    (l : Buffer) (predicate : Item → Bool) (limit start : ℕ)
    → l.start ≡ some start
    → start < length l.buffer
    → l.end < length l.buffer
    → match_internal l predicate true limit ≡ some (limited limit (matching predicate (items l)))
unfolding match_internal contents
match_forward l predicate limit start at hs he =
    let size = length l.buffer in
    let p = prev-forward size start l.end hs he in
    let n = count size start l.end - 1 in
    let whole : count size start l.end ≡ n + 1 = ground (arith, p) in
    ground (
      arith,
      at,
      hs,
      p,
      whole,
      match_loop_lem predicate (next size) limit l.buffer (prev size l.end) n size start []
          (Inside-next size) hs (ground (arith, p))
          (next-Reaches size (prev size l.end) n start hs p.1.1.1.0 p.1.1.1.1),
      collect_lem predicate limit (visit (next size) l.buffer start (n + 1)),
    )

match_backward :
    (l : Buffer) (predicate : Item → Bool) (limit start : ℕ)
    → l.start ≡ some start
    → start < length l.buffer
    → l.end < length l.buffer
    → match_internal l predicate false limit
      ≡ some (limited limit (matching predicate (reverse (items l))))
unfolding match_internal contents
match_backward l predicate limit start at hs he =
    let size = length l.buffer in
    let p = prev-forward size start l.end hs he in
    let n = count size start l.end - 1 in
    let whole : count size start l.end ≡ n + 1 = ground (arith, p) in
    ground (
      arith,
      at,
      hs,
      p,
      whole,
      match_loop_lem predicate (prev size) limit l.buffer start n size (prev size l.end) []
          (Inside-prev size) p.1.1.1.0 (ground (arith, p))
          (prev-Reaches size start n (prev size l.end) p.1.1.1.0 hs p.1.1.1.1),
      visit-prev size l.buffer start n hs (ground (arith, p)),
      collect_lem predicate limit (visit (prev size) l.buffer (prev size l.end) (n + 1)),
    )

-- A query of a buffer whose indices lie in it ends without a panic, with the first items that match, in the
-- order asked for, up to the limit.
pub match_internal_lem :
    (l : Buffer) (predicate : Item → Bool) (ascending : Bool) (limit : ℕ)
    → in_bounds l.buffer l.start l.end ≡ true
    → match_internal l predicate ascending limit
      ≡ some (limited limit (matching predicate (if ascending then items l else reverse (items l))))
match_internal_lem l predicate true limit sound = elim (Option-cases l.start) [
  | inl empty ↦ match_empty l predicate true limit empty
  | inr (start, at) ↦
      match_forward l predicate limit start at (ground (arith, at, sound))
        (ground (arith, at, sound))
]
match_internal_lem l predicate false limit sound = elim (Option-cases l.start) [
  | inl empty ↦ match_empty l predicate false limit empty
  | inr (start, at) ↦
      match_backward l predicate limit start at (ground (arith, at, sound))
        (ground (arith, at, sound))
]
