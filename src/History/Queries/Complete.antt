-- ===== src/History/Queries/Complete.antt =====
-- Queries against the log of all that was added to a buffer.
use oragono.Prelude.{
  ℕ, ◌≤◌, ◌<◌, ◌≡◌, refl, Bool, true, false, Option, some, List, [], ◌∷◌, ◌++◌, reverse, arith, leb,
  if◌then◌else◌, nat_eq, string_eq,
}
use mathlib.Core.List.{append-nil, reverse-append}
use oragono.Ring.Scan.{matching, limited}
use oragono.History.Buffer.{Item, Buffer, items}
use oragono.History.Growth.Log.{all_covered, Represents}
use oragono.History.Queries.{Interval, min_max_asc, satisfies, between_times}
use oragono.History.Queries.Loops.{match_internal_lem}

-- The answer from a list of items, from the oldest to the newest: the matching ones that come first in the
-- order of the interval, up to the limit, and then in ascending order.
unfoldable pub query : List Item → Interval → Option (Item → Bool) → ℕ → List Item
query xs i pred limit =
    if i.ascending
    then limited limit (matching (satisfies i pred) xs)
    else reverse (limited limit (matching (satisfies i pred) (reverse xs)))

matching-append :
    (p : Item → Bool) (xs ys : List Item) → matching p (xs ++ ys) ≡ matching p xs ++ matching p ys
matching-append p [] ys = refl
matching-append p (x ∷ xs) ys = ground (arith, matching-append p xs ys)

covered_not_satisfies :
    (i : Interval) (pred : Option (Item → Bool)) (t : ℕ) (x : Item)
    → 0 < x.time
    → x.time ≤ t
    → t ≤ i.after
    → satisfies i pred x ≡ false
unfolding satisfies
covered_not_satisfies i pred t x timed covered complete = ground (arith, timed, covered, complete)

matching-reverse_covered :
    (i : Interval) (pred : Option (Item → Bool)) (t : ℕ) (xs : List Item)
    → all_covered t xs ≡ true
    → t ≤ i.after
    → (matching (satisfies i pred) xs ≡ []) × (matching (satisfies i pred) (reverse xs) ≡ [])
matching-reverse_covered i pred t [] ok complete = (refl, refl)
matching-reverse_covered i pred t (x ∷ xs) ok complete =
    let rest = matching-reverse_covered i pred t xs (ground (arith, ok)) complete in
    let miss =
      covered_not_satisfies i pred t x (ground (arith, ok)) (ground (arith, ok)) complete in
    (
      ground (arith, rest, miss),
      ground (
        arith,
        rest,
        miss,
        reverse-append (x ∷ []) xs,
        matching-append (satisfies i pred) (reverse xs) (x ∷ []),
      ),
    )

-- An interval that begins after all that was dropped has the same answer from the buffer as from the log.
query_complete :
    (l : Buffer) (log : List Item) (i : Interval) (pred : Option (Item → Bool)) (limit : ℕ)
    → Represents l log
    → l.last_discarded ≤ i.after
    → query (items l) i pred limit ≡ query log i pred limit
unfolding query
query_complete l log i pred limit r complete =
    let lost = matching-reverse_covered i pred l.last_discarded r.dropped r.covered complete in
    ground (
      arith,
      r.split,
      lost,
      matching-append (satisfies i pred) r.dropped (items l),
      reverse-append r.dropped (items l),
      matching-append (satisfies i pred) (reverse (items l)) (reverse r.dropped),
      append-nil (matching (satisfies i pred) (reverse (items l))),
    )

-- On a buffer that represents a log (as Add keeps it, and Resize to any size but 0; a buffer after Delete,
-- or after a Resize to 0, need not), a query between two times ends without a panic, in the answer from the
-- items of the buffer; if it is called complete, that is the answer from the whole log.
pub between_times_lem :
    (l : Buffer) (log : List Item) (after before cutoff : ℕ) (pred : Option (Item → Bool))
    (limit : ℕ)
    → Represents l log
    → let i = min_max_asc after before cutoff in
      (results : List Item) × ((complete : Bool) × ((between_times l after before cutoff pred limit
            ≡ some (results, complete))
          × ((results ≡ query (items l) i pred limit)
              × ((complete ≡ true) → results ≡ query log i pred limit))))
unfolding between_times query
between_times_lem l log after before cutoff pred limit r =
    let i = min_max_asc after before cutoff in
    (
      query (items l) i pred limit,
      (
        leb l.last_discarded i.after,
        (
          ground (
            arith,
            match_internal_lem l (satisfies i pred) i.ascending limit (ground (arith, r.sound)),
          ),
          (refl, λ complete. query_complete l log i pred limit r (ground (arith, complete))),
        ),
      ),
    )
