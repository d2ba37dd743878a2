-- ===== src/History/Queries/Forgetting.antt =====
-- Resize to 0.
use oragono.Prelude.{ℕ, ◌<◌, ◌≡◌, true, none, some, [], arith, length, nat_eq, string_eq}
use oragono.History.Buffer.{Buffer}
use oragono.History.Growth.{resize, resize_buffer}
use oragono.History.Queries.{between_times, match_internal, min_max_asc, order_of}

-- A buffer with items that is resized to 0 and then to another size without a window is empty, and a query
-- for the latest items calls its empty answer complete if nothing had been dropped before.
pub resize_zero_complete :
    (l : Buffer) (start maximum_size limit : ℕ)
    → l.start ≡ some start
    → 0 < length l.buffer
    → 0 < l.maximum_size
    → 0 < maximum_size
    → l.last_discarded ≡ 0
    → elim (resize l 0 0) [
      | none ↦ none
      | some l' ↦ elim (resize l' maximum_size 0) [
        | none ↦ none
        | some l'' ↦ between_times l'' 0 0 0 none limit
      ]
    ]
      ≡ some ([], true)
unfolding resize resize_buffer between_times match_internal min_max_asc order_of
resize_zero_complete l start maximum_size limit at room large later fresh =
    ground (arith, at, room, large, later, fresh)
