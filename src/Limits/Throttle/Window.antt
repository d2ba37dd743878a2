-- ===== src/Limits/Throttle/Window.antt =====
-- What a window lets through.
use oragono.Prelude.{
  ℕ, suc, ◌+◌, ◌-◌, ◌<◌, min, ◌≡◌, true, List, [], ◌∷◌, arith, length, nat_eq, string_eq,
}
use oragono.Limits.Throttle.{GenericThrottle, touch, allowed, within}

rest_of_window :
    (g : GenericThrottle) (ts : List ℕ)
    → 0 < g.limit
    → within g.details.start g.duration ts ≡ true
    → allowed g ts ≡ min (length ts) (g.limit - g.details.count)
unfolding allowed within touch
rest_of_window g [] limited inside = ground arith
rest_of_window g (t ∷ ts) limited inside = ground (
  arith,
  rest_of_window (record g { details = record (g.details) { count = g.details.count + 1 } }) ts,
  rest_of_window g ts,
)

-- Where the limit is not 0, and the first of the events comes after the old window and the others
-- in the new one, the throttle lets through just the limit, or all of them, if they are fewer.
window_lem :
    (g : GenericThrottle) (t : ℕ) (ts : List ℕ)
    → 0 < g.limit
    → g.duration < t - g.details.start
    → within t g.duration ts ≡ true
    → allowed g (t ∷ ts) ≡ min (suc (length ts)) g.limit
unfolding allowed touch
window_lem g t ts limited late inside =
    ground (arith, rest_of_window (record g { details = record { start = t; count = 1 } }) ts)
