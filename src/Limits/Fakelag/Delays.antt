-- ===== src/Limits/Fakelag/Delays.antt =====
-- How a client's commands are spaced.
use oragono.Prelude.{
  ℕ, ◌+◌, ◌-◌, ◌/◌, ◌≤◌, ◌<◌, ◌≡◌, Bool, true, false, ◌&&◌, List, [], ◌∷◌, arith, leb, length,
  nat_eq, string_eq,
}
use oragono.Limits.Fakelag.{
  fakelag_bursting, fakelag_throttled, Fakelag, suspend, unsuspend, sleep, throttle, touch,
}

-- A command that comes within the cooldown of the last one, from a client that is throttled, is put off
-- until a window's share has passed since then, where the sleep lasts as long as it was asked to and
-- some messages are allowed in a window: the time that is noted lies that far from the last.
throttled-spaced :
    (fl : Fakelag) (now woken : ℕ)
    → fl.config.enabled ≡ true
    → fl.state ≡ fakelag_throttled
    → now - fl.last_touch ≤ fl.config.cooldown
    → 0 < fl.config.messages_per_window
    → fl.last_touch ≤ now
    → now + (touch fl now woken).1 ≤ woken
    → fl.last_touch + fl.config.window / fl.config.messages_per_window
      ≤ (touch fl now woken).0.last_touch
unfolding touch throttle sleep
throttled-spaced fl now woken on throttled soon some_allowed later slept = ground arith

-- A sequence of commands at the given times, and the sum of the times slept, each of which ends at once.
unfoldable pub touches : Fakelag → List ℕ → Fakelag × ℕ
touches fl [] = (fl, 0)
touches fl (t ∷ ts) =
    let (fl', slept) = touch fl t t in let (fl'', slept') = touches fl' ts in (fl'', slept + slept')

-- Each command of a burst comes within the cooldown of the one before it.
unfoldable pub is_quick : ℕ → ℕ → List ℕ → Bool
is_quick cooldown last [] = true
is_quick cooldown last (t ∷ ts) = leb (t - last) cooldown && is_quick cooldown t ts

-- As many quick commands as the burst still allows run without a delay, and each is counted, where the
-- delays are on.
burst_lem :
    (fl : Fakelag) (ts : List ℕ)
    → fl.config.enabled ≡ true
    → fl.state ≡ fakelag_bursting
    → is_quick fl.config.cooldown fl.last_touch ts ≡ true
    → fl.burst_count + length ts ≤ fl.config.burst_limit
    → ((touches fl ts).1 ≡ 0) × ((touches fl ts).0.burst_count ≡ fl.burst_count + length ts)
unfolding touches is_quick touch
burst_lem fl [] on bursting quick few = ground arith
burst_lem fl (t ∷ ts) on bursting quick few =
    ground (arith, burst_lem (record fl { last_touch = t; burst_count = fl.burst_count + 1 }) ts)

-- Turning the delays off and on again changes nothing, where they were not off already by the same
-- switch; turning them off twice is turning them off once.
unsuspend-suspend :
    (fl : Fakelag)
    → fl.suspended ≡ false
    → (unsuspend (suspend fl) ≡ fl) × (suspend (suspend fl) ≡ suspend fl)
unfolding suspend unsuspend
unsuspend-suspend fl off = ground arith
