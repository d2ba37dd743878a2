-- ===== src/Limits/Fakelag.antt =====
-- Fakelag of irc/fakelag.go. The clock's readings and the end of a sleep are arguments.
pub mod Delays
use oragono.Prelude.{
  ℕ, zero, suc, ◌+◌, ◌-◌, ◌*◌, ◌/◌, ◌%◌, ◌^◌, ◌≤◌, ◌<◌, min, max, bit_and, bit_or, String, ◌≡◌,
  refl, sym, ap, subst, ◌∙◌, fun_ext, ◌≢◌, ◌↔◌, ◌⊎◌, inl, inr, Bool, true, false, not, ◌&&◌, ◌||◌,
  Option, none, some, List, [], ◌∷◌, ◌++◌, map, reverse, arith, ltb, leb, nat_beq, if◌then◌else◌,
  ltb→lt, lt→ltb, leb→le, nat_beq_iff, nat_beq_refl, Bool-cases, Option-cases, length, get_elem?,
  set, length-append, length-set, get_elem?-set_self, get_elem?-set_ne, get_or, take, drop,
  replicate, take-append-drop, length-take, length-drop, length-replicate, length-map, Eq, ◌==◌,
  ◌!=◌, nat_eq, string_eq, beq_refl, beq_ne, beq→eq, beq→ne,
}
use oragono.Prelude.GoMap.{
  GoMap, lookup, has, insert, delete, lookup-insert, lookup-delete, length-insert, length-delete-le,
  lookup-insert_self,
}

pub data FakelagState : Type 0 where
  fakelag_bursting fakelag_throttled : FakelagState

pub record FakelagConfig : Type 0 where
  pub enabled : Bool
  pub window : ℕ
  pub burst_limit : ℕ
  pub messages_per_window : ℕ
  pub cooldown : ℕ

pub record Fakelag : Type 0 where
  pub config : FakelagConfig
  pub suspended : Bool
  pub state : FakelagState
  pub burst_count : ℕ
  pub last_touch : ℕ

-- Initialize
unfoldable pub initialize : FakelagConfig → Fakelag
initialize config = record {
  config = config;
  suspended = false;
  state = fakelag_bursting;
  burst_count = 0;
  last_touch = 0;
}

-- Suspend
unfoldable pub suspend : Fakelag → Fakelag
suspend fl =
    if fl.config.enabled
    then record fl { suspended = true; config = record (fl.config) { enabled = false } }
    else fl

-- Unsuspend
unfoldable pub unsuspend : Fakelag → Fakelag
unsuspend fl =
    if fl.suspended
    then record fl { config = record (fl.config) { enabled = true }; suspended = false }
    else fl

-- The sleep at the end of Touch, after which the clock reads `woken`.
unfoldable pub sleep : Fakelag → ℕ → ℕ → Fakelag × ℕ
sleep fl duration woken =
    if ltb 0 duration then (record fl { last_touch = woken }, duration) else (fl, 0)

-- The part of Touch for a client that is throttled.
unfoldable pub throttle : Fakelag → ℕ → ℕ → Fakelag × ℕ
unfolding sleep
throttle fl elapsed woken =
    if ltb fl.config.cooldown elapsed
    then (record fl { state = fakelag_bursting; burst_count = 1 }, 0)
    else if ltb 0 fl.config.messages_per_window
    then sleep fl (fl.config.window / fl.config.messages_per_window - elapsed) woken
    else sleep (record fl { state = fakelag_bursting; burst_count = 1 })
        (fl.config.cooldown - elapsed) woken

-- Touch at the time `now`, with the time slept: the clock reads `woken` after a sleep.
unfoldable pub touch : Fakelag → ℕ → ℕ → Fakelag × ℕ
unfolding throttle
touch fl now woken =
    if not fl.config.enabled
    then (fl, 0)
    else let elapsed = now - fl.last_touch in
      let fl' = record fl { last_touch = now } in
      elim fl.state [
        | fakelag_bursting ↦
            let count = (if ltb fl.config.cooldown elapsed then 0 else fl.burst_count) + 1 in
            if ltb fl.config.burst_limit count
            then throttle (record fl' { burst_count = 0; state = fakelag_throttled }) elapsed woken
            else (record fl' { burst_count = count }, 0)
        | fakelag_throttled ↦ throttle fl' elapsed woken
      ]
