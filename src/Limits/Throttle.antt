-- ===== src/Limits/Throttle.antt =====
-- GenericThrottle of irc/connection_limits/throttler.go. A duration and a limit are not negative.
pub mod Window
use oragono.Prelude.{
  ℕ, zero, suc, ◌+◌, ◌-◌, ◌*◌, ◌/◌, ◌%◌, ◌^◌, ◌≤◌, ◌<◌, min, max, bit_and, bit_or, String, ◌≡◌,
  refl, sym, ap, subst, ◌∙◌, fun_ext, ◌≢◌, ◌↔◌, ◌⊎◌, inl, inr, Bool, true, false, not, ◌&&◌, ◌||◌,
  Option, none, some, List, [], ◌∷◌, ◌++◌, map, reverse, arith, ltb, leb, nat_beq, if◌then◌else◌,
  ltb→lt, lt→ltb, leb→le, nat_beq_iff, nat_beq_refl, Bool-cases, Option-cases, length, get_elem?,
  set, length-append, length-set, get_elem?-set_self, get_elem?-set_ne, get_or, take, drop,
  replicate, take-append-drop, length-take, length-drop, length-replicate, length-map, Eq, ◌==◌,
  ◌!=◌, nat_eq, string_eq, beq_refl, beq_ne, beq→eq, beq→ne,
}
use oragono.Prelude.GoMap.{
  GoMap, lookup, has, insert, delete, lookup-insert, lookup-delete, length-insert, length-delete-le,
  lookup-insert_self,
}

-- ThrottleDetails
pub record ThrottleDetails : Type 0 where
  pub start : ℕ
  pub count : ℕ

pub record GenericThrottle : Type 0 where
  pub details : ThrottleDetails
  pub duration : ℕ
  pub limit : ℕ

-- touch: whether the event is refused, and the time that remains then.
unfoldable pub touch : GenericThrottle → ℕ → GenericThrottle × (Bool × ℕ)
touch g now =
    if g.limit == 0
    then (g, (false, 0))
    else if ltb g.duration (now - g.details.start)
    then (record g { details = record { start = now; count = 1 } }, (false, 0))
    else if leb g.limit g.details.count
    then (g, (true, (g.details.start + g.duration) - now))
    else (record g { details = record (g.details) { count = g.details.count + 1 } }, (false, 0))

-- The events that a sequence of touches allows.
unfoldable pub allowed : GenericThrottle → List ℕ → ℕ
allowed g [] = 0
allowed g (t ∷ ts) =
    let (g', (throttled, _)) = touch g t in
    let rest = allowed g' ts in if throttled then rest else rest + 1

-- The times that lie in the window that was opened at `start`.
unfoldable pub within : ℕ → ℕ → List ℕ → Bool
within start duration [] = true
within start duration (t ∷ ts) = leb (t - start) duration && within start duration ts
