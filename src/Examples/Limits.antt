-- ===== src/Examples/Limits.antt =====
-- The theorems on the limits, on the watchers of names and on the last names seen.
use oragono.Prelude.{◌≡◌, true, false, none, some, [], ◌∷◌, arith, nat_eq, string_eq}
use oragono.Prelude.GoMap.{lookup}
use oragono.Limits.Throttle.{GenericThrottle}
use oragono.Limits.Fakelag.{fakelag_throttled, FakelagConfig, Fakelag}
use oragono.WhoWas.{WhoWas, no_one, initialize, append}
use oragono.WhoWas.Bounds.{append_twice_panics}
use oragono.Monitor.{MonitorManager, inner}
use oragono.Monitor.Links.{linked}
use oragono.Monitor.Mirror.{IsMirrored}

abbrev two_in_ten : GenericThrottle
two_in_ten = record { details = record { start = 0; count = 2 }; duration = 10; limit = 2 }

abbrev lag_config : FakelagConfig
lag_config = record {
  enabled = true;
  window = 10;
  burst_limit = 3;
  messages_per_window = 2;
  cooldown = 20;
}

abbrev throttled_client : Fakelag
throttled_client = record {
  config = lag_config;
  suspended = false;
  state = fakelag_throttled;
  burst_count = 0;
  last_touch = 100;
}

-- The session 3 watches one name.
abbrev one_watched : MonitorManager
one_watched = record {
  watching = (3, ("bob", "Bob") ∷ []) ∷ [];
  watched_by = ("bob", (3, true) ∷ []) ∷ [];
}

one_watched-IsMirrored : IsMirrored one_watched
unfolding linked inner lookup
one_watched-IsMirrored s k = ground arith

abbrev old_ann : WhoWas
old_ann = record no_one { nick = "Ann"; nick_casefolded = "ann" }

append_twice_panics_example :
    elim (append (initialize 1) old_ann) [ none ↦ none | some l ↦ append l old_ann ] ≡ none
append_twice_panics_example = append_twice_panics old_ann old_ann
