-- ===== src/Bans/Info.antt =====
-- IPBanInfo of irc/dline.go. Times are in nanoseconds; a clock that is read is an argument. A duration is
-- not negative.
use oragono.Prelude.{
  ℕ, ◌+◌, String, Bool, true, false, ◌||◌, Option, none, some, ltb, if◌then◌else◌, ◌==◌, nat_eq,
  string_eq,
}

pub record IpBanInfo : Type 0 where
  pub reason : String
  pub oper_reason : String
  pub oper_name : String
  pub time_created : ℕ
  pub duration : ℕ

-- timeLeft is above 0 at the time `now`.
unfoldable pub has_time_left : IpBanInfo → ℕ → Bool
has_time_left info now = ltb now (info.time_created + info.duration)

-- Whether addNetworkInternal takes the ban; 0 means that it is permanent.
unfoldable pub in_force : IpBanInfo → ℕ → Bool
unfolding has_time_left
in_force info now = info.duration == 0 || has_time_left info now

-- A ban in the database, with the time at which it expires there, as it was set (buntdb.SetOptions).
pub record StoredBan : Type 0 where
  pub info : IpBanInfo
  pub expires : Option ℕ

-- The entry that is written at the time `written`: a temporary ban gets its duration as its time to live.
unfoldable pub with_ttl : IpBanInfo → ℕ → StoredBan
with_ttl info written = record {
  info = info;
  expires = if info.duration == 0 then none else some (written + info.duration);
}

-- The database: whether it still returns an entry when it is read at a time.
abbrev pub Returns : Type 0
Returns = StoredBan → ℕ → Bool

-- Whether a check has found a ban.
abbrev pub is_some {ℓ} : {A : Type ℓ} → Option A → Bool
is_some none = false
is_some (some a) = true
