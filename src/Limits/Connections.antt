-- ===== src/Limits/Connections.antt =====
-- Limiter of irc/connection_limits/limiter.go and TorLimiter of irc/connection_limits/tor.go; limits are not
-- negative.
pub mod Counts
use oragono.Prelude.{
  ℕ, zero, suc, ◌+◌, ◌-◌, ◌*◌, ◌/◌, ◌%◌, ◌^◌, ◌≤◌, ◌<◌, min, max, bit_and, bit_or, String, ◌≡◌,
  refl, sym, ap, subst, ◌∙◌, fun_ext, ◌≢◌, ◌↔◌, ◌⊎◌, inl, inr, Bool, true, false, not, ◌&&◌, ◌||◌,
  Option, none, some, List, [], ◌∷◌, ◌++◌, map, reverse, arith, ltb, leb, nat_beq, if◌then◌else◌,
  ltb→lt, lt→ltb, leb→le, nat_beq_iff, nat_beq_refl, Bool-cases, Option-cases, length, get_elem?,
  set, length-append, length-set, get_elem?-set_self, get_elem?-set_ne, get_or, take, drop,
  replicate, take-append-drop, length-take, length-drop, length-replicate, length-map, Eq, ◌==◌,
  ◌!=◌, nat_eq, string_eq, beq_refl, beq_ne, beq→eq, beq→ne,
}
use oragono.Prelude.GoMap.{
  GoMap, lookup, has, insert, delete, lookup-insert, lookup-delete, length-insert, length-delete-le,
  lookup-insert_self,
}
use oragono.Limits.Throttle.{ThrottleDetails, GenericThrottle, touch}
use oragono.Limits.Flatip.{Ip, IpNet, bytes_eq, is_ipv4, mask_ip, contains, ip_in_nets}

pub data LimitError : Type 0 where
  limit_exceeded throttle_exceeded : LimitError

-- customLimit; the name is the hash of the identifier.
pub record CustomLimit : Type 0 where
  pub name : Ip
  pub max_concurrent : ℕ
  pub max_per_window : ℕ
  pub nets : List IpNet

-- LimiterConfig, after it is read.
pub record LimiterConfig : Type 0 where
  pub counts : Bool
  pub max_concurrent : ℕ
  pub throttles : Bool
  pub window : ℕ
  pub max_per_window : ℕ
  pub cidr_len_ipv4 : ℕ
  pub cidr_len_ipv6 : ℕ
  pub exempted_nets : List IpNet
  pub custom_limits : List CustomLimit

-- A key of the maps is the length of the prefix, a byte, and then the masked address.
pub record Limiter : Type 0 where
  pub config : LimiterConfig
  pub limiter : GoMap (List ℕ) ℕ
  pub throttler : GoMap (List ℕ) ThrottleDetails

-- The key of an address, with its limit and the limit of a window.
pub record Bucket : Type 0 where
  pub key : List ℕ
  pub limit : ℕ
  pub throttle : ℕ

-- The end of addrToKey, for an address without a custom limit.
unfoldable pub plain_bucket : LimiterConfig → Ip → Bucket
unfolding is_ipv4 mask_ip
plain_bucket config addr = record {
  key =
      if is_ipv4 addr
      then ((config.cidr_len_ipv4 + 96) % 256) ∷ mask_ip addr config.cidr_len_ipv4 32
      else (config.cidr_len_ipv6 % 256) ∷ mask_ip addr config.cidr_len_ipv6 128;
  limit = config.max_concurrent;
  throttle = config.max_per_window;
}

-- addrToKey, over the custom limits.
unfoldable pub addr_to_key : LimiterConfig → List CustomLimit → Ip → Bucket
unfolding plain_bucket ip_in_nets
addr_to_key config [] addr = plain_bucket config addr
addr_to_key config (custom ∷ customs) addr =
    let rest = addr_to_key config customs addr in
    if ip_in_nets addr custom.nets
    then record {
      key = 0 ∷ custom.name;
      limit = custom.max_concurrent;
      throttle = custom.max_per_window;
    }
    else rest

-- A missing key reads as 0.
abbrev pub count_of : Limiter → List ℕ → ℕ
count_of cl k = elim (lookup cl.limiter k) [ none ↦ 0 | some n ↦ n ]

abbrev details_of : Limiter → List ℕ → ThrottleDetails
details_of cl k = elim (lookup cl.throttler k) [
  | none ↦ record { start = 0; count = 0 }
  | some d ↦ d
]

-- The part of AddClient for an address that is not exempt.
unfoldable pub add_counted : Limiter → Bucket → ℕ → Limiter × Option LimitError
unfolding touch
add_counted cl b now =
    let count = count_of cl b.key + 1 in
    let g : GenericThrottle = record {
      details = details_of cl b.key;
      duration = cl.config.window;
      limit = b.throttle;
    } in
    let (g', (throttled, _)) = touch g now in
    let cl' =
      if cl.config.throttles
      then record cl { throttler = insert cl.throttler b.key g'.details }
      else cl in
    if cl.config.counts && ltb b.limit count
    then (cl, some limit_exceeded)
    else if cl.config.throttles && throttled
    then (cl', some throttle_exceeded)
    else if cl.config.counts
    then (record cl' { limiter = insert cl.limiter b.key count }, none)
    else (cl', none)

unfoldable pub add_client : Limiter → Ip → ℕ → Limiter × Option LimitError
unfolding add_counted addr_to_key ip_in_nets
add_client cl addr now =
    if ip_in_nets addr cl.config.exempted_nets
    then (cl, none)
    else add_counted cl (addr_to_key cl.config cl.config.custom_limits addr) now

unfoldable pub remove_client : Limiter → Ip → Limiter
unfolding addr_to_key ip_in_nets
remove_client cl addr =
    let k = (addr_to_key cl.config cl.config.custom_limits addr).key in
    if not cl.config.counts || ip_in_nets addr cl.config.exempted_nets
    then cl
    else record cl { limiter = insert cl.limiter k (count_of cl k - 1) }

unfoldable pub reset_throttle : Limiter → Ip → Limiter
unfolding addr_to_key ip_in_nets
reset_throttle cl addr =
    let k = (addr_to_key cl.config cl.config.custom_limits addr).key in
    if not cl.config.throttles || ip_in_nets addr cl.config.exempted_nets
    then cl
    else record cl { throttler = delete cl.throttler k }

unfoldable pub apply_config : Limiter → LimiterConfig → Limiter
apply_config cl config = record cl { config = config }

pub record TorLimiter : Type 0 where
  pub num_connections : ℕ
  pub max_connections : ℕ
  pub tor_throttle : GenericThrottle

unfoldable pub configure : TorLimiter → ℕ → ℕ → ℕ → TorLimiter
configure tl max_connections duration per_duration = record tl {
  max_connections = max_connections;
  tor_throttle = record (tl.tor_throttle) { duration = duration; limit = per_duration };
}

unfoldable pub tor_add_client : TorLimiter → ℕ → TorLimiter × Option LimitError
unfolding touch
tor_add_client tl now =
    let (g, (throttled, _)) = touch tl.tor_throttle now in
    if tl.max_connections != 0 && leb tl.max_connections tl.num_connections
    then (tl, some limit_exceeded)
    else if throttled
    then (record tl { tor_throttle = g }, some throttle_exceeded)
    else (record tl { tor_throttle = g; num_connections = tl.num_connections + 1 }, none)
