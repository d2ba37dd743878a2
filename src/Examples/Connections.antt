-- ===== src/Examples/Connections.antt =====
-- The theorems on the counts of connections.
use oragono.Prelude.{◌+◌, ◌≤◌, ◌≡◌, refl, ◌≢◌, true, false, none, [], ◌∷◌, nat_eq, string_eq}
use oragono.Limits.Flatip.{Ip, bytes_eq, ip_in_nets}
use oragono.Limits.Connections.{Limiter, addr_to_key, count_of, add_client}
use oragono.Limits.Connections.Counts.{add_client_lem}

abbrev home : Ip
home = 0 ∷ 0 ∷ 0 ∷ 0 ∷ 0 ∷ 0 ∷ 0 ∷ 0 ∷ 0 ∷ 0 ∷ 255 ∷ 255 ∷ 192 ∷ 0 ∷ 2 ∷ 7 ∷ []

abbrev quiet : Limiter
quiet = record {
  config = record {
    counts = true;
    max_concurrent = 4;
    throttles = false;
    window = 0;
    max_per_window = 0;
    cidr_len_ipv4 = 24;
    cidr_len_ipv6 = 64;
    exempted_nets = [];
    custom_limits = [];
  };
  limiter = [];
  throttler = [];
}

add_client_lem_example :
    let b = addr_to_key quiet.config quiet.config.custom_limits home in
    let (cl', error) = add_client quiet home 5 in
    ((error ≡ none)
      → (count_of cl' b.key ≡ count_of quiet b.key + 1)
        × ((count_of cl' b.key ≤ b.limit) × ((b.key ≢ []) → count_of cl' [] ≡ count_of quiet [])))
    × ((error ≢ none) → cl'.limiter ≡ quiet.limiter)
unfolding ip_in_nets
add_client_lem_example = add_client_lem quiet home 5 [] refl refl
