-- ===== src/Limits/Connections/Counts.antt =====
-- What the limiter counts.
use oragono.Prelude.{
  ℕ, ◌+◌, ◌-◌, ◌≤◌, ◌≡◌, ap, ◌∙◌, ◌≢◌, inl, inr, true, false, none, List, arith, if◌then◌else◌,
  Bool-cases, ◌==◌, nat_eq, string_eq, beq_refl, beq_ne, beq→eq, beq→ne,
}
use oragono.Prelude.GoMap.{lookup-insert}
use oragono.Limits.Flatip.{Ip, bytes_eq, ip_in_nets}
use oragono.Limits.Connections.{
  LimiterConfig, Limiter, Bucket, addr_to_key, count_of, add_counted, add_client, remove_client,
}

add_counted_lem :
    (cl : Limiter) (b : Bucket) (now : ℕ) (k : List ℕ)
    → cl.config.counts ≡ true
    → let (cl', error) = add_counted cl b now in
      ((error ≡ none)
        → (count_of cl' b.key ≡ count_of cl b.key + 1)
          × ((count_of cl' b.key ≤ b.limit) × ((b.key ≢ k) → count_of cl' k ≡ count_of cl k)))
      × ((error ≢ none) → cl'.limiter ≡ cl.limiter)
unfolding add_counted
add_counted_lem cl b now k on = (
  λ done. (
    ground (
      arith,
      on,
      done,
      lookup-insert cl.limiter b.key b.key (count_of cl b.key + 1),
      beq_refl b.key,
    ),
    (
      ground (
        arith,
        on,
        done,
        lookup-insert cl.limiter b.key b.key (count_of cl b.key + 1),
        beq_refl b.key,
      ),
      λ apart. ground (
        arith,
        on,
        done,
        lookup-insert cl.limiter b.key k (count_of cl b.key + 1),
        beq_ne b.key k apart,
      ),
    ),
  ),
  λ failed. ground (arith, on, failed),
)

-- AddClient for an address that is not exempt, while connections are counted: a success raises the count of
-- its network by one, which stays within the limit, and no other count; an error changes no count.
pub add_client_lem :
    (cl : Limiter) (addr : Ip) (now : ℕ) (k : List ℕ)
    → cl.config.counts ≡ true
    → ip_in_nets addr cl.config.exempted_nets ≡ false
    → let b = addr_to_key cl.config cl.config.custom_limits addr in
      let (cl', error) = add_client cl addr now in
      ((error ≡ none)
        → (count_of cl' b.key ≡ count_of cl b.key + 1)
          × ((count_of cl' b.key ≤ b.limit) × ((b.key ≢ k) → count_of cl' k ≡ count_of cl k)))
      × ((error ≢ none) → cl'.limiter ≡ cl.limiter)
unfolding add_client
add_client_lem cl addr now k on counted =
    rw counted (add_counted_lem cl (addr_to_key cl.config cl.config.custom_limits addr) now k on)

config-add_counted :
    (cl : Limiter) (b : Bucket) (now : ℕ) → (add_counted cl b now).0.config ≡ cl.config
unfolding add_counted
config-add_counted cl b now = ground arith

config-add_client :
    (cl : Limiter) (addr : Ip) (now : ℕ) → (add_client cl addr now).0.config ≡ cl.config
unfolding add_client
config-add_client cl addr now =
    ground (arith, config-add_counted cl (addr_to_key cl.config cl.config.custom_limits addr) now)

count-remove_client :
    (cl : Limiter) (addr : Ip) (k : List ℕ)
    → cl.config.counts ≡ true
    → ip_in_nets addr cl.config.exempted_nets ≡ false
    → let key = (addr_to_key cl.config cl.config.custom_limits addr).key in
      count_of (remove_client cl addr) k ≡ (if key == k then count_of cl key - 1 else count_of cl k)
unfolding remove_client
count-remove_client cl addr k on counted =
    let key = (addr_to_key cl.config cl.config.custom_limits addr).key in
    ground (arith, on, counted, lookup-insert cl.limiter key k (count_of cl key - 1))

-- When a client that was added leaves, every count is what it was before.
remove-add_client :
    (cl : Limiter) (addr : Ip) (now : ℕ) (k : List ℕ)
    → cl.config.counts ≡ true
    → ip_in_nets addr cl.config.exempted_nets ≡ false
    → (add_client cl addr now).1 ≡ none
    → count_of (remove_client (add_client cl addr now).0 addr) k ≡ count_of cl k
remove-add_client cl addr now k on counted done =
    let cl' = (add_client cl addr now).0 in
    let same = config-add_client cl addr now in
    let key = (addr_to_key cl.config cl.config.custom_limits addr).key in
    let key' = (addr_to_key cl'.config cl'.config.custom_limits addr).key in
    let named : key' ≡ key =
      ap (λ (c : LimiterConfig). (addr_to_key c c.custom_limits addr).key) same in
    let added = (add_client_lem cl addr now k on counted).0 done in
    let left =
      count-remove_client cl' addr k (ap (λ (c : LimiterConfig). c.counts) same ∙ on)
        (ap (λ (c : LimiterConfig). ip_in_nets addr c.exempted_nets) same ∙ counted) in
    elim (Bool-cases (key == k)) [
      | inl here_too ↦
          let at : key ≡ k = beq→eq key k here_too in
          left
          ∙ ground (arith, named, here_too, added.0, ap (count_of cl) at, ap (count_of cl') named)
      | inr elsewhere ↦ left ∙ ground (arith, named, elsewhere, added.1.1 (beq→ne key k elsewhere))
    ]
