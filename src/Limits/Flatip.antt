-- ===== src/Limits/Flatip.antt =====
-- Addresses and networks of irc/flatip/flatip.go. An address is the list of its 16 bytes.
use oragono.Prelude.{
  ℕ, zero, suc, ◌+◌, ◌-◌, ◌/◌, ◌^◌, bit_and, ◌≡◌, refl, ◌↔◌, Bool, true, false, ◌&&◌, List, [], ◌∷◌,
  arith, leb, if◌then◌else◌, nat_beq_iff, take, replicate, Eq, ◌==◌, nat_eq, string_eq,
}

abbrev pub Ip : Type 0
Ip = List ℕ

pub record IpNet : Type 0 where
  pub ip : Ip
  pub prefix_len : ℕ

-- The comparison of arrays of bytes.
abbrev pub same_bytes : List ℕ → List ℕ → Bool
same_bytes [] [] = true
same_bytes [] (b ∷ ys) = false
same_bytes (a ∷ xs) [] = false
same_bytes (a ∷ xs) (b ∷ ys) = a == b && same_bytes xs ys

pub same_bytes_iff : (xs ys : List ℕ) → (same_bytes xs ys ≡ true) ↔ (xs ≡ ys)
same_bytes_iff [] [] = (λ h. refl, λ h. refl)
same_bytes_iff [] (b ∷ ys) = (λ h. ground (arith, h), λ h. ground (arith, h))
same_bytes_iff (a ∷ xs) [] = (λ h. ground (arith, h), λ h. ground (arith, h))
same_bytes_iff (a ∷ xs) (b ∷ ys) = (
  λ h. ground (arith, h, same_bytes_iff xs ys, nat_beq_iff a b),
  λ h. ground (arith, h, same_bytes_iff xs ys, nat_beq_iff a b),
)

instance abbrev pub bytes_eq : Eq (List ℕ)
bytes_eq = record { equals = same_bytes; equals_iff = same_bytes_iff }

abbrev v4_in_v6_prefix : List ℕ
v4_in_v6_prefix = 0 ∷ 0 ∷ 0 ∷ 0 ∷ 0 ∷ 0 ∷ 0 ∷ 0 ∷ 0 ∷ 0 ∷ 255 ∷ 255 ∷ []

unfoldable pub is_ipv4 : Ip → Bool
is_ipv4 ip = same_bytes (take 12 ip) v4_in_v6_prefix

-- The loop of rawCidrMask over the last `i` bytes.
unfoldable pub mask_bytes : ℕ → ℕ → Ip
mask_bytes zero n = []
mask_bytes (suc i) n =
    let rest = mask_bytes i (n - 8) in
    if leb 8 n then 255 ∷ rest else (255 - 255 / 2 ^ n) ∷ replicate i 0

unfoldable pub apply_mask : Ip → Ip → Ip
apply_mask [] mask = []
apply_mask (a ∷ xs) [] = []
apply_mask (a ∷ xs) (b ∷ ys) = bit_and a b ∷ apply_mask xs ys

unfoldable pub cidr_mask : ℕ → ℕ → Ip
unfolding mask_bytes
cidr_mask ones bits =
    if bits == 32
    then mask_bytes 16 (96 + ones)
    else if bits == 128
    then mask_bytes 16 ones
    else replicate 16 0

-- Mask
unfoldable pub mask_ip : Ip → ℕ → ℕ → Ip
unfolding apply_mask cidr_mask
mask_ip ip ones bits = apply_mask ip (cidr_mask ones bits)

unfoldable pub contains : IpNet → Ip → Bool
unfolding mask_ip
contains cidr ip = same_bytes cidr.ip (mask_ip ip cidr.prefix_len 128)

unfoldable pub ip_in_nets : Ip → List IpNet → Bool
unfolding contains
ip_in_nets addr [] = false
ip_in_nets addr (net ∷ nets) =
    let rest = ip_in_nets addr nets in if contains net addr then true else rest
