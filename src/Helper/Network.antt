-- ===== src/Helper/Network.antt =====
-- src/userspace_helper.rs: networks as an address and a prefix length.
--
-- An address is its number (IpAddr); `bits & (u32::MAX << k)` is written as the division by `2 ^ k` and
-- the product with it. The text of an address is read by a Platform.
pub mod Containment
use tunmux.Prelude.{
  Bool, Eq, List, Option, any, arith, false, if◌then◌else◌, leb, ltb, nat_eq_iff, none, some, true,
  ℕ, ℕ_eq, ◌&&◌, ◌*◌, ◌-◌, ◌/◌, ◌==◌, ◌^◌, ◌↔◌, ◌≡◌,
}
use tunmux.Text.{Str, parse_unsigned, split_once}
use tunmux.Wireguard.{IpAddr, Platform, v4, v6}

abbrev pub Subnet : Type 0
Subnet = IpAddr × ℕ

abbrev pub width : IpAddr → ℕ
width (v4 n) = 32
width (v6 n) = 128

-- the masking of one address of `w` bits
unfoldable pub mask : ℕ → ℕ → ℕ → ℕ
mask w p n = if p == 0 then 0 else if leb w p then n else n / 2 ^ (w - p) * 2 ^ (w - p)

unfoldable pub network_base : IpAddr → ℕ → IpAddr
unfolding mask
network_base (v4 n) p = v4 (mask 32 p n)
network_base (v6 n) p = v6 (mask 128 p n)

abbrev pub ip_eq : IpAddr → IpAddr → Bool
ip_eq (v4 a) (v4 b) = a == b
ip_eq (v6 a) (v6 b) = a == b
ip_eq _ _ = false

pub ip_eq_iff : (a b : IpAddr) → (ip_eq a b ≡ true) ↔ (a ≡ b)
ip_eq_iff (v4 a) (v4 b) = ground (arith, nat_eq_iff a b)
ip_eq_iff (v6 a) (v6 b) = ground (arith, nat_eq_iff a b)
ip_eq_iff (v4 a) (v6 b) = ground arith
ip_eq_iff (v6 a) (v4 b) = ground arith

instance abbrev pub IpAddr_eq : Eq IpAddr
IpAddr_eq = record { is_eq = ip_eq; is_eq_iff = ip_eq_iff }

abbrev pub same_family : IpAddr → IpAddr → Bool
same_family (v4 a) (v4 b) = true
same_family (v6 a) (v6 b) = true
same_family _ _ = false

unfoldable pub subnet_contains : Subnet → Subnet → Bool
unfolding network_base
subnet_contains (local, p) (route, k) =
    if ltb k p
    then false
    else same_family local route && ip_eq (network_base route p) (network_base local p)

abbrev pub with_prefix : Option IpAddr → Option ℕ → Option Subnet
with_prefix (some a) (some k) = some (a, k)
with_prefix _ _ = none

abbrev pub read_cidr : Platform → Option (Str × Str) → Option Subnet
read_cidr platform none = none
read_cidr platform (some (ip, prefix)) =
    with_prefix (platform.parse_ip ip) (parse_unsigned 255 prefix)

unfoldable pub parse_cidr : Platform → Str → Option Subnet
unfolding split_once parse_unsigned
parse_cidr platform value = read_cidr platform (split_once b'/' value)

abbrev pub covers_endpoint : IpAddr → Option Subnet → Bool
covers_endpoint endpoint none = false
covers_endpoint endpoint (some (net, p)) =
    same_family net endpoint && ip_eq (network_base endpoint p) (network_base net p)

unfoldable pub allowed_ips_cover_endpoint : Platform → List Str → IpAddr → Bool
unfolding parse_cidr network_base
allowed_ips_cover_endpoint platform allowed_ips endpoint =
    any (λ allowed. covers_endpoint endpoint (parse_cidr platform allowed)) allowed_ips
