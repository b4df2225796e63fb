-- ===== src/Helper/Routes/Lan.antt =====
-- The routes of src/userspace_helper.rs against the networks that the host is attached to.
use mathlib.Core.Path.{ap, subst}
use tunmux.Helper.{MacosNetworkFingerprint, MacosReconcileInputs, MacosRoute}
use tunmux.Helper.Network.{
  Subnet, network_base, parse_cidr, read_cidr, subnet_contains, with_prefix,
}
use tunmux.Helper.Network.Containment.{Covers, IsAddr, subnet_contains-overlaps}
use tunmux.Helper.Routes.{
  allowed_routes, desired_routes, endpoint_pin, excluded_by_local_subnet, first_holding,
  is_excluded, is_kept, is_some, is_tunnel_bound, pin_through,
}
use tunmux.Prelude.{
  All, All-Member, Bool, Bool-cases, List, Member, Option, [], append-Member, arith, false,
  find-none, if◌then◌else◌, inl, inr, leb, none, refl, retain-Member, some, true, ℕ, ◌<◌, ◌≡◌, ◌⊎◌,
}
use tunmux.Text.{Str, parse_unsigned, split_once}
use tunmux.Wireguard.{IpAddr, Platform}

-- `std` reads addresses of 32 and of 128 bits.
abbrev pub ReadsAddresses : Platform → Type 0
ReadsAddresses platform = (s : Str) (a : IpAddr) → platform.parse_ip s ≡ some a → IsAddr a

abbrev pub HasAddress : Subnet → Type 0
HasAddress net = IsAddr net.0

with_prefix-some :
    (o : Option IpAddr) (k : Option ℕ) (net : Subnet) → with_prefix o k ≡ some net → o ≡ some net.0
with_prefix-some (some a) (some k) net h = let same : (a, k) ≡ net = cc in ap (λ n. some n.0) same
with_prefix-some (some a) none net h = absurd (cc)
with_prefix-some none k net h = absurd (cc)

read_cidr-IsAddr :
    (platform : Platform) (parts : Option (Str × Str)) (net : Subnet)
    → ReadsAddresses platform
    → read_cidr platform parts ≡ some net
    → IsAddr net.0
read_cidr-IsAddr platform none net range h = absurd (cc)
read_cidr-IsAddr platform (some (ip, prefix)) net range h =
    range ip net.0 (with_prefix-some (platform.parse_ip ip) (parse_unsigned 255 prefix) net h)

parse_cidr-IsAddr :
    (platform : Platform) (value : Str) (net : Subnet)
    → ReadsAddresses platform
    → parse_cidr platform value ≡ some net
    → IsAddr net.0
unfolding parse_cidr
parse_cidr-IsAddr platform value net range h =
    read_cidr-IsAddr platform (split_once b'/' value) net range h

is_some-none : {A : Type 0} (o : Option A) → is_some o ≡ false → o ≡ none
is_some-none none h = refl
is_some-none (some a) h = absurd (cc)

-- A route that no local network excludes: none that shares an address with it is as short.
not_excluded-longer :
    (platform : Platform) (route : MacosRoute) (locals : List Subnet) (local net : Subnet)
    (x : IpAddr)
    → ReadsAddresses platform
    → is_tunnel_bound route ≡ true
    → is_excluded platform locals route ≡ false
    → Member local locals
    → IsAddr local.0
    → parse_cidr platform route.destination ≡ some net
    → Covers local x
    → Covers net x
    → net.1 < local.1
unfolding excluded_by_local_subnet
not_excluded-longer platform route locals local net x range bound kept m hl parsed in_local in_net =
    elim (Bool-cases (leb local.1 net.1)) [
      | inr longer ↦ ground arith
      | inl shorter ↦
          let none_holds : excluded_by_local_subnet platform route locals ≡ none =
            is_some-none _ kept in
          let searched : first_holding locals (some net) ≡ none =
            rw (bound, parsed) at none_holds in
          let apart : subnet_contains local (network_base net.0 net.1, net.1) ≡ false =
            find-none _ local locals searched m in
          let range_net = parse_cidr-IsAddr platform route.destination net range parsed in
          let held =
            subnet_contains-overlaps local net x hl range_net (ground arith) in_local in_net in
          absurd (cc)
    ]

desired_routes-Member :
    (platform : Platform) (inputs : MacosReconcileInputs) (fingerprint : MacosNetworkFingerprint)
    (route : MacosRoute)
    → Member route (desired_routes platform inputs fingerprint)
    → Member route (endpoint_pin platform inputs fingerprint)
      ⊎ (is_excluded platform fingerprint.local_subnets route ≡ false)
unfolding desired_routes
desired_routes-Member platform inputs fingerprint route m = elim (append-Member route _ _ m) [
  | inl pin ↦ inl pin
  | inr allowed ↦
      let kept =
        retain-Member (is_kept platform fingerprint.local_subnets) route
          (allowed_routes inputs.allowed_ips inputs.interface inputs.has_ipv4_address
            inputs.has_ipv6_address)
          allowed in
      inr (ground (arith, kept))
]

-- The endpoint's pin has a gateway.
endpoint_pin-IsBound :
    (platform : Platform) (inputs : MacosReconcileInputs) (fingerprint : MacosNetworkFingerprint)
    (route : MacosRoute)
    → Member route (endpoint_pin platform inputs fingerprint)
    → is_tunnel_bound route ≡ false
unfolding endpoint_pin
endpoint_pin-IsBound platform inputs fingerprint route m =
    by_need inputs.endpoint_needs_pin fingerprint.endpoint_gateway m
  where
    by_need :
        (b : Bool) (gateway : Option Str)
        → Member route (if b then pin_through platform inputs gateway else [])
        → is_tunnel_bound route ≡ false
    by_need true (some g) (inl e) = subst (λ r. is_tunnel_bound r ≡ false) e refl
    by_need true (some g) (inr m) = absurd m
    by_need true none m = absurd m
    by_need false gateway m = absurd m

-- Take a network that the host is attached to, and an address in it. A desired route to the tunnel's
-- device whose destination also holds the address has a shorter prefix than the network: the
-- longest match keeps the address on the network.
pub desired_routes-longest :
    (platform : Platform) (inputs : MacosReconcileInputs) (fingerprint : MacosNetworkFingerprint)
    (route : MacosRoute) (local net : Subnet) (x : IpAddr)
    → ReadsAddresses platform
    → All HasAddress fingerprint.local_subnets
    → Member route (desired_routes platform inputs fingerprint)
    → is_tunnel_bound route ≡ true
    → Member local fingerprint.local_subnets
    → parse_cidr platform route.destination ≡ some net
    → Covers local x
    → Covers net x
    → net.1 < local.1
desired_routes-longest platform inputs fingerprint route local net x range addresses m bound
      attached parsed in_local in_net =
    elim (desired_routes-Member platform inputs fingerprint route m) [
      | inl pin ↦ absurd (true-false (endpoint_pin-IsBound platform inputs fingerprint route pin))
      | inr kept ↦
          not_excluded-longer platform route fingerprint.local_subnets local net x range bound kept
            attached (All-Member HasAddress local _ addresses attached) parsed in_local in_net
    ]
  where
    true-false : is_tunnel_bound route ≡ false → ⊥
    true-false h = cc
