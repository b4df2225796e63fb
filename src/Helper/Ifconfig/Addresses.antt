-- ===== src/Helper/Ifconfig/Addresses.antt =====
-- The networks that src/userspace_helper.rs reads from `ifconfig` have addresses in range.
use tunmux.Exec.{Outcome, done, fail}
use tunmux.Exec.Gives.{Gives, Gives-after, Gives-bind, Gives-pure}
use tunmux.Helper.{Host, Output}
use tunmux.Helper.Commands.{Failure}
use tunmux.Helper.Ifconfig.{
  connected_lines, connected_subnets_by_device, device_line, field_after, first, header_device,
  is_not_routable, local_connected_subnets, parse_ifconfig_inet4_subnet,
  parse_ifconfig_inet6_subnet, parse_macos_hex_netmask, printed_subnets, starts_with_space,
  subnet_le, subnet_v4, subnet_v6, with_device,
}
use tunmux.Helper.Network.{IpAddr_eq, Subnet, mask, network_base}
use tunmux.Helper.Network.Containment.{IsAddr, network_base-IsAddr}
use tunmux.Helper.Routes.Lan.{HasAddress, ReadsAddresses}
use tunmux.Prelude.{
  All, All-append, All-dedup, All-if, All-map, All-sort_by, Bool, List, Option, Pair_eq, [], false,
  if◌then◌else◌, none, not, refl, some, true, ℕ, ℕ_eq, ◌∷◌, ◌≡◌,
}
use tunmux.Text.{
  Str, before, codes, lines, parse_unsigned, split_once, split_whitespace, strip_prefix, trim,
}
use tunmux.Wireguard.{IpAddr, Platform, v4, v6}

abbrev InRange : Option Subnet → Type 0
InRange none = Unit
InRange (some net) = HasAddress net

abbrev Readable : Option IpAddr → Type 0
Readable none = Unit
Readable (some a) = IsAddr a

abbrev pub DeviceInRange : Str × Subnet → Type 0
DeviceInRange d = HasAddress d.1

subnet_v4-InRange : (a : Option IpAddr) (k : Option ℕ) → Readable a → InRange (subnet_v4 a k)
subnet_v4-InRange (some (v4 n)) (some k) h = network_base-IsAddr (v4 n) k h
subnet_v4-InRange (some (v4 n)) none h = tt
subnet_v4-InRange (some (v6 n)) k h = tt
subnet_v4-InRange none k h = tt

subnet_v6-InRange : (a : Option IpAddr) (k : Option ℕ) → Readable a → InRange (subnet_v6 a k)
subnet_v6-InRange (some (v6 n)) (some k) h = by_test (is_not_routable n)
  where
    by_test : (b : Bool) → InRange (if b then none else some (network_base (v6 n) k, k))
    by_test true = tt
    by_test false = network_base-IsAddr (v6 n) k h
subnet_v6-InRange (some (v6 n)) none h = tt
subnet_v6-InRange (some (v4 n)) k h = tt
subnet_v6-InRange none k h = tt

module _ (platform : Platform) (range : ReadsAddresses platform) where
  parse_ip-Readable : (s : Str) → Readable (platform.parse_ip s)
  parse_ip-Readable s = by_answer (platform.parse_ip s) (range s)
    where
      by_answer : (o : Option IpAddr) → ((a : IpAddr) → o ≡ some a → IsAddr a) → Readable o
      by_answer none h = tt
      by_answer (some a) h = h a refl

  inet4-InRange : (rest : Str) → InRange (parse_ifconfig_inet4_subnet platform rest)
  unfolding parse_ifconfig_inet4_subnet
  inet4-InRange rest =
      let fields = split_whitespace rest in
      by_fields (first fields) (field_after (codes "netmask") fields)
    where
      by_fields :
          (a m : Option Str)
          → InRange (elim a [
            | none ↦ none
            | some ip ↦ elim m [
              | none ↦ none
              | some mask ↦ subnet_v4 (platform.parse_ip ip) (parse_macos_hex_netmask mask)
            ]
          ])
      by_fields none m = tt
      by_fields (some ip) none = tt
      by_fields (some ip) (some mask) = subnet_v4-InRange _ _ (parse_ip-Readable ip)

  inet6-InRange : (rest : Str) → InRange (parse_ifconfig_inet6_subnet platform rest)
  unfolding parse_ifconfig_inet6_subnet
  inet6-InRange rest =
      let fields = split_whitespace rest in
      by_fields (first fields) (field_after (codes "prefixlen") fields)
    where
      by_fields :
          (a m : Option Str)
          → InRange (elim a [
            | none ↦ none
            | some address ↦ elim m [
              | none ↦ none
              | some prefix ↦
                  subnet_v6 (platform.parse_ip (before b'%' address)) (parse_unsigned 255 prefix)
            ]
          ])
      by_fields none m = tt
      by_fields (some address) none = tt
      by_fields (some address) (some prefix) =
          subnet_v6-InRange _ _ (parse_ip-Readable (before b'%' address))

  with_device-InRange :
      (device : Str) (net : Option Subnet)
      → InRange net
      → All DeviceInRange (with_device device net)
  with_device-InRange device none h = tt
  with_device-InRange device (some net) h = (h, tt)

  device_line-InRange :
      (device : Option Str) (line : Str) → All DeviceInRange (device_line platform device line)
  device_line-InRange none line = tt
  device_line-InRange (some device) line =
      by_family (strip_prefix (codes "inet ") (trim line))
        (strip_prefix (codes "inet6 ") (trim line))
    where
      by_family :
          (four six : Option Str)
          → All DeviceInRange (elim four [
            | some rest ↦ with_device device (parse_ifconfig_inet4_subnet platform rest)
            | none ↦ elim six [
              | some rest ↦ with_device device (parse_ifconfig_inet6_subnet platform rest)
              | none ↦ []
            ]
          ])
      by_family (some rest) six = with_device-InRange device _ (inet4-InRange rest)
      by_family none (some rest) = with_device-InRange device _ (inet6-InRange rest)
      by_family none none = tt

  connected_lines-InRange :
      (interface : Str) (device : Option Str) (text : List Str)
      → All DeviceInRange (connected_lines platform interface device text)
  unfolding connected_lines
  connected_lines-InRange interface device [] = tt
  connected_lines-InRange interface device (line ∷ rest) =
      All-if DeviceInRange (not (starts_with_space line)) _ _
        (connected_lines-InRange interface (header_device interface (split_once b':' line)) rest)
        (All-append DeviceInRange _ _ (device_line-InRange device line)
          (connected_lines-InRange interface device rest))

  printed_subnets-InRange :
      (interface : Str) (r : Outcome Failure Output)
      → All DeviceInRange (printed_subnets platform interface r)
  printed_subnets-InRange interface (fail x) = tt
  printed_subnets-InRange interface (done output) =
      All-if DeviceInRange output.success _ _
        (connected_lines-InRange interface none (lines output.stdout)) tt

  connected_subnets_by_device-InRange :
      (host : Host) (interface : Str)
      → Gives (All DeviceInRange) (connected_subnets_by_device platform host interface)
  unfolding connected_subnets_by_device
  connected_subnets_by_device-InRange host interface =
      Gives-after _ _ (λ r. Gives-pure _ (printed_subnets-InRange interface r))

  -- the local networks, in order and without repetition
  pub local_connected_subnets-HasAddress :
      (host : Host) (interface : Str)
      → Gives (All HasAddress) (local_connected_subnets platform host interface)
  unfolding local_connected_subnets
  local_connected_subnets-HasAddress host interface =
      Gives-bind _ _ (connected_subnets_by_device-InRange host interface) (λ found h. Gives-pure _ (
        All-dedup HasAddress ⦃e = Pair_eq ⦃e = IpAddr_eq⦄ ⦃f = ℕ_eq⦄⦄ _
          (All-sort_by HasAddress subnet_le _ (All-map HasAddress (λ d. d.1) found h))))
