-- ===== src/Helper/Ifconfig.antt =====
-- src/userspace_helper.rs: the networks that the host is attached to, from what `ifconfig` prints.
pub mod Addresses
use mathlib.Core.Option
use tunmux.Exec.{Outcome, attempt, done, fail, pure, ◌>>=◌, ◌>>◌}
use tunmux.Helper.{Host, Output}
use tunmux.Helper.Commands.{Failure, Run, run_command_capture_output}
use tunmux.Helper.Network.{IpAddr_eq, Subnet, ip_eq, mask, network_base}
use tunmux.Prelude.{
  Bool, List, List_eq, Option, Pair_eq, [], dedup, false, find, if◌then◌else◌, leb, ltb, map, none,
  not, some, sort_by, suc, true, zero, ℕ, ℕ_eq, ◌%◌, ◌&&◌, ◌*◌, ◌++◌, ◌+◌, ◌/◌, ◌==◌, ◌^◌, ◌||◌,
  ◌∷◌,
}
use tunmux.Text.{
  Str, before, codes, contains_str, is_whitespace, lines, parse_hex_u32, parse_unsigned, split_once,
  split_whitespace, strip_prefix, trim,
}
use tunmux.Wireguard.{IpAddr, Platform, v4, v6}

-- the ones among the `w` lowest bits
unfoldable pub count_ones : ℕ → ℕ → ℕ
count_ones zero n = 0
count_ones (suc w) n = n % 2 + count_ones w (n / 2)

abbrev or_else : {A : Type 0} → Option A → Option A → Option A
or_else (some a) other = some a
or_else none other = other

unfoldable pub parse_macos_hex_netmask : Str → Option ℕ
unfolding count_ones strip_prefix parse_hex_u32
parse_macos_hex_netmask mask =
    elim (or_else (strip_prefix (codes "0x") mask) (strip_prefix (codes "0X") mask)) [
      | none ↦ none
      | some hex ↦ Option.map (count_ones 32) (parse_hex_u32 hex)
    ]

-- the field after the one that is `key`
abbrev pub field_after : Str → List Str → Option Str
field_after key [] = none
field_after key (f ∷ []) = none
field_after key (f ∷ g ∷ fs) =
    let later = field_after key (g ∷ fs) in if f == key then some g else later

abbrev pub first : List Str → Option Str
first [] = none
first (f ∷ fs) = some f

abbrev pub subnet_v4 : Option IpAddr → Option ℕ → Option Subnet
subnet_v4 (some (v4 n)) (some prefix) = some (network_base (v4 n) prefix, prefix)
subnet_v4 _ _ = none

unfoldable pub parse_ifconfig_inet4_subnet : Platform → Str → Option Subnet
unfolding split_whitespace parse_macos_hex_netmask
parse_ifconfig_inet4_subnet platform rest =
    let fields = split_whitespace rest in
    elim (first fields) [
      | none ↦ none
      | some ip ↦ elim (field_after (codes "netmask") fields) [
        | none ↦ none
        | some mask ↦ subnet_v4 (platform.parse_ip ip) (parse_macos_hex_netmask mask)
      ]
    ]

-- loopback, or link-local (fe80::/10)
abbrev pub is_not_routable : ℕ → Bool
is_not_routable n = n == 1 || n / 2 ^ 112 / 64 * 64 == 0xfe80

abbrev pub subnet_v6 : Option IpAddr → Option ℕ → Option Subnet
subnet_v6 (some (v6 n)) (some prefix) =
    if is_not_routable n then none else some (network_base (v6 n) prefix, prefix)
subnet_v6 _ _ = none

unfoldable pub parse_ifconfig_inet6_subnet : Platform → Str → Option Subnet
unfolding split_whitespace before parse_unsigned
parse_ifconfig_inet6_subnet platform rest =
    let fields = split_whitespace rest in
    elim (first fields) [
      | none ↦ none
      | some address ↦ elim (field_after (codes "prefixlen") fields) [
        | none ↦ none
        | some prefix ↦
            subnet_v6 (platform.parse_ip (before b'%' address)) (parse_unsigned 255 prefix)
      ]
    ]

-- a header such as "en0: flags=8863<UP,BROADCAST,...> mtu 1500": the device, when it is up and no
-- loopback, no tunnel and not ours
abbrev pub header_device : Str → Option (Str × Str) → Option Str
header_device tunnel_interface none = none
header_device tunnel_interface (some (name, rest)) =
    if not (trim name == tunnel_interface)
      && contains_str (codes "UP") rest
      && not (contains_str (codes "LOOPBACK") rest)
      && not (contains_str (codes "POINTOPOINT") rest)
    then some (trim name)
    else none

abbrev pub with_device : Str → Option Subnet → List (Str × Subnet)
with_device device none = []
with_device device (some subnet) = (device, subnet) ∷ []

abbrev pub address_line : Platform → Str → Str → List (Str × Subnet)
address_line platform device trimmed = elim (strip_prefix (codes "inet ") trimmed) [
  | some rest ↦ with_device device (parse_ifconfig_inet4_subnet platform rest)
  | none ↦ elim (strip_prefix (codes "inet6 ") trimmed) [
    | some rest ↦ with_device device (parse_ifconfig_inet6_subnet platform rest)
    | none ↦ []
  ]
]

abbrev pub starts_with_space : Str → Bool
starts_with_space [] = false
starts_with_space (c ∷ s) = is_whitespace c

abbrev pub device_line : Platform → Option Str → Str → List (Str × Subnet)
device_line platform none line = []
device_line platform (some device) line = address_line platform device (trim line)

unfoldable pub connected_lines : Platform → Str → Option Str → List Str → List (Str × Subnet)
unfolding split_once trim contains_str strip_prefix parse_ifconfig_inet4_subnet
    parse_ifconfig_inet6_subnet is_whitespace
connected_lines platform tunnel_interface device [] = []
connected_lines platform tunnel_interface device (line ∷ rest) =
    let under = connected_lines platform tunnel_interface device rest in
    let next = header_device tunnel_interface (split_once b':' line) in
    let headed = connected_lines platform tunnel_interface next rest in
    if not (starts_with_space line) then headed else device_line platform device line ++ under

abbrev pub printed_subnets : Platform → Str → Outcome Failure Output → List (Str × Subnet)
printed_subnets platform tunnel_interface (fail x) = []
printed_subnets platform tunnel_interface (done output) =
    if output.success
    then connected_lines platform tunnel_interface none (lines output.stdout)
    else []

unfoldable pub connected_subnets_by_device : Platform → Host → Str → Run (List (Str × Subnet))
unfolding run_command_capture_output connected_lines lines
connected_subnets_by_device platform host tunnel_interface = do
  output ← attempt (run_command_capture_output host (codes "ifconfig") [])
  pure (printed_subnets platform tunnel_interface output)

-- the order of `(IpAddr, u8)`
abbrev pub ip_lt : IpAddr → IpAddr → Bool
ip_lt (v4 a) (v4 b) = ltb a b
ip_lt (v4 a) (v6 b) = true
ip_lt (v6 a) (v4 b) = false
ip_lt (v6 a) (v6 b) = ltb a b

abbrev pub subnet_le : Subnet → Subnet → Bool
subnet_le (a, p) (b, k) = ip_lt a b || ip_eq a b && leb p k

unfoldable pub local_connected_subnets : Platform → Host → Str → Run (List Subnet)
unfolding connected_subnets_by_device
local_connected_subnets platform host tunnel_interface = do
  subnets ← connected_subnets_by_device platform host tunnel_interface
  pure (dedup (sort_by subnet_le (map (λ d. d.1) subnets)))

abbrev pub device_of : Subnet → List (Str × Subnet) → Option Str
device_of subnet found = Option.map (λ d. d.0) (find (λ d. d.1 == subnet) found)

unfoldable pub connected_subnet_device : Platform → Host → Subnet → Str → Run (Option Str)
unfolding connected_subnets_by_device
connected_subnet_device platform host subnet tunnel_interface = do
  subnets ← connected_subnets_by_device platform host tunnel_interface
  pure (device_of subnet subnets)
