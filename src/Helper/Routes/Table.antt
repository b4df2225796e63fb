-- ===== src/Helper/Routes/Table.antt =====
-- src/userspace_helper.rs: reading, adding, deleting and repairing entries of the kernel's routing table.
use tunmux.Daemon.Store.{entry}
use tunmux.Exec.{Outcome, attempt, done, fail, pure, ◌>>=◌}
use tunmux.Helper.{Host, MacosRoute, Output}
use tunmux.Helper.Commands.{Failure, Run, run_command_capture_output}
use tunmux.Helper.Ifconfig.{count_ones}
use tunmux.Helper.Network.{IpAddr_eq, Subnet, network_base, parse_cidr, width}
use tunmux.Helper.Routes.{contains_char}
use tunmux.Prelude.{
  Bool, List, List_eq, Option, Pair_eq, [], false, if◌then◌else◌, none, not, some, true, ℕ, ℕ_eq,
  ◌&&◌, ◌++◌, ◌==◌, ◌∷◌,
}
use tunmux.Text.{Str, codes, lines, starts_with, strip_prefix, trim}
use tunmux.Wireguard.{IpAddr, Platform, v4, v6}

-- whether the tunnel ends up owning a route that it tried to install
pub data MacosRouteInstall : Type 0 where
  owned foreign : MacosRouteInstall

pub record MacosRouteEntry : Type 0 where
  pub destination : Subnet
  pub interface : Option Str
  pub has_gateway : Bool

abbrev pub is_tunnel_device : Option Str → Bool
is_tunnel_device none = false
is_tunnel_device (some device) = starts_with (codes "utun") device

unfoldable pub is_tunnel_owned : MacosRouteEntry → Bool
unfolding starts_with
is_tunnel_owned entry = not entry.has_gateway && is_tunnel_device entry.interface

-- a destination as a network base and a prefix length
abbrev pub based : Option Subnet → Option Subnet
based none = none
based (some (ip, prefix)) = some (network_base ip prefix, prefix)

abbrev pub host_subnet : Option IpAddr → Option Subnet
host_subnet none = none
host_subnet (some ip) = some (ip, width ip)

unfoldable pub route_destination : Platform → MacosRoute → Option Subnet
unfolding parse_cidr network_base
route_destination platform route = based (
    if contains_char b'/' route.destination
    then parse_cidr platform route.destination
    else host_subnet (platform.parse_ip route.destination))

abbrev address_bits : IpAddr → ℕ
address_bits (v4 n) = n
address_bits (v6 n) = n

unfoldable pub parse_route_mask : Platform → Str → Option ℕ
unfolding count_ones
parse_route_mask platform mask = elim (platform.parse_ip mask) [
  | none ↦ none
  | some ip ↦ some (count_ones (width ip) (address_bits ip))
]

-- the lines of `route -n get` that count
pub record RouteGet : Type 0 where
  pub destination : Option Str
  pub mask : Option Str
  pub gateway : Option Str
  pub interface : Option Str

unfoldable pub route_get_line : Str → RouteGet → RouteGet
unfolding trim strip_prefix
route_get_line trimmed found = elim (strip_prefix (codes "destination:") trimmed) [
  | some value ↦ record found { destination = some (trim value) }
  | none ↦ elim (strip_prefix (codes "mask:") trimmed) [
    | some value ↦ record found { mask = some (trim value) }
    | none ↦ elim (strip_prefix (codes "gateway:") trimmed) [
      | some value ↦ record found { gateway = some (trim value) }
      | none ↦ elim (strip_prefix (codes "interface:") trimmed) [
        | some value ↦ record found { interface = some (trim value) }
        | none ↦ found
      ]
    ]
  ]
]

abbrev route_get_lines : List Str → RouteGet → RouteGet
route_get_lines [] found = found
route_get_lines (line ∷ rest) found = route_get_lines rest (route_get_line (trim line) found)

abbrev prefix_of_mask : Platform → Bool → Option Str → Option ℕ
prefix_of_mask platform is_ipv6 none = some (if is_ipv6 then 128 else 32)
prefix_of_mask platform is_ipv6 (some value) =
    if value == codes "default" then some 0 else parse_route_mask platform value

abbrev is_given : Option Str → Bool
is_given none = false
is_given (some s) = true

abbrev entry_of : RouteGet → Option IpAddr → Option ℕ → Option MacosRouteEntry
entry_of found (some ip) (some prefix) = some (record {
  destination = (network_base ip prefix, prefix);
  interface = found.interface;
  has_gateway = is_given found.gateway;
})
entry_of found _ _ = none

abbrev parsed_destination : Platform → Option Str → Option IpAddr
parsed_destination platform none = none
parsed_destination platform (some s) = platform.parse_ip s

unfoldable pub parse_route_get : Platform → Str → Bool → Option MacosRouteEntry
unfolding lines trim route_get_line parse_route_mask
parse_route_get platform text is_ipv6 =
    let found =
      route_get_lines (lines text)
        (record { destination = none; mask = none; gateway = none; interface = none }) in
    entry_of found (parsed_destination platform found.destination)
      (prefix_of_mask platform is_ipv6 found.mask)

abbrev pub is_v6 : IpAddr → Bool
is_v6 (v4 n) = false
is_v6 (v6 n) = true

-- an entry for exactly this prefix
abbrev pub exactly : Subnet → Option MacosRouteEntry → Option MacosRouteEntry
exactly destination none = none
exactly destination (some entry) = if entry.destination == destination then some entry else none

abbrev pub reported_entry : Platform → Subnet → Outcome Failure Output → Option MacosRouteEntry
reported_entry platform destination (fail x) = none
reported_entry platform destination (done output) =
    if output.success
    then exactly destination (parse_route_get platform output.stdout (is_v6 destination.0))
    else none

unfoldable pub route_table_entry : Platform → Host → Subnet → Run (Option MacosRouteEntry)
unfolding run_command_capture_output network_base parse_route_get
route_table_entry platform host destination = do
  output ← attempt (
      run_command_capture_output host (codes "route") (
        codes "-n" ∷ codes "get" ∷ (if is_v6 destination.0 then codes "-inet6" ∷ [] else [])
        ++ platform.show_ip (network_base destination.0 destination.1) ∷ []))
  pure (reported_entry platform destination output)
