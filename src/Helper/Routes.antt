-- ===== src/Helper/Routes.antt =====
-- src/userspace_helper.rs: the routes that the tunnel wants in the network it finds.
pub mod Lan
pub mod Table
pub mod Install
pub mod Reconcile
pub mod Moves
pub mod Owned
pub mod Added
pub mod Deletes
pub mod Stale
pub mod Foreign
pub mod Attached
pub mod Succeeds
use tunmux.Helper.{MacosNetworkFingerprint, MacosReconcileInputs, MacosRoute}
use tunmux.Helper.Network.{Subnet, network_base, parse_cidr, subnet_contains}
use tunmux.Prelude.{
  Bool, List, List_eq, Option, [], contains, false, find, if◌then◌else◌, none, not, retain, some,
  true, ℕ, ℕ_eq, ◌&&◌, ◌++◌, ◌==◌, ◌||◌, ◌∷◌,
}
use tunmux.Text.{Str, codes, strip_suffix}
use tunmux.Wireguard.{Platform}

abbrev pub contains_char : ℕ → Str → Bool
contains_char c s = contains s c

abbrev pub is_some : {A : Type 0} → Option A → Bool
is_some none = false
is_some (some a) = true

-- "-host" or "-net"
unfoldable pub route_target_kind : MacosRoute → Str
unfolding strip_suffix
route_target_kind route =
    let host_prefix = if route.is_ipv6 then codes "/128" else codes "/32" in
    if is_some route.gateway
      || is_some (strip_suffix host_prefix route.destination)
      || not (contains_char b'/' route.destination)
    then codes "-host"
    else codes "-net"

abbrev tunnel_route : Str → Bool → Str → MacosRoute
tunnel_route interface is_ipv6 destination = record {
  is_ipv6 = is_ipv6;
  destination = destination;
  interface = some interface;
  gateway = none;
}

-- one entry of the allowed networks
unfoldable pub allowed_route : Str → Bool → Bool → Str → List MacosRoute
allowed_route interface has_ipv4 has_ipv6 allowed =
    if allowed == codes "0.0.0.0/0"
    then if has_ipv4
      then tunnel_route interface false (codes "0.0.0.0/1")
        ∷ tunnel_route interface false (codes "128.0.0.0/1")
        ∷ []
      else []
    else if allowed == codes "::/0"
    then if has_ipv6
      then tunnel_route interface true (codes "::/1")
        ∷ tunnel_route interface true (codes "8000::/1")
        ∷ []
      else []
    else let is_ipv6 = contains_char b':' allowed in
      if is_ipv6 && not has_ipv6 || not is_ipv6 && not has_ipv4
      then []
      else tunnel_route interface is_ipv6 allowed ∷ []

unfoldable pub allowed_routes : List Str → Str → Bool → Bool → List MacosRoute
unfolding allowed_route
allowed_routes [] interface has_ipv4 has_ipv6 = []
allowed_routes (allowed ∷ rest) interface has_ipv4 has_ipv6 =
    allowed_route interface has_ipv4 has_ipv6 allowed
    ++ allowed_routes rest interface has_ipv4 has_ipv6

-- only a route to a device, without a gateway, can take a local network
abbrev pub is_tunnel_bound : MacosRoute → Bool
is_tunnel_bound route = is_some route.interface && not (is_some route.gateway)

abbrev pub first_holding : List Subnet → Option Subnet → Option Subnet
first_holding local_subnets none = none
first_holding local_subnets (some (ip, prefix)) =
    find (λ local. subnet_contains local (network_base ip prefix, prefix)) local_subnets

unfoldable pub excluded_by_local_subnet : Platform → MacosRoute → List Subnet → Option Subnet
unfolding parse_cidr network_base subnet_contains
excluded_by_local_subnet platform route local_subnets =
    if is_tunnel_bound route
    then first_holding local_subnets (parse_cidr platform route.destination)
    else none

abbrev pub is_excluded : Platform → List Subnet → MacosRoute → Bool
is_excluded platform local_subnets route =
    is_some (excluded_by_local_subnet platform route local_subnets)

abbrev pub is_kept : Platform → List Subnet → MacosRoute → Bool
is_kept platform local_subnets route = not (is_excluded platform local_subnets route)

-- the route that keeps the endpoint out of the tunnel
abbrev pub pin_through : Platform → MacosReconcileInputs → Option Str → List MacosRoute
pin_through platform inputs none = []
pin_through platform inputs (some gateway) =
    record {
      is_ipv6 = inputs.endpoint_is_ipv6;
      destination = platform.show_ip inputs.endpoint;
      interface = none;
      gateway = some gateway;
    }
    ∷ []

unfoldable pub endpoint_pin :
    Platform → MacosReconcileInputs → MacosNetworkFingerprint → List MacosRoute
endpoint_pin platform inputs fingerprint =
    if inputs.endpoint_needs_pin
    then pin_through platform inputs fingerprint.endpoint_gateway
    else []

unfoldable pub desired_routes :
    Platform → MacosReconcileInputs → MacosNetworkFingerprint → List MacosRoute
unfolding endpoint_pin allowed_routes excluded_by_local_subnet
desired_routes platform inputs fingerprint =
    endpoint_pin platform inputs fingerprint
    ++ retain (is_kept platform fingerprint.local_subnets) (
        allowed_routes inputs.allowed_ips inputs.interface inputs.has_ipv4_address
          inputs.has_ipv6_address)
