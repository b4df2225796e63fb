-- ===== src/Tests/Tunnels.antt =====
-- The theorems on the helper of one tunnel, at a host that answers every command and prints nothing.
use mathlib.Core.Path.{subst}
use tunmux.Exec.{◌>>=◌, attempt, done}
use tunmux.Helper.{
  Host, MacosCleanupState, MacosDnsFingerprint, MacosDnsServiceState, MacosNetworkFingerprint,
  MacosReconcileInputs, MacosRoute,
}
use tunmux.Helper.Config.{ParsedUserspaceConfig}
use tunmux.Helper.Dns.Originals.{SavesForeign, reconcile_dns-SavesForeign}
use tunmux.Helper.Dns.Plan.{plan_dns_actions}
use tunmux.Helper.Dns.Plan.Reference.{plan_dns_actions_lem, selected_actions}
use tunmux.Helper.Dns.Reconcile.{reconcile_dns}
use tunmux.Helper.Network.{Subnet, parse_cidr, subnet_contains}
use tunmux.Helper.Network.Containment.{Covers, IsAddr, subnet_contains_lem}
use tunmux.Helper.Routes.{desired_routes}
use tunmux.Helper.Routes.Foreign.{IsPhysical, add_route-foreign, look_up_command}
use tunmux.Helper.Routes.Install.{add_route}
use tunmux.Helper.Routes.Lan.{ReadsAddresses, desired_routes-longest}
use tunmux.Helper.Routes.Reconcile.{reconcile_routes}
use tunmux.Helper.Routes.Table.{MacosRouteEntry, foreign, route_destination, route_table_entry}
use tunmux.Helper.Setup.{cleanup_network, configure_network}
use tunmux.Helper.Setup.Teardown.{cleanup_network-deletes}
use tunmux.Helper.Routes.Deletes.{delete_command}
use tunmux.Prelude.{
  Bool-cases, List, List_eq, Member, Option, Option_eq, [], arith, false, if◌then◌else◌, inl, inr,
  ltb, none, refl, some, true, ℕ, ℕ_eq, ◌&&◌, ◌++◌, ◌<◌, ◌==◌, ◌↔◌, ◌∷◌, ◌≡◌,
}
use tunmux.Tests.{platform}
use tunmux.Text.{Str, codes}
use tunmux.Wireguard.{IpAddr, Platform, v4}

-- an address is one character below 256 and the family 4
abbrev parse_short : Str → Option IpAddr
parse_short (n ∷ k ∷ []) = if ltb n 256 && k == b'4' then some (v4 n) else none
parse_short _ = none

abbrev short : Platform
short = record platform { parse_ip = parse_short }

parse_short-IsAddr :
    (n k : ℕ) (a : IpAddr)
    → (if ltb n 256 && k == b'4' then some (v4 n) else none) ≡ some a
    → IsAddr a
parse_short-IsAddr n k a h = elim (Bool-cases (ltb n 256 && k == b'4')) [
  | inl small ↦
      let found : some (v4 n) ≡ some a = rw (small) at h in
      let same : v4 n ≡ a = cc in subst IsAddr same (ground arith)
  | inr other ↦ let nothing : none ≡ some a = rw (other) at h in absurd (cc)
]

short-ReadsAddresses : ReadsAddresses short
short-ReadsAddresses (n ∷ k ∷ []) a h = parse_short-IsAddr n k a h
short-ReadsAddresses [] a h = absurd (cc)
short-ReadsAddresses (n ∷ []) a h = absurd (cc)
short-ReadsAddresses (n ∷ k ∷ c ∷ s) a h = absurd (cc)

-- the addresses 0 to 255 for the tunnel, and a local network with the addresses 16 to 31
abbrev allowed : Str
allowed = 16 ∷ codes "4/24"

abbrev local : Subnet
local = (v4 16, 28)

abbrev dns_server : Str
dns_server = 9 ∷ codes "4"

abbrev config : ParsedUserspaceConfig
config = record {
  private_key = [];
  addresses = allowed ∷ [];
  dns_servers = dns_server ∷ [];
  mtu = some 1420;
  peer_public_key = [];
  peer_preshared_key = none;
  allowed_ips = allowed ∷ [];
  endpoint = record { ip = v4 300; port = 51820 };
}

abbrev device : Str
device = codes "utun4"

abbrev inputs : MacosReconcileInputs
inputs = record {
  interface = device;
  endpoint = v4 300;
  endpoint_is_ipv6 = false;
  endpoint_needs_pin = false;
  allowed_ips = allowed ∷ [];
  dns_servers = dns_server ∷ [];
  has_ipv4_address = true;
  has_ipv6_address = false;
}

abbrev route : MacosRoute
route = record { is_ipv6 = false; destination = allowed; interface = some device; gateway = none }

abbrev attached : MacosNetworkFingerprint
attached = record { local_subnets = local ∷ []; endpoint_gateway = none }

route-Member : Member route (desired_routes short inputs attached)
unfolding desired_routes
route-Member = inl refl

route-parsed : parse_cidr short route.destination ≡ some (v4 16, 24)
unfolding parse_cidr
route-parsed = refl

subnet_contains_lem_example :
    (subnet_contains local (v4 24, 30) ≡ true)
    ↔ ((x : IpAddr) → IsAddr x → Covers (v4 24, 30) x → Covers local x)
subnet_contains_lem_example =
    subnet_contains_lem local (v4 24, 30) (omega arith, omega arith) (omega arith, omega arith)

desired_routes-longest_example : 24 < 28
desired_routes-longest_example =
    desired_routes-longest short inputs attached route local (v4 16, 24) (v4 17)
      short-ReadsAddresses (omega arith, tt) route-Member refl (inl refl) route-parsed refl refl

-- every command succeeds and prints nothing
abbrev silent : Host
silent = record { answer = λ ran c. some (record { success = true; stdout = []; stderr = [] }) }

abbrev wifi : Str
wifi = codes "Wi-Fi"

abbrev saved : MacosDnsServiceState
saved = record { service = wifi; dns_servers = none; search_domains = none }

abbrev seen : MacosDnsFingerprint
seen = record { primary_service = some wifi; services = wifi ∷ []; observed = (wifi, none) ∷ [] }

abbrev up : MacosCleanupState
up = record {
  ran = [];
  routing = record { routes_added = route ∷ []; fingerprint = attached };
  dns = record { services = saved ∷ []; fingerprint = seen };
}

abbrev blank : MacosCleanupState
blank = record {
  ran = [];
  routing = record {
    routes_added = [];
    fingerprint = record { local_subnets = []; endpoint_gateway = none };
  };
  dns = record {
    services = [];
    fingerprint = record { primary_service = none; services = []; observed = [] };
  };
}

-- a host with one service, Wi-Fi, and nothing else to say
abbrev listing : List Str → Str
listing (flag ∷ []) = if flag == codes "-listallnetworkservices" then wifi else []
listing _ = []

abbrev one_service : Host
one_service = record {
  answer = λ ran c. some (record { success = true; stdout = listing c.args; stderr = [] });
}

cleanup_network-deletes_example :
    Member (delete_command route) (cleanup_network short silent inputs up).1.ran
cleanup_network-deletes_example = cleanup_network-deletes short silent inputs up route (inl refl)

plan_dns_actions_lem_example :
    plan_dns_actions (dns_server ∷ []) seen (codes "Ethernet" ∷ []) (wifi ∷ [])
    ≡ selected_actions (dns_server ∷ []) seen (codes "Ethernet" ∷ []) (wifi ∷ [])
plan_dns_actions_lem_example =
    plan_dns_actions_lem (dns_server ∷ []) seen (codes "Ethernet" ∷ []) (wifi ∷ [])

reconcile_dns-SavesForeign_example :
    SavesForeign inputs.dns_servers (reconcile_dns short one_service inputs up).1
reconcile_dns-SavesForeign_example =
    reconcile_dns-SavesForeign short one_service inputs up (refl, tt)

-- what the helper runs when nobody answers with text: the networks are read, and the route stays
kept_route : (reconcile_routes short silent inputs up).1.routing.routes_added ≡ route ∷ []
unfolding reconcile_routes ◌>>=◌ attempt
kept_route = refl

-- a setup records the route and the service that it took
set_up_route :
    (configure_network short one_service device config blank).1.routing.routes_added ≡ route ∷ []
unfolding configure_network ◌>>=◌ attempt
set_up_route = refl

set_up_services :
    (configure_network short one_service device config blank).1.dns.services ≡ saved ∷ []
unfolding configure_network ◌>>=◌ attempt
set_up_services = refl

-- a host with one device up, en0, on the local network
abbrev line_end : Str
line_end = 10 ∷ []

abbrev en0 : Str
en0 =
    codes "en0: flags=8863<UP>"
    ++ line_end
    ++ codes " inet "
    ++ 16 ∷ codes "4 netmask 0xfffffff0"
    ++ line_end

abbrev printed : Str → Str
printed program = if program == codes "ifconfig" then en0 else []

abbrev on_lan : Host
on_lan = record {
  answer = λ ran c. some (record { success = true; stdout = printed c.program; stderr = [] });
}

-- the tunnel was up before the host joined the network
abbrev before_joining : MacosCleanupState
before_joining = record up {
  routing = record {
    routes_added = route ∷ [];
    fingerprint = record { local_subnets = []; endpoint_gateway = none };
  };
}

joined :
    (reconcile_routes short on_lan inputs before_joining).1.routing
    ≡ record { routes_added = route ∷ []; fingerprint = attached }
unfolding reconcile_routes ◌>>=◌ attempt
joined = refl

-- a host whose en0 holds the single address 16
abbrev held_route : MacosRoute
held_route = record route { destination = 16 ∷ codes "4/32" }

abbrev held_entry : Str
held_entry =
    codes "destination: " ++ 16 ∷ codes "4" ++ line_end ++ codes "interface: en0" ++ line_end

abbrev held : Host
held = record {
  answer = λ ran c. some (record { success = true; stdout = held_entry; stderr = [] });
}

abbrev on_en0 : MacosRouteEntry
on_en0 = record { destination = (v4 16, 32); interface = some (codes "en0"); has_gateway = false }

held_destination : route_destination short held_route ≡ some (v4 16, 32)
unfolding route_destination
held_destination = refl

held_by_other : (route_table_entry short held (v4 16, 32) up).0 ≡ done (some on_en0)
unfolding route_table_entry ◌>>=◌ attempt
held_by_other = refl

on_en0-IsPhysical : IsPhysical on_en0
unfolding tunmux.Text.starts_with
on_en0-IsPhysical = inr refl

add_route-foreign_example :
    ((add_route short held held_route up).0 ≡ done foreign)
    × ((add_route short held held_route up).1.ran ≡ look_up_command short (v4 16, 32) ∷ up.ran)
add_route-foreign_example =
    add_route-foreign short held held_route up (v4 16, 32) on_en0 refl held_destination
      held_by_other on_en0-IsPhysical
