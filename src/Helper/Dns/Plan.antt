-- ===== src/Helper/Dns/Plan.antt =====
-- src/userspace_helper.rs: which services carry the tunnel's DNS, and what a pass has to do.
pub mod Reference
use mathlib.Core.Option
use tunmux.Helper.{MacosDnsFingerprint}
use tunmux.Helper.Network.{Subnet, subnet_contains, width}
use tunmux.Prelude.{
  Bool, List, List_eq, Option, Option_eq, [], any, contains, find, if◌then◌else◌, is_empty, none,
  not, some, ℕ_eq, ◌&&◌, ◌++◌, ◌==◌, ◌||◌, ◌∷◌,
}
use tunmux.Text.{Str}
use tunmux.Wireguard.{IpAddr, Platform}

pub data DnsPolicy : Type 0 where
  all_services primary_only : DnsPolicy

abbrev pub dns_policy : DnsPolicy
dns_policy = primary_only

abbrev primary_or_all : List Str → Option Str → List Str
primary_or_all services none = services
primary_or_all services (some primary) =
    if any (λ s. s == primary) services then primary ∷ [] else services

unfoldable pub dns_target_services : DnsPolicy → MacosDnsFingerprint → List Str
dns_target_services all_services found = found.services
dns_target_services primary_only found = primary_or_all found.services found.primary_service

abbrev pub host_of : Option IpAddr → Option Subnet
host_of none = none
host_of (some ip) = some (ip, width ip)

abbrev pub colliding : List Subnet → Option Subnet → Option (IpAddr × Subnet)
colliding local_subnets none = none
colliding local_subnets (some server) =
    Option.map (λ local. (server.0, local))
      (find (λ local. subnet_contains local server) local_subnets)

unfoldable pub dns_server_in_local_subnet :
    Platform → List Str → List Subnet → Option (IpAddr × Subnet)
unfolding subnet_contains
dns_server_in_local_subnet platform [] local_subnets = none
dns_server_in_local_subnet platform (server ∷ rest) local_subnets =
    elim (colliding local_subnets (host_of (platform.parse_ip server))) [
      | some c ↦ some c
      | none ↦ dns_server_in_local_subnet platform rest local_subnets
    ]

pub record DnsActions : Type 0 where
  pub capture : List Str
  pub restore : List Str
  pub drop : List Str
  pub apply : List Str

abbrev pub no_actions : DnsActions
no_actions = record { capture = []; restore = []; drop = []; apply = [] }

abbrev pub observed_dns : MacosDnsFingerprint → Str → Option (List Str)
observed_dns found service = elim (find (λ o. o.0 == service) found.observed) [
  | none ↦ none
  | some o ↦ o.1
]

unfoldable pub shows_tunnel : List Str → MacosDnsFingerprint → Str → Bool
shows_tunnel tunnel_dns found service = observed_dns found service == some tunnel_dns

-- the first loop: the targets
unfoldable pub plan_targets :
    List Str → MacosDnsFingerprint → List Str → List Str → DnsActions → DnsActions
unfolding shows_tunnel
plan_targets tunnel_dns found owned [] actions = actions
plan_targets tunnel_dns found owned (service ∷ rest) actions =
    let captured =
      if any (λ s. s == service) owned
      then actions
      else record actions { capture = actions.capture ++ service ∷ [] } in
    let applied =
      if shows_tunnel tunnel_dns found service
      then captured
      else record captured { apply = captured.apply ++ service ∷ [] } in
    plan_targets tunnel_dns found owned rest applied

-- the second loop: the services that are owned
unfoldable pub plan_owned : MacosDnsFingerprint → List Str → List Str → DnsActions → DnsActions
plan_owned found targets [] actions = actions
plan_owned found targets (service ∷ rest) actions =
    let next =
      if any (λ s. s == service) targets
      then actions
      else if any (λ s. s == service) found.services
      then record actions { restore = actions.restore ++ service ∷ [] }
      else record actions { drop = actions.drop ++ service ∷ [] } in
    plan_owned found targets rest next

unfoldable pub plan_dns_actions : List Str → MacosDnsFingerprint → List Str → List Str → DnsActions
unfolding plan_targets plan_owned
plan_dns_actions tunnel_dns found owned targets =
    plan_owned found targets owned (plan_targets tunnel_dns found owned targets no_actions)

unfoldable pub dns_reconcile_forced : Bool → List Str → List Str → Bool
dns_reconcile_forced collision_present owned targets =
    collision_present && not (is_empty owned)
    || not collision_present && any (λ t. not (contains owned t)) targets
