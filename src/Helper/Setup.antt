-- ===== src/Helper/Setup.antt =====
-- src/userspace_helper.rs: setting the network up and taking it down. The
-- routes and the services that the setup has come by are those of the state that it leaves.
pub mod Moves
pub mod Teardown
pub mod Established
pub mod Complete
use mathlib.Core.List.{reverse}
use tunmux.Exec.{Outcome, attempt, done, fail, gets, pure, raise, step, ◌>>=◌, ◌>>◌}
use tunmux.Helper.{
  Host, MacosDnsServiceState, MacosNetworkFingerprint, MacosReconcileInputs, MacosRoute,
}
use tunmux.Helper.Commands.{Failure, Run, failed, run_command}
use tunmux.Helper.Config.{ParsedUserspaceConfig}
use tunmux.Helper.Dns.{
  capture_dns_service, current_dns_fingerprint, restore_dns_service, set_dns_servers,
  set_search_domains_empty,
}
use tunmux.Helper.Dns.Plan.{dns_policy, dns_target_services}
use tunmux.Helper.Dns.Reconcile.{
  is_done, or_before, push_saved, saved_services, set_dns_fingerprint,
}
use tunmux.Helper.Ifconfig.{local_connected_subnets}
use tunmux.Helper.Network.{Subnet, allowed_ips_cover_endpoint, parse_cidr}
use tunmux.Helper.Routes.{contains_char, desired_routes}
use tunmux.Helper.Routes.Install.{add_route, show_number}
use tunmux.Helper.Routes.Reconcile.{current_fingerprint, remove_route, require}
use tunmux.Helper.Routes.Table.{MacosRouteInstall, foreign, is_v6, owned}
use tunmux.Prelude.{
  Bool, List, Option, [], any, if◌then◌else◌, is_empty, none, not, some, ℕ, ℕ_eq, ◌&&◌, ◌++◌, ◌+◌,
  ◌-◌, ◌==◌, ◌||◌, ◌∷◌,
}
use tunmux.Text.{Str, codes}
use tunmux.Wireguard.{Platform, v4, v6}

abbrev has_colon : Str → Bool
has_colon s = contains_char b':' s

abbrev lacks_colon : Str → Bool
lacks_colon s = not (has_colon s)

unfoldable pub reconcile_inputs : Platform → Str → ParsedUserspaceConfig → MacosReconcileInputs
unfolding allowed_ips_cover_endpoint
reconcile_inputs p interface config =
    let endpoint = config.endpoint.ip in
    let has_ipv6 = any has_colon config.addresses in
    record {
      interface = interface;
      endpoint = endpoint;
      endpoint_is_ipv6 = is_v6 endpoint;
      endpoint_needs_pin =
          (not (is_v6 endpoint) || has_ipv6)
          && allowed_ips_cover_endpoint p config.allowed_ips endpoint;
      allowed_ips = config.allowed_ips;
      dns_servers = config.dns_servers;
      has_ipv4_address = any lacks_colon config.addresses;
      has_ipv6_address = has_ipv6;
    }

abbrev ifconfig : Str
ifconfig = codes "ifconfig"

abbrev pub set_mtu : Host → Str → Option ℕ → Run (Unit {0})
set_mtu host interface none = pure tt
set_mtu host interface (some mtu) =
    run_command host ifconfig (interface ∷ codes "mtu" ∷ show_number mtu ∷ [])

abbrev pub add_parsed_address : Platform → Host → Str → Str → Option Subnet → Run (Unit {0})
add_parsed_address p host interface address none = raise failed
add_parsed_address p host interface address (some (v4 n, prefix)) =
    run_command host ifconfig
      (interface ∷ codes "inet" ∷ address ∷ p.show_ip (v4 n) ∷ codes "alias" ∷ [])
add_parsed_address p host interface address (some (v6 n, prefix)) = run_command host ifconfig (
    interface
    ∷ codes "inet6"
    ∷ p.show_ip (v6 n)
    ∷ codes "prefixlen"
    ∷ show_number prefix
    ∷ codes "alias"
    ∷ [])

unfoldable pub add_addresses : Platform → Host → Str → List Str → Run (Unit {0})
unfolding run_command parse_cidr
add_addresses p host interface [] = pure tt
add_addresses p host interface (address ∷ rest) = do
  add_parsed_address p host interface address (parse_cidr p address)
  add_addresses p host interface rest

abbrev pub set_network_fingerprint : MacosNetworkFingerprint → Run (Unit {0})
set_network_fingerprint found = step (λ s. (
  done tt,
  record s { routing = record { routes_added = s.routing.routes_added; fingerprint = found } },
))

abbrev pub push_route : MacosRoute → MacosRouteInstall → Run (Unit {0})
push_route route foreign = pure tt
push_route route owned = step (λ s. (
  done tt,
  record s {
    routing = record {
      routes_added = s.routing.routes_added ++ route ∷ [];
      fingerprint = s.routing.fingerprint;
    };
  },
))

-- the first error ends it
unfoldable pub add_routes : Platform → Host → List MacosRoute → Run (Unit {0})
unfolding add_route
add_routes p host [] = pure tt
add_routes p host (route ∷ rest) = do
  installed ← add_route p host route
  push_route route installed
  add_routes p host rest

unfoldable pub take_services : Host → List Str → List Str → Run (Unit {0})
unfolding capture_dns_service set_dns_servers set_search_domains_empty
take_services host dns_servers [] = pure tt
take_services host dns_servers (service ∷ rest) = do
  saved ← capture_dns_service host service dns_servers
  push_saved saved
  set_dns_servers host service dns_servers
  set_search_domains_empty host service
  take_services host dns_servers rest

unfoldable pub configure_dns : Host → List Str → Run (Unit {0})
unfolding current_dns_fingerprint dns_target_services take_services
configure_dns host dns_servers = if is_empty dns_servers then pure tt else do
  found ← current_dns_fingerprint host
  take_services host dns_servers (dns_target_services dns_policy found)
  again ← attempt (current_dns_fingerprint host)
  set_dns_fingerprint (or_before found again)

unfoldable pub set_up :
    Platform → Host → ParsedUserspaceConfig → MacosReconcileInputs → Run (Unit {0})
unfolding run_command add_addresses current_fingerprint desired_routes add_routes configure_dns
set_up p host config inputs = do
  set_mtu host inputs.interface config.mtu
  add_addresses p host inputs.interface config.addresses
  run_command host ifconfig (inputs.interface ∷ codes "up" ∷ [])
  attempt (run_command host ifconfig (inputs.interface ∷ codes "-rxcsum" ∷ codes "-txcsum" ∷ []))
  found ← current_fingerprint p host inputs require
  set_network_fingerprint found
  add_routes p host (desired_routes p inputs found)
  configure_dns host config.dns_servers

-- the number of routes that could not be deleted
unfoldable pub remove_routes : Platform → Host → Str → List Subnet → List MacosRoute → Run ℕ
unfolding remove_route
remove_routes p host interface local_subnets [] = pure 0
remove_routes p host interface local_subnets (route ∷ rest) = do
  deleted ← remove_route p host interface local_subnets route
  later ← remove_routes p host interface local_subnets rest
  pure (1 - is_done deleted + later)

unfoldable pub restore_services : Host → List MacosDnsServiceState → Run ℕ
unfolding restore_dns_service
restore_services host [] = pure 0
restore_services host (saved ∷ rest) = do
  restored ← attempt (restore_dns_service host saved)
  later ← restore_services host rest
  pure (1 - is_done restored + later)

unfoldable pub roll_back : Platform → Host → Str → Run (Unit {0})
unfolding remove_routes restore_services
roll_back p host interface = do
  routing ← gets (λ s. s.routing)
  remove_routes p host interface routing.fingerprint.local_subnets (reverse routing.routes_added)
  services ← saved_services
  restore_services host (reverse services)
  raise failed

abbrev pub finish_setup : Platform → Host → Str → Outcome Failure (Unit {0}) → Run (Unit {0})
finish_setup p host interface (done u) = pure tt
finish_setup p host interface (fail x) = roll_back p host interface

-- from a state with no routes and no services
unfoldable pub configure_network : Platform → Host → Str → ParsedUserspaceConfig → Run (Unit {0})
unfolding reconcile_inputs set_up roll_back
configure_network p host interface config = do
  result ← attempt (set_up p host config (reconcile_inputs p interface config))
  finish_setup p host interface result

unfoldable pub finish_cleanup : ℕ → Run (Unit {0})
finish_cleanup errors = if errors == 0 then pure tt else raise failed

abbrev pub take_down : Platform → Host → MacosReconcileInputs → List MacosRoute → Run (Unit {0})
take_down p host inputs routes = do
  local_subnets ← local_connected_subnets p host inputs.interface
  undeleted ← remove_routes p host inputs.interface local_subnets (reverse routes)
  services ← saved_services
  unrestored ← restore_services host (reverse services)
  finish_cleanup (undeleted + unrestored)

unfoldable pub cleanup_network : Platform → Host → MacosReconcileInputs → Run (Unit {0})
unfolding local_connected_subnets remove_routes restore_services finish_cleanup
cleanup_network p host inputs = gets (λ s. s.routing.routes_added) >>= take_down p host inputs
