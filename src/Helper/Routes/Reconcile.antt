-- ===== src/Helper/Routes/Reconcile.antt =====
-- src/userspace_helper.rs: following the network while the tunnel is up, and taking the routes down.
use mathlib.Core.Option
use tunmux.Exec.{Outcome, attempt, done, fail, gets, pure, raise, step, ◌>>=◌, ◌>>◌}
use tunmux.Helper.{
  Host, MacosNetworkFingerprint, MacosNetworkFingerprint_eq, MacosReconcileInputs, MacosRoute,
  MacosRoute_eq, MacosRoutingState,
}
use tunmux.Helper.Commands.{Failure, Run, failed, run_command_capture_output}
use tunmux.Helper.Ifconfig.{local_connected_subnets}
use tunmux.Helper.Network.{Subnet}
use tunmux.Helper.Routes.{desired_routes}
use tunmux.Helper.Routes.Install.{add_route, del_route, restore_shadowed_lan_route}
use tunmux.Helper.Routes.Table.{MacosRouteInstall, foreign, owned}
use tunmux.Prelude.{
  Bool, List, Option, [], contains, false, if◌then◌else◌, none, some, true, ◌++◌, ◌==◌, ◌∷◌,
}
use tunmux.Text.{Str, codes, lines, strip_prefix, trim}
use tunmux.Wireguard.{Platform}

abbrev gateway_line : Str → Option Str
gateway_line line = Option.map trim (strip_prefix (codes "gateway:") (trim line))

abbrev pub first_gateway : List Str → Option Str
first_gateway [] = none
first_gateway (line ∷ rest) = elim (gateway_line line) [
  | some g ↦ some g
  | none ↦ first_gateway rest
]

-- a missing gateway is an error for IPv4 only
abbrev pub no_gateway : Bool → Run (Option Str)
no_gateway true = pure none
no_gateway false = raise failed

abbrev pub found_gateway : Bool → Option Str → Run (Option Str)
found_gateway is_ipv6 none = no_gateway is_ipv6
found_gateway is_ipv6 (some g) = pure (some g)

unfoldable pub get_default_gateway : Host → Bool → Run (Option Str)
unfolding run_command_capture_output lines trim strip_prefix
get_default_gateway host is_ipv6 = do
  output ← run_command_capture_output host (codes "route") (
      codes "-n" ∷ codes "get" ∷ (if is_ipv6 then codes "-inet6" ∷ [] else [])
      ++ codes "default" ∷ [])
  if output.success
      then found_gateway is_ipv6 (first_gateway (lines output.stdout))
      else no_gateway is_ipv6

-- what a failed look-up of the gateway means
pub data GatewayFallback : Type 0 where
  require : GatewayFallback
  keep : Option Str → GatewayFallback

abbrev pub fall_back : GatewayFallback → Run (Option Str)
fall_back require = raise failed
fall_back (keep previous) = pure previous

abbrev pub resolved : GatewayFallback → Outcome Failure (Option Str) → Run (Option Str)
resolved fallback (done (some g)) = pure (some g)
resolved fallback (done none) = fall_back fallback
resolved fallback (fail x) = fall_back fallback

abbrev pub pin_gateway : Host → MacosReconcileInputs → GatewayFallback → Run (Option Str)
pin_gateway host inputs fallback = do
  found ← attempt (get_default_gateway host inputs.endpoint_is_ipv6)
  resolved fallback found

unfoldable pub current_fingerprint :
    Platform → Host → MacosReconcileInputs → GatewayFallback → Run MacosNetworkFingerprint
unfolding local_connected_subnets get_default_gateway
current_fingerprint platform host inputs fallback = do
  local_subnets ← local_connected_subnets platform host inputs.interface
  endpoint_gateway ←
      if inputs.endpoint_needs_pin then pin_gateway host inputs fallback else pure none
  pure (record { local_subnets = local_subnets; endpoint_gateway = endpoint_gateway })

-- a route goes, and the local network that it held comes back
abbrev pub after_delete :
    Platform → Host → Str → List Subnet → MacosRoute → Outcome Failure (Unit {0}) → Run (Unit {0})
after_delete platform host interface local_subnets route (fail x) = pure tt
after_delete platform host interface local_subnets route (done _) =
    restore_shadowed_lan_route platform host route local_subnets interface

unfoldable pub remove_route :
    Platform → Host → Str → List Subnet → MacosRoute → Run (Outcome Failure (Unit {0}))
unfolding del_route restore_shadowed_lan_route
remove_route platform host interface local_subnets route = do
  deleted ← attempt (del_route host route)
  after_delete platform host interface local_subnets route deleted
  pure deleted

-- the routes that are no longer desired
unfoldable pub remove_stale :
    Platform → Host → Str → List Subnet → List MacosRoute → List MacosRoute → Run (Unit {0})
unfolding remove_route
remove_stale platform host interface local_subnets desired [] = pure tt
remove_stale platform host interface local_subnets desired (route ∷ rest) = do
  if contains desired route
      then pure tt
      else do remove_route platform host interface local_subnets route; pure tt
  remove_stale platform host interface local_subnets desired rest

abbrev pub kept_if_owned : MacosRoute → Outcome Failure MacosRouteInstall → List MacosRoute
kept_if_owned route (done owned) = route ∷ []
kept_if_owned route (done foreign) = []
kept_if_owned route (fail x) = []

unfoldable pub install_one : Platform → Host → List MacosRoute → MacosRoute → Run (List MacosRoute)
unfolding add_route
install_one platform host current route =
    if contains current route
    then pure (route ∷ [])
    else do result ← attempt (add_route platform host route); pure (kept_if_owned route result)

-- the desired routes that are there in the end
unfoldable pub install_desired :
    Platform → Host → List MacosRoute → List MacosRoute → Run (List MacosRoute)
unfolding install_one
install_desired platform host current [] = pure []
install_desired platform host current (route ∷ rest) = do
  here ← install_one platform host current route
  there ← install_desired platform host current rest
  pure (here ++ there)

abbrev pub set_routing : MacosRoutingState → Run (Unit {0})
set_routing routing = step (λ s. (done tt, record s { routing = routing }))

-- the network changed: the routes follow
unfoldable pub apply_fingerprint :
    Platform → Host → MacosReconcileInputs → MacosNetworkFingerprint → Run (Unit {0})
unfolding desired_routes remove_stale install_desired
apply_fingerprint platform host inputs found = do
  current ← gets (λ s. s.routing.routes_added)
  let desired = desired_routes platform inputs found in
      do
        remove_stale platform host inputs.interface found.local_subnets desired current
        installed ← install_desired platform host current desired
        set_routing (record { routes_added = installed; fingerprint = found })

abbrev pub follow :
    Platform → Host → MacosReconcileInputs → Outcome Failure MacosNetworkFingerprint → Run Bool
follow platform host inputs (fail x) = pure false
follow platform host inputs (done found) = do
  previous ← gets (λ s. s.routing.fingerprint)
  if found == previous
      then pure false
      else do apply_fingerprint platform host inputs found; pure true

unfoldable pub reconcile_routes : Platform → Host → MacosReconcileInputs → Run Bool
unfolding current_fingerprint apply_fingerprint
reconcile_routes platform host inputs = do
  previous ← gets (λ s. s.routing.fingerprint.endpoint_gateway)
  found ← attempt (current_fingerprint platform host inputs (keep previous))
  follow platform host inputs found
