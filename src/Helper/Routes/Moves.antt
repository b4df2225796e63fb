-- ===== src/Helper/Routes/Moves.antt =====
-- The steps of src/userspace_helper.rs that read the network and that change the routing table move the
-- state as a relation says that allows one command.
use tunmux.Daemon.Store.{entry}
use tunmux.Exec.{Outcome, done, fail}
use tunmux.Exec.Moves.{Moves, Moves-attempt, Moves-bind, Moves-if, Moves-pure, Moves-raise}
use tunmux.Helper.{Host, MacosCleanupState, MacosReconcileInputs, MacosRoute}
use tunmux.Helper.Commands.{Failure, failed}
use tunmux.Helper.Commands.Moves.{
  RunsFreely, run_command-Moves, run_command_capture_output-Moves, run_command_with_exists_ok-Moves,
}
use tunmux.Helper.Ifconfig.{
  connected_subnet_device, connected_subnets_by_device, local_connected_subnets,
}
use tunmux.Helper.Network.{Subnet}
use tunmux.Helper.Routes.{excluded_by_local_subnet}
use tunmux.Helper.Routes.Install.{
  add_claimed, add_connected, add_route, claim_prefix, claim_route, del_route, look_up, repair,
  restore_shadowed_lan_route, restore_subnet,
}
use tunmux.Helper.Routes.Reconcile.{
  GatewayFallback, after_delete, current_fingerprint, found_gateway, get_default_gateway,
  install_desired, install_one, keep, pin_gateway, remove_route, remove_stale, require, resolved,
}
use tunmux.Helper.Routes.Table.{MacosRouteEntry, foreign, route_table_entry}
use tunmux.Prelude.{Bool, List, Option, [], false, none, some, true, ◌++◌, ◌∷◌}
use tunmux.Text.{Str}
use tunmux.Wireguard.{Platform}

module _ {R : MacosCleanupState → MacosCleanupState → Type 0} (free : RunsFreely R) where
  module _ (platform : Platform) (host : Host) where
    pub connected_subnets_by_device-Moves :
        (interface : Str) → Moves R (connected_subnets_by_device platform host interface)
    unfolding connected_subnets_by_device
    connected_subnets_by_device-Moves interface =
        let o = free.order in
        search (Moves-bind o, Moves-pure o, Moves-attempt o, run_command_capture_output-Moves free)

    pub local_connected_subnets-Moves :
        (interface : Str) → Moves R (local_connected_subnets platform host interface)
    unfolding local_connected_subnets
    local_connected_subnets-Moves interface =
        let o = free.order in search (Moves-bind o, Moves-pure o, connected_subnets_by_device-Moves)

    connected_subnet_device-Moves :
        (subnet : Subnet) (interface : Str)
        → Moves R (connected_subnet_device platform host subnet interface)
    unfolding connected_subnet_device
    connected_subnet_device-Moves subnet interface =
        let o = free.order in search (Moves-bind o, Moves-pure o, connected_subnets_by_device-Moves)

    route_table_entry-Moves : (subnet : Subnet) → Moves R (route_table_entry platform host subnet)
    unfolding route_table_entry
    route_table_entry-Moves subnet =
        let o = free.order in
        search (Moves-bind o, Moves-pure o, Moves-attempt o, run_command_capture_output-Moves free)

    look_up-Moves : (d : Option Subnet) → Moves R (look_up platform host d)
    look_up-Moves none = Moves-pure free.order none
    look_up-Moves (some d) = route_table_entry-Moves d

    claim_prefix-Moves :
        (route : MacosRoute) (entry : Option MacosRouteEntry)
        → Moves R (claim_prefix host route entry)
    claim_prefix-Moves route none = Moves-pure free.order true
    claim_prefix-Moves route (some entry) =
        let o = free.order in
        search (Moves-if o, Moves-bind o, Moves-pure o, Moves-attempt o, run_command-Moves free)

    claim_route-Moves : (route : MacosRoute) → Moves R (claim_route platform host route)
    unfolding claim_route
    claim_route-Moves route =
        let o = free.order in
        search (Moves-if o, Moves-bind o, Moves-pure o, look_up-Moves, claim_prefix-Moves)

    add_claimed-Moves : (route : MacosRoute) (b : Bool) → Moves R (add_claimed host route b)
    add_claimed-Moves route false = Moves-pure free.order foreign
    add_claimed-Moves route true =
        let o = free.order in
        search (Moves-bind o, Moves-pure o, run_command_with_exists_ok-Moves free)

    pub add_route-Moves : (route : MacosRoute) → Moves R (add_route platform host route)
    unfolding add_route
    add_route-Moves route =
        let o = free.order in search (Moves-bind o, claim_route-Moves, add_claimed-Moves)

    pub del_route-Moves : (route : MacosRoute) → Moves R (del_route host route)
    unfolding del_route
    del_route-Moves route =
        let o = free.order in
        search (
          Moves-bind o,
          Moves-if o,
          Moves-pure o,
          Moves-raise o,
          run_command_capture_output-Moves free,
        )

    add_connected-Moves :
        (subnet : Subnet) (device : Option Str)
        → Moves R (add_connected platform host subnet device)
    add_connected-Moves subnet none = Moves-pure free.order tt
    add_connected-Moves subnet (some device) =
        let o = free.order in
        search (Moves-bind o, Moves-pure o, Moves-attempt o, run_command_with_exists_ok-Moves free)

    repair-Moves :
        (interface : Str) (subnet : Subnet) (entry : Option MacosRouteEntry)
        → Moves R (repair platform host interface subnet entry)
    repair-Moves interface subnet (some entry) = Moves-pure free.order tt
    repair-Moves interface subnet none =
        let o = free.order in
        search (Moves-bind o, connected_subnet_device-Moves, add_connected-Moves)

    restore_subnet-Moves :
        (interface : Str) (found : Option Subnet)
        → Moves R (restore_subnet platform host interface found)
    restore_subnet-Moves interface none = Moves-pure free.order tt
    restore_subnet-Moves interface (some subnet) =
        let o = free.order in search (Moves-bind o, route_table_entry-Moves, repair-Moves)

    pub restore_shadowed_lan_route-Moves :
        (route : MacosRoute) (locals : List Subnet) (interface : Str)
        → Moves R (restore_shadowed_lan_route platform host route locals interface)
    unfolding restore_shadowed_lan_route
    restore_shadowed_lan_route-Moves route locals interface =
        restore_subnet-Moves interface (excluded_by_local_subnet platform route locals)

    found_gateway-Moves : (is_ipv6 : Bool) (g : Option Str) → Moves R (found_gateway is_ipv6 g)
    found_gateway-Moves is_ipv6 (some g) = Moves-pure free.order (some g)
    found_gateway-Moves true none = Moves-pure free.order none
    found_gateway-Moves false none = Moves-raise free.order failed

    get_default_gateway-Moves : (is_ipv6 : Bool) → Moves R (get_default_gateway host is_ipv6)
    unfolding get_default_gateway
    get_default_gateway-Moves is_ipv6 =
        let o = free.order in
        Moves-bind o _ _ (run_command_capture_output-Moves free host _ _) (λ output.
          Moves-if o output.success _ _ (λ _. found_gateway-Moves is_ipv6 _)
            (λ _. found_gateway-Moves is_ipv6 none))

    resolved-Moves :
        (fallback : GatewayFallback) (r : Outcome Failure (Option Str))
        → Moves R (resolved fallback r)
    resolved-Moves fallback (done (some g)) = Moves-pure free.order (some g)
    resolved-Moves require (done none) = Moves-raise free.order failed
    resolved-Moves (keep g) (done none) = Moves-pure free.order g
    resolved-Moves require (fail x) = Moves-raise free.order failed
    resolved-Moves (keep g) (fail x) = Moves-pure free.order g

    pin_gateway-Moves :
        (inputs : MacosReconcileInputs) (fallback : GatewayFallback)
        → Moves R (pin_gateway host inputs fallback)
    pin_gateway-Moves inputs fallback =
        let o = free.order in
        search (Moves-bind o, Moves-attempt o, get_default_gateway-Moves, resolved-Moves)

    pub current_fingerprint-Moves :
        (inputs : MacosReconcileInputs) (fallback : GatewayFallback)
        → Moves R (current_fingerprint platform host inputs fallback)
    unfolding current_fingerprint
    current_fingerprint-Moves inputs fallback =
        let o = free.order in
        search
          (Moves-bind o, Moves-if o, Moves-pure o, local_connected_subnets-Moves, pin_gateway-Moves)

    pub after_delete-Moves :
        (interface : Str) (locals : List Subnet) (route : MacosRoute)
        (r : Outcome Failure (Unit {0}))
        → Moves R (after_delete platform host interface locals route r)
    after_delete-Moves interface locals route (fail x) = Moves-pure free.order tt
    after_delete-Moves interface locals route (done u) =
        restore_shadowed_lan_route-Moves route locals interface

    pub remove_route-Moves :
        (interface : Str) (locals : List Subnet) (route : MacosRoute)
        → Moves R (remove_route platform host interface locals route)
    unfolding remove_route
    remove_route-Moves interface locals route =
        let o = free.order in
        search (Moves-bind o, Moves-pure o, Moves-attempt o, del_route-Moves, after_delete-Moves)

    pub remove_stale-Moves :
        (interface : Str) (locals : List Subnet) (desired stale : List MacosRoute)
        → Moves R (remove_stale platform host interface locals desired stale)
    unfolding remove_stale
    remove_stale-Moves interface locals desired [] = Moves-pure free.order tt
    remove_stale-Moves interface locals desired (route ∷ rest) =
        let o = free.order in
        Moves-bind o _ _ (search (Moves-bind o, Moves-if o, Moves-pure o, remove_route-Moves))
          (λ _. remove_stale-Moves interface locals desired rest)

    pub install_one-Moves :
        (current : List MacosRoute) (route : MacosRoute)
        → Moves R (install_one platform host current route)
    unfolding install_one
    install_one-Moves current route =
        let o = free.order in
        search (Moves-bind o, Moves-if o, Moves-pure o, Moves-attempt o, add_route-Moves)

    pub install_desired-Moves :
        (current desired : List MacosRoute)
        → Moves R (install_desired platform host current desired)
    unfolding install_desired
    install_desired-Moves current [] = Moves-pure free.order []
    install_desired-Moves current (route ∷ rest) =
        let o = free.order in
        Moves-bind o _ _ (install_one-Moves current route) (λ here.
          Moves-bind o _ _ (install_desired-Moves current rest)
            (λ there. Moves-pure o (here ++ there)))
