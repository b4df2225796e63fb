-- ===== src/Helper/Setup/Teardown.antt =====
-- Taking the network down (src/userspace_helper.rs).
use mathlib.Core.List.{reverse}
use mathlib.Core.Path.{subst}
use tunmux.Exec.{gets, ◌>>=◌}
use tunmux.Exec.Moves.{Moves, Moves-bind, Moves-gets, Moves-if, Moves-pure, Moves-raise}
use tunmux.Helper.{
  Command, Host, MacosCleanupState, MacosDnsServiceState, MacosReconcileInputs, MacosRoute,
}
use tunmux.Helper.Commands.{command, failed}
use tunmux.Helper.Commands.Runs.{Grows, RanSince-Member, Runs, bind-Runs, grows, then-Runs}
use tunmux.Helper.Network.{Subnet}
use tunmux.Helper.Routes.Deletes.{delete_command, remove_route-Runs}
use tunmux.Helper.Routes.Moves.{local_connected_subnets-Moves, remove_route-Moves}
use tunmux.Helper.Routes.Reconcile.{remove_route}
use tunmux.Helper.Routes.Succeeds.{local_connected_subnets-Succeeds, remove_route-Succeeds}
use tunmux.Helper.Setup.{cleanup_network, finish_cleanup, remove_routes, take_down}
use tunmux.Helper.Setup.Moves.{remove_routes-Moves, restore_services-Moves}
use tunmux.Prelude.{
  List, Member, Member-reverse, Option, [], inl, inr, none, some, ℕ, ℕ_eq, ◌==◌, ◌∷◌,
}
use tunmux.Text.{Str, codes}
use tunmux.Wireguard.{Platform}

-- the command that gives a service its DNS servers back
abbrev pub restored_servers : Option (List Str) → List Str
restored_servers none = codes "Empty" ∷ []
restored_servers (some servers) = servers

abbrev pub restore_command : MacosDnsServiceState → Command
restore_command saved =
    command (codes "networksetup")
      (codes "-setdnsservers" ∷ saved.service ∷ restored_servers saved.dns_servers)

module _ (p : Platform) (host : Host) (interface : Str) (locals : List Subnet) where
  remove_routes-Runs :
      (route : MacosRoute) (routes : List MacosRoute)
      → Member route routes
      → Runs (delete_command route) (remove_routes p host interface locals routes)
  unfolding remove_routes
  remove_routes-Runs route [] m = absurd m
  remove_routes-Runs route (r ∷ rest) (inl same) =
      let c = delete_command route in
      let o = grows.order in
      bind-Runs c _ _
        (subst (λ x. Runs (delete_command x) (remove_route p host interface locals r)) same
          (remove_route-Runs p host interface locals r))
        (λ deleted.
          Moves-bind o _ _ (remove_routes-Moves grows host p interface locals rest)
            (λ later. Moves-pure o _))
  remove_routes-Runs route (r ∷ rest) (inr m) =
      let c = delete_command route in
      then-Runs c _ _ (remove_route-Succeeds p host interface locals r)
        (remove_route-Moves grows p host interface locals r)
        (λ deleted.
          bind-Runs c _ _ (remove_routes-Runs route rest m) (λ later. Moves-pure grows.order _))

module _ (p : Platform) (host : Host) where
  finish-Moves : (errors : ℕ) → Moves (Grows) (finish_cleanup errors)
  unfolding finish_cleanup
  finish-Moves errors =
      let o = grows.order in
      Moves-if o (errors == 0) _ _ (λ _. Moves-pure o tt) (λ _. Moves-raise o failed)

  take_down-Runs :
      (inputs : MacosReconcileInputs) (routes : List MacosRoute) (route : MacosRoute)
      → Member route routes
      → Runs (delete_command route) (take_down p host inputs routes)
  take_down-Runs inputs routes route m =
      let c = delete_command route in
      let o = grows.order in
      then-Runs c _ _ (local_connected_subnets-Succeeds p host inputs.interface)
        (local_connected_subnets-Moves grows p host inputs.interface)
        (λ locals.
          bind-Runs c _ _
            (remove_routes-Runs p host inputs.interface locals route (reverse routes)
              (Member-reverse route routes m))
            (λ undeleted. Moves-bind o _ _ (Moves-gets o _) (λ services.
              Moves-bind o _ _ (restore_services-Moves grows host _)
                (λ unrestored. finish-Moves _))))

  -- The tear-down tries every route: whatever the commands answer, a delete command has run for each
  -- route that was recorded as the tunnel's own, also when those of others failed.
  pub cleanup_network-deletes :
      (inputs : MacosReconcileInputs) (s : MacosCleanupState) (route : MacosRoute)
      → Member route s.routing.routes_added
      → Member (delete_command route) (cleanup_network p host inputs s).1.ran
  unfolding cleanup_network ◌>>=◌ gets
  cleanup_network-deletes inputs s route m =
      RanSince-Member (delete_command route) s (take_down p host inputs s.routing.routes_added s).1
        (take_down-Runs inputs s.routing.routes_added route m s)
