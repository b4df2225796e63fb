-- ===== src/Helper/Setup/Moves.antt =====
-- The steps of src/userspace_helper.rs that take the network down move the state as a relation says that
-- allows one command.
use tunmux.Exec.Moves.{Moves, Moves-attempt, Moves-bind, Moves-pure}
use tunmux.Helper.{Host, MacosCleanupState, MacosDnsServiceState, MacosRoute}
use tunmux.Helper.Commands.Moves.{RunsFreely}
use tunmux.Helper.Dns.Moves.{restore_dns_service-Moves}
use tunmux.Helper.Network.{Subnet}
use tunmux.Helper.Routes.Moves.{remove_route-Moves}
use tunmux.Helper.Setup.{remove_routes, restore_services}
use tunmux.Prelude.{List, [], ◌∷◌}
use tunmux.Text.{Str}
use tunmux.Wireguard.{Platform}

module _ {R : MacosCleanupState → MacosCleanupState → Type 0} (free : RunsFreely R)
    (host : Host) where
  pub remove_routes-Moves :
      (p : Platform) (interface : Str) (locals : List Subnet) (routes : List MacosRoute)
      → Moves R (remove_routes p host interface locals routes)
  unfolding remove_routes
  remove_routes-Moves p interface locals [] = Moves-pure free.order 0
  remove_routes-Moves p interface locals (route ∷ rest) =
      let o = free.order in
      Moves-bind o _ _ (remove_route-Moves free p host interface locals route) (λ deleted.
        Moves-bind o _ _ (remove_routes-Moves p interface locals rest) (λ later. Moves-pure o _))

  pub restore_services-Moves :
      (services : List MacosDnsServiceState) → Moves R (restore_services host services)
  unfolding restore_services
  restore_services-Moves [] = Moves-pure free.order 0
  restore_services-Moves (saved ∷ rest) =
      let o = free.order in
      Moves-bind o _ _ (Moves-attempt o _ (restore_dns_service-Moves free host saved))
        (λ r. Moves-bind o _ _ (restore_services-Moves rest) (λ later. Moves-pure o _))
