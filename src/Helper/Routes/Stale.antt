-- ===== src/Helper/Routes/Stale.antt =====
-- The routes that a pass of src/userspace_helper.rs gives up.
use tunmux.Exec.Leaves.{Leaves}
use tunmux.Exec.Moves.{Moves}
use tunmux.Helper.{
  Host, MacosCleanupState, MacosNetworkFingerprint_eq, MacosReconcileInputs, MacosRoute,
  MacosRoute_eq,
}
use tunmux.Helper.Commands.Runs.{Grows, RanSince, Runs}
use tunmux.Helper.Routes.{desired_routes}
use tunmux.Helper.Routes.Deletes.{delete_command}
use tunmux.Prelude.{Member, ◌⊎◌}
use tunmux.Wireguard.{Platform}

module _ (platform : Platform) (host : Host) (inputs : MacosReconcileInputs) (route : MacosRoute)
    (start : MacosCleanupState) where
  -- The recorded network asks for the route, or a command that deletes it has run since the start.
  abbrev pub IsSettled : MacosCleanupState → Type 0
  IsSettled t =
      Member route (desired_routes platform inputs t.routing.fingerprint)
      ⊎ RanSince (delete_command route) start t

  -- the route is recorded, and the recorded network asks for it
  abbrev IsHeld : MacosCleanupState → Type 0
  IsHeld s =
      Member route s.routing.routes_added
      × Member route (desired_routes platform inputs s.routing.fingerprint)
      × Grows start s

  -- a relation on states that the start does not see
  abbrev KeepsHeld : MacosCleanupState → MacosCleanupState → Type 0
  KeepsHeld s t = IsHeld s → IsHeld t
