-- ===== src/Helper/Setup/Complete.antt =====
-- What a setup of src/userspace_helper.rs that ends well has done for each route.
use tunmux.Exec.{Outcome, done, fail}
use tunmux.Exec.Moves.{Moves}
use tunmux.Helper.{Host, MacosCleanupState, MacosReconcileInputs, MacosRoute}
use tunmux.Helper.Commands.{Failure, Run}
use tunmux.Helper.Routes.{desired_routes}
use tunmux.Helper.Routes.Install.{add_route}
use tunmux.Helper.Routes.Table.{foreign}
use tunmux.Prelude.{All, List, Member, ◌≡◌, ◌⊎◌}
use tunmux.Wireguard.{Platform}

-- The routing state only grows, for one network.
abbrev Extends : MacosCleanupState → MacosCleanupState → Type 0
Extends s t =
    (t.routing.fingerprint ≡ s.routing.fingerprint)
    × ((r : MacosRoute) → Member r s.routing.routes_added → Member r t.routing.routes_added)

module _ (p : Platform) (host : Host) where
  -- `add_macos_route` may report the route as foreign
  abbrev pub ReportsForeign : MacosRoute → Type 0
  ReportsForeign r = (u : MacosCleanupState) × ((add_route p host r u).0 ≡ done foreign)

  -- Each of the routes is recorded, or was reported as foreign.
  abbrev pub Accounts : List MacosRoute → MacosCleanupState → Type 0
  Accounts routes t = All (λ r. Member r t.routing.routes_added ⊎ ReportsForeign r) routes

  -- whatever state a step starts in, if it ends well, then in such a state
  abbrev Ends : {A : Type 0} → (MacosCleanupState → Type 0) → Run A → Type 0
  Ends {A} Q m = (s : MacosCleanupState) (a : A) → (m s).0 ≡ done a → Q (m s).1

module _ (p : Platform) (host : Host) (inputs : MacosReconcileInputs) where
  -- Each route that the recorded network asks for is recorded, or was reported as foreign.
  abbrev pub AccountsForAll : MacosCleanupState → Type 0
  AccountsForAll t = Accounts p host (desired_routes p inputs t.routing.fingerprint) t

  -- An end without an error.
  abbrev pub IsComplete : Outcome Failure (Unit {0}) → MacosCleanupState → Type 0
  IsComplete (done u) t = AccountsForAll t
  IsComplete (fail x) t = Unit
