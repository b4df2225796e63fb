-- ===== src/Helper/Routes/Deletes.antt =====
-- Deleting routes (src/userspace_helper.rs): the command that is run.
use mathlib.Core.Path.{subst}
-- the command that deletes a route
use tunmux.Exec.{pure, ◌>>=◌}
use tunmux.Exec.Moves.{Moves, Moves-bind, Moves-if, Moves-pure, Moves-raise}
use tunmux.Exec.Succeeds.{Succeeds, Succeeds-bind, Succeeds-pure}
use tunmux.Helper.{Command, Host, MacosRoute, MacosRoute_eq}
use tunmux.Helper.Commands.{command, run_command_capture_output}
use tunmux.Helper.Commands.Runs.{
  Grows, Runs, attempt-Runs, bind-Runs, execute-Runs, grows, then-Runs,
}
use tunmux.Helper.Network.{Subnet}
use tunmux.Helper.Routes.Install.{del_route, delete_args}
use tunmux.Helper.Routes.Moves.{after_delete-Moves, remove_route-Moves, remove_stale-Moves}
use tunmux.Helper.Routes.Reconcile.{remove_route, remove_stale}
use tunmux.Helper.Routes.Succeeds.{remove_route-Succeeds}
use tunmux.Prelude.{
  Bool, List, Member, [], contains, false, if◌then◌else◌, inl, inr, true, ◌∷◌, ◌≡◌,
}
use tunmux.Text.{Str, codes}
use tunmux.Wireguard.{Platform}

abbrev pub delete_command : MacosRoute → Command
delete_command route = command (codes "route") (delete_args route)

pub del_route-Runs :
    (host : Host) (route : MacosRoute) → Runs (delete_command route) (del_route host route)
unfolding del_route run_command_capture_output
del_route-Runs host route =
    let c = delete_command route in
    let o = grows.order in
    bind-Runs c _ _ (execute-Runs host c)
      (λ output. search (Moves-if o, Moves-pure o, Moves-raise o))

module _ (p : Platform) (host : Host) (interface : Str) (locals : List Subnet) where
  pub remove_route-Runs :
      (route : MacosRoute)
      → Runs (delete_command route) (remove_route p host interface locals route)
  unfolding remove_route
  remove_route-Runs route =
      let c = delete_command route in
      let o = grows.order in
      bind-Runs c _ _ (attempt-Runs c _ (del_route-Runs host route)) (λ deleted.
        Moves-bind o _ _ (after_delete-Moves grows p host interface locals route deleted)
          (λ _. Moves-pure o deleted))

  pub remove_stale-Runs :
      (desired stale : List MacosRoute) (route : MacosRoute)
      → contains desired route ≡ false
      → Member route stale
      → Runs (delete_command route) (remove_stale p host interface locals desired stale)
  unfolding remove_stale
  remove_stale-Runs desired [] route h m = absurd m
  remove_stale-Runs desired (r ∷ rest) route h (inl same) =
      let c = delete_command route in
      let gone : contains desired r ≡ false = rw (same) h in
      bind-Runs c _ _
        (rw (gone) (
          bind-Runs c _ _
            (subst (λ x. Runs (delete_command x) (remove_route p host interface locals r)) same
              (remove_route-Runs r))
            (λ _. Moves-pure grows.order tt)))
        (λ _. remove_stale-Moves grows p host interface locals desired rest)
  remove_stale-Runs desired (r ∷ rest) route h (inr m) =
      then-Runs (delete_command route) _ _ (one (contains desired r)) (moves (contains desired r))
        (λ _. remove_stale-Runs desired rest route h m)
    where
      one :
          (b : Bool)
          → Succeeds
              (if b then pure tt else (remove_route p host interface locals r >>= λ _. pure tt))
      one true = Succeeds-pure tt
      one false =
          Succeeds-bind _ _ (remove_route-Succeeds p host interface locals r)
            (λ _. Succeeds-pure tt)

      moves :
          (b : Bool)
          → Moves Grows
              (if b then pure tt else (remove_route p host interface locals r >>= λ _. pure tt))
      moves true = Moves-pure grows.order tt
      moves false =
          Moves-bind grows.order _ _ (remove_route-Moves grows p host interface locals r)
            (λ _. Moves-pure grows.order tt)
