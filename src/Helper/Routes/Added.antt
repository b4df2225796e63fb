-- ===== src/Helper/Routes/Added.antt =====
-- Adding routes (src/userspace_helper.rs): the command that is run before a route is the tunnel's.
-- the command that adds a route
use mathlib.Core.Path.{subst}
use tunmux.Exec.{bind-done, done, pure, ◌>>=◌}
use tunmux.Exec.Moves.{Moves-if, Moves-pure, Moves-raise}
use tunmux.Helper.{Command, Host, MacosCleanupState, MacosRoute}
use tunmux.Helper.Commands.{command, run_command_capture_output, run_command_with_exists_ok}
use tunmux.Helper.Commands.Runs.{RanSince-Member, Runs, bind-Runs, bind-state, execute-Runs, grows}
use tunmux.Helper.Routes.Install.{add_args, add_claimed, add_route, claim_route}
use tunmux.Helper.Routes.Table.{owned}
use tunmux.Prelude.{Bool, Member, false, sym, true, ◌≡◌}
use tunmux.Text.{codes}
use tunmux.Wireguard.{Platform}

abbrev pub add_command : MacosRoute → Command
add_command route = command (codes "route") (add_args route)

module _ (p : Platform) (host : Host) (route : MacosRoute) where
  add_claimed-Runs : Runs (add_command route) (add_claimed host route true)
  unfolding run_command_with_exists_ok run_command_capture_output
  add_claimed-Runs =
      let c = add_command route in
      let o = grows.order in
      bind-Runs c _ _
        (bind-Runs c _ _ (execute-Runs host c)
          (λ output. search (Moves-if o, Moves-pure o, Moves-raise o)))
        (λ _. Moves-pure o owned)

  -- A route that the tunnel ends up owning was added by a command.
  pub add_route-owned :
      (s : MacosCleanupState)
      → (add_route p host route s).0 ≡ done owned
      → Member (add_command route) (add_route p host route s).1.ran
  unfolding add_route
  add_route-owned s h =
      let (claimed, found, ended) =
        bind-done (claim_route p host route) (add_claimed host route) s owned h in
      by_claim claimed found ended
    where
      by_claim :
          (claimed : Bool)
          → (claim_route p host route s).0 ≡ done claimed
          → (add_claimed host route claimed (claim_route p host route s).1).0 ≡ done owned
          → Member
              (add_command route)
              ((claim_route p host route >>= add_claimed host route) s).1.ran
      by_claim false found ended = absurd (unfold pure in cc)
      by_claim true found ended =
          subst (λ t. Member (add_command route) t.ran)
            (sym (bind-state (claim_route p host route) (add_claimed host route) s true found))
            (RanSince-Member (add_command route) (claim_route p host route s).1
              (add_claimed host route true (claim_route p host route s).1).1
              (add_claimed-Runs (claim_route p host route s).1))
