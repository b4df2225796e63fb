-- ===== src/Helper/Routes/Foreign.antt =====
-- Routes whose prefix a physical interface holds (src/userspace_helper.rs).
use mathlib.Core.Path.{ap}
use tunmux.Daemon.Store.{entry}
use tunmux.Exec.{attempt, done, pure, step, ◌>>=◌}
use tunmux.Helper.{Command, Host, MacosCleanupState, MacosRoute}
use tunmux.Helper.Commands.{command, execute, run_command_capture_output}
use tunmux.Helper.Commands.Runs.{bind-at}
use tunmux.Helper.Network.{Subnet, network_base}
use tunmux.Helper.Routes.{is_tunnel_bound}
use tunmux.Helper.Routes.Install.{add_claimed, add_route, claim_prefix, claim_route}
use tunmux.Helper.Routes.Table.{
  MacosRouteEntry, foreign, is_tunnel_device, is_tunnel_owned, is_v6, route_destination,
  route_table_entry,
}
use tunmux.Prelude.{
  [], arith, false, if◌then◌else◌, inl, inr, refl, some, true, ◌++◌, ◌∙◌, ◌∷◌, ◌≡◌, ◌⊎◌,
}
use tunmux.Text.{codes}
use tunmux.Wireguard.{Platform}

-- the command that looks a destination up
abbrev pub look_up_command : Platform → Subnet → Command
look_up_command p d = command (codes "route") (
    codes "-n" ∷ codes "get" ∷ (if is_v6 d.0 then codes "-inet6" ∷ [] else [])
    ++ p.show_ip (network_base d.0 d.1) ∷ [])

-- The entry leads through a gateway, or to no tunnel's device.
abbrev pub IsPhysical : MacosRouteEntry → Type 0
IsPhysical entry = (entry.has_gateway ≡ true) ⊎ (is_tunnel_device entry.interface ≡ false)

is_tunnel_owned-IsPhysical :
    (entry : MacosRouteEntry) → IsPhysical entry → is_tunnel_owned entry ≡ false
unfolding is_tunnel_owned
is_tunnel_owned-IsPhysical entry (inl h) = rw h refl
is_tunnel_owned-IsPhysical entry (inr h) = ground (arith, h)

module _ (p : Platform) (host : Host) (route : MacosRoute) where
  claim_prefix-IsPhysical :
      (entry : MacosRouteEntry) (s : MacosCleanupState)
      → IsPhysical entry
      → claim_prefix host route (some entry) s ≡ (done false, s)
  unfolding pure
  claim_prefix-IsPhysical entry s h = rw (is_tunnel_owned-IsPhysical entry h) refl

  claim_route-IsPhysical :
      (s : MacosCleanupState) (d : Subnet) (entry : MacosRouteEntry)
      → is_tunnel_bound route ≡ true
      → route_destination p route ≡ some d
      → (route_table_entry p host d s).0 ≡ done (some entry)
      → IsPhysical entry
      → claim_route p host route s ≡ (done false, (route_table_entry p host d s).1)
  unfolding claim_route
  claim_route-IsPhysical s d entry bound named found h =
      rw (bound, named)
        (bind-at (route_table_entry p host d) (claim_prefix host route) s (some entry) found
          ∙ claim_prefix-IsPhysical entry (route_table_entry p host d s).1 h)

  -- only the look-up ran
  route_table_entry-ran :
      (d : Subnet) (s : MacosCleanupState)
      → (route_table_entry p host d s).1.ran ≡ look_up_command p d ∷ s.ran
  unfolding route_table_entry run_command_capture_output execute step attempt pure ◌>>=◌
  route_table_entry-ran d s = refl

  -- A prefix that a physical interface holds is left alone: take a route to the tunnel's device for
  -- whose destination the routing table shows an entry that leads through a gateway or to no tunnel's
  -- device; `add_macos_route` reports it as foreign, and the only command that it runs is the look-up.
  pub add_route-foreign :
      (s : MacosCleanupState) (d : Subnet) (entry : MacosRouteEntry)
      → is_tunnel_bound route ≡ true
      → route_destination p route ≡ some d
      → (route_table_entry p host d s).0 ≡ done (some entry)
      → IsPhysical entry
      → ((add_route p host route s).0 ≡ done foreign)
        × ((add_route p host route s).1.ran ≡ look_up_command p d ∷ s.ran)
  unfolding add_route
  add_route-foreign s d entry bound named found h =
      let claimed = claim_route-IsPhysical s d entry bound named found h in
      let ended : add_route p host route s ≡ (done foreign, (route_table_entry p host d s).1) =
        bind-at (claim_route p host route) (add_claimed host route) s false (ap (λ r. r.0) claimed)
        ∙ unfold pure in ap (λ r. (done foreign, r.1)) claimed in
      (ap (λ r. r.0) ended, ap (λ r. r.1.ran) ended ∙ route_table_entry-ran d s)
