-- ===== src/Helper/Setup/Established.antt =====
-- What the setup of src/userspace_helper.rs leaves.
use mathlib.Core.Path.{subst}
use tunmux.Exec.{Outcome, attempt, done, fail, pure, step, ◌>>=◌}
use tunmux.Exec.Leaves.{Leaves, Leaves-bind}
use tunmux.Exec.Moves.{
  Moves, Moves-attempt, Moves-bind, Moves-bind_at, Moves-gets, Moves-if, Moves-pure, Moves-raise,
}
use tunmux.Helper.{
  Command, Host, MacosCleanupState, MacosDnsFingerprint, MacosDnsServiceState, MacosDnsState,
  MacosNetworkFingerprint, MacosReconcileInputs, MacosRoute,
}
use tunmux.Helper.Commands.{Failure, Run, failed}
use tunmux.Helper.Commands.Moves.{RunsFreely, run_command-Moves}
use tunmux.Helper.Config.{ParsedUserspaceConfig}
use tunmux.Helper.Dns.Moves.{
  capture_dns_service-Moves, current_dns_fingerprint-Moves, set_dns_servers-Moves,
  set_search_domains_empty-Moves,
}
use tunmux.Helper.Dns.Reconcile.{push_saved, set_dns_fingerprint}
use tunmux.Helper.Network.{Subnet, parse_cidr}
use tunmux.Helper.Routes.{desired_routes}
use tunmux.Helper.Routes.Added.{add_command, add_route-owned}
use tunmux.Helper.Routes.Install.{add_route}
use tunmux.Helper.Routes.Moves.{add_route-Moves, current_fingerprint-Moves}
use tunmux.Helper.Routes.Reconcile.{require}
use tunmux.Helper.Routes.Table.{MacosRouteInstall, foreign, owned}
use tunmux.Helper.Setup.{
  add_addresses, add_parsed_address, add_routes, configure_dns, configure_network, finish_setup,
  push_route, reconcile_inputs, roll_back, set_mtu, set_network_fingerprint, set_up, take_services,
}
use tunmux.Helper.Setup.Moves.{remove_routes-Moves, restore_services-Moves}
use tunmux.Prelude.{
  All, All-Member, All-append, All-of_members, List, Member, Option, [], ap, inr, is_empty, none,
  refl, some, sym, ℕ, ◌∙◌, ◌∷◌, ◌≡◌,
}
use tunmux.Text.{Str}
use tunmux.Wireguard.{Platform, v4, v6}

abbrev pub NoRoutes : MacosCleanupState → Type 0
NoRoutes s = s.routing.routes_added ≡ []

-- a relation that allows one command, and any change of what is saved of DNS
module _ (p : Platform) (host : Host) {R : MacosCleanupState → MacosCleanupState → Type 0}
    (free : RunsFreely R)
    (dns : (s : MacosCleanupState) (d : MacosDnsState) → R s (record s { dns = d })) where
  add_addresses-Moves :
      (interface : Str) (addresses : List Str) → Moves R (add_addresses p host interface addresses)
  unfolding add_addresses
  add_addresses-Moves interface [] = Moves-pure free.order tt
  add_addresses-Moves interface (address ∷ rest) =
      Moves-bind free.order _ _ (add_one (parse_cidr p address))
        (λ _. add_addresses-Moves interface rest)
    where
      add_one : (net : Option Subnet) → Moves R (add_parsed_address p host interface address net)
      add_one none = Moves-raise free.order failed
      add_one (some (v4 n, k)) = run_command-Moves free host _ _
      add_one (some (v6 n, k)) = run_command-Moves free host _ _

  set_mtu-Moves : (interface : Str) (mtu : Option ℕ) → Moves R (set_mtu host interface mtu)
  set_mtu-Moves interface none = Moves-pure free.order tt
  set_mtu-Moves interface (some mtu) = run_command-Moves free host _ _

  push_saved-Moves : (saved : MacosDnsServiceState) → Moves R (push_saved saved)
  unfolding step
  push_saved-Moves saved = record { from = λ s. dns s _ }

  set_dns_fingerprint-Moves : (found : MacosDnsFingerprint) → Moves R (set_dns_fingerprint found)
  unfolding step
  set_dns_fingerprint-Moves found = record { from = λ s. dns s _ }

  take_services-Moves :
      (servers services : List Str) → Moves R (take_services host servers services)
  unfolding take_services
  take_services-Moves servers [] = Moves-pure free.order tt
  take_services-Moves servers (service ∷ rest) =
      let o = free.order in
      Moves-bind o _ _ (capture_dns_service-Moves free host service servers) (λ saved.
        Moves-bind o _ _ (push_saved-Moves saved) (λ _.
          Moves-bind o _ _ (set_dns_servers-Moves free host service servers) (λ _.
            Moves-bind o _ _ (set_search_domains_empty-Moves free host service)
              (λ _. take_services-Moves servers rest))))

  pub configure_dns-Moves : (servers : List Str) → Moves R (configure_dns host servers)
  unfolding configure_dns
  configure_dns-Moves servers =
      let o = free.order in
      Moves-if o (is_empty servers) _ _ (λ _. Moves-pure o tt)
        (λ _. Moves-bind o _ _ (current_dns_fingerprint-Moves free host) (λ found.
          Moves-bind o _ _ (take_services-Moves servers _) (λ _.
            Moves-bind o _ _ (Moves-attempt o _ (current_dns_fingerprint-Moves free host))
              (λ again. set_dns_fingerprint-Moves _))))

-- Every recorded route is one of the wanted ones, and a command that adds it has run.
abbrev pub AddedAmong : List MacosRoute → MacosCleanupState → Type 0
AddedAmong wanted s =
    All (λ route. Member route wanted × Member (add_command route) s.ran) s.routing.routes_added

-- The routes that are recorded are wanted for the recorded network, and were added by commands.
abbrev pub RecordsAdded : Platform → MacosReconcileInputs → MacosCleanupState → Type 0
RecordsAdded p inputs s = AddedAmong (desired_routes p inputs s.routing.fingerprint) s

AddedAmong-ran :
    (wanted : List MacosRoute) (s : MacosCleanupState) (c : Command)
    → AddedAmong wanted s
    → AddedAmong wanted (record s { ran = c ∷ s.ran })
AddedAmong-ran wanted s c h =
    All-of_members _ s.routing.routes_added
      (λ r m. let (w, n) = All-Member _ r s.routing.routes_added h m in (w, inr n))

module _ (P : MacosCleanupState → Type 0) where
  abbrev Holds : MacosCleanupState → MacosCleanupState → Type 0
  Holds s t = P s → P t

  holds :
      ((s : MacosCleanupState) (c : Command) → P s → P (record s { ran = c ∷ s.ran }))
      → RunsFreely Holds
  holds h = record { order = record { stay = λ s k. k; chain = λ s t u f g k. g (f k) }; one = h }

-- the routes so far, for the network that is recorded
abbrev Among : MacosNetworkFingerprint → List MacosRoute → MacosCleanupState → Type 0
Among found wanted s = (s.routing.fingerprint ≡ found) × AddedAmong wanted s

module _ (p : Platform) (host : Host) (found : MacosNetworkFingerprint)
    (wanted : List MacosRoute) where
  free : RunsFreely (Holds (Among found wanted))
  free = holds (Among found wanted) (λ s c h. (h.0, AddedAmong-ran wanted s c h.1))

  push_route-Holds :
      (route : MacosRoute) (installed : MacosRouteInstall) (s : MacosCleanupState)
      → Member route wanted
      → (installed ≡ owned → Member (add_command route) s.ran)
      → Among found wanted s
      → Among found wanted (push_route route installed s).1
  unfolding step pure
  push_route-Holds route foreign s m ran h = h
  push_route-Holds route owned s m ran h = (
    h.0,
    All-append (λ r. Member r wanted × Member (add_command r) s.ran) s.routing.routes_added
        (route ∷ []) h.1 ((m, ran refl), tt),
  )

  add_routes-Moves :
      (routes : List MacosRoute)
      → All (λ route. Member route wanted) routes
      → Moves (Holds (Among found wanted)) (add_routes p host routes)
  unfolding add_routes
  add_routes-Moves [] h = Moves-pure free.order tt
  add_routes-Moves (route ∷ rest) (m, ms) = record {
    from = λ s.
        Moves-bind_at free.order (add_route p host route)
          (λ installed. push_route route installed >>= λ _. add_routes p host rest) s
          ((add_route-Moves free p host route).from s)
          (λ installed ended.
            let t = (add_route p host route s).1 in
            Moves-bind_at free.order (push_route route installed) (λ _. add_routes p host rest) t
              (push_route-Holds route installed t m
                (λ same. add_route-owned p host route s (ended ∙ ap done same)))
              (λ _ _. (add_routes-Moves rest ms).from _));
  }

module _ (p : Platform) (host : Host) (inputs : MacosReconcileInputs) where
  abbrev Desired : MacosCleanupState → Type 0
  Desired s = RecordsAdded p inputs s

  none-Desired : (s : MacosCleanupState) → NoRoutes s → Desired s
  none-Desired s h = subst (All _) (sym h) tt

  routes-Leave :
      (servers : List Str) (found : MacosNetworkFingerprint)
      → Leaves NoRoutes Desired (
          set_network_fingerprint found >>= λ _.
          add_routes p host (desired_routes p inputs found) >>= λ _. configure_dns host servers)
  unfolding step
  routes-Leave servers found =
      let wanted = desired_routes p inputs found in
      let P = Among found wanted in
      let f = free p host found wanted in
      let o = f.order in
      let rest : Moves (Holds P) (add_routes p host wanted >>= λ _. configure_dns host servers) =
        Moves-bind o _ _
          (add_routes-Moves p host found wanted wanted (All-of_members _ wanted (λ r m. m)))
          (λ _. configure_dns-Moves p host f (λ s d h. h) servers) in
      let final : (s : MacosCleanupState) → P s → Desired s =
        λ s h. subst (λ n. AddedAmong (desired_routes p inputs n) s) (sym h.0) h.1 in
      Leaves-bind {Q = P} _ _ (record { from = λ s h. (refl, subst (All _) (sym h) tt) }) final
        (λ _. record {
          from = λ s h.
              let t = ((add_routes p host wanted >>= λ _. configure_dns host servers) s).1 in
              final t (rest.from s h);
        })

  quiet :
      {A : Type 0} (m : Run A) (f : A → Run (Unit {0}))
      → Moves (Holds NoRoutes) m
      → ((a : A) → Leaves NoRoutes Desired (f a))
      → Leaves NoRoutes Desired (m >>= f)
  quiet m f k h = Leaves-bind m f (record { from = λ s n. k.from s n }) none-Desired h

  set_up-Leaves :
      (config : ParsedUserspaceConfig) → Leaves NoRoutes Desired (set_up p host config inputs)
  unfolding set_up
  set_up-Leaves config =
      let k = holds NoRoutes (λ s c h. h) in
      quiet _ _ (set_mtu-Moves p host k (λ s d h. h) inputs.interface config.mtu) (λ _.
        quiet _ _ (add_addresses-Moves p host k (λ s d h. h) inputs.interface config.addresses)
          (λ _. quiet _ _ (run_command-Moves k host _ _) (λ _.
            quiet _ _ (Moves-attempt k.order _ (run_command-Moves k host _ _)) (λ _.
              quiet _ _ (current_fingerprint-Moves k p host inputs require)
                (λ found. routes-Leave config.dns_servers found)))))

  roll_back-Moves : Moves (Holds Desired) (roll_back p host inputs.interface)
  unfolding roll_back
  roll_back-Moves =
      let k = holds Desired (λ s c h. AddedAmong-ran _ s c h) in
      let o = k.order in
      Moves-bind o _ _ (Moves-gets o _) (λ routing.
        Moves-bind o _ _ (remove_routes-Moves k host p inputs.interface _ _) (λ undeleted.
          Moves-bind o _ _ (Moves-gets o _) (λ services.
            Moves-bind o _ _ (restore_services-Moves k host _)
              (λ unrestored. Moves-raise o failed))))

  finish-Leaves :
      (r : Outcome Failure (Unit {0}))
      → Leaves Desired Desired (finish_setup p host inputs.interface r)
  unfolding pure
  finish-Leaves (done u) = record { from = λ s h. h }
  finish-Leaves (fail x) = record { from = λ s h. roll_back-Moves.from s h }

-- A setup that starts without routes leaves only routes recorded as the tunnel's own that the network
-- recorded with them asks for and that were added by a command, whatever the commands answer: a
-- route that is left to a physical interface is not recorded.
pub configure_network-RecordsAdded :
    (p : Platform) (host : Host) (interface : Str) (config : ParsedUserspaceConfig)
    (s : MacosCleanupState)
    → NoRoutes s
    → RecordsAdded p
        (reconcile_inputs p interface config)
        (configure_network p host interface config s).1
unfolding configure_network attempt
configure_network-RecordsAdded p host interface config s h =
    let inputs = reconcile_inputs p interface config in
    let done_or_not : Leaves NoRoutes (Desired p host inputs)
        (attempt (set_up p host config inputs)) =
      record { from = λ t n. (set_up-Leaves p host inputs config).from t n } in
    (Leaves-bind _ _ done_or_not (λ t d. d) (finish-Leaves p host inputs)).from s h
