-- ===== src/Helper/Routes/Owned.antt =====
-- The routes that src/userspace_helper.rs records as its own, against those that it wants.
use mathlib.Core.Path.{subst}
use tunmux.Exec.{Outcome, attempt, bind-done, done, fail, pure, step, ◌>>=◌}
use tunmux.Exec.Moves.{
  Moves, Moves-attempt, Moves-bind, Moves-bind_at, Moves-gets, Moves-if, Moves-pure,
}
use tunmux.Helper.{
  Host, MacosCleanupState, MacosNetworkFingerprint, MacosReconcileInputs, MacosRoute, MacosRoute_eq,
  MacosRoutingState,
}
use tunmux.Helper.Commands.{Failure, Run}
use tunmux.Helper.Commands.Moves.{RunsFreely}
use tunmux.Helper.Ifconfig.{first}
use tunmux.Helper.Routes.{desired_routes}
use tunmux.Helper.Routes.Install.{add_route}
use tunmux.Helper.Routes.Moves.{
  current_fingerprint-Moves, install_desired-Moves, remove_stale-Moves,
}
use tunmux.Helper.Routes.Reconcile.{
  apply_fingerprint, follow, install_desired, install_one, keep, kept_if_owned, reconcile_routes,
  set_routing,
}
use tunmux.Helper.Routes.Table.{MacosRouteInstall, foreign, owned}
use tunmux.Prelude.{
  All, All-append, All-of_members, Bool, List, Member, [], contains, false, if◌then◌else◌, true,
  ◌++◌, ◌∷◌, ◌≡◌,
}
use tunmux.Wireguard.{Platform}

pure-done : {E A : Type 0} (a b : A) (s : MacosCleanupState) → (pure {E = E} a s).0 ≡ done b → a ≡ b
unfolding pure
pure-done a b s h = cc

module _ (P : MacosRoute → Type 0) (platform : Platform) (host : Host) where
  kept_if_owned-All :
      (route : MacosRoute) (r : Outcome Failure MacosRouteInstall)
      → P route
      → All P (kept_if_owned route r)
  kept_if_owned-All route (done owned) h = (h, tt)
  kept_if_owned-All route (done foreign) h = tt
  kept_if_owned-All route (fail x) h = tt

  install_one-All :
      (current : List MacosRoute) (route : MacosRoute) (s : MacosCleanupState)
      (installed : List MacosRoute)
      → P route
      → (install_one platform host current route s).0 ≡ done installed
      → All P installed
  unfolding install_one
  install_one-All current route s installed wanted h = by_test (contains current route) h
    where
      tried : Run (List MacosRoute)
      tried = do result ← attempt (add_route platform host route); pure (kept_if_owned route result)

      by_test :
          (b : Bool)
          → ((if b then pure (route ∷ []) else tried) s).0 ≡ done installed
          → All P installed
      by_test true h = subst (All P) (pure-done _ installed s h) (wanted, tt)
      by_test false h =
          let (result, _, ended) =
            bind-done (attempt (add_route platform host route)) (λ r. pure (kept_if_owned route r))
              s installed h in
          subst (All P) (pure-done _ installed _ ended) (kept_if_owned-All route result wanted)

  install_desired-All :
      (current desired : List MacosRoute) (s : MacosCleanupState) (installed : List MacosRoute)
      → All P desired
      → (install_desired platform host current desired s).0 ≡ done installed
      → All P installed
  unfolding install_desired
  install_desired-All current [] s installed wanted h = subst (All P) (pure-done _ installed s h) tt
  install_desired-All current (route ∷ rest) s installed (w, ws) h =
      let (here, first, after) =
        bind-done (install_one platform host current route)
          (λ here. install_desired platform host current rest >>= λ there. pure (here ++ there)) s
          installed h in
      let t = (install_one platform host current route s).1 in
      let (there, second, ended) =
        bind-done (install_desired platform host current rest) (λ there. pure (here ++ there)) t
          installed after in
      subst (All P) (pure-done _ installed _ ended) (
        All-append P here there (install_one-All current route s here w first)
          (install_desired-All current rest t there ws second))

-- Every recorded route is one that the recorded network asks for.
abbrev pub RecordsDesired : Platform → MacosReconcileInputs → MacosRoutingState → Type 0
RecordsDesired platform inputs routing =
    All (λ route. Member route (desired_routes platform inputs routing.fingerprint))
      routing.routes_added

module _ (platform : Platform) (host : Host) (inputs : MacosReconcileInputs) where
  abbrev StaysDesired : MacosCleanupState → MacosCleanupState → Type 0
  StaysDesired s t =
      RecordsDesired platform inputs s.routing → RecordsDesired platform inputs t.routing

  StaysDesired-RunsFreely : RunsFreely StaysDesired
  StaysDesired-RunsFreely = record {
    order = record { stay = λ s h. h; chain = λ s t u f g h. g (f h) };
    one = λ s c h. h;
  }

  apply_fingerprint-Moves :
      (found : MacosNetworkFingerprint)
      → Moves StaysDesired (apply_fingerprint platform host inputs found)
  unfolding apply_fingerprint step
  apply_fingerprint-Moves found =
      let free = StaysDesired-RunsFreely in
      let o = free.order in
      let desired = desired_routes platform inputs found in
      Moves-bind o _ _ (Moves-gets o _) (λ current.
        Moves-bind o _ _
          (remove_stale-Moves free platform host inputs.interface found.local_subnets desired
            current)
          (λ _. record {
            from = λ s.
                Moves-bind_at o (install_desired platform host current desired)
                  (λ installed.
                    set_routing (record { routes_added = installed; fingerprint = found }))
                  s ((install_desired-Moves free platform host current desired).from s)
                  (λ installed ended _.
                    install_desired-All (λ route. Member route desired) platform host current
                      desired s installed (All-of_members _ desired (λ route m. m)) ended);
          }))

  follow-Moves :
      (found : Outcome Failure MacosNetworkFingerprint)
      → Moves StaysDesired (follow platform host inputs found)
  follow-Moves (fail x) = Moves-pure (StaysDesired-RunsFreely.order) false
  follow-Moves (done found) =
      let o = StaysDesired-RunsFreely.order in
      search (Moves-bind o, Moves-if o, Moves-gets o, Moves-pure o, apply_fingerprint-Moves)

  -- Whatever the commands answer, a pass of the route reconciler keeps this: every route recorded as
  -- the tunnel's own is one that the recorded network asks for.
  pub reconcile_routes-RecordsDesired :
      (s : MacosCleanupState)
      → RecordsDesired platform inputs s.routing
      → RecordsDesired platform inputs (reconcile_routes platform host inputs s).1.routing
  unfolding reconcile_routes
  reconcile_routes-RecordsDesired =
      let free = StaysDesired-RunsFreely in
      let o = free.order in
      let pass : Moves StaysDesired (reconcile_routes platform host inputs) =
        Moves-bind o _ _ (Moves-gets o _) (λ previous.
          Moves-bind o _ _
            (Moves-attempt o _
              (current_fingerprint-Moves free platform host inputs (keep previous)))
            follow-Moves) in
      pass.from
