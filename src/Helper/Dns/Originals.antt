-- ===== src/Helper/Dns/Originals.antt =====
-- What src/userspace_helper.rs saves of a service before the tunnel's DNS goes there.
use tunmux.Exec.{Outcome, attempt, done, fail, step}
use tunmux.Exec.Gives.{Gives, Gives-after, Gives-if, Gives-pure}
use tunmux.Exec.Moves.{
  IsPreorder, Moves, Moves-attempt, Moves-bind, Moves-bind_at, Moves-gets, Moves-if, Moves-pure,
}
use tunmux.Helper.{
  Host, MacosCleanupState, MacosDnsFingerprint, MacosDnsServiceState, MacosReconcileInputs,
}
use tunmux.Helper.Commands.{Failure}
use tunmux.Helper.Commands.Moves.{RunsFreely}
use tunmux.Helper.Dns.{capture_dns_service}
use tunmux.Helper.Dns.Moves.{
  capture_dns_service-Moves, current_dns_fingerprint-Moves, restore_dns_service-Moves,
  set_dns_servers-Moves, set_search_domains_empty-Moves,
}
use tunmux.Helper.Dns.Plan.{DnsActions}
use tunmux.Helper.Dns.Reconcile.{
  act, apply_all, capture_all, carry_out, drop_all, follow_dns, forget, forget_restored, is_other,
  keep_capture, push_saved, reconcile_dns, release, restore_all, set_dns_fingerprint,
}
use tunmux.Helper.Routes.Moves.{local_connected_subnets-Moves}
use tunmux.Prelude.{
  All, All-append, All-retain, Bool, List, List_eq, Option, Option_eq, [], false, is_empty, none,
  refl, some, ℕ_eq, ◌==◌, ◌∷◌, ◌≡◌,
}
use tunmux.Text.{Str}
use tunmux.Wireguard.{Platform}

-- the saved settings are not the tunnel's servers
abbrev pub IsForeign : List Str → MacosDnsServiceState → Type 0
IsForeign tunnel_dns saved = (saved.dns_servers == some tunnel_dns) ≡ false

abbrev pub SavesForeign : List Str → MacosCleanupState → Type 0
SavesForeign tunnel_dns s = All (IsForeign tunnel_dns) s.dns.services

-- the settings of this service
abbrev IsCaptured : List Str → Str → MacosDnsServiceState → Type 0
IsCaptured tunnel_dns service saved = IsForeign tunnel_dns saved × (saved.service ≡ service)

module _ (host : Host) (tunnel_dns : List Str) where
  pub capture-IsCaptured :
      (service : Str)
      → Gives (IsCaptured tunnel_dns service) (capture_dns_service host service tunnel_dns)
  unfolding capture_dns_service
  capture-IsCaptured service = Gives-after _ _ (λ dns.
      Gives-if (dns == some tunnel_dns) _ _ (λ _. Gives-pure _ (refl, refl))
        (λ other. Gives-after _ _ (λ domains. Gives-pure _ (other, refl))))

  abbrev KeepsForeign : MacosCleanupState → MacosCleanupState → Type 0
  KeepsForeign s t = SavesForeign tunnel_dns s → SavesForeign tunnel_dns t

  free : RunsFreely KeepsForeign
  free = record {
    order = record { stay = λ s h. h; chain = λ s t u f g h. g (f h) };
    one = λ s c h. h;
  }

  order : IsPreorder KeepsForeign
  order = free.order

  keep_capture-Moves :
      (service : Str) (r : Outcome Failure MacosDnsServiceState)
      → ((saved : MacosDnsServiceState) → r ≡ done saved → IsForeign tunnel_dns saved)
      → Moves KeepsForeign (keep_capture service r)
  unfolding step
  keep_capture-Moves service (fail x) h = Moves-pure order (service ∷ [])
  keep_capture-Moves service (done saved) h =
      let pushed : Moves KeepsForeign (push_saved saved) = record {
        from = λ s k.
            All-append (IsForeign tunnel_dns) s.dns.services (saved ∷ []) k (h saved refl, tt);
      } in
      Moves-bind order (push_saved saved) _ pushed (λ _. Moves-pure order [])

  capture_all-Moves :
      (services : List Str) → Moves KeepsForeign (capture_all host tunnel_dns services)
  unfolding capture_all attempt
  capture_all-Moves [] = Moves-pure order []
  capture_all-Moves (service ∷ rest) = record {
    from = λ s.
        Moves-bind_at order (attempt (capture_dns_service host service tunnel_dns)) _ s
          ((capture_dns_service-Moves free host service tunnel_dns).from s)
          (λ captured e.
            let kept : (saved : MacosDnsServiceState)
                → captured ≡ done saved
                → IsForeign tunnel_dns saved =
              λ saved same. ((capture-IsCaptured service).from s saved (cc)).0 in
            (Moves-bind order _ _ (keep_capture-Moves service captured kept) (λ failures.
                Moves-bind order _ _ (capture_all-Moves rest) (λ later. Moves-pure order _))).from
              _);
  }

  forget-Moves : (service : Str) → Moves KeepsForeign (forget service)
  unfolding step
  forget-Moves service = record {
    from = λ s k. All-retain (IsForeign tunnel_dns) (is_other service) s.dns.services k;
  }

  forget_restored-Moves :
      (service : Str) (r : Outcome Failure (Unit {0}))
      → Moves KeepsForeign (forget_restored service r)
  forget_restored-Moves service (fail x) = Moves-pure order 0
  forget_restored-Moves service (done u) =
      Moves-bind order _ _ (forget-Moves service) (λ _. Moves-pure order 1)

  release-Moves :
      (service : Str) (found : Option MacosDnsServiceState)
      → Moves KeepsForeign (release host service found)
  release-Moves service none = Moves-bind order _ _ (forget-Moves service) (λ _. Moves-pure order 0)
  release-Moves service (some saved) =
      Moves-bind order _ _ (Moves-attempt order _ (restore_dns_service-Moves free host saved))
        (forget_restored-Moves service)

  restore_all-Moves : (services : List Str) → Moves KeepsForeign (restore_all host services)
  unfolding restore_all
  restore_all-Moves [] = Moves-pure order 0
  restore_all-Moves (service ∷ rest) = Moves-bind order _ _ (Moves-gets order _) (λ services.
      Moves-bind order _ _ (release-Moves service _)
        (λ restored. Moves-bind order _ _ (restore_all-Moves rest) (λ later. Moves-pure order _)))

  drop_all-Moves : (services : List Str) → Moves KeepsForeign (drop_all services)
  unfolding drop_all
  drop_all-Moves [] = Moves-pure order tt
  drop_all-Moves (service ∷ rest) =
      Moves-bind order _ _ (forget-Moves service) (λ _. drop_all-Moves rest)

  apply_all-Moves :
      (failures services : List Str)
      → Moves KeepsForeign (apply_all host tunnel_dns failures services)
  unfolding apply_all
  apply_all-Moves failures [] = Moves-pure order 0
  apply_all-Moves failures (service ∷ rest) =
      Moves-bind order _ _
        (search (
          Moves-bind order,
          Moves-if order,
          Moves-pure order,
          Moves-attempt order,
          set_dns_servers-Moves free,
          set_search_domains_empty-Moves free,
        ))
        (λ applied.
          Moves-bind order _ _ (apply_all-Moves failures rest) (λ later. Moves-pure order _))

  set_dns_fingerprint-Moves :
      (found : MacosDnsFingerprint) → Moves KeepsForeign (set_dns_fingerprint found)
  unfolding step
  set_dns_fingerprint-Moves found = record { from = λ s k. k }

  pub carry_out-Moves :
      (found : MacosDnsFingerprint) (actions : DnsActions)
      → Moves KeepsForeign (carry_out host tunnel_dns found actions)
  unfolding carry_out
  carry_out-Moves found actions =
      Moves-bind order _ _ (capture_all-Moves actions.capture) (λ failures.
        Moves-bind order _ _ (restore_all-Moves actions.restore) (λ restored.
          Moves-bind order _ _ (drop_all-Moves actions.drop) (λ _.
            Moves-bind order _ _ (apply_all-Moves failures actions.apply) (λ applied.
              Moves-bind order _ _
                (search (
                  Moves-bind order,
                  Moves-if order,
                  Moves-pure order,
                  Moves-attempt order,
                  current_dns_fingerprint-Moves free,
                ))
                set_dns_fingerprint-Moves))))

module _ (platform : Platform) (host : Host) (inputs : MacosReconcileInputs) where
  abbrev Keeps : MacosCleanupState → MacosCleanupState → Type 0
  Keeps = KeepsForeign host inputs.dns_servers

  keeps : RunsFreely Keeps
  keeps = free host inputs.dns_servers

  act-Moves :
      (found previous : MacosDnsFingerprint) (b : Bool) (saved targets : List Str)
      → Moves Keeps (act host inputs.dns_servers found previous b saved targets)
  act-Moves found previous b saved targets =
      let o = keeps.order in
      let acts = carry_out-Moves host inputs.dns_servers in
      search (Moves-if o, Moves-bind o, Moves-pure o, acts)

  follow_dns-Moves :
      (found : Outcome Failure MacosDnsFingerprint)
      → Moves Keeps (follow_dns platform host inputs found)
  follow_dns-Moves (fail x) = Moves-pure keeps.order false
  follow_dns-Moves (done found) =
      let o = keeps.order in
      Moves-bind o _ _ (local_connected_subnets-Moves keeps platform host inputs.interface)
        (λ locals. Moves-bind o _ _ (Moves-gets o _) (λ dns. act-Moves found dns.fingerprint _ _ _))

  -- Whatever the commands answer, a pass of the DNS reconciler keeps this: no saved settings are
  -- the tunnel's own servers.
  pub reconcile_dns-SavesForeign :
      (s : MacosCleanupState)
      → SavesForeign inputs.dns_servers s
      → SavesForeign inputs.dns_servers (reconcile_dns platform host inputs s).1
  unfolding reconcile_dns
  reconcile_dns-SavesForeign =
      let o = keeps.order in
      let pass : Moves Keeps (reconcile_dns platform host inputs) =
        Moves-if o (is_empty inputs.dns_servers) _ _ (λ _. Moves-pure o false)
          (λ _.
            Moves-bind o _ _ (Moves-attempt o _ (current_dns_fingerprint-Moves keeps host))
              (follow_dns-Moves)) in
      pass.from
