-- ===== src/Helper/Dns/Reconcile.antt =====
-- src/userspace_helper.rs: following the DNS of the network services while the tunnel is up.
use tunmux.Exec.{Outcome, attempt, done, fail, gets, pure, step, ◌>>=◌, ◌>>◌}
use tunmux.Helper.{
  Host, MacosCleanupState, MacosDnsFingerprint, MacosDnsFingerprint_eq, MacosDnsServiceState,
  MacosReconcileInputs,
}
use tunmux.Helper.Commands.{Failure, Run}
use tunmux.Helper.Dns.{
  capture_dns_service, current_dns_fingerprint, restore_dns_service, set_dns_servers,
  set_search_domains_empty,
}
use tunmux.Helper.Dns.Plan.{
  DnsActions, dns_policy, dns_reconcile_forced, dns_server_in_local_subnet, dns_target_services,
  plan_dns_actions,
}
use tunmux.Helper.Ifconfig.{local_connected_subnets}
use tunmux.Helper.Network.{Subnet}
use tunmux.Prelude.{
  Bool, List, List_eq, Option, Option_eq, [], contains, false, find, if◌then◌else◌, is_empty, map,
  none, not, retain, some, true, ℕ, ℕ_eq, ◌&&◌, ◌++◌, ◌+◌, ◌==◌, ◌∷◌,
}
use tunmux.Text.{Str}
use tunmux.Wireguard.{IpAddr, Platform}

abbrev pub saved_services : Run (List MacosDnsServiceState)
saved_services = gets (λ s. s.dns.services)

abbrev pub with_services : List MacosDnsServiceState → MacosCleanupState → MacosCleanupState
with_services services s = record s {
  dns = record { services = services; fingerprint = s.dns.fingerprint };
}

abbrev pub push_saved : MacosDnsServiceState → Run (Unit {0})
push_saved saved = step (λ s. (done tt, with_services (s.dns.services ++ saved ∷ []) s))

abbrev pub is_other : Str → MacosDnsServiceState → Bool
is_other service saved = not (saved.service == service)

abbrev pub forget : Str → Run (Unit {0})
forget service = step (λ s. (done tt, with_services (retain (is_other service) s.dns.services) s))

abbrev pub keep_capture : Str → Outcome Failure MacosDnsServiceState → Run (List Str)
keep_capture service (fail x) = pure (service ∷ [])
keep_capture service (done saved) = do push_saved saved; pure []

-- (a) the services whose settings could not be saved
unfoldable pub capture_all : Host → List Str → List Str → Run (List Str)
unfolding capture_dns_service
capture_all host tunnel_dns [] = pure []
capture_all host tunnel_dns (service ∷ rest) = do
  captured ← attempt (capture_dns_service host service tunnel_dns)
  failures ← keep_capture service captured
  later ← capture_all host tunnel_dns rest
  pure (failures ++ later)

abbrev pub forget_restored : Str → Outcome Failure (Unit {0}) → Run ℕ
forget_restored service (fail x) = pure 0
forget_restored service (done _) = do forget service; pure 1

abbrev pub release : Host → Str → Option MacosDnsServiceState → Run ℕ
release host service none = do forget service; pure 0
release host service (some saved) = do
  restored ← attempt (restore_dns_service host saved)
  forget_restored service restored

-- (b) the number of services restored
unfoldable pub restore_all : Host → List Str → Run ℕ
unfolding restore_dns_service
restore_all host [] = pure 0
restore_all host (service ∷ rest) = do
  services ← saved_services
  restored ← release host service (find (λ d. d.service == service) services)
  later ← restore_all host rest
  pure (restored + later)

unfoldable pub drop_all : List Str → Run (Unit {0})
drop_all [] = pure tt
drop_all (service ∷ rest) = do forget service; drop_all rest

abbrev pub is_done : {A : Type 0} → Outcome Failure A → ℕ
is_done (done a) = 1
is_done (fail x) = 0

abbrev pub assert_service : Host → List Str → Str → Run (Unit {0})
assert_service host tunnel_dns service = do
  set_dns_servers host service tunnel_dns
  set_search_domains_empty host service

abbrev pub apply_one : Host → List Str → List Str → Str → Run ℕ
apply_one host tunnel_dns capture_failed service =
    if contains capture_failed service
    then pure 0
    else do asserted ← attempt (assert_service host tunnel_dns service); pure (is_done asserted)

-- (c) the number of services that carry the tunnel's servers again
unfoldable pub apply_all : Host → List Str → List Str → List Str → Run ℕ
unfolding set_dns_servers set_search_domains_empty
apply_all host tunnel_dns capture_failed [] = pure 0
apply_all host tunnel_dns capture_failed (service ∷ rest) = do
  applied ← apply_one host tunnel_dns capture_failed service
  later ← apply_all host tunnel_dns capture_failed rest
  pure (applied + later)

abbrev pub set_dns_fingerprint : MacosDnsFingerprint → Run (Unit {0})
set_dns_fingerprint found =
    step
      (λ s. (done tt, record s { dns = record { services = s.dns.services; fingerprint = found } }))

abbrev pub or_before :
    MacosDnsFingerprint → Outcome Failure MacosDnsFingerprint → MacosDnsFingerprint
or_before found (done again) = again
or_before found (fail x) = found

-- a new snapshot, when the settings changed
abbrev pub snapshot : Host → MacosDnsFingerprint → ℕ → Run MacosDnsFingerprint
snapshot host found changed =
    if changed == 0
    then pure found
    else do again ← attempt (current_dns_fingerprint host); pure (or_before found again)

unfoldable pub carry_out : Host → List Str → MacosDnsFingerprint → DnsActions → Run (Unit {0})
unfolding capture_all restore_all drop_all apply_all current_dns_fingerprint
carry_out host tunnel_dns found actions = do
  capture_failed ← capture_all host tunnel_dns actions.capture
  restored ← restore_all host actions.restore
  drop_all actions.drop
  applied ← apply_all host tunnel_dns capture_failed actions.apply
  stored ← snapshot host found (applied + restored)
  set_dns_fingerprint stored

abbrev pub targets_of : Option (IpAddr × Subnet) → MacosDnsFingerprint → List Str
targets_of (some c) found = []
targets_of none found = dns_target_services dns_policy found

abbrev is_collision : Option (IpAddr × Subnet) → Bool
is_collision none = false
is_collision (some c) = true

abbrev pub act :
    Host
    → List Str
    → MacosDnsFingerprint
    → MacosDnsFingerprint
    → Bool
    → List Str
    → List Str
    → Run Bool
act host tunnel_dns found previous collision owned targets =
    if found == previous && not (dns_reconcile_forced collision owned targets)
    then pure false
    else do
      carry_out host tunnel_dns found (plan_dns_actions tunnel_dns found owned targets)
      pure true

abbrev pub follow_dns :
    Platform → Host → MacosReconcileInputs → Outcome Failure MacosDnsFingerprint → Run Bool
follow_dns platform host inputs (fail x) = pure false
follow_dns platform host inputs (done found) = do
  local_subnets ← local_connected_subnets platform host inputs.interface
  dns ← gets (λ s. s.dns)
  let collision = dns_server_in_local_subnet platform inputs.dns_servers local_subnets in
      act host inputs.dns_servers found dns.fingerprint (is_collision collision)
        (map (λ d. d.service) dns.services) (targets_of collision found)

unfoldable pub reconcile_dns : Platform → Host → MacosReconcileInputs → Run Bool
unfolding current_dns_fingerprint local_connected_subnets dns_server_in_local_subnet
    dns_target_services dns_reconcile_forced plan_dns_actions carry_out
reconcile_dns platform host inputs =
    if is_empty inputs.dns_servers
    then pure false
    else do found ← attempt (current_dns_fingerprint host); follow_dns platform host inputs found
