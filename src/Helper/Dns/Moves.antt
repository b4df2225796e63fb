-- ===== src/Helper/Dns/Moves.antt =====
-- The steps of src/userspace_helper.rs that read and set DNS move the state as a relation says that
-- allows one command.
use tunmux.Exec.Moves.{Moves, Moves-attempt, Moves-bind, Moves-if, Moves-pure, Moves-raise}
use tunmux.Helper.{Host, MacosCleanupState, MacosDnsServiceState}
use tunmux.Helper.Commands.{failed}
use tunmux.Helper.Commands.Moves.{
  RunsFreely, execute-Moves, run_command-Moves, run_command_capture_output-Moves,
}
use tunmux.Helper.Dns.{
  capture_dns_service, current_dns_fingerprint, get_dns_servers, get_networksetup_values,
  get_search_domains, list_network_services, named_service, observe, primary_service,
  restore_dns_service, restore_domains, restore_servers, scutil_global_primary_interface,
  service_name_for_device, set_dns_servers, set_dns_servers_empty, set_search_domains,
  set_search_domains_empty,
}
use tunmux.Prelude.{List, Option, [], is_empty, none, some, ◌∷◌}
use tunmux.Text.{Str}

module _ {R : MacosCleanupState → MacosCleanupState → Type 0} (free : RunsFreely R)
    (host : Host) where
  get_networksetup_values-Moves :
      (service flag label : Str) → Moves R (get_networksetup_values host service flag label)
  unfolding get_networksetup_values
  get_networksetup_values-Moves service flag label =
      let o = free.order in
      search (
        Moves-bind o,
        Moves-if o,
        Moves-pure o,
        Moves-raise o,
        run_command_capture_output-Moves free,
      )

  get_dns_servers-Moves : (service : Str) → Moves R (get_dns_servers host service)
  unfolding get_dns_servers
  get_dns_servers-Moves service = search (get_networksetup_values-Moves)

  get_search_domains-Moves : (service : Str) → Moves R (get_search_domains host service)
  unfolding get_search_domains
  get_search_domains-Moves service = search (get_networksetup_values-Moves)

  pub capture_dns_service-Moves :
      (service : Str) (tunnel_dns : List Str)
      → Moves R (capture_dns_service host service tunnel_dns)
  unfolding capture_dns_service
  capture_dns_service-Moves service tunnel_dns =
      let o = free.order in
      search
        (Moves-bind o, Moves-if o, Moves-pure o, get_dns_servers-Moves, get_search_domains-Moves)

  pub set_dns_servers-Moves :
      (service : Str) (servers : List Str) → Moves R (set_dns_servers host service servers)
  unfolding set_dns_servers
  set_dns_servers-Moves service servers = run_command-Moves free host _ _

  pub set_search_domains_empty-Moves :
      (service : Str) → Moves R (set_search_domains_empty host service)
  unfolding set_search_domains_empty
  set_search_domains_empty-Moves service = run_command-Moves free host _ _

  restore_servers-Moves :
      (service : Str) (servers : Option (List Str)) → Moves R (restore_servers host service servers)
  unfolding set_dns_servers_empty
  restore_servers-Moves service none = run_command-Moves free host _ _
  restore_servers-Moves service (some servers) = set_dns_servers-Moves service servers

  restore_domains-Moves :
      (service : Str) (domains : Option (List Str)) → Moves R (restore_domains host service domains)
  unfolding set_search_domains
  restore_domains-Moves service none = set_search_domains_empty-Moves service
  restore_domains-Moves service (some domains) = run_command-Moves free host _ _

  pub restore_dns_service-Moves :
      (saved : MacosDnsServiceState) → Moves R (restore_dns_service host saved)
  unfolding restore_dns_service
  restore_dns_service-Moves saved =
      let o = free.order in search (Moves-bind o, restore_servers-Moves, restore_domains-Moves)

  observe-Moves : (services : List Str) → Moves R (observe host services)
  unfolding observe
  observe-Moves [] = Moves-pure free.order []
  observe-Moves (service ∷ rest) =
      let o = free.order in
      Moves-bind o _ _ (Moves-attempt o _ (get_dns_servers-Moves service))
        (λ dns. Moves-bind o _ _ (observe-Moves rest) (λ others. Moves-pure o _))

  named_service-Moves : (device : Option Str) → Moves R (named_service host device)
  unfolding service_name_for_device
  named_service-Moves none = Moves-pure free.order none
  named_service-Moves (some device) =
      let o = free.order in
      search (Moves-bind o, Moves-pure o, Moves-attempt o, run_command_capture_output-Moves free)

  primary_service-Moves : Moves R (primary_service host)
  unfolding primary_service scutil_global_primary_interface
  primary_service-Moves =
      let o = free.order in
      search
        (Moves-bind o, Moves-pure o, Moves-attempt o, execute-Moves free host, named_service-Moves)

  pub current_dns_fingerprint-Moves : Moves R (current_dns_fingerprint host)
  unfolding current_dns_fingerprint list_network_services
  current_dns_fingerprint-Moves =
      let o = free.order in
      Moves-bind o _ _
        (search (
          Moves-bind o,
          Moves-if o,
          Moves-pure o,
          Moves-raise o,
          run_command_capture_output-Moves free,
        ))
        (λ listed.
          Moves-if o (is_empty listed) _ _ (λ _. Moves-raise o failed)
            (λ _.
              Moves-bind o _ _ (observe-Moves _)
                (λ observed. Moves-bind o _ _ primary_service-Moves (λ primary. Moves-pure o _))))
