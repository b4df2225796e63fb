-- ===== src/Helper/Dns.antt =====
-- src/userspace_helper.rs: reading and setting the DNS servers of the network services (networksetup, scutil).
pub mod Plan
pub mod Reconcile
pub mod Moves
pub mod Originals
use mathlib.Core.List.{reverse}
use tunmux.Daemon.Dispatch.Handlers.{mark}
use tunmux.Exec.{Outcome, attempt, done, fail, pure, raise, ◌>>=◌, ◌>>◌}
use tunmux.Helper.{Host, MacosDnsFingerprint, MacosDnsServiceState, Output}
use tunmux.Helper.Commands.{Failure, Run, execute, failed, run_command, run_command_capture_output}
use tunmux.Prelude.{
  Bool, List, List_eq, Option, Option_eq, [], any, dedup, if◌then◌else◌, is_empty, map, none, not,
  retain, some, sort_by, ℕ_eq, ◌++◌, ◌==◌, ◌||◌, ◌∷◌,
}
use tunmux.Text.{
  Str, codes, contains_str, lines, split_once, starts_with, str_le, strip_prefix, trim,
}

abbrev networksetup : Str
networksetup = codes "networksetup"

abbrev empty : Str
empty = codes "Empty"

-- a service that is disabled is listed with an asterisk
abbrev unstarred : Str → Str
unstarred trimmed = elim (strip_prefix (b'*' ∷ []) trimmed) [ some s ↦ trim s | none ↦ trimmed ]

unfoldable pub service_line : Str → List Str
unfolding trim starts_with strip_prefix
service_line line =
    let trimmed = trim line in
    if is_empty trimmed || starts_with (codes "An asterisk") trimmed
    then []
    else if is_empty (unstarred trimmed)
    then []
    else unstarred trimmed ∷ []

abbrev service_lines : List Str → List Str
service_lines [] = []
service_lines (line ∷ rest) = service_line line ++ service_lines rest

unfoldable pub list_network_services : Host → Run (List Str)
unfolding run_command_capture_output lines service_line
list_network_services host = do
  output ← run_command_capture_output host networksetup (codes "-listallnetworkservices" ∷ [])
  if output.success then pure (service_lines (lines output.stdout)) else raise failed

abbrev non_empty : Str → Bool
non_empty s = not (is_empty s)

abbrev set_values : List Str → Option (List Str)
set_values values = if is_empty values || values == empty ∷ [] then none else some values

-- what `networksetup` prints for one setting of a service; none when it is not set
unfoldable pub read_values : Str → Str → Option (List Str)
unfolding lines trim contains_str
read_values value_label stdout =
    let marker = codes "There aren't any " ++ value_label ++ codes " set" in
    if any (contains_str marker) (lines stdout)
    then none
    else set_values (retain non_empty (map trim (lines stdout)))

unfoldable pub get_networksetup_values : Host → Str → Str → Str → Run (Option (List Str))
unfolding run_command_capture_output read_values
get_networksetup_values host service flag value_label = do
  output ← run_command_capture_output host networksetup (flag ∷ service ∷ [])
  if output.success then pure (read_values value_label output.stdout) else raise failed

unfoldable pub get_dns_servers : Host → Str → Run (Option (List Str))
unfolding get_networksetup_values
get_dns_servers host service =
    get_networksetup_values host service (codes "-getdnsservers") (codes "DNS Servers")

unfoldable pub get_search_domains : Host → Str → Run (Option (List Str))
unfolding get_networksetup_values
get_search_domains host service =
    get_networksetup_values host service (codes "-getsearchdomains") (codes "Search Domains")

unfoldable pub set_dns_servers : Host → Str → List Str → Run (Unit {0})
unfolding run_command
set_dns_servers host service dns_servers =
    run_command host networksetup (codes "-setdnsservers" ∷ service ∷ dns_servers)

unfoldable pub set_dns_servers_empty : Host → Str → Run (Unit {0})
unfolding run_command
set_dns_servers_empty host service =
    run_command host networksetup (codes "-setdnsservers" ∷ service ∷ empty ∷ [])

unfoldable pub set_search_domains : Host → Str → List Str → Run (Unit {0})
unfolding run_command
set_search_domains host service domains =
    run_command host networksetup (codes "-setsearchdomains" ∷ service ∷ domains)

unfoldable pub set_search_domains_empty : Host → Str → Run (Unit {0})
unfolding run_command
set_search_domains_empty host service =
    run_command host networksetup (codes "-setsearchdomains" ∷ service ∷ empty ∷ [])

abbrev pub restore_servers : Host → Str → Option (List Str) → Run (Unit {0})
restore_servers host service none = set_dns_servers_empty host service
restore_servers host service (some servers) = set_dns_servers host service servers

abbrev pub restore_domains : Host → Str → Option (List Str) → Run (Unit {0})
restore_domains host service none = set_search_domains_empty host service
restore_domains host service (some domains) = set_search_domains host service domains

unfoldable pub restore_dns_service : Host → MacosDnsServiceState → Run (Unit {0})
unfolding set_dns_servers set_dns_servers_empty set_search_domains set_search_domains_empty
restore_dns_service host saved = do
  restore_servers host saved.service saved.dns_servers
  restore_domains host saved.service saved.search_domains

-- A service's settings, for a later restore. One that shows the tunnel's servers already is saved
-- without settings.
unfoldable pub capture_dns_service : Host → Str → List Str → Run MacosDnsServiceState
unfolding get_dns_servers get_search_domains
capture_dns_service host service tunnel_dns = do
  dns ← get_dns_servers host service
  if dns == some tunnel_dns
      then pure (record { service = service; dns_servers = none; search_domains = none })
      else do
        search_domains ← get_search_domains host service
        pure (record { service = service; dns_servers = dns; search_domains = search_domains })

-- `PrimaryInterface : en0`
abbrev drop_space_colon : Str → Str
drop_space_colon [] = []
drop_space_colon (c ∷ s) =
    let rest = drop_space_colon s in if c == b' ' || c == b':' then rest else c ∷ s

abbrev given : Str → Option Str
given value = if is_empty value then none else some value

abbrev primary_line : Str → Option Str
primary_line line = elim (strip_prefix (codes "PrimaryInterface") (trim line)) [
  | none ↦ none
  | some rest ↦ given (trim (drop_space_colon rest))
]

abbrev primary_lines : List Str → Option Str
primary_lines [] = none
primary_lines (line ∷ rest) = elim (primary_line line) [
  | some v ↦ some v
  | none ↦ primary_lines rest
]

unfoldable pub parse_scutil_primary_interface : Str → Option Str
unfolding lines trim strip_prefix
parse_scutil_primary_interface text = primary_lines (lines text)

-- `hw.find("Device:")`: what stands after the first of them
abbrev after_device : Str → Option Str
after_device [] = none
after_device (c ∷ s) = elim (strip_prefix (codes "Device:") (c ∷ s)) [
  | some rest ↦ some rest
  | none ↦ after_device s
]

abbrev drop_parentheses : Str → Str
drop_parentheses [] = []
drop_parentheses (c ∷ s) = let rest = drop_parentheses s in if c == b')' then rest else c ∷ s

abbrev without_closing : Str → Str
without_closing s = reverse (drop_parentheses (reverse s))

unfoldable pub parse_device_from_hw_line : Str → Option Str
unfolding trim strip_prefix
parse_device_from_hw_line hw = elim (after_device hw) [
  | none ↦ none
  | some rest ↦ given (trim (without_closing (trim rest)))
]

-- "(1) Wi-Fi", or "(*) Wi-Fi" when disabled
abbrev service_name : Option Str → Option (Str × Str) → Option Str
service_name current none = current
service_name current (some (mark, name)) =
    if is_empty (trim name) then current else some (trim name)

unfoldable pub service_order : Str → Option Str → List Str → Option Str
unfolding trim strip_prefix starts_with split_once parse_device_from_hw_line
service_order device current [] = none
service_order device current (line ∷ rest) =
    let trimmed = trim line in
    let same = service_order device current rest in
    let named = service_order device (service_name current (split_once b')' trimmed)) rest in
    elim (strip_prefix (codes "(Hardware Port:") trimmed) [
      | some hw ↦ if parse_device_from_hw_line hw == some device then current else same
      | none ↦ if starts_with (b'(' ∷ []) trimmed then named else same
    ]

unfoldable pub parse_service_name_for_device : Str → Str → Option Str
unfolding lines service_order
parse_service_name_for_device text device = service_order device none (lines text)

abbrev printed_primary : Outcome Failure Output → Option Str
printed_primary (fail x) = none
printed_primary (done output) =
    if output.success then parse_scutil_primary_interface output.stdout else none

unfoldable pub scutil_global_primary_interface : Host → Run (Option Str)
unfolding execute parse_scutil_primary_interface
scutil_global_primary_interface host = do
  output ← attempt (
      execute host (record {
        program = codes "scutil";
        args = [];
        stdin = codes "show State:/Network/Global/IPv4" ++ 10 ∷ [];
      }))
  pure (printed_primary output)

abbrev printed_service : Str → Outcome Failure Output → Option Str
printed_service device (fail x) = none
printed_service device (done output) =
    if output.success then parse_service_name_for_device output.stdout device else none

unfoldable pub service_name_for_device : Host → Str → Run (Option Str)
unfolding run_command_capture_output parse_service_name_for_device
service_name_for_device host device = do
  output ←
      attempt (run_command_capture_output host networksetup (codes "-listnetworkserviceorder" ∷ []))
  pure (printed_service device output)

abbrev pub named_service : Host → Option Str → Run (Option Str)
named_service host none = pure none
named_service host (some device) = service_name_for_device host device

unfoldable pub primary_service : Host → Run (Option Str)
unfolding scutil_global_primary_interface service_name_for_device
primary_service host = scutil_global_primary_interface host >>= named_service host

abbrev pub or_unset : Outcome Failure (Option (List Str)) → Option (List Str)
or_unset (done d) = d
or_unset (fail x) = none

unfoldable pub observe : Host → List Str → Run (List (Str × Option (List Str)))
unfolding get_dns_servers
observe host [] = pure []
observe host (service ∷ rest) = do
  dns ← attempt (get_dns_servers host service)
  others ← observe host rest
  pure ((service, or_unset dns) ∷ others)

-- The listing must be there and not be empty; the rest may be missing.
unfoldable pub current_dns_fingerprint : Host → Run MacosDnsFingerprint
unfolding list_network_services observe primary_service str_le
current_dns_fingerprint host = do
  listed ← list_network_services host
  if is_empty listed
      then raise failed
      else let services = dedup (sort_by str_le listed) in
        do
          observed ← observe host services
          primary ← primary_service host
          pure (record { primary_service = primary; services = services; observed = observed })
