-- ===== src/Helper/Routes/Install.antt =====
-- src/userspace_helper.rs: adding, deleting and repairing routes with the `route` command.
use tunmux.Daemon.Store.{entry}
use tunmux.Exec.{attempt, pure, raise, ◌>>=◌, ◌>>◌}
use tunmux.Helper.{Host, MacosRoute, Output}
use tunmux.Helper.Commands.{
  Run, failed, run_command, run_command_capture_output, run_command_with_exists_ok,
}
use tunmux.Helper.Ifconfig.{connected_subnet_device}
use tunmux.Helper.Network.{Subnet}
use tunmux.Helper.Routes.{excluded_by_local_subnet, is_tunnel_bound, route_target_kind}
use tunmux.Helper.Routes.Table.{
  MacosRouteEntry, MacosRouteInstall, foreign, is_tunnel_owned, is_v6, owned, route_destination,
  route_table_entry,
}
use tunmux.Prelude.{
  Bool, List, Option, [], false, if◌then◌else◌, ltb, none, not, some, suc, true, zero, ℕ, ◌%◌, ◌++◌,
  ◌+◌, ◌/◌, ◌||◌, ◌∷◌,
}
use tunmux.Text.{Str, codes, contains_str}
use tunmux.Wireguard.{Platform}

abbrev pub family_flag : Bool → Str
family_flag true = codes "-inet6"
family_flag false = codes "-inet"

abbrev optional : Option Str → List Str
optional none = []
optional (some s) = s ∷ []

abbrev device_args : Option Str → List Str
device_args none = []
device_args (some device) = codes "-interface" ∷ device ∷ []

-- the words of `route` that add and that delete a route
abbrev pub add_args : MacosRoute → List Str
add_args route =
    codes "-q"
      ∷ codes "-n"
      ∷ codes "add"
      ∷ family_flag route.is_ipv6
      ∷ route.destination
      ∷ optional route.gateway
    ++ device_args route.interface

abbrev pub delete_args : MacosRoute → List Str
delete_args route =
    codes "-q"
    ∷ codes "-n"
    ∷ codes "delete"
    ∷ family_flag route.is_ipv6
    ∷ route_target_kind route
    ∷ route.destination
    ∷ []

abbrev pub look_up : Platform → Host → Option Subnet → Run (Option MacosRouteEntry)
look_up platform host none = pure none
look_up platform host (some destination) = route_table_entry platform host destination

-- Who holds the prefix: nobody or a tunnel, whose entry is cleared, or a physical interface.
abbrev pub claim_prefix : Host → MacosRoute → Option MacosRouteEntry → Run Bool
claim_prefix host route none = pure true
claim_prefix host route (some entry) =
    if not (is_tunnel_owned entry)
    then pure false
    else do attempt (run_command host (codes "route") (delete_args route)); pure true

abbrev pub add_claimed : Host → MacosRoute → Bool → Run MacosRouteInstall
add_claimed host route false = pure foreign
add_claimed host route true = do
  run_command_with_exists_ok host (codes "route") (add_args route)
  pure owned

-- a route to the tunnel's device may only replace a tunnel's
unfoldable pub claim_route : Platform → Host → MacosRoute → Run Bool
unfolding route_destination route_table_entry run_command is_tunnel_owned route_target_kind
claim_route platform host route =
    if is_tunnel_bound route
    then look_up platform host (route_destination platform route) >>= claim_prefix host route
    else pure true

unfoldable pub add_route : Platform → Host → MacosRoute → Run MacosRouteInstall
unfolding claim_route run_command_with_exists_ok
add_route platform host route = do
  claimed ← claim_route platform host route
  add_claimed host route claimed

abbrev delete_result : Output → Run (Unit {0})
delete_result output =
    if output.success
    then pure tt
    else if contains_str (codes "not in table") output.stderr
        || contains_str (codes "not in table") output.stdout
    then pure tt
    else raise failed

unfoldable pub del_route : Host → MacosRoute → Run (Unit {0})
unfolding run_command_capture_output route_target_kind contains_str
del_route host route = do
  output ← run_command_capture_output host (codes "route") (delete_args route)
  delete_result output

-- decimal digits, by fuel: a prefix length has at most three, and a 16-bit number at most five
abbrev decimal_digits : ℕ → ℕ → Str
decimal_digits zero n = []
decimal_digits (suc fuel) n =
    let higher = decimal_digits fuel (n / 10) in
    (if ltb n 10 then [] else higher) ++ (b'0' + n % 10) ∷ []

abbrev pub show_number : ℕ → Str
show_number n = decimal_digits 5 n

abbrev pub show_subnet : Platform → Subnet → Str
show_subnet platform (ip, prefix) = platform.show_ip ip ++ b'/' ∷ show_number prefix

-- scoped to the device, as the kernel installs connected routes
abbrev pub connected_args : Platform → Subnet → Str → List Str
connected_args platform subnet device =
    codes "-q"
    ∷ codes "-n"
    ∷ codes "add"
    ∷ family_flag (is_v6 subnet.0)
    ∷ codes "-net"
    ∷ show_subnet platform subnet
    ∷ codes "-ifscope"
    ∷ device
    ∷ codes "-interface"
    ∷ device
    ∷ []

abbrev pub add_connected : Platform → Host → Subnet → Option Str → Run (Unit {0})
add_connected platform host subnet none = pure tt
add_connected platform host subnet (some device) = do
  attempt (run_command_with_exists_ok host (codes "route") (connected_args platform subnet device))
  pure tt

abbrev pub repair : Platform → Host → Str → Subnet → Option MacosRouteEntry → Run (Unit {0})
repair platform host tunnel_interface subnet (some entry) = pure tt
repair platform host tunnel_interface subnet none = do
  device ← connected_subnet_device platform host subnet tunnel_interface
  add_connected platform host subnet device

abbrev pub restore_subnet : Platform → Host → Str → Option Subnet → Run (Unit {0})
restore_subnet platform host tunnel_interface none = pure tt
restore_subnet platform host tunnel_interface (some subnet) = do
  entry ← route_table_entry platform host subnet
  repair platform host tunnel_interface subnet entry

unfoldable pub restore_shadowed_lan_route :
    Platform → Host → MacosRoute → List Subnet → Str → Run (Unit {0})
unfolding excluded_by_local_subnet route_table_entry connected_subnet_device
    run_command_with_exists_ok
restore_shadowed_lan_route platform host route local_subnets tunnel_interface =
    restore_subnet platform host tunnel_interface
      (excluded_by_local_subnet platform route local_subnets)
