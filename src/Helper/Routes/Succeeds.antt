-- ===== src/Helper/Routes/Succeeds.antt =====
-- The steps of src/userspace_helper.rs that go on whatever a command answers.
use tunmux.Daemon.Store.{entry}
use tunmux.Exec.{Outcome, done, fail}
use tunmux.Exec.Succeeds.{Succeeds, Succeeds-attempt, Succeeds-bind, Succeeds-pure}
use tunmux.Helper.{Host, MacosRoute}
use tunmux.Helper.Commands.{Failure}
use tunmux.Helper.Ifconfig.{
  connected_subnet_device, connected_subnets_by_device, local_connected_subnets,
}
use tunmux.Helper.Network.{Subnet}
use tunmux.Helper.Routes.Install.{add_connected, repair, restore_shadowed_lan_route, restore_subnet}
use tunmux.Helper.Routes.Reconcile.{after_delete, remove_route}
use tunmux.Helper.Routes.Table.{MacosRouteEntry, route_table_entry}
use tunmux.Prelude.{List, Option, none, some}
use tunmux.Text.{Str}
use tunmux.Wireguard.{Platform}

module _ (p : Platform) (host : Host) where
  pub connected_subnets_by_device-Succeeds :
      (interface : Str) → Succeeds (connected_subnets_by_device p host interface)
  unfolding connected_subnets_by_device
  connected_subnets_by_device-Succeeds interface =
      search (Succeeds-bind, Succeeds-attempt, Succeeds-pure)

  pub local_connected_subnets-Succeeds :
      (interface : Str) → Succeeds (local_connected_subnets p host interface)
  unfolding local_connected_subnets
  local_connected_subnets-Succeeds interface =
      search (Succeeds-bind, Succeeds-pure, connected_subnets_by_device-Succeeds)

  route_table_entry-Succeeds : (subnet : Subnet) → Succeeds (route_table_entry p host subnet)
  unfolding route_table_entry
  route_table_entry-Succeeds subnet = search (Succeeds-bind, Succeeds-attempt, Succeeds-pure)

  add_connected-Succeeds :
      (subnet : Subnet) (device : Option Str) → Succeeds (add_connected p host subnet device)
  add_connected-Succeeds subnet none = Succeeds-pure tt
  add_connected-Succeeds subnet (some device) =
      search (Succeeds-bind, Succeeds-attempt, Succeeds-pure)

  repair-Succeeds :
      (interface : Str) (subnet : Subnet) (entry : Option MacosRouteEntry)
      → Succeeds (repair p host interface subnet entry)
  unfolding connected_subnet_device
  repair-Succeeds interface subnet (some entry) = Succeeds-pure tt
  repair-Succeeds interface subnet none =
      search
        (Succeeds-bind, Succeeds-pure, connected_subnets_by_device-Succeeds, add_connected-Succeeds)

  restore_subnet-Succeeds :
      (interface : Str) (found : Option Subnet) → Succeeds (restore_subnet p host interface found)
  restore_subnet-Succeeds interface none = Succeeds-pure tt
  restore_subnet-Succeeds interface (some subnet) =
      search (Succeeds-bind, route_table_entry-Succeeds, repair-Succeeds)

  after_delete-Succeeds :
      (interface : Str) (locals : List Subnet) (route : MacosRoute) (r : Outcome Failure (Unit {0}))
      → Succeeds (after_delete p host interface locals route r)
  unfolding restore_shadowed_lan_route
  after_delete-Succeeds interface locals route (fail x) = Succeeds-pure tt
  after_delete-Succeeds interface locals route (done u) = restore_subnet-Succeeds interface _

  pub remove_route-Succeeds :
      (interface : Str) (locals : List Subnet) (route : MacosRoute)
      → Succeeds (remove_route p host interface locals route)
  unfolding remove_route
  remove_route-Succeeds interface locals route =
      search (Succeeds-bind, Succeeds-attempt, Succeeds-pure, after_delete-Succeeds)
