-- ===== src/Tests/Witnesses.antt =====
-- The theorems at the small installation.
use tunmux.Api.{
  ConnectReason, ConnectionScope, ConnectionSummary, DisconnectReason, automatic,
  connect_connection, connection_list, interface_name, reconciliation, remove_connection,
  set_connection_mode, unit,
}
use tunmux.Daemon.{StoredConnection, World, readable, record_file}
use tunmux.Daemon.Boot.{reconcile_boot, reconcile_boot_once}
use tunmux.Daemon.Boot.Once.{reconcile_boot-once}
use tunmux.Daemon.Control.{lease_acquire, lease_token_is_live, new_control_state, should_exit_now}
use tunmux.Daemon.Control.Shutdown.{calls, lease-defers_shutdown, poll, release, shutdown}
use tunmux.Daemon.Disk.{from_disk, to_disk}
use tunmux.Daemon.Disk.RoundTrip.{from_disk-parsed}
use tunmux.Daemon.Dispatch.{is_root, may_access, socket, uid}
use tunmux.Daemon.Dispatch.AdminGate.{Evolves}
use tunmux.Daemon.Dispatch.AdminGate.Every.{dispatch-Evolves}
use tunmux.Daemon.Dispatch.AdminGate.Workers.{run_worker-Evolves}
use tunmux.Daemon.Dispatch.Handlers.{
  Worker, connect_worker, disconnect_worker, dispatch, handle_list_connections, in_scope, pending,
  run_worker, summaries,
}
use tunmux.Daemon.Dispatch.Intent.{disconnect-sticks}
use tunmux.Daemon.Dispatch.Listed.{IsShown, handle_list_connections-IsShown}
use tunmux.Daemon.Dispatch.Ownership.{IsOpen}
use tunmux.Daemon.Dispatch.Ownership.Every.{read_file-dispatch}
use tunmux.Daemon.Dispatch.Ownership.Fresh.{allocate-fresh}
use tunmux.Daemon.Dispatch.Ownership.Spawning.{IsOwn, dispatch-IsOwn, read_file-run_worker}
use tunmux.Daemon.Ops.{connect}
use tunmux.Daemon.Ops.Integrity.{Fails, connect-tampered}
use tunmux.Daemon.Store.{allocate_unique_interface, load_in, read_file}
use tunmux.Daemon.Store.Listing.{IsListing}
use tunmux.Error.{ok}
use tunmux.Exec.{attempt, done, gets, or_return, pure, raise, step, ◌>>=◌}
use tunmux.Prelude.{All, List, [], false, none, refl, retain, some, sym, true, ◌++◌, ◌∷◌, ◌≡◌}
use tunmux.Tests.{
  boot_world, conf_text, daemon, env, no_resolver, parsed, platform, platform-Codecs, stored, uuids,
  world,
}
use tunmux.Text.{Str, codes, trim}
use tunmux.Wireguard.Parser.{parse_connection_config}
use tunmux.Wireguard.Parser.Accepted.{IsAccepted, parse_connection_config-IsAccepted}

stored_loads : load_in env 7 world.records ≡ ok (some (stored 7 false (some 501)))
unfolding load_in world stored parsed parse_connection_config
stored_loads = refl

own-IsOpen : IsOpen env (socket 501) 7 world
unfolding stored is_root uid
own-IsOpen c h =
    let same : stored 7 false (some 501) ≡ c = cc (stored_loads, h) in rw (sym same) refl

pub world-IsListing : IsListing world.records
unfolding world read_file
world-IsListing = (refl, (refl, tt))

pub foreign_loads : load_in env 8 world.records ≡ ok (some (stored 8 true none))
unfolding load_in world stored parsed parse_connection_config
foreign_loads = refl

pub is_foreign : may_access (stored 8 true none) (socket 501) ≡ false
unfolding stored is_root uid
is_foreign = refl

dispatch-Evolves_example : Evolves platform (read_file 7 world.records) (
    read_file 7
      (dispatch env (socket 501) (set_connection_mode 7 automatic none) daemon).1.world.records)
dispatch-Evolves_example =
    dispatch-Evolves env platform-Codecs (socket 501) (set_connection_mode 7 automatic none) daemon
      7 refl world-IsListing

run_worker-Evolves_example :
    Evolves platform
      (read_file 7 world.records)
      (read_file 7 (run_worker env (connect_worker 7 false ConnectReason.user) world).1.records)
run_worker-Evolves_example =
    run_worker-Evolves env platform-Codecs (connect_worker 7 false ConnectReason.user) world 7
      world-IsListing

read_file-dispatch_example :
    read_file 8 (dispatch env (socket 501) (remove_connection 8 none) daemon).1.world.records
    ≡ read_file 8 world.records
read_file-dispatch_example =
    read_file-dispatch env (socket 501) (remove_connection 8 none) daemon 8 (stored 8 true none)
      world-IsListing foreign_loads is_foreign

read_file-run_worker_example :
    read_file 8 (run_worker env (disconnect_worker 7 DisconnectReason.user) world).1.records
    ≡ read_file 8 world.records
read_file-run_worker_example =
    read_file-run_worker env (socket 501) (disconnect_worker 7 DisconnectReason.user) world 8
      (stored 8 true none) own-IsOpen world-IsListing foreign_loads is_foreign

abbrev connect_7 : Worker
connect_7 = connect_worker 7 false ConnectReason.user

spawned :
    (dispatch env (socket 501) (connect_connection 7 false ConnectReason.user) daemon).0
    ≡ pending connect_7
unfolding dispatch world stored parsed parse_connection_config ◌>>=◌ or_return
spawned = refl

dispatch-IsOwn_example : IsOwn env (socket 501) world connect_7
dispatch-IsOwn_example =
    dispatch-IsOwn env (socket 501) (connect_connection 7 false ConnectReason.user) daemon connect_7
      spawned

allocated : (allocate_unique_interface env world).0 ≡ done (20, interface_name uuids 20)
unfolding allocate_unique_interface world stored parsed parse_connection_config interface_name ◌>>=◌
allocated = refl

allocate-fresh_example :
    (read_file 20 world.records ≡ none) × (interface_name uuids 20 ≡ interface_name env.uuids 20)
allocate-fresh_example = allocate-fresh env world 20 (interface_name uuids 20) allocated

parses : parse_connection_config platform no_resolver conf_text ≡ ok parsed
unfolding parsed parse_connection_config
parses = refl

parse_connection_config-IsAccepted_example : IsAccepted parsed
parse_connection_config-IsAccepted_example =
    parse_connection_config-IsAccepted platform no_resolver conf_text parsed parses

from_disk-parsed_example :
    from_disk platform (to_disk platform (stored 7 false (some 501)))
    ≡ ok (stored 7 false (some 501))
unfolding stored
from_disk-parsed_example =
    from_disk-parsed platform platform-Codecs no_resolver (stored 7 false (some 501)) parses

disconnect-sticks_example :
    run_worker env
      (connect_worker 7 false reconciliation)
      (run_worker env (disconnect_worker 7 DisconnectReason.user) world).1
    ≡ (unit, (run_worker env (disconnect_worker 7 DisconnectReason.user) world).1)
disconnect-sticks_example =
    disconnect-sticks env env 7 false world (stored 7 false (some 501)) platform-Codecs refl refl
      stored_loads refl refl refl

abbrev token : Str
token = codes "42:0"

lease-defers_shutdown_example :
    (should_exit_now env (
      calls env
        (shutdown ∷ release (codes "43:0") ∷ poll ∷ [])
        (lease_acquire env token (new_control_state true)))).0
    ≡ false
unfolding lease_token_is_live
lease-defers_shutdown_example =
    lease-defers_shutdown env token (shutdown ∷ release (codes "43:0") ∷ poll ∷ [])
      (new_control_state true) refl (refl, tt)

-- the record of the connection 7 with a hook that was put in later
abbrev tampered : StoredConnection
tampered = record (stored 7 false (some 501)) {
  raw_conf = conf_text ++ codes "[Interface]" ++ 10 ∷ [] ++ codes "PostUp = reboot";
}

unfoldable tampered_world : World
unfolding world stored to_disk
tampered_world = record world {
  records = record { name = record_file 7; content = readable (to_disk platform tampered) } ∷ [];
}

connect-tampered_example :
    Fails (connect env 7 false tampered_world).0
    × ((connect env 7 false tampered_world).1 ≡ tampered_world)
unfolding load_in tampered_world parsed parse_connection_config
connect-tampered_example = connect-tampered env 7 false tampered_world tampered refl refl

booted : (reconcile_boot_once env boot_world).0 ≡ done true
unfolding reconcile_boot_once boot_world world stored parsed parse_connection_config ◌>>=◌ attempt
    gets pure raise step
booted = refl

abbrev left : StoredConnection
left = record (stored 8 true none) { start_mode = automatic; user_disconnected = true }

unfoldable left_world : World
unfolding world stored to_disk
left_world = record world {
  records = record { name = record_file 8; content = readable (to_disk platform left) } ∷ [];
}

-- later in the boot, a user has disconnected it
unfoldable later_world : World
unfolding left_world
later_world = record (reconcile_boot env boot_world).1 { records = left_world.records }

reconcile_boot-once_example :
    reconcile_boot (record env { now = 9 }) later_world ≡ (done tt, later_world)
unfolding trim later_world
reconcile_boot-once_example =
    reconcile_boot-once env (record env { now = 9 }) (codes "boot") boot_world later_world refl refl
      refl refl booted refl

abbrev listed : List ConnectionSummary
listed = summaries env world (
    retain (in_scope (socket 501) ConnectionScope.mine)
      (stored 7 false (some 501) ∷ stored 8 true none ∷ []))

lists :
    (handle_list_connections env (socket 501) ConnectionScope.mine world).0
    ≡ done (connection_list listed)
unfolding handle_list_connections world stored parsed parse_connection_config ◌>>=◌ or_return gets
    step
lists = refl

handle_list_connections-IsShown_example : All (IsShown (socket 501)) listed
handle_list_connections-IsShown_example =
    handle_list_connections-IsShown env (socket 501) ConnectionScope.mine world listed lists
