-- ===== src/Daemon/Dispatch/AdminGate/Every.antt =====
-- Every request without a granted authorization (src/privileged/dispatch.rs).
use tunmux.Api.{
  ConnectionId, PrivilegedRequest, add_connection, connect_connection, disconnect_connection,
  get_connection, interface_active, lease_acquire, lease_release, list_connections,
  network_overview, remove_connection, set_connection_mode, shutdown_if_idle, wg_show,
}
use tunmux.Daemon.{Env}
use tunmux.Daemon.Disk.RoundTrip.{Codecs}
use tunmux.Daemon.Dispatch.{PeerOrigin}
use tunmux.Daemon.Dispatch.AdminGate.{Evolves, IsUngated}
use tunmux.Daemon.Dispatch.AdminGate.Requests.{
  O, add-IsUngated, remove-IsUngated, set_mode-IsUngated,
}
use tunmux.Daemon.Dispatch.Handlers.{Daemon, dispatch, handle}
use tunmux.Daemon.Dispatch.Reading.{granted}
use tunmux.Daemon.Dispatch.Requests.{Changes, dispatch-Moves, handle-Moves, now_reply-Moves}
use tunmux.Daemon.Store.{read_file}
use tunmux.Daemon.Store.Listing.{IsListing}
use tunmux.Exec.Moves.{Moves}
use tunmux.Prelude.{List, Option, false, none, refl, ℕ, ◌≡◌}

-- the form that a request carries
abbrev pub form_of : PrivilegedRequest → Option (List ℕ)
form_of (add_connection r) = r.auth_external_form
form_of (remove_connection id form) = form
form_of (set_connection_mode id mode form) = form
form_of _ = none

Changes-IsUngated :
    (e : Env) (laws : Codecs e.platform) (origin : PeerOrigin) (request : PrivilegedRequest)
    → granted e (form_of request) ≡ false
    → Changes request
    → Moves (IsUngated e.platform) (handle e origin request)
unfolding handle
Changes-IsUngated e laws origin (add_connection r) h _ =
    now_reply-Moves (O e) e origin _ (add-IsUngated e laws r.auth_external_form h origin r refl)
Changes-IsUngated e laws origin (remove_connection id form) h _ =
    now_reply-Moves (O e) e origin _ (remove-IsUngated e laws form h origin id)
Changes-IsUngated e laws origin (set_connection_mode id mode form) h _ =
    now_reply-Moves (O e) e origin _ (set_mode-IsUngated e laws form h origin id mode)
Changes-IsUngated e laws origin (wg_show i) h k = elim k [ ]
Changes-IsUngated e laws origin (network_overview i) h k = elim k [ ]
Changes-IsUngated e laws origin (interface_active i) h k = elim k [ ]
Changes-IsUngated e laws origin (connect_connection id debug reason) h k = elim k [ ]
Changes-IsUngated e laws origin (disconnect_connection id reason) h k = elim k [ ]
Changes-IsUngated e laws origin (list_connections scope) h k = elim k [ ]
Changes-IsUngated e laws origin (get_connection id) h k = elim k [ ]
Changes-IsUngated e laws origin (lease_acquire token) h k = elim k [ ]
Changes-IsUngated e laws origin (lease_release token) h k = elim k [ ]
Changes-IsUngated e laws origin shutdown_if_idle h k = elim k [ ]

-- If what is printed of an address and of a key is read back, then a request that carries no
-- authorization form which the framework grants leaves every record file of a listing in place: no
-- file appears or disappears, a readable one keeps its id, its text, its fingerprint, its owner, its
-- interface and its time of creation, its stored configuration reads as it did, and a global
-- connection that is started by hand stays so.
pub dispatch-Evolves :
    (e : Env)
    → Codecs e.platform
    → (origin : PeerOrigin) (request : PrivilegedRequest) (d : Daemon) (id : ConnectionId)
    → granted e (form_of request) ≡ false
    → IsListing d.world.records
    → Evolves e.platform
        (read_file id d.world.records)
        (read_file id (dispatch e origin request d).1.world.records)
dispatch-Evolves e laws origin request d id h l =
    let k =
      dispatch-Moves (O e) e origin request
        (handle-Moves (O e) e origin request (Changes-IsUngated e laws origin request h)) d in
    (k.at l).1 id
