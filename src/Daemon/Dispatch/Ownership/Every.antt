-- ===== src/Daemon/Dispatch/Ownership/Every.antt =====
-- Every request, and the records of others (src/privileged/dispatch.rs).
use tunmux.Api.{
  ConnectionId, PrivilegedRequest, add_connection, connect_connection, disconnect_connection,
  get_connection, interface_active, lease_acquire, lease_release, list_connections,
  network_overview, remove_connection, set_connection_mode, shutdown_if_idle, wg_show,
}
use tunmux.Daemon.{Env, StoredConnection}
use tunmux.Daemon.Dispatch.{PeerOrigin, may_access}
use tunmux.Daemon.Dispatch.Handlers.{
  Daemon, Worker, connect_worker, disconnect_worker, dispatch, handle,
}
use tunmux.Daemon.Dispatch.Ownership.{Spares, Spares-IsPreorder}
use tunmux.Daemon.Dispatch.Ownership.Adding.{add-Spares}
use tunmux.Daemon.Dispatch.Ownership.Handlers.{remove-Spares_handler, set_mode-Spares}
use tunmux.Daemon.Dispatch.Requests.{Changes, dispatch-Moves, handle-Moves, now_reply-Moves}
use tunmux.Daemon.Store.{load_in, read_file}
use tunmux.Daemon.Store.Listing.{IsListing}
use tunmux.Error.{ok}
use tunmux.Exec.Moves.{IsPreorder, Moves}
use tunmux.Prelude.{false, some, ◌≡◌}

module _ (e : Env) (origin : PeerOrigin) where
  abbrev S : IsPreorder (Spares e origin)
  S = Spares-IsPreorder e origin

  Changes-Spares :
      (request : PrivilegedRequest)
      → Changes request
      → Moves (Spares e origin) (handle e origin request)
  unfolding handle
  Changes-Spares (add_connection r) _ = now_reply-Moves S e origin _ (add-Spares e origin r)
  Changes-Spares (remove_connection id form) _ =
      now_reply-Moves S e origin _ (remove-Spares_handler e origin id form)
  Changes-Spares (set_connection_mode id mode form) _ =
      now_reply-Moves S e origin _ (set_mode-Spares e origin id mode form)
  Changes-Spares (wg_show i) k = elim k [ ]
  Changes-Spares (network_overview i) k = elim k [ ]
  Changes-Spares (interface_active i) k = elim k [ ]
  Changes-Spares (connect_connection id debug reason) k = elim k [ ]
  Changes-Spares (disconnect_connection id reason) k = elim k [ ]
  Changes-Spares (list_connections scope) k = elim k [ ]
  Changes-Spares (get_connection id) k = elim k [ ]
  Changes-Spares (lease_acquire token) k = elim k [ ]
  Changes-Spares (lease_release token) k = elim k [ ]
  Changes-Spares shutdown_if_idle k = elim k [ ]

  -- Whatever a caller requests, a record of a listing that reads well and that the caller may not
  -- access is as it was. The caller may access the global records when it is root, and the others
  -- when it is root or their owner.
  pub read_file-dispatch :
      (request : PrivilegedRequest) (d : Daemon) (id : ConnectionId) (c : StoredConnection)
      → IsListing d.world.records
      → load_in e id d.world.records ≡ ok (some c)
      → may_access c origin ≡ false
      → read_file id (dispatch e origin request d).1.world.records ≡ read_file id d.world.records
  read_file-dispatch request d id c l found foreign =
      let k =
        dispatch-Moves S e origin request (handle-Moves S e origin request (Changes-Spares request))
          d in
      (k.at l).1 id c found foreign

-- the connection that a worker was spawned for
abbrev pub target : Worker → ConnectionId
target (connect_worker id debug reason) = id
target (disconnect_worker id reason) = id
