-- ===== src/Daemon/Dispatch/Requests.antt =====
-- What holds of `dispatch` since it holds of each handler (src/privileged/dispatch.rs).
use tunmux.Api.{
  ConnectionId, ConnectionScope, PrivilegedRequest, PrivilegedResponse, add_connection,
  connect_connection, disconnect_connection, get_connection, interface_active, lease_acquire,
  lease_release, list_connections, network_overview, remove_connection, set_connection_mode,
  shutdown_if_idle, wg_show,
}
use tunmux.Daemon.{Env, World}
use tunmux.Daemon.Dispatch.{PeerOrigin, Reply}
use tunmux.Daemon.Dispatch.Handlers.{
  Daemon, Worker, dispatch, handle, handle_get_connection, handle_list_connections, immediate,
  now_reply, spawn,
}
use tunmux.Daemon.Dispatch.Reading.{
  authorize_access-Reads, legacy_interface_access-Reads, load_all-Reads, load_or_return-Reads,
  reading,
}
use tunmux.Exec.Moves.{IsPreorder, Moves, Moves-bind, Moves-pure, Reads, Reads-Moves}

module _ {R : World → World → Type 0} (o : IsPreorder R) (e : Env) (origin : PeerOrigin) where
  pub now_reply-Moves : (m : Reply PrivilegedResponse) → Moves R m → Moves R (now_reply m)
  now_reply-Moves m k = Moves-bind o m _ k (λ r. Moves-pure o (immediate r))

  pub dispatch-Moves :
      (request : PrivilegedRequest)
      → Moves R (handle e origin request)
      → (d : Daemon) → R d.world (dispatch e origin request d).1.world
  unfolding dispatch
  dispatch-Moves (lease_acquire token) k d = o.stay _
  dispatch-Moves (lease_release token) k d = o.stay _
  dispatch-Moves shutdown_if_idle k d = o.stay _
  dispatch-Moves (wg_show i) k d = k.from d.world
  dispatch-Moves (network_overview i) k d = k.from d.world
  dispatch-Moves (interface_active i) k d = k.from d.world
  dispatch-Moves (add_connection r) k d = k.from d.world
  dispatch-Moves (remove_connection id form) k d = k.from d.world
  dispatch-Moves (connect_connection id debug reason) k d = k.from d.world
  dispatch-Moves (disconnect_connection id reason) k d = k.from d.world
  dispatch-Moves (set_connection_mode id mode form) k d = k.from d.world
  dispatch-Moves (list_connections scope) k d = k.from d.world
  dispatch-Moves (get_connection id) k d = k.from d.world

pub spawn-Reads :
    (e : Env) (origin : PeerOrigin) (id : ConnectionId) (worker : Worker)
    → Reads (spawn e origin id worker)
unfolding spawn
spawn-Reads e origin id worker = search (reading, load_or_return-Reads, authorize_access-Reads)

pub list-Reads :
    (e : Env) (origin : PeerOrigin) (scope : ConnectionScope)
    → Reads (handle_list_connections e origin scope)
unfolding handle_list_connections
list-Reads e origin scope = search (reading, load_all-Reads)

pub get-Reads :
    (e : Env) (origin : PeerOrigin) (id : ConnectionId) → Reads (handle_get_connection e origin id)
unfolding handle_get_connection
get-Reads e origin id = search (reading, load_or_return-Reads, authorize_access-Reads)

-- the requests that change the store at once
abbrev pub Changes : PrivilegedRequest → Type 0
Changes (add_connection r) = Unit
Changes (remove_connection id form) = Unit
Changes (set_connection_mode id mode form) = Unit
Changes _ = ⊥

-- A relation that holds of the three handlers which change the store holds of every request.
pub handle-Moves :
    {R : World → World → Type 0} (o : IsPreorder R) (e : Env) (origin : PeerOrigin)
    (request : PrivilegedRequest)
    → (Changes request → Moves R (handle e origin request))
    → Moves R (handle e origin request)
unfolding handle
handle-Moves o e origin (add_connection r) k = k tt
handle-Moves o e origin (remove_connection id form) k = k tt
handle-Moves o e origin (set_connection_mode id mode form) k = k tt
handle-Moves o e origin (wg_show i) k =
    Reads-Moves o _ (search (reading, legacy_interface_access-Reads))
handle-Moves o e origin (network_overview i) k =
    Reads-Moves o _ (search (reading, legacy_interface_access-Reads))
handle-Moves o e origin (interface_active i) k =
    Reads-Moves o _ (search (reading, legacy_interface_access-Reads))
handle-Moves o e origin (connect_connection id debug reason) k =
    Reads-Moves o _ (spawn-Reads e origin id _)
handle-Moves o e origin (disconnect_connection id reason) k =
    Reads-Moves o _ (spawn-Reads e origin id _)
handle-Moves o e origin (list_connections scope) k =
    now_reply-Moves o e origin _ (Reads-Moves o _ (list-Reads e origin scope))
handle-Moves o e origin (get_connection id) k =
    now_reply-Moves o e origin _ (Reads-Moves o _ (get-Reads e origin id))
handle-Moves o e origin (lease_acquire token) k = Moves-pure o _
handle-Moves o e origin (lease_release token) k = Moves-pure o _
handle-Moves o e origin shutdown_if_idle k = Moves-pure o _
