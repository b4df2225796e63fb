-- ===== src/Daemon/Dispatch/Handlers.antt =====
-- The other handlers of src/privileged/dispatch.rs, the workers, and `dispatch`.
use tunmux.Daemon.Control
use tunmux.Api.{
  ConnectReason, ConnectionId, ConnectionScope, ConnectionStartMode, ConnectionSummary,
  DisconnectReason, PeerSummary, PrivilegedRequest, PrivilegedResponse, add_connection, all_scopes,
  auth, bool, busy, connect_connection, connection, connection_list, disconnect_connection, error,
  get_connection, interface_active, kernel, lease_acquire, lease_release, list_connections,
  network_overview, reconciliation, remove_connection, session_teardown, set_connection_mode,
  shutdown_if_idle, text, unit, wg_show, wireguard,
}
use tunmux.Daemon.{Env, StoredConnection, World}
use tunmux.Daemon.Boot.{seems_active}
use tunmux.Daemon.Control.{ControlState}
use tunmux.Daemon.Dispatch.{
  PeerOrigin, Reply, authorize_access, error_response, is_root, load_or_return, require_admin_auth,
  save_or_return, take_connection_lock, take_index_lock, uid,
}
use tunmux.Daemon.Dispatch.Add.{elevating, handle_add_connection, mode_eq, with_mode}
use tunmux.Daemon.Ops.{connect, disconnect, socket_path}
use tunmux.Daemon.Store.{Action, exists, find_by_interface, is_active, load, load_all, remove, save}
use tunmux.Error.{AppError, Result, err, ok}
use tunmux.Exec.{Outcome, done, fail, gets, or_return, pure, raise, ◌>>=◌, ◌>>◌}
use tunmux.Prelude.{
  Bool, List, Option, Option_eq, [], all, false, if◌then◌else◌, map, none, not, retain, some, true,
  ℕ, ℕ_eq, ◌&&◌, ◌==◌,
}
use tunmux.Text.{Str}
use tunmux.Wireguard.{ConnectionPeer, Platform}

abbrev pub refuse_active : Bool → Reply (Unit {0})
refuse_active true = raise (error busy)
refuse_active false = pure tt

unfoldable pub handle_remove_connection :
    Env → PeerOrigin → ConnectionId → Option (List ℕ) → Reply PrivilegedResponse
unfolding take_index_lock load_or_return authorize_access take_connection_lock is_active
    require_admin_auth remove error_response
handle_remove_connection e origin id form = do
  take_index_lock e
  stored ← load_or_return e id
  authorize_access stored origin
  take_connection_lock e id
  active ← or_return error_response (is_active id)
  refuse_active active
  require_admin_auth e form
  or_return error_response (remove e id)
  pure unit

unfoldable pub handle_set_connection_mode :
    Env
    → PeerOrigin
    → ConnectionId
    → ConnectionStartMode
    → Option (List ℕ)
    → Reply PrivilegedResponse
unfolding take_connection_lock load_or_return authorize_access require_admin_auth save_or_return
handle_set_connection_mode e origin id mode form = do
  take_connection_lock e id
  stored ← load_or_return e id
  authorize_access stored origin
  if elevating stored mode then require_admin_auth e form else pure tt
  if mode_eq stored.start_mode mode
      then pure unit
      else do save_or_return e (record (with_mode mode stored) { updated_at = e.now }); pure unit

unfoldable pub peer_summary : Platform → ConnectionPeer → PeerSummary
peer_summary p q = record {
  public_key = p.base64_encode q.public_key;
  allowed_ips = map p.show_net q.allowed_ips;
  endpoint = q.endpoint_literal;
  has_preshared_key = elim q.preshared_key [ some _ ↦ true | none ↦ false ];
}

unfoldable pub summarize : Platform → StoredConnection → Bool → Bool → ConnectionSummary
unfolding peer_summary
summarize p c connected include_fingerprint = record {
  id = c.id;
  global = c.global;
  owner_uid = c.owner_uid;
  start_mode = c.start_mode;
  name = c.name;
  interface = c.interface;
  connected = connected;
  user_disconnected = c.user_disconnected;
  addresses = map p.show_net c.config.addresses;
  dns_servers = map p.show_ip c.config.dns_servers;
  mtu = c.config.mtu;
  peers = map (peer_summary p) c.config.peers;
  fingerprint = if include_fingerprint then some c.fingerprint else none;
  created_at = c.created_at;
  updated_at = c.updated_at;
}

abbrev pub in_scope : PeerOrigin → ConnectionScope → StoredConnection → Bool
in_scope origin ConnectionScope.mine c = c.owner_uid == some (uid origin)
in_scope origin ConnectionScope.global c = c.global
in_scope origin all_scopes c = true

abbrev pub is_all : ConnectionScope → Bool
is_all all_scopes = true
is_all _ = false

abbrev pub summaries : Env → World → List StoredConnection → List ConnectionSummary
summaries e w = map (λ c. summarize e.platform c (seems_active w c.id) false)

unfoldable pub handle_list_connections :
    Env → PeerOrigin → ConnectionScope → Reply PrivilegedResponse
unfolding is_root uid load_all error_response summarize seems_active
handle_list_connections e origin scope =
    if is_all scope && not (is_root origin) then raise (error auth) else do
      all ← or_return error_response (load_all e)
      gets (λ w. connection_list (summaries e w (retain (in_scope origin scope) all)))

unfoldable pub handle_get_connection : Env → PeerOrigin → ConnectionId → Reply PrivilegedResponse
unfolding load_or_return authorize_access summarize seems_active
handle_get_connection e origin id = do
  stored ← load_or_return e id
  authorize_access stored origin
  gets (λ w. connection (summarize e.platform stored (seems_active w id) true))

-- the gate of the requests that name an interface
abbrev pub access_if_found : PeerOrigin → Option StoredConnection → Reply (Unit {0})
access_if_found origin none = pure tt
access_if_found origin (some c) = authorize_access c origin

unfoldable pub legacy_interface_access : Env → Str → PeerOrigin → Reply (Unit {0})
unfolding find_by_interface error_response authorize_access
legacy_interface_access e interface origin =
    or_return error_response (find_by_interface e interface) >>= access_if_found origin

abbrev pub categorize_error : AppError → PrivilegedResponse
categorize_error AppError.wireguard = error wireguard
categorize_error _ = error kernel

abbrev pub text_response : Result Str → PrivilegedResponse
text_response (ok t) = text t
text_response (err x) = categorize_error x

abbrev pub overview_response : Result (Option Str) → PrivilegedResponse
overview_response (ok (some t)) = text t
overview_response (ok none) = text []
overview_response (err x) = categorize_error x

-- what a worker thread was spawned to do
pub data Worker : Type 0 where
  connect_worker : ConnectionId → Bool → ConnectReason → Worker
  disconnect_worker : ConnectionId → DisconnectReason → Worker

-- `DispatchOutcome`
pub data Answer : Type 0 where
  immediate : PrivilegedResponse → Answer
  pending : Worker → Answer

-- the checks before a worker is spawned
unfoldable pub spawn : Env → PeerOrigin → ConnectionId → Worker → Reply Answer
unfolding load_or_return authorize_access
spawn e origin id worker = do
  stored ← load_or_return e id
  authorize_access stored origin
  pure (pending worker)

abbrev pub intent : Env → ConnectReason → Option StoredConnection → Action Bool
intent e reason none = pure true
intent e ConnectReason.user (some c) =
    if c.user_disconnected
    then (save e (record c { user_disconnected = false }) >>= λ _. pure true)
    else pure true
intent e reconciliation (some c) = pure (not c.user_disconnected)

unfoldable pub resolve_connect_intent : Env → ConnectionId → ConnectReason → Action Bool
unfolding load save
resolve_connect_intent e id reason = load e id >>= intent e reason

abbrev pub mark : Env → Option StoredConnection → Action (Unit {0})
mark e none = pure tt
mark e (some c) =
    if c.user_disconnected then pure tt else save e (record c { user_disconnected = true })

unfoldable pub mark_user_disconnected : Env → ConnectionId → DisconnectReason → Action (Unit {0})
unfolding load save
mark_user_disconnected e id session_teardown = pure tt
mark_user_disconnected e id DisconnectReason.user = load e id >>= mark e

unfoldable pub connect_work : Env → ConnectionId → Bool → ConnectReason → Action (Unit {0})
unfolding resolve_connect_intent connect
connect_work e id debug reason = do
  go_on ← resolve_connect_intent e id reason
  if go_on then connect e id debug else pure tt

unfoldable pub disconnect_work : Env → ConnectionId → DisconnectReason → Action (Unit {0})
unfolding mark_user_disconnected disconnect
disconnect_work e id reason = do mark_user_disconnected e id reason; disconnect e id

-- the body of a worker thread: the lock, then the work
unfoldable pub locked_work : Env → ConnectionId → Action (Unit {0}) → Reply PrivilegedResponse
unfolding take_connection_lock error_response
locked_work e id work = do take_connection_lock e id; or_return error_response work; pure unit

unfoldable pub work : Env → Worker → Reply PrivilegedResponse
unfolding locked_work connect_work disconnect_work
work e (connect_worker id debug reason) = locked_work e id (connect_work e id debug reason)
work e (disconnect_worker id reason) = locked_work e id (disconnect_work e id reason)

abbrev pub respond :
    Outcome PrivilegedResponse PrivilegedResponse × World → PrivilegedResponse × World
respond (done r, w) = (r, w)
respond (fail r, w) = (r, w)

unfoldable pub run_worker : Env → Worker → World → PrivilegedResponse × World
unfolding work
run_worker e worker w = respond (work e worker w)

abbrev pub now_reply : Reply PrivilegedResponse → Reply Answer
now_reply m = m >>= λ r. pure (immediate r)

-- the requests that read or change the connection store
unfoldable pub handle : Env → PeerOrigin → PrivilegedRequest → Reply Answer
unfolding handle_add_connection handle_remove_connection spawn handle_set_connection_mode
    handle_list_connections handle_get_connection legacy_interface_access
handle e origin (wg_show interface) = do
  legacy_interface_access e interface origin
  pure (immediate (text_response (e.wg_show interface)))
handle e origin (network_overview interface) = do
  legacy_interface_access e interface origin
  pure (immediate (overview_response (e.network_overview interface)))
handle e origin (interface_active interface) = do
  legacy_interface_access e interface origin
  gets (λ w. immediate (bool (exists (w.sockets (socket_path interface)))))
handle e origin (add_connection r) = now_reply (handle_add_connection e origin r)
handle e origin (remove_connection id form) = now_reply (handle_remove_connection e origin id form)
handle e origin (connect_connection id debug reason) =
    spawn e origin id (connect_worker id debug reason)
handle e origin (disconnect_connection id reason) = spawn e origin id (disconnect_worker id reason)
handle e origin (set_connection_mode id mode form) =
    now_reply (handle_set_connection_mode e origin id mode form)
handle e origin (list_connections scope) = now_reply (handle_list_connections e origin scope)
handle e origin (get_connection id) = now_reply (handle_get_connection e origin id)
handle e origin _ = pure (immediate unit)

abbrev pub answered : Outcome PrivilegedResponse Answer → Answer
answered (done a) = a
answered (fail r) = immediate r

-- the daemon: the store and the lease bookkeeping
pub record Daemon : Type 0 where
  pub control : ControlState
  pub world : World

unfoldable pub dispatch : Env → PeerOrigin → PrivilegedRequest → Daemon → Answer × Daemon
unfolding Control.lease_acquire Control.lease_release Control.shutdown_if_idle handle
dispatch e origin (lease_acquire token) d =
    (immediate unit, record d { control = Control.lease_acquire e token d.control })
dispatch e origin (lease_release token) d =
    (immediate unit, record d { control = Control.lease_release e token d.control })
dispatch e origin shutdown_if_idle d =
    let (r, c) = Control.shutdown_if_idle e d.control in (immediate r, record d { control = c })
dispatch e origin request d =
    let (r, w) = handle e origin request d.world in (answered r, record d { world = w })
