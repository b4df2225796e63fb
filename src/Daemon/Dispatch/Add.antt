-- ===== src/Daemon/Dispatch/Add.antt =====
-- `handle_add_connection` and `reconcile_existing_add` (src/privileged/dispatch.rs).
use tunmux.Api.{
  AddRequest, ConnectionId, ConnectionStartMode, PrivilegedResponse, auth, automatic, connection_id,
  error, manual, name_in_use,
}
use tunmux.Daemon.{Env, StoredConnection}
use tunmux.Daemon.Boot.{is_automatic}
use tunmux.Daemon.Dispatch.{
  PeerOrigin, Reply, attributed_owner_uid, error_response, is_root, require_admin_auth,
  save_or_return, take_connection_lock, take_index_lock,
}
use tunmux.Daemon.Dispatch.Mtu.{apply_mtu_override_to_conf_text}
use tunmux.Daemon.Ops.{lift}
use tunmux.Daemon.Store.{allocate_unique_interface, find_by_identity, find_by_name}
use tunmux.Exec.{or_return, pure, raise, ◌>>=◌, ◌>>◌}
use tunmux.Prelude.{
  Bool, List_eq, Option, Option_eq, false, if◌then◌else◌, none, not, some, true, ℕ, ℕ_eq, ◌&&◌,
  ◌==◌,
}
use tunmux.Text.{Str}
use tunmux.Wireguard.{ConnectionConfig}
use tunmux.Wireguard.Fingerprint.{fingerprint}
use tunmux.Wireguard.Parser.{parse_connection_config}

abbrev pub mode_eq : ConnectionStartMode → ConnectionStartMode → Bool
mode_eq manual manual = true
mode_eq automatic automatic = true
mode_eq _ _ = false

-- the transition that makes a global connection run at every boot
abbrev pub elevating : StoredConnection → ConnectionStartMode → Bool
elevating c mode = c.global && mode_eq c.start_mode manual && mode_eq mode automatic

-- a new mode; one that lands on automatic clears the explicit disconnect
abbrev pub with_mode : ConnectionStartMode → StoredConnection → StoredConnection
with_mode mode c = record c {
  start_mode = mode;
  user_disconnected = if is_automatic mode then false else c.user_disconnected;
}

abbrev pub name_changes : Option Str → StoredConnection → Bool
name_changes none c = false
name_changes (some n) c = not (some n == c.name)

abbrev pub updated : Env → Option Str → ConnectionStartMode → StoredConnection → StoredConnection
updated e name mode c =
    let named = if name_changes name c then record c { name = name } else c in
    let moded = if mode_eq mode c.start_mode then named else with_mode mode named in
    record moded { updated_at = e.now }

abbrev pub taken_by_other : ConnectionId → Option StoredConnection → Reply (Unit {0})
taken_by_other id none = pure tt
taken_by_other id (some c) = if c.id == id then pure tt else raise (error name_in_use)

abbrev pub other_has_name : Env → StoredConnection → Str → Reply (Unit {0})
other_has_name e c n =
    or_return error_response (find_by_name e n c.global c.owner_uid) >>= taken_by_other c.id

unfoldable pub check_new_name : Env → StoredConnection → Option Str → Bool → Reply (Unit {0})
unfolding find_by_name error_response
check_new_name e c none force = pure tt
check_new_name e c (some n) force =
    if name_changes (some n) c && not force then other_has_name e c n else pure tt

unfoldable pub reconcile_existing_add :
    Env → AddRequest → StoredConnection → Reply PrivilegedResponse
unfolding check_new_name require_admin_auth take_connection_lock save_or_return
reconcile_existing_add e r c =
    if not (name_changes r.name c) && mode_eq r.start_mode c.start_mode
    then pure (connection_id c.id)
    else do
      check_new_name e c r.name r.force
      if elevating c r.start_mode then require_admin_auth e r.auth_external_form else pure tt
      take_connection_lock e c.id
      save_or_return e (updated e r.name r.start_mode c)
      pure (connection_id c.id)

-- a name that is taken is refused unless the caller forces it
abbrev pub free_or_return : Option StoredConnection → Reply (Unit {0})
free_or_return none = pure tt
free_or_return (some _) = raise (error name_in_use)

unfoldable pub check_free_name : Env → Option Str → Bool → Bool → Option ℕ → Reply (Unit {0})
unfolding find_by_name error_response
check_free_name e none force global owner = pure tt
check_free_name e (some n) force global owner =
    if force
    then pure tt
    else or_return error_response (find_by_name e n global owner) >>= free_or_return

abbrev pub new_record :
    Env → AddRequest → Option ℕ → Str → ConnectionConfig → ConnectionId → Str → StoredConnection
new_record e r owner text parsed id interface = record {
  id = id;
  fingerprint = fingerprint e.platform parsed;
  global = r.global;
  owner_uid = owner;
  start_mode = r.start_mode;
  name = r.name;
  config = parsed;
  raw_conf = text;
  interface = interface;
  created_at = e.now;
  updated_at = e.now;
  user_disconnected = false;
}

unfoldable pub store_new :
    Env → AddRequest → Option ℕ → Str → ConnectionConfig → Reply PrivilegedResponse
unfolding check_free_name require_admin_auth allocate_unique_interface error_response save_or_return
store_new e r owner text parsed = do
  check_free_name e r.name r.force r.global owner
  require_admin_auth e r.auth_external_form
  allocated ← or_return error_response (allocate_unique_interface e)
  save_or_return e (new_record e r owner text parsed allocated.0 allocated.1)
  pure (connection_id allocated.0)

abbrev pub existing_or_new :
    Env
    → AddRequest
    → Option ℕ
    → Str
    → ConnectionConfig
    → Option StoredConnection
    → Reply PrivilegedResponse
existing_or_new e r owner text parsed none = store_new e r owner text parsed
existing_or_new e r owner text parsed (some c) = reconcile_existing_add e r c

abbrev pub overridden : Option ℕ → Str → Str
overridden none text = text
overridden (some mtu) text = apply_mtu_override_to_conf_text text mtu

abbrev pub owner_of : Env → PeerOrigin → Bool → Option ℕ
owner_of e origin global = if global then none else some (attributed_owner_uid e origin)

unfoldable pub add_parsed :
    Env → AddRequest → Option ℕ → Str → ConnectionConfig → Reply PrivilegedResponse
unfolding take_index_lock find_by_identity error_response store_new reconcile_existing_add
add_parsed e r owner text parsed = do
  take_index_lock e
  existing ←
      or_return error_response (find_by_identity e (fingerprint e.platform parsed) r.global owner)
  existing_or_new e r owner text parsed existing

unfoldable pub handle_add_connection : Env → PeerOrigin → AddRequest → Reply PrivilegedResponse
unfolding is_root attributed_owner_uid apply_mtu_override_to_conf_text error_response add_parsed
handle_add_connection e origin r =
    if r.global && not (is_root origin) then raise (error auth) else do
      let text = overridden r.mtu_override r.conf_text
      parsed ← or_return error_response (lift (parse_connection_config e.platform e.resolve text))
      add_parsed e r (owner_of e origin r.global) text parsed
