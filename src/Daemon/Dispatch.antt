-- ===== src/Daemon/Dispatch.antt =====
-- src/privileged/dispatch.rs: what the daemon does with a request. A handler ends with a response, or
-- returns one early. Connecting and disconnecting are left to a worker, which runs later and holds
-- the connection's lock: `dispatch` checks the caller, `run_worker` does the work.
--
-- Logging is left out. The destruction of a granted right by `AuthorizationFree` is the
-- environment's: `grants` answers for one call.
pub mod Mtu
pub mod Add
pub mod Handlers
pub mod Reading
pub mod Requests
pub mod AdminGate
pub mod Ownership
pub mod Intent
pub mod Listed
use tunmux.Api.{
  ConnectionId, PrivilegedResponse, auth, auth_required, busy, error, not_found, other, wireguard,
}
use tunmux.Daemon.{Env, StoredConnection, World}
use tunmux.Daemon.Store.{load, lock_connection, lock_index, save}
use tunmux.Error.{AppError, io, would_block}
use tunmux.Exec.{Exec, or_return, pure, raise, ◌>>=◌}
use tunmux.Prelude.{
  Bool, List, Option, Option_eq, if◌then◌else◌, length, none, some, ℕ, ℕ_eq, ◌&&◌, ◌==◌, ◌||◌,
}

-- `PeerOrigin`
pub data PeerOrigin : Type 0 where
  socket : ℕ → PeerOrigin
  stdio : PeerOrigin

unfoldable pub uid : PeerOrigin → ℕ
uid (socket u) = u
uid stdio = 0

unfoldable pub is_root : PeerOrigin → Bool
unfolding uid
is_root origin = uid origin == 0

abbrev pub or_zero : Option ℕ → ℕ
or_zero (some u) = u
or_zero none = 0

unfoldable pub attributed_owner_uid : Env → PeerOrigin → ℕ
attributed_owner_uid e (socket u) = u
attributed_owner_uid e stdio = or_zero e.sudo_uid

abbrev pub Reply : Type 0 → Type 0
Reply A = Exec World PrivilegedResponse A

unfoldable pub error_response : AppError → PrivilegedResponse
error_response AppError.auth = error auth
error_response AppError.wireguard = error wireguard
error_response _ = error other

unfoldable pub lock_error_response : AppError → PrivilegedResponse
unfolding error_response
lock_error_response (io would_block) = error busy
lock_error_response x = error_response x

-- `Ok(Some(stored)) => stored, Ok(None) => return not_found(), Err(e) => return error_response(e)`
abbrev pub found_or_return : Option StoredConnection → Reply StoredConnection
found_or_return none = raise (error not_found)
found_or_return (some c) = pure c

unfoldable pub load_or_return : Env → ConnectionId → Reply StoredConnection
unfolding load error_response
load_or_return e id = or_return error_response (load e id) >>= found_or_return

abbrev pub may_access : StoredConnection → PeerOrigin → Bool
may_access c origin =
    if c.global then is_root origin else is_root origin || some (uid origin) == c.owner_uid

-- `if let Some(response) = authorize_access(..) { return response; }`
unfoldable pub authorize_access : StoredConnection → PeerOrigin → Reply (Unit {0})
unfolding is_root uid
authorize_access c origin = if may_access c origin then pure tt else raise (error auth)

abbrev pub external_form_length : ℕ
external_form_length = 32

-- authz.rs: a form of another length never reaches the framework
unfoldable pub verify_external_form : Env → List ℕ → Bool
verify_external_form e form = length form == external_form_length && e.grants form

unfoldable pub require_admin_auth : Env → Option (List ℕ) → Reply (Unit {0})
unfolding verify_external_form
require_admin_auth e none = raise (error auth_required)
require_admin_auth e (some form) =
    if verify_external_form e form then pure tt else raise (error auth)

unfoldable pub take_index_lock : Env → Reply (Unit {0})
unfolding lock_index lock_error_response
take_index_lock e = or_return lock_error_response (lock_index e)

unfoldable pub take_connection_lock : Env → ConnectionId → Reply (Unit {0})
unfolding lock_connection lock_error_response
take_connection_lock e id = or_return lock_error_response (lock_connection e id)

unfoldable pub save_or_return : Env → StoredConnection → Reply (Unit {0})
unfolding save error_response
save_or_return e c = or_return error_response (save e c)
