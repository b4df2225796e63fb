-- ===== src/Daemon.antt =====
-- The privileged daemon (src/privileged/*.rs): the state that it keeps and the environment of a call.
--
-- `World` is what outlives a call: the files of the connection store, the UAPI sockets, and a trace
-- of the commands run as root. `Env` is what one call meets: the clock, the outcome of each lock and
-- of each file operation, fresh UUIDs, Security.framework's answer about an authorization form, the
-- outcome of hooks and of the gotatun helper.
pub mod Disk
pub mod Store
pub mod Boot
pub mod Ops
pub mod Control
pub mod Dispatch
pub mod Frames
pub mod Socket
use tunmux.Api.{ConnectionId, ConnectionStartMode, Uuids}
use tunmux.Error.{ErrorKind, Result}
use tunmux.Prelude.{Bool, List, Option, ℕ}
use tunmux.Text.{Str}
use tunmux.Wireguard.{ConnectionConfig, Platform, Resolver}

-- `StoredConnection`
pub record StoredConnection : Type 0 where
  pub id : ConnectionId
  pub fingerprint : Str
  pub global : Bool
  pub owner_uid : Option ℕ
  pub start_mode : ConnectionStartMode
  pub name : Option Str
  pub config : ConnectionConfig
  pub raw_conf : Str
  pub interface : Str
  pub created_at : ℕ
  pub updated_at : ℕ
  pub user_disconnected : Bool

pub record ConnectionPeerDisk : Type 0 where
  pub public_key_b64 : Str
  pub preshared_key_b64 : Option Str
  pub allowed_ips : List Str
  pub endpoint : Option Str
  pub endpoint_literal : Option Str
  pub persistent_keepalive : Option ℕ

pub record ConnectionConfigDisk : Type 0 where
  pub private_key_b64 : Str
  pub addresses : List Str
  pub dns_servers : List Str
  pub mtu : Option ℕ
  pub pre_up : List Str
  pub post_up : List Str
  pub pre_down : List Str
  pub post_down : List Str
  pub peers : List ConnectionPeerDisk

pub record StoredConnectionDisk : Type 0 where
  pub id : ConnectionId
  pub fingerprint : Str
  pub global : Bool
  pub owner_uid : Option ℕ
  pub start_mode : ConnectionStartMode
  pub name : Option Str
  pub config : ConnectionConfigDisk
  pub raw_conf : Str
  pub interface : Str
  pub created_at : ℕ
  pub updated_at : ℕ
  pub user_disconnected : Bool

-- The device, inode and change time of a socket: the program only compares them.
pub record Metadata : Type 0 where
  pub dev : ℕ
  pub ino : ℕ
  pub ctime : ℕ
  pub ctime_nsec : ℕ

pub record ActiveConnectionState : Type 0 where
  pub fingerprint : Str
  pub interface : Str
  pub socket : Str
  pub device : ℕ
  pub inode : ℕ
  pub changed_sec : ℕ
  pub changed_nsec : ℕ
  pub connected_at : ℕ

-- What a file of the store holds, as serde_json reads it.
pub data Content {ℓ} (A : Type ℓ) : Type ℓ where
  readable : A → Content A
  unreadable : Content A

-- A file of `connections/`: `<id>.json`, a .json file with another stem, or any other file.
pub data FileName : Type 0 where
  record_file : ConnectionId → FileName
  odd_json other_file : FileName

pub record File : Type 0 where
  pub name : FileName
  pub content : Content StoredConnectionDisk

-- `fs::metadata` of a path
abbrev pub Sockets : Type 0
Sockets = Str → Result Metadata

pub data Event : Type 0 where
  hook_run : Str → Event
  tunnel_up : Str → Str → Event
  tunnel_down : Str → Event

pub record World : Type 0 where
  pub records : List File
  pub active : List (ConnectionId × Content ActiveConnectionState)
  pub marker : Option Str
  pub sockets : Sockets
  pub trace : List Event

-- where the system-wide network lock is taken
pub data Phase : Type 0 where
  bring_up roll_back tear_down : Phase

pub record Env : Type 0 where
  pub platform : Platform
  pub uuids : Uuids
  pub resolve : Resolver
  pub now : ℕ
  -- `SUDO_UID`, if it is set to a number
  pub sudo_uid : Option ℕ
  -- `none`: the lock is acquired, or the file operation succeeds
  pub index_lock : Option ErrorKind
  pub connection_lock : ConnectionId → Option ErrorKind
  pub network_lock : Phase → Option ErrorKind
  pub read_dir : Option ErrorKind
  pub write_record : ConnectionId → Option ErrorKind
  pub delete_record : ConnectionId → Option ErrorKind
  pub write_active : ConnectionId → Option ErrorKind
  pub delete_active : ConnectionId → Option ErrorKind
  pub write_marker : Option ErrorKind
  -- the n-th `ConnectionId::new()` of the call
  pub new_id : ℕ → ConnectionId
  -- whether Security.framework grants the right to a form of 32 bytes, without a prompt
  pub grants : List ℕ → Bool
  pub boot_id : Option Str
  pub wg_show : Str → Result Str
  pub network_overview : Str → Result (Option Str)
  -- `sh -c <line>`: how it ends, and the sockets after it
  pub run_shell : Str → Sockets → Result (Unit {0}) × Sockets
  -- signal 0 reaches the process
  pub pid_is_alive : ℕ → Bool
  -- interface, configuration, debug
  pub gotatun_up : Str → Str → Bool → Sockets → Result (Unit {0}) × Sockets
  pub gotatun_down : Str → Sockets → Result (Unit {0}) × Sockets
