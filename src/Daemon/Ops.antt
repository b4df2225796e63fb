-- ===== src/Daemon/Ops.antt =====
-- src/privileged/connection_ops.rs: bringing one stored connection up and down. The caller holds the
-- connection's lock. Starting and stopping the gotatun helper (src/privileged/commands.rs) is the
-- environment's; every command run as root is recorded in the trace.
pub mod Records
pub mod Integrity
use tunmux.Api.{ConnectionId}
use tunmux.Daemon.{
  ActiveConnectionState, Env, Event, Metadata, Phase, Sockets, StoredConnection, World, bring_up,
  hook_run, roll_back, tear_down, tunnel_down, tunnel_up,
}
use tunmux.Daemon.Dispatch.{socket}
use tunmux.Daemon.Store.{Action, clear_active, io_check, load, load_active, of_result, save_active}
use tunmux.Error.{AppError, Result, err, io, not_found, ok, other, wireguard}
use tunmux.Exec.{Outcome, attempt, done, fail, gets, pure, raise, step, ◌>>=◌, ◌>>◌}
use tunmux.Prelude.{
  Bool, List, List_eq, Option, [], if◌then◌else◌, length, none, not, some, ℕ_eq, ◌&&◌, ◌++◌, ◌==◌,
  ◌∷◌,
}
use tunmux.Text.{Str, codes}
use tunmux.Wireguard.{ConnectionConfig}
use tunmux.Wireguard.Fingerprint.{fingerprint}
use tunmux.Wireguard.Parser.{parse_connection_config}

unfoldable pub socket_path : Str → Str
socket_path interface = codes "/var/run/wireguard/" ++ (interface ++ codes ".sock")

unfoldable pub lock_network : Env → Phase → Action (Unit {0})
lock_network e phase = step (λ w. (io_check (e.network_lock phase) tt, w))

unfoldable pub reparse_and_verify : Env → StoredConnection → Result ConnectionConfig
reparse_and_verify e stored = elim (parse_connection_config e.platform e.resolve stored.raw_conf) [
  | err x ↦ err x
  | ok reparsed ↦
      if fingerprint e.platform reparsed == stored.fingerprint then ok reparsed else err wireguard
]

abbrev pub lift : {A : Type 0} → Result A → Action A
lift r = step (λ w. (of_result r, w))

abbrev pub some_or : {A : Type 0} → AppError → Option A → Action A
some_or x none = raise x
some_or x (some a) = pure a

-- `cmd.replace("%i", interface)`
unfoldable pub substitute_interface : Str → Str → Str
substitute_interface interface [] = []
substitute_interface interface (c ∷ []) = c ∷ []
substitute_interface interface (c ∷ d ∷ s) =
    let after = substitute_interface interface s in
    let next = substitute_interface interface (d ∷ s) in
    if c == b'%' && d == b'i' then interface ++ after else c ∷ next

abbrev pub record_event : Event → World → World
record_event x w = record w { trace = w.trace ++ x ∷ [] }

-- a command that may change the sockets
abbrev pub effect : Event → (Sockets → Result (Unit {0}) × Sockets) → Action (Unit {0})
effect x f = step (λ w.
    let (r, s) = f w.sockets in (of_result r, record w { sockets = s; trace = w.trace ++ x ∷ [] }))

unfoldable pub run_hook : Env → Str → Str → Action (Unit {0})
unfolding substitute_interface
run_hook e interface cmd =
    let line = substitute_interface interface cmd in effect (hook_run line) (e.run_shell line)

unfoldable pub run_hooks : Env → Str → List Str → Action (Unit {0})
unfolding run_hook
run_hooks e interface [] = pure tt
run_hooks e interface (cmd ∷ rest) = run_hook e interface cmd >>= λ _. run_hooks e interface rest

unfoldable pub run_hooks_best_effort : Env → Str → List Str → Action (Unit {0})
unfolding run_hook
run_hooks_best_effort e interface [] = pure tt
run_hooks_best_effort e interface (cmd ∷ rest) =
    attempt (run_hook e interface cmd) >>= λ _. run_hooks_best_effort e interface rest

unfoldable pub gotatun_up : Env → StoredConnection → Bool → Action (Unit {0})
unfolding lock_network
gotatun_up e c debug = do
  lock_network e bring_up
  effect (tunnel_up c.interface c.raw_conf) (e.gotatun_up c.interface c.raw_conf debug)

unfoldable pub gotatun_down : Env → Phase → Str → Action (Unit {0})
unfolding lock_network
gotatun_down e phase interface = do
  lock_network e phase
  effect (tunnel_down interface) (e.gotatun_down interface)

-- the answer to a socket that an earlier connect recorded
pub data Adoption : Type 0 where
  already_up fresh : Adoption
  refused : AppError → Adoption

abbrev pub same_socket : Metadata → ActiveConnectionState → Bool
same_socket m a =
    m.dev == a.device
    && m.ino == a.inode
    && m.ctime == a.changed_sec
    && m.ctime_nsec == a.changed_nsec

unfoldable pub adopt : Str → ActiveConnectionState → Result Metadata → Adoption
adopt fp a (ok m) =
    if same_socket m a
    then if a.fingerprint == fp then already_up else refused wireguard
    else refused wireguard
adopt fp a (err (io not_found)) = fresh
adopt fp a (err x) = refused x

unfoldable pub adoption : StoredConnection → Option ActiveConnectionState → World → Adoption
unfolding adopt
adoption c none w = fresh
adoption c (some a) w = adopt c.fingerprint a (w.sockets a.socket)

-- `if socket.try_exists()? { return Err(conflict()) }`
abbrev pub expect_absent : Result Metadata → Action (Unit {0})
expect_absent (ok _) = raise wireguard
expect_absent (err (io not_found)) = pure tt
expect_absent (err x) = raise x

-- a failed PostUp takes the tunnel down again
abbrev pub after_post_up : Env → Str → Outcome AppError (Unit {0}) → Action (Unit {0})
after_post_up e interface (done _) = pure tt
after_post_up e interface (fail error) =
    attempt (gotatun_down e roll_back interface)
    >>= elim [ done _ ↦ raise error | fail _ ↦ raise wireguard ]

abbrev pub active_state : Env → StoredConnection → Metadata → ActiveConnectionState
active_state e c m = record {
  fingerprint = c.fingerprint;
  interface = c.interface;
  socket = socket_path c.interface;
  device = m.dev;
  inode = m.ino;
  changed_sec = m.ctime;
  changed_nsec = m.ctime_nsec;
  connected_at = e.now;
}

unfoldable pub bring_tunnel_up :
    Env → ConnectionId → StoredConnection → ConnectionConfig → Bool → Action (Unit {0})
unfolding run_hooks gotatun_up gotatun_down socket_path save_active
bring_tunnel_up e id c reparsed debug = do
  found ← gets (λ w. w.sockets (socket_path c.interface))
  expect_absent found
  run_hooks e c.interface reparsed.pre_up
  gotatun_up e c debug
  post ← attempt (run_hooks e c.interface reparsed.post_up)
  after_post_up e c.interface post
  stat ← gets (λ w. w.sockets (socket_path c.interface))
  m ← lift stat
  save_active e id (active_state e c m)

abbrev pub by_adoption :
    Env → ConnectionId → StoredConnection → ConnectionConfig → Bool → Adoption → Action (Unit {0})
by_adoption e id stored reparsed debug already_up = pure tt
by_adoption e id stored reparsed debug (refused x) = raise x
by_adoption e id stored reparsed debug fresh = bring_tunnel_up e id stored reparsed debug

unfoldable pub connect : Env → ConnectionId → Bool → Action (Unit {0})
unfolding load reparse_and_verify load_active adoption bring_tunnel_up
connect e id debug = do
  found ← load e id
  stored ← some_or other found
  reparsed ← lift (reparse_and_verify e stored)
  if not (length reparsed.peers == 1) then raise wireguard else do
    active ← load_active id
    answer ← gets (adoption stored active)
    by_adoption e id stored reparsed debug answer

unfoldable pub tear_tunnel_down :
    Env → StoredConnection → Result ConnectionConfig → Action (Unit {0})
unfolding run_hooks_best_effort gotatun_down
tear_tunnel_down e c (ok reparsed) = do
  run_hooks_best_effort e c.interface reparsed.pre_down
  gotatun_down e tear_down c.interface
  run_hooks_best_effort e c.interface reparsed.post_down
tear_tunnel_down e c (err _) = gotatun_down e tear_down c.interface

unfoldable pub disconnect : Env → ConnectionId → Action (Unit {0})
unfolding load tear_tunnel_down clear_active
disconnect e id = do
  found ← load e id
  stored ← some_or other found
  tear_tunnel_down e stored (parse_connection_config e.platform e.resolve stored.raw_conf)
  clear_active e id
