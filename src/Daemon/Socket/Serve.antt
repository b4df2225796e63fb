-- ===== src/Daemon/Socket/Serve.antt =====
-- src/privileged/socket.rs: one pass of the accept loop, and how long it may sleep after it.
use mathlib.Core.Option
use tunmux.Api.{Uuids}
use tunmux.Daemon.{Env}
use tunmux.Daemon.Control.{ControlState, should_exit_now}
use tunmux.Daemon.Frames.{Wire}
use tunmux.Daemon.Socket.{
  Client, Events, Shared, Stepped, alive, closed, dropped, io_timeout, max_clients, new_client,
  step_client,
}
use tunmux.Helper.Dns.Plan.Reference.{after}
use tunmux.Prelude.{
  Bool, List, Option, [], any, false, if◌then◌else◌, is_empty, leb, length, ltb, none, not, some,
  suc, true, zero, ℕ, ℕ_eq, ◌&&◌, ◌++◌, ◌+◌, ◌-◌, ◌==◌, ◌^◌, ◌||◌, ◌∷◌,
}

-- what `accept` and the new socket's credentials answer
pub data Accepted : Type 0 where
  connected : ℕ → ℕ → Accepted
  none_waiting accept_error credentials_error : Accepted

pub record Server : Type 0 where
  pub clients : List Client
  pub shared : Shared

-- what a pass meets: the connections, each client's events by its place, the background work, the time
pub record Pass : Type 0 where
  pub accepts : List Accepted
  pub events : ℕ → Events
  pub background_work : ℕ
  pub now : ℕ

-- at most as many as `rounds`; none when the server ends with an error
unfoldable pub accept_clients : ℕ → List Accepted → List Client → Option (List Client)
unfolding new_client
accept_clients zero accepts clients = some clients
accept_clients (suc rounds) [] clients = some clients
accept_clients (suc rounds) (none_waiting ∷ rest) clients = some clients
accept_clients (suc rounds) (accept_error ∷ rest) clients = none
accept_clients (suc rounds) (credentials_error ∷ rest) clients =
    if ltb (length clients) max_clients then none else accept_clients rounds rest clients
accept_clients (suc rounds) (connected peer_uid now ∷ rest) clients =
    let more = accept_clients rounds rest (clients ++ new_client peer_uid now io_timeout ∷ []) in
    let same = accept_clients rounds rest clients in
    if ltb (length clients) max_clients then more else same

abbrev pub left_over : Stepped → List Client
left_over (alive c) = c ∷ []
left_over closed = []
left_over dropped = []

-- `retain_mut`: every client takes its step, in order
unfoldable pub step_clients :
    Env → Uuids → Wire → (ℕ → Events) → ℕ → List Client → Shared → List Client × Shared
unfolding step_client
step_clients e u wire events place [] s = ([], s)
step_clients e u wire events place (c ∷ rest) s =
    let (stepped, t) = step_client e u wire (events place) io_timeout c s in
    let (others, end) = step_clients e u wire events (suc place) rest t in
    (left_over stepped ++ others, end)

pub data Passed : Type 0 where
  goes_on : Server → Passed
  exits : Server → Passed
  fails : Passed

abbrev pub is_idle : Option ℕ → ℕ → ℕ → Bool
is_idle none now last_activity = false
is_idle (some timeout) now last_activity = leb timeout (now - last_activity)

abbrev pub idle_or_on : Option ℕ → Pass → Server → Passed
idle_or_on idle_timeout pass server =
    if is_idle idle_timeout pass.now server.shared.last_activity
    then exits server
    else goes_on server

-- whether a client has released the last lease after a request to shut down
abbrev pub after_asking : Option ℕ → Pass → Server → Bool × ControlState → Passed
after_asking idle_timeout pass server (exit_now, control) =
    let asked = record server {
      shared = record {
        daemon = record { control = control; world = server.shared.daemon.world };
        last_activity = server.shared.last_activity;
      };
    } in
    if exit_now then exits asked else idle_or_on idle_timeout pass asked

abbrev pub conclude : Env → Option ℕ → Pass → Server → Passed
conclude e idle_timeout pass server =
    if is_empty server.clients && pass.background_work == 0
    then after_asking idle_timeout pass server (should_exit_now e server.shared.daemon.control)
    else goes_on server

abbrev pub serve_accepted :
    Env → Uuids → Wire → Option ℕ → Pass → Shared → Option (List Client) → Passed
serve_accepted e u wire idle_timeout pass shared none = fails
serve_accepted e u wire idle_timeout pass shared (some clients) =
    let (left, after) = step_clients e u wire pass.events 0 clients shared in
    conclude e idle_timeout pass (record { clients = left; shared = after })

unfoldable pub serve_pass : Env → Uuids → Wire → Option ℕ → Pass → Server → Passed
unfolding accept_clients step_clients should_exit_now
serve_pass e u wire idle_timeout pass server =
    serve_accepted e u wire idle_timeout pass server.shared
      (accept_clients max_clients pass.accepts server.clients)

abbrev pub is_some_worker : {A : Type 0} → Option A → Bool
is_some_worker none = false
is_some_worker (some a) = true

abbrev pub pending_poll_interval : ℕ
pending_poll_interval = 20

-- the earliest deadline, and when the daemon may be idle if nobody is there
abbrev pub earliest : List Client → Option ℕ
earliest [] = none
earliest (c ∷ []) = some c.deadline
earliest (c ∷ rest) = Option.map (λ d. if ltb d c.deadline then d else c.deadline) (earliest rest)

abbrev pub wake_at : Option ℕ → Server → Option ℕ
wake_at idle_timeout server =
    if is_empty server.clients
    then Option.map (λ timeout. server.shared.last_activity + timeout) idle_timeout
    else earliest server.clients

abbrev pub cap_pending : Bool → Option ℕ → Option ℕ
cap_pending false timeout = timeout
cap_pending true none = some pending_poll_interval
cap_pending true (some timeout) =
    some (if ltb pending_poll_interval timeout then pending_poll_interval else timeout)

abbrev max_i32 : ℕ
max_i32 = 2 ^ 31 - 1

-- how long `poll` may block; none is for ever
unfoldable pub poll_timeout : Option ℕ → ℕ → ℕ → Server → Option ℕ
poll_timeout idle_timeout background_work now server =
    let left =
      Option.map (λ at. if ltb max_i32 (at - now) then max_i32 else at - now)
        (wake_at idle_timeout server) in
    cap_pending (not (background_work == 0) || any (λ c. is_some_worker c.pending) server.clients)
      left
