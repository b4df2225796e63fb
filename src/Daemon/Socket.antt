-- ===== src/Daemon/Socket.antt =====
-- src/privileged/socket.rs: the clients of the daemon's socket. What the clock, the sockets and the
-- workers' channels answer in one step is an argument, `Events`. Times are in milliseconds.
pub mod Serve
pub mod Bounds
pub mod Callers
pub mod Server
pub mod Deadline
use mathlib.Core.Option
use tunmux.Api.{PrivilegedResponse, Uuids}
use tunmux.Daemon.{Env}
use tunmux.Daemon.Dispatch.Handlers.{Daemon, Worker}
use tunmux.Daemon.Frames.{
  RequestOutcome, Wire, at_once, encode_response_frames, later, newline, process_request_payload,
}
use tunmux.Prelude.{
  Bool, List, Option, [], false, if◌then◌else◌, is_empty, leb, length, ltb, none, some, suc, true,
  zero, ℕ, ℕ_eq, ◌*◌, ◌++◌, ◌+◌, ◌==◌, ◌∷◌,
}
use tunmux.Text.{Str, onto_first}

abbrev pub max_request_bytes : ℕ
max_request_bytes = 1024 * 1024

abbrev pub max_response_bytes : ℕ
max_response_bytes = 2 * 1024 * 1024

abbrev pub max_clients : ℕ
max_clients = 32

abbrev pub io_timeout : ℕ
io_timeout = 10000

abbrev pub pending_worker_timeout : ℕ
pending_worker_timeout = 60000

-- `read`: the end of the stream, some bytes, nothing yet, or an error
pub data Received : Type 0 where
  end_of_stream nothing_yet read_error : Received
  bytes : List ℕ → Received

pub data Written : Type 0 where
  wrote : ℕ → Written
  not_ready write_error : Written

-- `try_recv` on a worker's channel
pub data Polled : Type 0 where
  answered : PrivilegedResponse → Polled
  running disconnected : Polled

pub record Events : Type 0 where
  pub now : ℕ
  pub now_answered : ℕ
  pub now_written : ℕ
  pub received : Received
  pub polled : Polled
  pub write : List ℕ → Written

pub record Client : Type 0 where
  pub peer_uid : ℕ
  pub input : List ℕ
  pub output : List ℕ
  pub written : ℕ
  pub deadline : ℕ
  pub pending : Option Worker

unfoldable pub new_client : ℕ → ℕ → ℕ → Client
new_client peer_uid now timeout = record {
  peer_uid = peer_uid;
  input = [];
  output = [];
  written = 0;
  deadline = now + timeout;
  pending = none;
}

-- `Ok(true)`, `Ok(false)` and an error
pub data Stepped : Type 0 where
  alive : Client → Stepped
  closed dropped : Stepped

-- what the clients share
pub record Shared : Type 0 where
  pub daemon : Daemon
  pub last_activity : ℕ

abbrev pub settle : Events → ℕ → Client → Stepped
settle ev timeout c =
    if c.written == length c.output
    then alive (record c { output = []; written = 0; deadline = ev.now_written + timeout })
    else alive c

abbrev pub written_to : Events → ℕ → Client → Written → Stepped
written_to ev timeout c (wrote n) =
    if n == 0 then closed else settle ev timeout (record c { written = c.written + n })
written_to ev timeout c not_ready = settle ev timeout c
written_to ev timeout c write_error = dropped

-- `&output[written..]`
abbrev pub remaining : ℕ → List ℕ → List ℕ
remaining zero bs = bs
remaining (suc n) [] = []
remaining (suc n) (b ∷ bs) = remaining n bs

unfoldable pub flush : Events → ℕ → Client → Stepped
flush ev timeout c =
    if is_empty c.output
    then alive c
    else written_to ev timeout c (ev.write (remaining c.written c.output))

-- the response is queued, unless it is too large
abbrev pub queue : Events → ℕ → Client → Option (List ℕ) → Stepped
queue ev timeout c none = dropped
queue ev timeout c (some output) =
    if leb (length output) max_response_bytes
    then flush ev timeout
        (record c { output = output; pending = none; deadline = ev.now_answered + timeout })
    else dropped

abbrev pub poll_worker : Wire → Events → ℕ → Client → Polled → Stepped
poll_worker wire ev timeout c (answered response) =
    queue ev timeout c (encode_response_frames wire [] response)
poll_worker wire ev timeout c running = flush ev timeout c
poll_worker wire ev timeout c disconnected = dropped

-- a client that waits for its worker
abbrev pub probe : Wire → Events → ℕ → Client → Received → Stepped
probe wire ev timeout c end_of_stream = closed
probe wire ev timeout c read_error = dropped
probe wire ev timeout c _ = poll_worker wire ev timeout c ev.polled

-- what stands before and after the first newline
abbrev pub end_line : ℕ → List ℕ → Option (List ℕ × List ℕ) → Bool → Option (List ℕ × List ℕ)
end_line b bs found true = some ([], bs)
end_line b bs found false = Option.map (onto_first b) found

unfoldable pub first_line : List ℕ → Option (List ℕ × List ℕ)
first_line [] = none
first_line (b ∷ bs) = end_line b bs (first_line bs) (b == newline)

abbrev pub respond_to : Wire → Events → ℕ → Client → RequestOutcome → Stepped
respond_to wire ev timeout c (at_once logs response) =
    queue ev timeout c (encode_response_frames wire logs response)
respond_to wire ev timeout c (later worker) =
    flush ev timeout
      (record c { pending = some worker; deadline = ev.now_answered + pending_worker_timeout })

abbrev pub after_request : Wire → Events → ℕ → Client → RequestOutcome × Daemon → Stepped × Shared
after_request wire ev timeout c (outcome, d) =
    (respond_to wire ev timeout c outcome, record { daemon = d; last_activity = ev.now_answered })

-- one request: its text, and the input that follows
abbrev pub serve_line :
    Env → Uuids → Wire → Events → ℕ → Client → Shared → Option Str → Stepped × Shared
serve_line e u wire ev timeout c s none = (dropped, s)
serve_line e u wire ev timeout c s (some request) =
    after_request wire ev timeout c
      (process_request_payload e u wire (some c.peer_uid) request s.daemon)

abbrev pub take_line :
    Env → Uuids → Wire → Events → ℕ → Client → Shared → Option (List ℕ × List ℕ) → Stepped × Shared
take_line e u wire ev timeout c s none = (flush ev timeout c, s)
take_line e u wire ev timeout c s (some (line, rest)) =
    serve_line e u wire ev timeout (record c { input = rest }) s (wire.from_utf8 line)

abbrev pub with_input :
    Env → Uuids → Wire → Events → ℕ → Client → Shared → List ℕ → Stepped × Shared
with_input e u wire ev timeout c s input =
    if leb (length input) max_request_bytes
    then take_line e u wire ev timeout (record c { input = input }) s (first_line input)
    else (dropped, s)

abbrev pub read_more :
    Env → Uuids → Wire → Events → ℕ → Client → Shared → Received → Stepped × Shared
read_more e u wire ev timeout c s end_of_stream = (closed, s)
read_more e u wire ev timeout c s read_error = (dropped, s)
read_more e u wire ev timeout c s nothing_yet = with_input e u wire ev timeout c s c.input
read_more e u wire ev timeout c s (bytes chunk) =
    with_input e u wire ev timeout c s (c.input ++ chunk)

abbrev pub by_state :
    Env → Uuids → Wire → Events → ℕ → Client → Shared → Option Worker → Stepped × Shared
by_state e u wire ev timeout c s (some worker) = (probe wire ev timeout c ev.received, s)
by_state e u wire ev timeout c s none =
    if is_empty c.output
    then read_more e u wire ev timeout c s ev.received
    else (flush ev timeout c, s)

unfoldable pub step_client : Env → Uuids → Wire → Events → ℕ → Client → Shared → Stepped × Shared
unfolding flush encode_response_frames first_line process_request_payload
step_client e u wire ev timeout c s =
    if ltb ev.now c.deadline then by_state e u wire ev timeout c s c.pending else (dropped, s)
