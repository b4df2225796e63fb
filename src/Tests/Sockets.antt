-- ===== src/Tests/Sockets.antt =====
-- The theorems on the socket's clients, at one client of the small installation.
use tunmux.Api.{remove_connection}
use tunmux.Daemon.Dispatch.Handlers.{handle_remove_connection}
use tunmux.Daemon.Frames.{Wire, newline}
use tunmux.Daemon.Socket.{
  Client, Events, Shared, alive, bytes, io_timeout, not_ready, running, step_client,
}
use tunmux.Daemon.Socket.Bounds.{IsBounded, StaysBounded, WritesAtMost, step_client-IsBounded}
use tunmux.Daemon.Socket.Callers.{read_file-step_client}
use tunmux.Daemon.Socket.Deadline.{IsReading, client_steps, client_steps-deadline, is_alive}
use tunmux.Daemon.Socket.Serve.{Pass, connected, none_waiting, serve_pass}
use tunmux.Daemon.Socket.Server.{StaysServing, serve_pass-StaysServing}
use tunmux.Daemon.Store.{read_file}
use tunmux.Exec.{or_return, ◌>>=◌}
use tunmux.Prelude.{
  List, List_eq, [], arith, false, if◌then◌else◌, none, refl, some, true, ℕ, ℕ_eq, ◌++◌, ◌==◌, ◌∷◌,
  ◌≡◌,
}
use tunmux.Tests.{daemon, env, parsed, stored, uuids, world}
use tunmux.Tests.Witnesses.{foreign_loads, is_foreign, world-IsListing}
use tunmux.Text.{Str, codes}
use tunmux.Wireguard.Parser.{parse_connection_config}

abbrev request_text : Str
request_text = codes "remove 8"

-- one text is a request; every response is four bytes
abbrev wire : Wire
wire = record {
  read_request = λ s. if s == request_text then some (remove_connection 8 none) else none;
  write_response = λ r. some (codes "done");
  write_log = some;
  from_utf8 = some;
}

abbrev events : ℕ → List ℕ → Events
events now chunk = record {
  now = now;
  now_answered = now;
  now_written = now;
  received = bytes chunk;
  polled = running;
  write = λ given. not_ready;
}

events-WritesAtMost : (now : ℕ) (chunk : List ℕ) → WritesAtMost (events now chunk)
events-WritesAtMost now chunk given = refl

-- the user 501, whose request is not complete, until 50
abbrev reader : Client
reader = record {
  peer_uid = 501;
  input = codes "rem";
  output = [];
  written = 0;
  deadline = 50;
  pending = none;
}

reader-IsBounded : IsBounded reader
reader-IsBounded = record {
  input = omega arith;
  output = omega arith;
  written = omega arith;
  waiting = refl;
}

reader-IsReading : IsReading 50 reader
reader-IsReading = record {
  waits_for_none = refl;
  nothing_queued = refl;
  incomplete = refl;
  unmoved = refl;
}

abbrev shared : Shared
shared = record { daemon = daemon; last_activity = 0 }

abbrev end_of_request : List ℕ
end_of_request = codes "ove 8" ++ newline ∷ []

step_client-IsBounded_example :
    StaysBounded (step_client env uuids wire (events 10 end_of_request) io_timeout reader shared).0
step_client-IsBounded_example =
    step_client-IsBounded env uuids wire (events 10 end_of_request) io_timeout reader shared
      (events-WritesAtMost 10 end_of_request) reader-IsBounded

abbrev pass : Pass
pass = record {
  accepts = connected 502 10 ∷ none_waiting ∷ [];
  events = λ place. events 10 end_of_request;
  background_work = 0;
  now = 10;
}

serve_pass-StaysServing_example :
    StaysServing
      (serve_pass env uuids wire none pass (record { clients = reader ∷ []; shared = shared }))
serve_pass-StaysServing_example =
    serve_pass-StaysServing env uuids wire none pass
      (record { clients = reader ∷ []; shared = shared })
      (λ place. events-WritesAtMost 10 end_of_request)
      (record { few = omega arith; bounded = (reader-IsBounded, tt) })

client_steps-deadline_example :
    (is_alive
        (client_steps env uuids wire io_timeout
          (events 10 (codes "o") ∷ events 50 (codes "v") ∷ [])
          reader
          shared).0
      ≡ false)
    × ((client_steps env uuids wire io_timeout
          (events 10 (codes "o") ∷ events 50 (codes "v") ∷ [])
          reader
          shared).1
        ≡ shared)
client_steps-deadline_example =
    client_steps-deadline env uuids wire io_timeout 50 (events 10 (codes "o") ∷ [])
      (events 50 (codes "v")) reader shared reader-IsReading (refl, tt) (omega arith)

read_file-step_client_example :
    read_file 8
      (step_client env uuids wire
        (events 10 end_of_request)
        io_timeout
        reader
        shared).1.daemon.world.records
    ≡ read_file 8 world.records
read_file-step_client_example =
    read_file-step_client env uuids wire 501 8 (stored 8 true none) (events 10 end_of_request)
      io_timeout reader shared refl
      (record { listing = world-IsListing; loads = foreign_loads; refused = is_foreign })

-- the request of the complete line reaches the daemon, which refuses it: a response is queued
queued_response :
    (step_client env uuids wire (events 10 end_of_request) io_timeout reader shared).0
    ≡ alive (record reader { input = []; output = codes "done" ++ newline ∷ []; deadline = 10010 })
unfolding step_client world stored parsed parse_connection_config handle_remove_connection ◌>>=◌
    or_return
queued_response = refl
