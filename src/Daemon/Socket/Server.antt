-- ===== src/Daemon/Socket/Server.antt =====
-- The accept loop of src/privileged/socket.rs, over its passes.
use Prim.Native.Nat.{zero, suc}
use tunmux.Api.{Uuids}
use tunmux.Daemon.{Env}
use tunmux.Daemon.Control.{ControlState, should_exit_now}
use tunmux.Daemon.Frames.{Wire}
use tunmux.Daemon.Socket.{
  Client, Events, Shared, Stepped, alive, closed, dropped, io_timeout, max_clients, new_client,
  step_client,
}
use tunmux.Daemon.Socket.Bounds.{IsBounded, StaysBounded, WritesAtMost, step_client-IsBounded}
use tunmux.Daemon.Socket.Serve.{
  Accepted, Pass, Passed, Server, accept_clients, accept_error, after_asking, conclude, connected,
  credentials_error, exits, fails, goes_on, idle_or_on, is_idle, left_over, none_waiting,
  serve_accepted, serve_pass, step_clients,
}
use tunmux.Prelude.{
  All, All-append, Bool, Bool-cases, List, Option, [], and-eq-true, arith, false, inl, inr,
  is_empty, length, length-append, ltb, none, refl, some, true, ℕ, ℕ_eq, ◌&&◌, ◌++◌, ◌==◌, ◌∷◌, ◌≡◌,
  ◌≤◌,
}

-- a bounded number of clients, each in its bounds
pub record IsServing (clients : List Client) : Type 0 where
  pub few : length clients ≤ max_clients
  pub bounded : All IsBounded clients

new_client-IsBounded : (peer_uid now timeout : ℕ) → IsBounded (new_client peer_uid now timeout)
unfolding new_client
new_client-IsBounded peer_uid now timeout = record {
  input = omega arith;
  output = omega arith;
  written = omega arith;
  waiting = refl;
}

abbrev AllServing : Option (List Client) → Type 0
AllServing none = Unit
AllServing (some clients) = IsServing clients

accept_clients-IsServing :
    (rounds : ℕ) (accepts : List Accepted) (clients : List Client)
    → IsServing clients
    → AllServing (accept_clients rounds accepts clients)
unfolding accept_clients
accept_clients-IsServing zero accepts clients h = h
accept_clients-IsServing (suc rounds) [] clients h = h
accept_clients-IsServing (suc rounds) (none_waiting ∷ rest) clients h = h
accept_clients-IsServing (suc rounds) (accept_error ∷ rest) clients h = tt
accept_clients-IsServing (suc rounds) (credentials_error ∷ rest) clients h =
    elim (Bool-cases (ltb (length clients) max_clients)) [
      | inl room ↦ rw (room) tt
      | inr full ↦ rw (full) (accept_clients-IsServing rounds rest clients h)
    ]
accept_clients-IsServing (suc rounds) (connected peer_uid now ∷ rest) clients h =
    elim (Bool-cases (ltb (length clients) max_clients)) [
      | inr full ↦ rw (full) (accept_clients-IsServing rounds rest clients h)
      | inl room ↦
          let c = new_client peer_uid now io_timeout in
          rw (room) (
            accept_clients-IsServing rounds rest (clients ++ c ∷ []) (record {
              few = ground (arith, length-append clients (c ∷ []));
              bounded =
                  All-append IsBounded clients (c ∷ []) h.bounded
                    (new_client-IsBounded peer_uid now io_timeout, tt);
            }))
    ]

left_over-IsServing :
    (stepped : Stepped)
    → StaysBounded stepped
    → All IsBounded (left_over stepped) × (length (left_over stepped) ≤ 1)
left_over-IsServing (alive c) h = ((h, tt), omega arith)
left_over-IsServing closed h = (tt, omega arith)
left_over-IsServing dropped h = (tt, omega arith)

abbrev pub StaysServing : Passed → Type 0
StaysServing (goes_on server) = IsServing server.clients
StaysServing (exits server) = server.clients ≡ []
StaysServing fails = Unit

is_empty-nil : (clients : List Client) → is_empty clients ≡ true → clients ≡ []
is_empty-nil [] h = refl
is_empty-nil (c ∷ cs) h = absurd (cc)

module _ (e : Env) (u : Uuids) (wire : Wire) where
  step_clients-IsServing :
      (events : ℕ → Events) (place : ℕ) (clients : List Client) (s : Shared)
      → ((k : ℕ) → WritesAtMost (events k))
      → All IsBounded clients
      → All IsBounded (step_clients e u wire events place clients s).0
        × (length (step_clients e u wire events place clients s).0 ≤ length clients)
  unfolding step_clients
  step_clients-IsServing events place [] s fits h = (tt, omega arith)
  step_clients-IsServing events place (c ∷ rest) s fits (h, hs) =
      let (stepped, t) = step_client e u wire (events place) io_timeout c s in
      let one =
        left_over-IsServing stepped
          (step_client-IsBounded e u wire (events place) io_timeout c s (fits place) h) in
      let more = step_clients-IsServing events (suc place) rest t fits hs in
      let others = (step_clients e u wire events (suc place) rest t).0 in
      (
        All-append IsBounded (left_over stepped) others one.0 more.0,
        omega (arith, length-append (left_over stepped) others, one.1, more.1),
      )

  idle_or_on-StaysServing :
      (idle_timeout : Option ℕ) (pass : Pass) (server : Server)
      → server.clients ≡ []
      → IsServing server.clients
      → StaysServing (idle_or_on idle_timeout pass server)
  idle_or_on-StaysServing idle_timeout pass server nobody h =
      elim (Bool-cases (is_idle idle_timeout pass.now server.shared.last_activity)) [
        | inl idle ↦ rw (idle) nobody
        | inr busy_still ↦ rw (busy_still) h
      ]

  after_asking-StaysServing :
      (idle_timeout : Option ℕ) (pass : Pass) (server : Server) (answer : Bool × ControlState)
      → server.clients ≡ []
      → IsServing server.clients
      → StaysServing (after_asking idle_timeout pass server answer)
  after_asking-StaysServing idle_timeout pass server (true, control) nobody h = nobody
  after_asking-StaysServing idle_timeout pass server (false, control) nobody h =
      idle_or_on-StaysServing idle_timeout pass _ nobody h

  conclude-StaysServing :
      (idle_timeout : Option ℕ) (pass : Pass) (server : Server)
      → IsServing server.clients
      → StaysServing (conclude e idle_timeout pass server)
  conclude-StaysServing idle_timeout pass server h =
      elim (Bool-cases (is_empty server.clients && pass.background_work == 0)) [
        | inr stays ↦ rw (stays) h
        | inl nobody ↦
            let none_left = is_empty-nil server.clients (and-eq-true _ _ nobody).0 in
            rw (nobody) (
              after_asking-StaysServing idle_timeout pass server
                (should_exit_now e server.shared.daemon.control) none_left h)
      ]

  serve_accepted-StaysServing :
      (idle_timeout : Option ℕ) (pass : Pass) (shared : Shared) (clients : Option (List Client))
      → ((k : ℕ) → WritesAtMost (pass.events k))
      → AllServing clients
      → StaysServing (serve_accepted e u wire idle_timeout pass shared clients)
  serve_accepted-StaysServing idle_timeout pass shared none fits h = tt
  serve_accepted-StaysServing idle_timeout pass shared (some clients) fits h =
      let stepped = step_clients-IsServing pass.events 0 clients shared fits h.bounded in
      conclude-StaysServing idle_timeout pass _
        (record { few = omega (arith, stepped.1, h.few); bounded = stepped.0 })

  -- A pass of the accept loop keeps at most 32 clients, each with its buffers in bounds, if the system
  -- writes no more than it is given; and the daemon ends well only when no client is left.
  pub serve_pass-StaysServing :
      (idle_timeout : Option ℕ) (pass : Pass) (server : Server)
      → ((k : ℕ) → WritesAtMost (pass.events k))
      → IsServing server.clients
      → StaysServing (serve_pass e u wire idle_timeout pass server)
  unfolding serve_pass
  serve_pass-StaysServing idle_timeout pass server fits h =
      serve_accepted-StaysServing idle_timeout pass server.shared _ fits
        (accept_clients-IsServing max_clients pass.accepts server.clients h)
