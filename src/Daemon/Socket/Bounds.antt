-- ===== src/Daemon/Socket/Bounds.antt =====
-- The buffers of a client of the daemon's socket (src/privileged/socket.rs).
use mathlib.Core.Path.{ap}
use Prim.Native.Nat.{zero, suc}
use tunmux.Api.{Uuids}
use tunmux.Daemon.{Env}
use tunmux.Daemon.Dispatch.Handlers.{Worker}
use tunmux.Daemon.Frames.{
  RequestOutcome, Wire, at_once, encode_response_frames, later, newline, process_request_payload,
}
use tunmux.Daemon.Socket.{
  Client, Events, Polled, Received, Shared, Stepped, Written, alive, answered, by_state, bytes,
  closed, disconnected, dropped, end_line, end_of_stream, first_line, flush, max_request_bytes,
  max_response_bytes, not_ready, nothing_yet, poll_worker, probe, queue, read_error, read_more,
  remaining, respond_to, running, serve_line, settle, step_client, take_line, with_input,
  write_error, written_to, wrote,
}
use tunmux.Helper.Dns.Plan.Reference.{after}
use tunmux.Prelude.{
  Bool, Bool-cases, List, Option, [], arith, false, if◌then◌else◌, inl, inr, is_empty, leb, length,
  ltb, none, not, refl, some, true, ℕ, ℕ_eq, ◌&&◌, ◌++◌, ◌+◌, ◌-◌, ◌==◌, ◌∷◌, ◌≡◌, ◌≤◌,
}
use tunmux.Text.{Str}

abbrev is_waiting : Option Worker → Bool
is_waiting none = false
is_waiting (some worker) = true

-- A waiting client has nothing to write, and no buffer is larger than the program allows.
pub record IsBounded (c : Client) : Type 0 where
  pub input : length c.input ≤ max_request_bytes
  pub output : length c.output ≤ max_response_bytes
  pub written : c.written ≤ length c.output
  pub waiting : (is_waiting c.pending && not (is_empty c.output)) ≡ false

abbrev pub wrote_at_most : ℕ → Written → Bool
wrote_at_most n (wrote k) = leb k n
wrote_at_most n not_ready = true
wrote_at_most n write_error = true

-- The system writes no more than it is given.
abbrev pub WritesAtMost : Events → Type 0
WritesAtMost ev = (given : List ℕ) → wrote_at_most (length given) (ev.write given) ≡ true

abbrev pub StaysBounded : Stepped → Type 0
StaysBounded (alive c) = IsBounded c
StaysBounded closed = Unit
StaysBounded dropped = Unit

length-remaining : (n : ℕ) (bs : List ℕ) → length (remaining n bs) ≡ length bs - n
length-remaining zero bs = omega arith
length-remaining (suc n) [] = omega arith
length-remaining (suc n) (b ∷ bs) = omega (arith, length-remaining n bs)

settle-StaysBounded :
    (ev : Events) (timeout : ℕ) (c : Client) → IsBounded c → StaysBounded (settle ev timeout c)
settle-StaysBounded ev timeout c h = by_test (c.written == length c.output)
  where
    by_test :
        (b : Bool)
        → StaysBounded (
            if b
            then alive (record c { output = []; written = 0; deadline = ev.now_written + timeout })
            else alive c)
    by_test true = record {
      input = h.input;
      output = omega arith;
      written = omega arith;
      waiting = ground arith;
    }
    by_test false = h

written_to-StaysBounded :
    (ev : Events) (timeout : ℕ) (c : Client) (r : Written)
    → wrote_at_most (length (remaining c.written c.output)) r ≡ true
    → IsBounded c
    → StaysBounded (written_to ev timeout c r)
written_to-StaysBounded ev timeout c not_ready fits h = settle-StaysBounded ev timeout c h
written_to-StaysBounded ev timeout c write_error fits h = tt
written_to-StaysBounded ev timeout c (wrote n) fits h =
    let more = record c { written = c.written + n } in
    let bound : c.written + n ≤ length c.output =
      ground (arith, length-remaining c.written c.output, h.written) in
    by_test (n == 0) (
      settle-StaysBounded ev timeout more
        (record { input = h.input; output = h.output; written = bound; waiting = h.waiting }))
  where
    by_test :
        (b : Bool)
        → StaysBounded (settle ev timeout (record c { written = c.written + n }))
        → StaysBounded
            (if b then closed else settle ev timeout (record c { written = c.written + n }))
    by_test true k = tt
    by_test false k = k

flush-StaysBounded :
    (ev : Events) (timeout : ℕ) (c : Client)
    → WritesAtMost ev
    → IsBounded c
    → StaysBounded (flush ev timeout c)
unfolding flush
flush-StaysBounded ev timeout c fits h = by_test (is_empty c.output)
  where
    by_test :
        (b : Bool)
        → StaysBounded (
            if b
            then alive c
            else written_to ev timeout c (ev.write (remaining c.written c.output)))
    by_test true = h
    by_test false = written_to-StaysBounded ev timeout c _ (fits _) h

queue-StaysBounded :
    (ev : Events) (timeout : ℕ) (c : Client) (output : Option (List ℕ))
    → WritesAtMost ev
    → length c.input ≤ max_request_bytes
    → c.written ≡ 0
    → StaysBounded (queue ev timeout c output)
queue-StaysBounded ev timeout c none fits input start = tt
queue-StaysBounded ev timeout c (some output) fits input start =
    elim (Bool-cases (leb (length output) max_response_bytes)) [
      | inr large ↦ rw (large) tt
      | inl small ↦ rw (small) (
          flush-StaysBounded ev timeout _ fits (record {
            input = input;
            output = ground arith;
            written = omega (arith, start);
            waiting = refl;
          }))
    ]

no-output :
    (output : List ℕ) (written : ℕ) → is_empty output ≡ true → written ≤ length output → written ≡ 0
no-output [] written e h = omega (arith, h)
no-output (b ∷ bs) written e h = absurd (cc)

poll_worker-StaysBounded :
    (wire : Wire) (ev : Events) (timeout : ℕ) (c : Client) (r : Polled)
    → WritesAtMost ev
    → IsBounded c
    → is_empty c.output ≡ true
    → StaysBounded (poll_worker wire ev timeout c r)
poll_worker-StaysBounded wire ev timeout c (answered response) fits h nothing =
    queue-StaysBounded ev timeout c (encode_response_frames wire [] response) fits h.input
      (no-output c.output c.written nothing h.written)
poll_worker-StaysBounded wire ev timeout c running fits h nothing =
    flush-StaysBounded ev timeout c fits h
poll_worker-StaysBounded wire ev timeout c disconnected fits h nothing = tt

probe-StaysBounded :
    (wire : Wire) (ev : Events) (timeout : ℕ) (c : Client) (r : Received)
    → WritesAtMost ev
    → IsBounded c
    → is_empty c.output ≡ true
    → StaysBounded (probe wire ev timeout c r)
probe-StaysBounded wire ev timeout c end_of_stream fits h nothing = tt
probe-StaysBounded wire ev timeout c read_error fits h nothing = tt
probe-StaysBounded wire ev timeout c nothing_yet fits h nothing =
    poll_worker-StaysBounded wire ev timeout c ev.polled fits h nothing
probe-StaysBounded wire ev timeout c (bytes chunk) fits h nothing =
    poll_worker-StaysBounded wire ev timeout c ev.polled fits h nothing

-- the rest of a line is shorter than the input
first_line-length :
    (bs line rest : List ℕ) → first_line bs ≡ some (line, rest) → length rest ≤ length bs
unfolding first_line
first_line-length [] line rest h = absurd (cc)
first_line-length (b ∷ bs) line rest h =
    by_test (b == newline) (first_line bs) h (first_line-length bs)
  where
    by_test :
        (found : Bool) (after : Option (List ℕ × List ℕ))
        → end_line b bs after found ≡ some (line, rest)
        → ((line rest : List ℕ) → after ≡ some (line, rest) → length rest ≤ length bs)
        → length rest ≤ suc (length bs)
    by_test true after h k = let same : bs ≡ rest = cc in omega (arith, ap length same)
    by_test false none h k = absurd (cc)
    by_test false (some (l, r)) h k =
        let same : r ≡ rest = cc in omega (arith, ap length same, k l r refl)

module _ (e : Env) (u : Uuids) (wire : Wire) (ev : Events) (timeout : ℕ) where
  respond_to-StaysBounded :
      (c : Client) (outcome : RequestOutcome)
      → WritesAtMost ev
      → IsBounded c
      → is_empty c.output ≡ true
      → StaysBounded (respond_to wire ev timeout c outcome)
  respond_to-StaysBounded c (at_once logs response) fits h nothing =
      queue-StaysBounded ev timeout c (encode_response_frames wire logs response) fits h.input
        (no-output c.output c.written nothing h.written)
  respond_to-StaysBounded c (later worker) fits h nothing =
      flush-StaysBounded ev timeout _ fits (record {
        input = h.input;
        output = h.output;
        written = h.written;
        waiting = rw (nothing) refl;
      })

  serve_line-StaysBounded :
      (c : Client) (s : Shared) (line : Option Str)
      → WritesAtMost ev
      → IsBounded c
      → is_empty c.output ≡ true
      → StaysBounded (serve_line e u wire ev timeout c s line).0
  serve_line-StaysBounded c s none fits h nothing = tt
  serve_line-StaysBounded c s (some request) fits h nothing =
      let (outcome, d) = process_request_payload e u wire (some c.peer_uid) request s.daemon in
      respond_to-StaysBounded c outcome fits h nothing

  take_line-StaysBounded :
      (c : Client) (s : Shared) (line : Option (List ℕ × List ℕ))
      → WritesAtMost ev
      → IsBounded c
      → is_empty c.output ≡ true
      → ((l r : List ℕ) → line ≡ some (l, r) → length r ≤ length c.input)
      → StaysBounded (take_line e u wire ev timeout c s line).0
  take_line-StaysBounded c s none fits h nothing k = flush-StaysBounded ev timeout c fits h
  take_line-StaysBounded c s (some (l, r)) fits h nothing k =
      serve_line-StaysBounded (record c { input = r }) s (wire.from_utf8 l) fits
        (record {
          input = omega (arith, k l r refl, h.input);
          output = h.output;
          written = h.written;
          waiting = h.waiting;
        })
        nothing

  with_input-StaysBounded :
      (c : Client) (s : Shared) (input : List ℕ)
      → WritesAtMost ev
      → IsBounded c
      → is_empty c.output ≡ true
      → StaysBounded (with_input e u wire ev timeout c s input).0
  with_input-StaysBounded c s input fits h nothing =
      elim (Bool-cases (leb (length input) max_request_bytes)) [
        | inr large ↦ rw (large) tt
        | inl small ↦ rw (small) (
            take_line-StaysBounded (record c { input = input }) s (first_line input) fits
              (record {
                input = ground arith;
                output = h.output;
                written = h.written;
                waiting = h.waiting;
              })
              nothing (first_line-length input))
      ]

  read_more-StaysBounded :
      (c : Client) (s : Shared) (r : Received)
      → WritesAtMost ev
      → IsBounded c
      → is_empty c.output ≡ true
      → StaysBounded (read_more e u wire ev timeout c s r).0
  read_more-StaysBounded c s end_of_stream fits h nothing = tt
  read_more-StaysBounded c s read_error fits h nothing = tt
  read_more-StaysBounded c s nothing_yet fits h nothing =
      with_input-StaysBounded c s c.input fits h nothing
  read_more-StaysBounded c s (bytes chunk) fits h nothing =
      with_input-StaysBounded c s (c.input ++ chunk) fits h nothing

  by_state-StaysBounded :
      (c : Client) (s : Shared) (worker : Option Worker)
      → c.pending ≡ worker
      → WritesAtMost ev
      → IsBounded c
      → StaysBounded (by_state e u wire ev timeout c s worker).0
  by_state-StaysBounded c s (some worker) same fits h =
      let nothing : is_empty c.output ≡ true = ground (arith, h.waiting, ap is_waiting same) in
      probe-StaysBounded wire ev timeout c ev.received fits h nothing
  by_state-StaysBounded c s none same fits h = elim (Bool-cases (is_empty c.output)) [
    | inl nothing ↦ rw (nothing) (read_more-StaysBounded c s ev.received fits h nothing)
    | inr queued ↦ rw (queued) (flush-StaysBounded ev timeout c fits h)
  ]

  -- A step keeps a client's buffers in bounds, if the system writes no more than it is given: a client
  -- that stays has at most 1 MiB of input and 2 MiB of output, has written no more than its output, and
  -- has no output while it waits for a worker.
  pub step_client-IsBounded :
      (c : Client) (s : Shared)
      → WritesAtMost ev
      → IsBounded c
      → StaysBounded (step_client e u wire ev timeout c s).0
  unfolding step_client
  step_client-IsBounded c s fits h = elim (Bool-cases (ltb ev.now c.deadline)) [
    | inl early ↦ rw (early) (by_state-StaysBounded c s c.pending refl fits h)
    | inr late ↦ rw (late) tt
  ]
