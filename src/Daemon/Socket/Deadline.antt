-- ===== src/Daemon/Socket/Deadline.antt =====
-- The deadline of a client of the daemon's socket (src/privileged/socket.rs), over the client's steps.
use mathlib.Core.Path.{ap, subst}
use tunmux.Api.{Uuids}
use tunmux.Daemon.{Env}
use tunmux.Daemon.Dispatch.Reading.{reading}
use tunmux.Daemon.Frames.{Wire, newline}
use tunmux.Daemon.Socket.{
  Client, Events, Received, Shared, Stepped, alive, by_state, bytes, closed, dropped, end_of_stream,
  first_line, flush, max_request_bytes, nothing_yet, read_error, read_more, step_client, with_input,
}
use tunmux.Prelude.{
  All, Bool, Bool-cases, List, [], arith, contains, false, if◌then◌else◌, inl, inr, is_empty, leb,
  length, ltb, none, refl, sym, true, ℕ, ℕ_eq, ◌++◌, ◌==◌, ◌∙◌, ◌∷◌, ◌≡◌, ◌≤◌,
}

abbrev pub is_alive : Stepped → Bool
is_alive (alive c) = true
is_alive _ = false

abbrev pub go_on : (Client → Shared → Stepped × Shared) → Stepped × Shared → Stepped × Shared
go_on next (alive c, s) = next c s
go_on next (closed, s) = (closed, s)
go_on next (dropped, s) = (dropped, s)

module _ (e : Env) (u : Uuids) (wire : Wire) (timeout : ℕ) where
  -- the steps that a client takes, one for each of the events, until it goes
  unfoldable pub client_steps : List Events → Client → Shared → Stepped × Shared
  unfolding step_client
  client_steps [] c s = (alive c, s)
  client_steps (ev ∷ rest) c s = go_on (client_steps rest) (step_client e u wire ev timeout c s)

abbrev pub chunk_of : Received → List ℕ
chunk_of (bytes chunk) = chunk
chunk_of _ = []

-- the events bring no end of a line
abbrev pub BringsNoLine : Events → Type 0
BringsNoLine ev = contains (chunk_of ev.received) newline ≡ false

-- a client whose request is not complete
pub record IsReading (deadline : ℕ) (c : Client) : Type 0 where
  pub waits_for_none : c.pending ≡ none
  pub nothing_queued : c.output ≡ []
  pub incomplete : contains c.input newline ≡ false
  pub unmoved : c.deadline ≡ deadline

first_line-none : (bs : List ℕ) → contains bs newline ≡ false → first_line bs ≡ none
unfolding first_line
first_line-none [] h = refl
first_line-none (b ∷ bs) h =
    let parts : ((b == newline) ≡ false) × (contains bs newline ≡ false) = ground arith in
    rw (parts.0, first_line-none bs parts.1) refl

contains-append :
    (bs cs : List ℕ)
    → contains bs newline ≡ false
    → contains cs newline ≡ false
    → contains (bs ++ cs) newline ≡ false
contains-append [] cs h k = k
contains-append (b ∷ bs) cs h k =
    let parts : ((b == newline) ≡ false) × (contains bs newline ≡ false) = ground arith in
    rw (parts.0) (contains-append bs cs parts.1 k)

abbrev StaysReading : ℕ → Stepped → Type 0
StaysReading deadline (alive c) = IsReading deadline c
StaysReading deadline closed = Unit
StaysReading deadline dropped = Unit

module _ (e : Env) (u : Uuids) (wire : Wire) (timeout deadline : ℕ) where
  with_input-StaysReading :
      (ev : Events) (c : Client) (s : Shared) (input : List ℕ)
      → IsReading deadline c
      → contains input newline ≡ false
      → StaysReading deadline (with_input e u wire ev timeout c s input).0
        × ((with_input e u wire ev timeout c s input).1 ≡ s)
  unfolding flush
  with_input-StaysReading ev c s input h no_line =
      elim (Bool-cases (leb (length input) max_request_bytes)) [
        | inr large ↦ rw (large) (tt, refl)
        | inl small ↦
            rw (small, first_line-none input no_line, h.nothing_queued)
              (
                record {
                  waits_for_none = h.waits_for_none;
                  nothing_queued = refl;
                  incomplete = no_line;
                  unmoved = h.unmoved;
                },
                refl,
              )
      ]

  read_more-StaysReading :
      (ev : Events) (c : Client) (s : Shared) (r : Received)
      → IsReading deadline c
      → contains (chunk_of r) newline ≡ false
      → StaysReading deadline (read_more e u wire ev timeout c s r).0
        × ((read_more e u wire ev timeout c s r).1 ≡ s)
  read_more-StaysReading ev c s end_of_stream h no_line = (tt, refl)
  read_more-StaysReading ev c s read_error h no_line = (tt, refl)
  read_more-StaysReading ev c s nothing_yet h no_line =
      with_input-StaysReading ev c s c.input h h.incomplete
  read_more-StaysReading ev c s (bytes chunk) h no_line =
      with_input-StaysReading ev c s (c.input ++ chunk) h
        (contains-append c.input chunk h.incomplete no_line)

  reads :
      (ev : Events) (c : Client) (s : Shared)
      → IsReading deadline c
      → by_state e u wire ev timeout c s c.pending ≡ read_more e u wire ev timeout c s ev.received
  reads ev c s h =
      ap (by_state e u wire ev timeout c s) h.waits_for_none
      ∙ ap
          (λ output.
            if is_empty output
            then read_more e u wire ev timeout c s ev.received
            else (flush ev timeout c, s))
          h.nothing_queued

  step-StaysReading :
      (ev : Events) (c : Client) (s : Shared)
      → IsReading deadline c
      → BringsNoLine ev
      → StaysReading deadline (step_client e u wire ev timeout c s).0
        × ((step_client e u wire ev timeout c s).1 ≡ s)
  unfolding step_client
  step-StaysReading ev c s h no_line = elim (Bool-cases (ltb ev.now c.deadline)) [
    | inr late ↦ rw (late) (tt, refl)
    | inl early ↦ rw (early) (
        subst (λ r. StaysReading deadline r.0 × (r.1 ≡ s)) (sym (reads ev c s h))
          (read_more-StaysReading ev c s ev.received h no_line))
  ]

  late-dropped :
      (ev : Events) (c : Client) (s : Shared)
      → c.deadline ≤ ev.now
      → step_client e u wire ev timeout c s ≡ (dropped, s)
  unfolding step_client
  late-dropped ev c s late =
      let over : ltb ev.now c.deadline ≡ false = ground arith in rw (over) refl

  -- A client cannot keep a partial request open past its deadline: whatever the events bring short of
  -- the end of a line, at the first step at or after the deadline the client is gone, and nothing of
  -- the daemon has changed.
  pub client_steps-deadline :
      (events : List Events) (last : Events) (c : Client) (s : Shared)
      → IsReading deadline c
      → All BringsNoLine events
      → deadline ≤ last.now
      → (is_alive (client_steps e u wire timeout (events ++ last ∷ []) c s).0 ≡ false)
        × ((client_steps e u wire timeout (events ++ last ∷ []) c s).1 ≡ s)
  unfolding client_steps
  client_steps-deadline [] last c s h quiet late =
      let over : c.deadline ≤ last.now = omega (arith, h.unmoved, late) in
      rw (late-dropped last c s over) (refl, refl)
  client_steps-deadline (ev ∷ events) last c s h (q, quiet) late =
      by_step (step_client e u wire ev timeout c s) (step-StaysReading ev c s h q)
        (λ d t k. client_steps-deadline events last d t k quiet late)
    where
      by_step :
          (r : Stepped × Shared)
          → StaysReading deadline r.0 × (r.1 ≡ s)
          → ((d : Client) (t : Shared)
              → IsReading deadline d
              → (is_alive (client_steps e u wire timeout (events ++ last ∷ []) d t).0 ≡ false)
                × ((client_steps e u wire timeout (events ++ last ∷ []) d t).1 ≡ t))
          → (is_alive (go_on (client_steps e u wire timeout (events ++ last ∷ [])) r).0 ≡ false)
            × ((go_on (client_steps e u wire timeout (events ++ last ∷ [])) r).1 ≡ s)
      by_step (alive d, t) (reading, same) k =
          let (gone, kept) = k d t reading in (gone, kept ∙ same)
      by_step (closed, t) (_, same) k = (refl, same)
      by_step (dropped, t) (_, same) k = (refl, same)
