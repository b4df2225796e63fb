-- ===== src/Daemon/Socket/Callers.antt =====
-- What a client of the daemon's socket (src/privileged/socket.rs) does to the store.
use mathlib.Core.Path.{ap}
use tunmux.Api.{ConnectionId, PrivilegedRequest, Uuids, error, protocol, validate, validation}
use tunmux.Daemon.{Env, StoredConnection}
use tunmux.Daemon.Dispatch.{may_access, socket}
use tunmux.Daemon.Dispatch.Handlers.{Daemon, Worker, dispatch}
use tunmux.Daemon.Dispatch.Ownership.Every.{read_file-dispatch}
use tunmux.Daemon.Frames.{
  RequestOutcome, Wire, at_once, dispatched, origin_of, process_request, process_request_payload,
}
use tunmux.Daemon.Socket.{
  Client, Events, Received, Shared, by_state, bytes, end_of_stream, first_line, max_request_bytes,
  nothing_yet, read_error, read_more, serve_line, step_client, take_line, with_input,
}
use tunmux.Daemon.Store.{load_in, read_file}
use tunmux.Daemon.Store.Listing.{IsListing}
use tunmux.Error.{ok}
use tunmux.Prelude.{
  Bool, Bool-cases, List, Option, [], false, inl, inr, if◌then◌else◌, is_empty, leb, length, ltb,
  none, refl, some, true, ℕ, ◌++◌, ◌∙◌, ◌≡◌, ◌⊎◌,
}
use tunmux.Text.{Str, trim}

-- A text that is blank, or no request, is answered with a Protocol error.
abbrev pub IsNoRequest : Wire → Str → Daemon → RequestOutcome × Daemon → Type 0
IsNoRequest wire payload d r =
    ((is_empty (trim payload) ≡ true) ⊎ (wire.read_request payload ≡ none))
    × (r ≡ (at_once [] (error protocol), d))

-- The text is a request, and the request is valid or not.
abbrev pub Requests : Uuids → Wire → Str → PrivilegedRequest → Bool → Type 0
Requests u wire payload request valid =
    (is_empty (trim payload) ≡ false)
    × (wire.read_request payload ≡ some request)
    × (validate u request ≡ valid)

-- A request that is not valid is answered with a Validation error.
abbrev pub IsRefused : Uuids → Wire → Str → Daemon → RequestOutcome × Daemon → Type 0
IsRefused u wire payload d r =
    (request : PrivilegedRequest) × Requests u wire payload request false
    × (r ≡ (at_once [] (error validation), d))

-- The daemon's answer to a valid request is the outcome.
abbrev pub IsDispatched :
    Env → Uuids → Wire → Option ℕ → Str → Daemon → RequestOutcome × Daemon → Type 0
IsDispatched e u wire from payload d r =
    (request : PrivilegedRequest) × Requests u wire payload request true
    × (r ≡ dispatched (dispatch e (origin_of from) request d))

module _ (e : Env) (u : Uuids) (wire : Wire) where
  process_request-cases :
      (from : Option ℕ) (payload : Str) (d : Daemon) (read : Option PrivilegedRequest)
      → is_empty (trim payload) ≡ false
      → wire.read_request payload ≡ read
      → IsNoRequest wire payload d (process_request e u from d read)
        ⊎ IsRefused u wire payload d (process_request e u from d read)
        ⊎ IsDispatched e u wire from payload d (process_request e u from d read)
  process_request-cases from payload d none written same = inl (inr same, refl)
  process_request-cases from payload d (some request) written same =
      elim (Bool-cases (validate u request)) [
        | inl valid ↦ rw (valid) (inr (inr (request, (written, same, valid), refl)))
        | inr invalid ↦ rw (invalid) (inr (inl (request, (written, same, invalid), refl)))
      ]

  pub process_request_payload-cases :
      (from : Option ℕ) (payload : Str) (d : Daemon)
      → IsNoRequest wire payload d (process_request_payload e u wire from payload d)
        ⊎ IsRefused u wire payload d (process_request_payload e u wire from payload d)
        ⊎ IsDispatched e u wire from payload d (process_request_payload e u wire from payload d)
  unfolding process_request_payload
  process_request_payload-cases from payload d = by_blank (is_empty (trim payload)) refl
    where
      answer : Bool → RequestOutcome × Daemon
      answer blank =
          if blank
          then (at_once [] (error protocol), d)
          else process_request e u from d (wire.read_request payload)

      by_blank :
          (blank : Bool)
          → is_empty (trim payload) ≡ blank
          → IsNoRequest wire payload d (answer blank)
            ⊎ IsRefused u wire payload d (answer blank)
            ⊎ IsDispatched e u wire from payload d (answer blank)
      by_blank true same = inl (inl same, refl)
      by_blank false same =
          process_request-cases from payload d (wire.read_request payload) same refl

-- A record that the caller may not access, in a listing.
pub record IsForeignRecord (e : Env) (from : ℕ) (id : ConnectionId) (c : StoredConnection)
    (d : Daemon) : Type 0 where
  pub listing : IsListing d.world.records
  pub loads : load_in e id d.world.records ≡ ok (some c)
  pub refused : may_access c (socket from) ≡ false

module _ (e : Env) (u : Uuids) (wire : Wire) (from : ℕ) (id : ConnectionId)
    (c : StoredConnection) where
  abbrev Untouched : Daemon → Daemon → Type 0
  Untouched d t = read_file id t.world.records ≡ read_file id d.world.records

  Untouched-dispatched :
      (request : PrivilegedRequest) (d : Daemon)
      → IsForeignRecord e from id c d
      → Untouched d (dispatched (dispatch e (socket from) request d)).1
  Untouched-dispatched request d h =
      read_file-dispatch e (socket from) request d id c h.listing h.loads h.refused

  Untouched-payload :
      (payload : Str) (d : Daemon)
      → IsForeignRecord e from id c d
      → Untouched d (process_request_payload e u wire (some from) payload d).1
  Untouched-payload payload d h =
      elim (process_request_payload-cases e u wire (some from) payload d) [
        | inl (_, answer) ↦ ap (λ r. read_file id r.1.world.records) answer
        | inr (inl (_, _, answer)) ↦ ap (λ r. read_file id r.1.world.records) answer
        | inr (inr (request, _, answer)) ↦
            ap (λ r. read_file id r.1.world.records) answer ∙ Untouched-dispatched request d h
      ]

  module _ (ev : Events) (timeout : ℕ) where
    serve_line-Untouched :
        (k : Client) (s : Shared) (line : Option Str)
        → k.peer_uid ≡ from
        → IsForeignRecord e from id c s.daemon
        → Untouched s.daemon (serve_line e u wire ev timeout k s line).1.daemon
    serve_line-Untouched k s none same h = refl
    serve_line-Untouched k s (some request) same h =
        ap
          (λ n.
            read_file id
              (process_request_payload e u wire (some n) request s.daemon).1.world.records)
          same
        ∙ Untouched-payload request s.daemon h

    take_line-Untouched :
        (k : Client) (s : Shared) (line : Option (List ℕ × List ℕ))
        → k.peer_uid ≡ from
        → IsForeignRecord e from id c s.daemon
        → Untouched s.daemon (take_line e u wire ev timeout k s line).1.daemon
    take_line-Untouched k s none same h = refl
    take_line-Untouched k s (some (l, r)) same h =
        serve_line-Untouched (record k { input = r }) s (wire.from_utf8 l) same h

    with_input-Untouched :
        (k : Client) (s : Shared) (input : List ℕ)
        → k.peer_uid ≡ from
        → IsForeignRecord e from id c s.daemon
        → Untouched s.daemon (with_input e u wire ev timeout k s input).1.daemon
    with_input-Untouched k s input same h =
        elim (Bool-cases (leb (length input) max_request_bytes)) [
          | inr large ↦ rw (large) refl
          | inl small ↦
              rw (small)
                (take_line-Untouched (record k { input = input }) s (first_line input) same h)
        ]

    read_more-Untouched :
        (k : Client) (s : Shared) (r : Received)
        → k.peer_uid ≡ from
        → IsForeignRecord e from id c s.daemon
        → Untouched s.daemon (read_more e u wire ev timeout k s r).1.daemon
    read_more-Untouched k s end_of_stream same h = refl
    read_more-Untouched k s read_error same h = refl
    read_more-Untouched k s nothing_yet same h = with_input-Untouched k s k.input same h
    read_more-Untouched k s (bytes chunk) same h =
        with_input-Untouched k s (k.input ++ chunk) same h

    by_state-Untouched :
        (k : Client) (s : Shared) (worker : Option Worker)
        → k.peer_uid ≡ from
        → IsForeignRecord e from id c s.daemon
        → Untouched s.daemon (by_state e u wire ev timeout k s worker).1.daemon
    by_state-Untouched k s (some worker) same h = refl
    by_state-Untouched k s none same h = elim (Bool-cases (is_empty k.output)) [
      | inl nothing ↦ rw (nothing) (read_more-Untouched k s ev.received same h)
      | inr queued ↦ rw (queued) refl
    ]

    -- Whatever a client of the socket sends, its step leaves a record as it was that reads well, that
    -- stands in a listing, and that the user at the other end may not access.
    pub read_file-step_client :
        (k : Client) (s : Shared)
        → k.peer_uid ≡ from
        → IsForeignRecord e from id c s.daemon
        → read_file id (step_client e u wire ev timeout k s).1.daemon.world.records
          ≡ read_file id s.daemon.world.records
    unfolding step_client
    read_file-step_client k s same h = elim (Bool-cases (ltb ev.now k.deadline)) [
      | inl early ↦ rw (early) (by_state-Untouched k s k.pending same h)
      | inr late ↦ rw (late) refl
    ]
