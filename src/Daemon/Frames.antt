-- ===== src/Daemon/Frames.antt =====
-- src/privileged/mod.rs: one request from its text to its outcome, and the response's bytes. JSON is
-- serde_json's and stands in a `Wire`.
use tunmux.Api.{PrivilegedRequest, PrivilegedResponse, Uuids, error, protocol, validate, validation}
use tunmux.Daemon.{Env}
use tunmux.Daemon.Dispatch.{PeerOrigin, socket, stdio}
use tunmux.Daemon.Dispatch.Handlers.{Answer, Daemon, Worker, dispatch, immediate, pending}
use tunmux.Prelude.{List, Option, [], if◌then◌else◌, is_empty, none, not, some, ℕ, ◌++◌, ◌∷◌}
use tunmux.Text.{Str, trim}

-- What serde_json and the standard library's UTF-8 decoder answer.
pub record Wire : Type 0 where
  pub read_request : Str → Option PrivilegedRequest
  pub write_response : PrivilegedResponse → Option (List ℕ)
  pub write_log : Str → Option (List ℕ)
  pub from_utf8 : List ℕ → Option Str

abbrev pub newline : ℕ
newline = 10

abbrev frame : Option (List ℕ) → Option (List ℕ) → Option (List ℕ)
frame (some bytes) (some rest) = some (bytes ++ newline ∷ rest)
frame _ _ = none

unfoldable pub encode_response_frames : Wire → List Str → PrivilegedResponse → Option (List ℕ)
encode_response_frames wire [] response = frame (wire.write_response response) (some [])
encode_response_frames wire (line ∷ logs) response =
    frame (wire.write_log line) (encode_response_frames wire logs response)

-- `RequestOutcome`; a pending one carries what the worker does
pub data RequestOutcome : Type 0 where
  at_once : List Str → PrivilegedResponse → RequestOutcome
  later : Worker → RequestOutcome

abbrev pub outcome_of : Answer → RequestOutcome
outcome_of (immediate response) = at_once [] response
outcome_of (pending worker) = later worker

abbrev pub origin_of : Option ℕ → PeerOrigin
origin_of none = stdio
origin_of (some peer_uid) = socket peer_uid

abbrev pub dispatched : Answer × Daemon → RequestOutcome × Daemon
dispatched (answer, d) = (outcome_of answer, d)

abbrev pub process_request :
    Env → Uuids → Option ℕ → Daemon → Option PrivilegedRequest → RequestOutcome × Daemon
process_request e u from d none = (at_once [] (error protocol), d)
process_request e u from d (some request) =
    if not (validate u request)
    then (at_once [] (error validation), d)
    else dispatched (dispatch e (origin_of from) request d)

unfoldable pub process_request_payload :
    Env → Uuids → Wire → Option ℕ → Str → Daemon → RequestOutcome × Daemon
unfolding trim validate dispatch
process_request_payload e u wire from payload d =
    if is_empty (trim payload)
    then (at_once [] (error protocol), d)
    else process_request e u from d (wire.read_request payload)
