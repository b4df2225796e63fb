-- ===== src/Daemon/Dispatch/Ownership/Spawning.antt =====
-- The workers: who has them spawned, and what they touch (src/privileged/dispatch.rs).
use mathlib.Core.Path.{subst}
use tunmux.Api.{
  ConnectReason, ConnectionId, DisconnectReason, PrivilegedRequest, PrivilegedResponse,
  add_connection, bool, connect_connection, disconnect_connection, get_connection, interface_active,
  lease_acquire, lease_release, list_connections, network_overview, reconciliation,
  remove_connection, session_teardown, set_connection_mode, shutdown_if_idle, unit, wg_show,
}
use tunmux.Daemon.{Env, StoredConnection, World}
use tunmux.Daemon.Dispatch.{
  PeerOrigin, Reply, authorize_access, error_response, load_or_return, may_access,
}
use tunmux.Daemon.Dispatch.Add.{handle_add_connection}
use tunmux.Daemon.Dispatch.AdminGate.Workers.{respond-world}
use tunmux.Daemon.Dispatch.Handlers.{
  Answer, Daemon, Worker, answered, connect_work, connect_worker, disconnect_work,
  disconnect_worker, dispatch, handle, handle_get_connection, handle_list_connections,
  handle_remove_connection, handle_set_connection_mode, immediate, intent, legacy_interface_access,
  locked_work, mark, mark_user_disconnected, now_reply, pending, resolve_connect_intent, run_worker,
  spawn, work,
}
use tunmux.Daemon.Dispatch.Ownership.{
  IsOpen, Spares, Spares-IsPreorder, same_records-Spares, save-Spares,
}
use tunmux.Daemon.Dispatch.Ownership.Every.{target}
use tunmux.Daemon.Dispatch.Ownership.Handlers.{authorize_access-granted, loaded_in}
use tunmux.Daemon.Dispatch.Reading.{
  load-IsLoaded, load-Reads, load_or_return-Reads, take_connection_lock-Reads,
}
use tunmux.Daemon.Ops.{connect}
use tunmux.Daemon.Ops.Records.{
  SameRecords, SameRecords-IsPreorder, connect-SameRecords, disconnect-SameRecords,
}
use tunmux.Daemon.Store.{Action, load, load_in, read_file, save}
use tunmux.Daemon.Store.Listing.{IsListing}
use tunmux.Error.{ok}
use tunmux.Exec.{Outcome, bind-done, done, fail, gets, or_return, pure, ◌>>=◌}
use tunmux.Exec.Moves.{IsPreorder, Moves, Moves-bind_at, Moves-pure, Reads-bind}
use tunmux.Prelude.{
  Bool, Bool-cases, Option, false, if◌then◌else◌, inl, inr, none, some, sym, true, ◌≡◌,
}

-- the caller may access the record of the connection that the worker is for
abbrev pub IsOwn : Env → PeerOrigin → World → Worker → Type 0
IsOwn e origin w worker =
    (c : StoredConnection) × (load_in e (target worker) w.records ≡ ok (some c))
    × (may_access c origin ≡ true)

spawn-IsOwn :
    (e : Env) (origin : PeerOrigin) (asked worker : Worker) (w : World)
    → (spawn e origin (target asked) asked w).0 ≡ done (pending worker)
    → IsOwn e origin w worker
unfolding spawn pure
spawn-IsOwn e origin asked worker w h =
    let (c, found, rest) =
      bind-done (load_or_return e (target asked))
        (λ c. authorize_access c origin >>= λ _. pure (pending asked)) w (pending worker) h in
    let stays : (load_or_return e (target asked) w).1 ≡ w =
      sym ((load_or_return-Reads e (target asked)).from w) in
    let (_, passed, last) =
      bind-done (authorize_access c origin) (λ _. pure (pending asked)) w (pending worker)
        (subst
          (λ t.
            ((authorize_access c origin >>= λ _. pure (pending asked)) t).0 ≡ done (pending worker))
          stays rest) in
    let same : asked ≡ worker = cc in
    subst (IsOwn e origin w) same
      (c, loaded_in e (target asked) w c found, authorize_access-granted c origin w passed)

now-pending :
    (m : Reply PrivilegedResponse) (w : World) (worker : Worker)
    → (now_reply m w).0 ≡ done (pending worker)
    → ⊥
unfolding pure
now-pending m w worker h =
    let (r, _, last) = bind-done m (λ r. pure (immediate r)) w (pending worker) h in absurd (cc)

answered-done :
    (r : Outcome PrivilegedResponse Answer) (worker : Worker)
    → answered r ≡ pending worker
    → r ≡ done (pending worker)
answered-done (done a) worker h = cc
answered-done (fail x) worker h = absurd (cc)

text-pending :
    (m : Reply (Unit {0})) (r : PrivilegedResponse) (w : World) (worker : Worker)
    → ((m >>= λ _. pure (immediate r)) w).0 ≡ done (pending worker)
    → ⊥
unfolding pure
text-pending m r w worker h =
    let (_, _, last) = bind-done m (λ _. pure (immediate r)) w (pending worker) h in absurd (cc)

active-pending :
    (m : Reply (Unit {0})) (f : World → Bool) (w : World) (worker : Worker)
    → ((m >>= λ _. gets (λ v. immediate (bool (f v)))) w).0 ≡ done (pending worker)
    → ⊥
unfolding gets
active-pending m f w worker h =
    let (_, _, last) = bind-done m (λ _. gets (λ v. immediate (bool (f v)))) w (pending worker) h in
    absurd (cc)

-- A worker is spawned only for a connection whose record reads well and that the caller may access.
pub dispatch-IsOwn :
    (e : Env) (origin : PeerOrigin) (request : PrivilegedRequest) (d : Daemon) (worker : Worker)
    → (dispatch e origin request d).0 ≡ pending worker
    → IsOwn e origin d.world worker
unfolding dispatch handle
dispatch-IsOwn e origin (connect_connection id debug reason) d worker h =
    spawn-IsOwn e origin (connect_worker id debug reason) worker d.world (answered-done _ worker h)
dispatch-IsOwn e origin (disconnect_connection id reason) d worker h =
    spawn-IsOwn e origin (disconnect_worker id reason) worker d.world (answered-done _ worker h)
dispatch-IsOwn e origin (add_connection r) d worker h =
    absurd
      (now-pending (handle_add_connection e origin r) d.world worker (answered-done _ worker h))
dispatch-IsOwn e origin (remove_connection id form) d worker h = absurd (
    now-pending (handle_remove_connection e origin id form) d.world worker
      (answered-done _ worker h))
dispatch-IsOwn e origin (set_connection_mode id mode form) d worker h = absurd (
    now-pending (handle_set_connection_mode e origin id mode form) d.world worker
      (answered-done _ worker h))
dispatch-IsOwn e origin (list_connections scope) d worker h =
    absurd (
      now-pending (handle_list_connections e origin scope) d.world worker
        (answered-done _ worker h))
dispatch-IsOwn e origin (get_connection id) d worker h =
    absurd
      (now-pending (handle_get_connection e origin id) d.world worker (answered-done _ worker h))
dispatch-IsOwn e origin (wg_show i) d worker h =
    absurd (
      text-pending (legacy_interface_access e i origin) _ d.world worker (answered-done _ worker h))
dispatch-IsOwn e origin (network_overview i) d worker h =
    absurd (
      text-pending (legacy_interface_access e i origin) _ d.world worker (answered-done _ worker h))
dispatch-IsOwn e origin (interface_active i) d worker h = absurd (
    active-pending (legacy_interface_access e i origin) _ d.world worker (answered-done _ worker h))
dispatch-IsOwn e origin (lease_acquire token) d worker h = absurd (cc)
dispatch-IsOwn e origin (lease_release token) d worker h = absurd (cc)
dispatch-IsOwn e origin shutdown_if_idle d worker h = absurd (cc)

-- what a worker does to the record of its connection
saved-Spares :
    (e : Env) (origin : PeerOrigin) (id : ConnectionId) (b : Bool) (w : World)
    (c : StoredConnection)
    → IsOpen e origin id w
    → (load e id w).0 ≡ done (some c)
    → Spares e origin w (save e (record c { user_disconnected = b }) w).1
saved-Spares e origin id b w c free found =
    let same : c.id ≡ id = (load-IsLoaded e id w c found).is_read.same_id in
    save-Spares e origin (record c { user_disconnected = b }) w
      (subst (λ i. IsOpen e origin i w) (sym same) free)

module _ (e : Env) (origin : PeerOrigin) (id : ConnectionId) where
  abbrev S : IsPreorder (Spares e origin)
  S = Spares-IsPreorder e origin

  intent-Spares :
      (reason : ConnectReason) (w : World) (found : Option StoredConnection)
      → IsOpen e origin id w
      → (load e id w).0 ≡ done found
      → Spares e origin w (intent e reason found w).1
  intent-Spares reason w none free p = unfold pure in S.stay w
  intent-Spares ConnectReason.user w (some c) free p = elim (Bool-cases c.user_disconnected) [
    | inl flagged ↦ rw flagged (
        Moves-bind_at S (save e (record c { user_disconnected = false })) _ w
          (saved-Spares e origin id false w c free p) (λ _ _. unfold pure in S.stay _))
    | inr clear ↦ rw clear (unfold pure in S.stay w)
  ]
  intent-Spares reconciliation w (some c) free p = unfold pure in S.stay w

  mark-Spares :
      (w : World) (found : Option StoredConnection)
      → IsOpen e origin id w
      → (load e id w).0 ≡ done found
      → Spares e origin w (mark e found w).1
  mark-Spares w none free p = unfold pure in S.stay w
  mark-Spares w (some c) free p = elim (Bool-cases c.user_disconnected) [
    | inl flagged ↦ rw flagged (unfold pure in S.stay w)
    | inr clear ↦ rw clear (saved-Spares e origin id true w c free p)
  ]

  same-Spares : {A : Type 0} (m : Action A) → Moves SameRecords m → Moves (Spares e origin) m
  same-Spares m k = record { from = λ w. same_records-Spares e origin w _ (k.from w) }

  connect_work-Spares :
      (debug : Bool) (reason : ConnectReason) (w : World)
      → IsOpen e origin id w
      → Spares e origin w (connect_work e id debug reason w).1
  unfolding connect_work resolve_connect_intent
  connect_work-Spares debug reason w free =
      Moves-bind_at S (load e id >>= intent e reason) _ w
        (Reads-bind S _ _ w (load-Reads e id) λ found p. intent-Spares reason w found free p)
        λ go_on _. (same-Spares _ (go-SameRecords go_on debug)).from _
    where
      go-SameRecords :
          (go_on debug : Bool) → Moves SameRecords (if go_on then connect e id debug else pure tt)
      go-SameRecords true debug = connect-SameRecords e id debug
      go-SameRecords false debug = Moves-pure SameRecords-IsPreorder tt

  disconnect_work-Spares :
      (reason : DisconnectReason) (w : World)
      → IsOpen e origin id w
      → Spares e origin w (disconnect_work e id reason w).1
  unfolding disconnect_work mark_user_disconnected
  disconnect_work-Spares session_teardown w free =
      Moves-bind_at S (pure tt) _ w (unfold pure in S.stay w)
        λ _ _. (same-Spares _ (disconnect-SameRecords e id)).from _
  disconnect_work-Spares DisconnectReason.user w free =
      Moves-bind_at S (load e id >>= mark e) _ w
        (Reads-bind S _ _ w (load-Reads e id) λ found p. mark-Spares w found free p)
        λ _ _. (same-Spares _ (disconnect-SameRecords e id)).from _

  locked_work-Spares :
      (m : Action (Unit {0})) (w : World)
      → Spares e origin w (m w).1
      → Spares e origin w (locked_work e id m w).1
  unfolding locked_work
  locked_work-Spares m w k = Reads-bind S _ _ w (take_connection_lock-Reads e id) λ _ _.
      Moves-bind_at S (or_return error_response m) (λ _. pure unit) w (unfold or_return in k)
        (λ _ _. unfold pure in S.stay _)

run_worker-Spares :
    (e : Env) (origin : PeerOrigin) (worker : Worker) (w : World)
    → IsOpen e origin (target worker) w
    → Spares e origin w (run_worker e worker w).1
unfolding run_worker work
run_worker-Spares e origin (connect_worker id debug reason) w free =
    subst (Spares e origin w) (sym (respond-world (work e (connect_worker id debug reason) w)))
      (locked_work-Spares e origin id _ w (connect_work-Spares e origin id debug reason w free))
run_worker-Spares e origin (disconnect_worker id reason) w free =
    subst (Spares e origin w) (sym (respond-world (work e (disconnect_worker id reason) w)))
      (locked_work-Spares e origin id _ w (disconnect_work-Spares e origin id reason w free))

-- A worker that starts while the caller may access its connection leaves every record of a listing as
-- it was that reads well and that the caller may not access.
pub read_file-run_worker :
    (e : Env) (origin : PeerOrigin) (worker : Worker) (w : World) (id : ConnectionId)
    (c : StoredConnection)
    → IsOpen e origin (target worker) w
    → IsListing w.records
    → load_in e id w.records ≡ ok (some c)
    → may_access c origin ≡ false
    → read_file id (run_worker e worker w).1.records ≡ read_file id w.records
read_file-run_worker e origin worker w id c free l found foreign =
    ((run_worker-Spares e origin worker w free).at l).1 id c found foreign
