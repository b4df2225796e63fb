-- ===== src/Daemon/Dispatch/AdminGate/Workers.antt =====
-- The workers, which ask for no authorization (src/privileged/dispatch.rs).
use mathlib.Core.Path.{subst}
use tunmux.Api.{
  ConnectReason, ConnectionId, DisconnectReason, PrivilegedResponse, reconciliation,
  session_teardown, unit,
}
use tunmux.Daemon.{Env, StoredConnection, World}
use tunmux.Daemon.Disk.{to_disk}
use tunmux.Daemon.Disk.RoundTrip.{Codecs, config_from_disk-again}
use tunmux.Daemon.Dispatch.{error_response}
use tunmux.Daemon.Dispatch.AdminGate.{Evolves, IsUngated, same_records-IsUngated, save-IsUngated}
use tunmux.Daemon.Dispatch.AdminGate.Requests.{O}
use tunmux.Daemon.Dispatch.Handlers.{
  Worker, connect_work, connect_worker, disconnect_work, disconnect_worker, intent, locked_work,
  mark, mark_user_disconnected, resolve_connect_intent, respond, run_worker, work,
}
use tunmux.Daemon.Dispatch.Reading.{load-IsLoaded, load-Reads, take_connection_lock-Reads}
use tunmux.Daemon.Ops.{connect}
use tunmux.Daemon.Ops.Records.{SameRecords, connect-SameRecords, disconnect-SameRecords}
use tunmux.Daemon.Store.{Action, load, read_file, save}
use tunmux.Daemon.Store.Listing.{IsListing}
use tunmux.Exec.{Outcome, done, fail, pure}
use tunmux.Exec.Moves.{
  Moves, Moves-bind, Moves-bind_at, Moves-if, Moves-or_return, Moves-pure, Reads-Moves, Reads-bind,
}
use tunmux.Prelude.{
  Bool, Bool-cases, Option, false, inl, inr, none, refl, some, sym, true, ◌∙◌, ◌≡◌,
}

-- A flag that is written back with nothing else changed.
flagged-IsUngated :
    (e : Env) (laws : Codecs e.platform) (id : ConnectionId) (b : Bool) (w : World)
    (c : StoredConnection)
    → (load e id w).0 ≡ done (some c)
    → IsUngated e.platform w (save e (record c { user_disconnected = b }) w).1
unfolding to_disk
flagged-IsUngated e laws id b w c found =
    let l = load-IsLoaded e id w c found in
    save-IsUngated e id w (record c { user_disconnected = b }) l.on_disk l.held l.is_read.same_id
      (record {
        id = l.is_read.same_id ∙ sym l.is_read.disk_id;
        raw_conf = l.is_read.same_raw_conf;
        config =
            config_from_disk-again e.platform laws l.on_disk.config c.config l.is_read.same_config;
        fingerprint = l.is_read.same_fingerprint;
        global = l.is_read.same_global;
        owner_uid = l.is_read.same_owner;
        interface = l.is_read.same_interface;
        created_at = l.is_read.same_created;
        not_elevated = λ _ m. l.is_read.same_mode ∙ m;
      })

intent-IsUngated :
    (e : Env) (laws : Codecs e.platform) (id : ConnectionId) (reason : ConnectReason) (w : World)
    (found : Option StoredConnection)
    → (load e id w).0 ≡ done found
    → IsUngated e.platform w (intent e reason found w).1
intent-IsUngated e laws id reason w none p = unfold pure in (O e).stay w
intent-IsUngated e laws id ConnectReason.user w (some c) p = elim (Bool-cases c.user_disconnected) [
  | inl flagged ↦ rw flagged (
      Moves-bind_at (O e) (save e (record c { user_disconnected = false })) _ w
        (flagged-IsUngated e laws id false w c p) (λ _ _. unfold pure in (O e).stay _))
  | inr clear ↦ rw clear (unfold pure in (O e).stay w)
]
intent-IsUngated e laws id reconciliation w (some c) p = unfold pure in (O e).stay w

resolve_connect_intent-IsUngated :
    (e : Env) (laws : Codecs e.platform) (id : ConnectionId) (reason : ConnectReason)
    → Moves (IsUngated e.platform) (resolve_connect_intent e id reason)
unfolding resolve_connect_intent
resolve_connect_intent-IsUngated e laws id reason = record {
  from = λ w. Reads-bind (O e) _ _ w (load-Reads e id) (intent-IsUngated e laws id reason w);
}

mark-IsUngated :
    (e : Env) (laws : Codecs e.platform) (id : ConnectionId) (w : World)
    (found : Option StoredConnection)
    → (load e id w).0 ≡ done found
    → IsUngated e.platform w (mark e found w).1
mark-IsUngated e laws id w none p = unfold pure in (O e).stay w
mark-IsUngated e laws id w (some c) p = elim (Bool-cases c.user_disconnected) [
  | inl flagged ↦ rw flagged (unfold pure in (O e).stay w)
  | inr clear ↦ rw clear (flagged-IsUngated e laws id true w c p)
]

mark_user_disconnected-IsUngated :
    (e : Env) (laws : Codecs e.platform) (id : ConnectionId) (reason : DisconnectReason)
    → Moves (IsUngated e.platform) (mark_user_disconnected e id reason)
unfolding mark_user_disconnected
mark_user_disconnected-IsUngated e laws id session_teardown = Moves-pure (O e) tt
mark_user_disconnected-IsUngated e laws id DisconnectReason.user = record {
  from = λ w. Reads-bind (O e) _ _ w (load-Reads e id) (mark-IsUngated e laws id w);
}

same-IsUngated :
    (e : Env) {A : Type 0} (m : Action A) → Moves SameRecords m → Moves (IsUngated e.platform) m
same-IsUngated e m k = record { from = λ w. same_records-IsUngated e.platform w _ (k.from w) }

connect_work-IsUngated :
    (e : Env) (laws : Codecs e.platform) (id : ConnectionId) (debug : Bool) (reason : ConnectReason)
    → Moves (IsUngated e.platform) (connect_work e id debug reason)
unfolding connect_work
connect_work-IsUngated e laws id debug reason =
    Moves-bind (O e) _ _ (resolve_connect_intent-IsUngated e laws id reason) λ go_on.
      Moves-if (O e) go_on (connect e id debug) (pure tt)
        (λ _. same-IsUngated e _ (connect-SameRecords e id debug)) (λ _. Moves-pure (O e) tt)

disconnect_work-IsUngated :
    (e : Env) (laws : Codecs e.platform) (id : ConnectionId) (reason : DisconnectReason)
    → Moves (IsUngated e.platform) (disconnect_work e id reason)
unfolding disconnect_work
disconnect_work-IsUngated e laws id reason =
    Moves-bind (O e) _ _ (mark_user_disconnected-IsUngated e laws id reason)
      λ _. same-IsUngated e _ (disconnect-SameRecords e id)

locked_work-IsUngated :
    (e : Env) (id : ConnectionId) (work : Action (Unit {0}))
    → Moves (IsUngated e.platform) work
    → Moves (IsUngated e.platform) (locked_work e id work)
unfolding locked_work
locked_work-IsUngated e id work k =
    Moves-bind (O e) _ _ (Reads-Moves (O e) _ (take_connection_lock-Reads e id)) λ _.
      Moves-bind (O e) _ _ (Moves-or_return (O e) error_response work k) λ _. Moves-pure (O e) unit

work-IsUngated :
    (e : Env) (laws : Codecs e.platform) (worker : Worker)
    → Moves (IsUngated e.platform) (work e worker)
unfolding work
work-IsUngated e laws (connect_worker id debug reason) =
    locked_work-IsUngated e id _ (connect_work-IsUngated e laws id debug reason)
work-IsUngated e laws (disconnect_worker id reason) =
    locked_work-IsUngated e id _ (disconnect_work-IsUngated e laws id reason)

pub respond-world :
    (r : Outcome PrivilegedResponse PrivilegedResponse × World) → (respond r).1 ≡ r.1
respond-world (done a, w) = refl
respond-world (fail a, w) = refl

-- If what is printed of an address and of a key is read back, then a worker, which never asks for the
-- authorization, leaves every record file of a listing in place: no file appears or disappears, a
-- readable one keeps its id, its text, its fingerprint, its owner, its interface and its time of
-- creation, its stored configuration reads as it did, and a global connection that is started by hand
-- stays so.
pub run_worker-Evolves :
    (e : Env)
    → Codecs e.platform
    → (worker : Worker) (w : World) (id : ConnectionId) → IsListing w.records
    → Evolves e.platform (read_file id w.records) (read_file id (run_worker e worker w).1.records)
unfolding run_worker
run_worker-Evolves e laws worker w id l =
    let k : IsUngated e.platform w (run_worker e worker w).1 =
      subst (IsUngated e.platform w) (sym (respond-world (work e worker w)))
        ((work-IsUngated e laws worker).from w) in
    (k.at l).1 id
