-- ===== src/Daemon/Dispatch/Intent.antt =====
-- The explicit disconnect of a user, and the connects that reconciliation asks for
-- (src/privileged/dispatch.rs).
use mathlib.Core.Path.{subst}
use tunmux.Api.{ConnectionId, interface_name, reconciliation, unit, user}
use tunmux.Daemon.{Env, StoredConnection, StoredConnectionDisk, World}
use tunmux.Daemon.Disk.{from_disk, to_disk}
use tunmux.Daemon.Disk.RoundTrip.{Codecs, from_disk-HasKeys, from_disk-to_disk}
use tunmux.Daemon.Dispatch.{error_response, take_connection_lock}
use tunmux.Daemon.Dispatch.AdminGate.Workers.{respond-world}
use tunmux.Daemon.Dispatch.Handlers.{
  connect_work, connect_worker, disconnect_work, disconnect_worker, locked_work, mark,
  mark_user_disconnected, resolve_connect_intent, run_worker, work,
}
use tunmux.Daemon.Dispatch.Reading.{load_in-IsLoaded}
use tunmux.Daemon.Ops.{disconnect}
use tunmux.Daemon.Ops.Records.{disconnect-SameRecords}
use tunmux.Daemon.Store.{
  Action, from_disk_checked, load, load_in, lock_connection, read_content, save, write_file,
}
use tunmux.Daemon.Store.Files.{read_file-write_file}
use tunmux.Error.{Result, err, map_ok, ok}
use tunmux.Exec.{done, or_return, pure, step, then_pure-state, ◌>>=◌}
use tunmux.Prelude.{
  Bool, Bool-cases, List_eq, arith, inl, inr, nat_eq_iff, none, refl, some, sym, true, ℕ, ℕ_eq, ◌∙◌,
  ◌≡◌,
}
use tunmux.Wireguard.Parser.Accepted.{HasKeys}

from_disk-checked :
    (e : Env) (id : ConnectionId) (d : StoredConnectionDisk) (c : StoredConnection)
    → from_disk_checked e id d ≡ ok c
    → from_disk e.platform d ≡ ok c
unfolding from_disk_checked
from_disk-checked e id d c h = ground arith

loaded-HasKeys :
    (e : Env) (id : ConnectionId) (w : World) (c : StoredConnection)
    → load_in e id w.records ≡ ok (some c)
    → HasKeys c.config
unfolding load_in read_content
loaded-HasKeys e id w c h =
    let l = load_in-IsLoaded e id w c h in
    from_disk-HasKeys e.platform l.on_disk c (
      from_disk-checked e id l.on_disk c
        (map_ok-some (from_disk_checked e id l.on_disk) c (rw l.held at h)))
  where
    map_ok-some :
        (r : Result StoredConnection) (c : StoredConnection)
        → map_ok some r ≡ ok (some c)
        → r ≡ ok c
    map_ok-some (ok a) c h = cc
    map_ok-some (err x) c h = absurd (cc)

checked-from_disk :
    (e : Env) (id : ConnectionId) (d : StoredConnectionDisk) (c : StoredConnection)
    → d.id ≡ id
    → d.interface ≡ interface_name e.uuids id
    → from_disk e.platform d ≡ ok c
    → from_disk_checked e id d ≡ ok c
unfolding from_disk_checked
checked-from_disk e id d c p q h =
    let r : d.interface ≡ interface_name e.uuids d.id = rw p q in
    rw
      (
        (nat_eq_iff d.id id).1 p,
        ((List_eq {A = ℕ} ⦃e = ℕ_eq⦄).is_eq_iff d.interface (interface_name e.uuids d.id)).1 r,
      )
      h

-- a flag that was saved is read back
reload :
    (e : Env) (id : ConnectionId) (b : Bool) (w : World) (c : StoredConnection)
    → Codecs e.platform
    → load_in e id w.records ≡ ok (some c)
    → load_in e id
        (write_file id (to_disk e.platform (record c { user_disconnected = b })) w.records)
      ≡ ok (some (record c { user_disconnected = b }))
unfolding load_in read_content from_disk_checked
reload e id b w c laws h =
    let l = load_in-IsLoaded e id w c h in
    let d : StoredConnection = record c { user_disconnected = b } in
    let round : from_disk e.platform (to_disk e.platform d) ≡ ok d =
      from_disk-to_disk e.platform laws d (loaded-HasKeys e id w c h) in
    rw
      (
        read_file-write_file id id (to_disk e.platform d) w.records,
        (nat_eq_iff id id).1 refl,
        checked-from_disk e id (to_disk e.platform d) d (unfold to_disk in l.is_read.same_id)
            (unfold to_disk in l.is_read.own_interface) round,
      )
      refl

-- a record that a user disconnected is found with its flag set
abbrev pub IsFlagged : Env → ConnectionId → World → Type 0
IsFlagged e id w =
    (c : StoredConnection) × (load_in e id w.records ≡ ok (some c)) × (c.user_disconnected ≡ true)

saved :
    (e : Env) (w : World) (c : StoredConnection)
    → e.write_record c.id ≡ none
    → (save e c w).1.records ≡ write_file c.id (to_disk e.platform c) w.records
unfolding save step
saved e w c fits = rw fits refl

saved-IsFlagged :
    (e : Env) (id : ConnectionId) (w : World) (c : StoredConnection)
    → Codecs e.platform
    → load_in e id w.records ≡ ok (some c)
    → e.write_record id ≡ none
    → IsFlagged e id (save e (record c { user_disconnected = true }) w).1
saved-IsFlagged e id w c laws h fits =
    let d : StoredConnection = record c { user_disconnected = true } in
    let same : c.id ≡ id = (load_in-IsLoaded e id w c h).is_read.same_id in
    let written : (save e d w).1.records ≡ write_file id (to_disk e.platform d) w.records =
      subst (λ i. (save e d w).1.records ≡ write_file i (to_disk e.platform d) w.records) same
        (saved e w d (rw same fits)) in
    (d, rw written (reload e id true w c laws h), refl)

mark-IsFlagged :
    (e : Env) (id : ConnectionId) (w : World) (c : StoredConnection)
    → Codecs e.platform
    → load_in e id w.records ≡ ok (some c)
    → e.write_record id ≡ none
    → IsFlagged e id (mark e (some c) w).1
unfolding pure
mark-IsFlagged e id w c laws h fits = elim (Bool-cases c.user_disconnected) [
  | inl flagged ↦ rw flagged (c, h, flagged)
  | inr clear ↦ rw clear (saved-IsFlagged e id w c laws h fits)
]

mark-done :
    (e : Env) (id : ConnectionId) (w : World) (c : StoredConnection)
    → load_in e id w.records ≡ ok (some c)
    → e.write_record id ≡ none
    → (mark e (some c) w).0 ≡ done tt
unfolding pure save step
mark-done e id w c h fits = elim (Bool-cases c.user_disconnected) [
  | inl flagged ↦ rw flagged refl
  | inr clear ↦
      let same : c.id ≡ id = (load_in-IsLoaded e id w c h).is_read.same_id in
      rw (clear, same, fits) refl
]

same-IsFlagged :
    (e : Env) (id : ConnectionId) (w t : World)
    → t.records ≡ w.records
    → IsFlagged e id w
    → IsFlagged e id t
same-IsFlagged e id w t p (c, h, flagged) = (c, rw p h, flagged)

disconnected-IsFlagged :
    (e : Env) (id : ConnectionId) (w : World) (c : StoredConnection)
    → Codecs e.platform
    → load_in e id w.records ≡ ok (some c)
    → e.write_record id ≡ none
    → IsFlagged e id (disconnect_work e id user w).1
unfolding disconnect_work mark_user_disconnected load step ◌>>=◌
disconnected-IsFlagged e id w c laws h fits =
    let marked : IsFlagged e id (mark e (some c) w).1 = mark-IsFlagged e id w c laws h fits in
    let v : World = (mark e (some c) w).1 in
    rw (h, mark-done e id w c h fits)
      (same-IsFlagged e id v (disconnect e id v).1 ((disconnect-SameRecords e id).from v) marked)

locked-state :
    (e : Env) (id : ConnectionId) (m : Action (Unit {0})) (w : World)
    → e.connection_lock id ≡ none
    → (locked_work e id m w).1 ≡ (m w).1
unfolding locked_work take_connection_lock lock_connection or_return step ◌>>=◌
locked-state e id m w free = rw free (then_pure-state (or_return error_response m) unit w)

-- a connect that reconciliation asks for leaves a flagged connection alone
left_alone :
    (f : Env) (id : ConnectionId) (debug : Bool) (w : World)
    → IsFlagged f id w
    → f.connection_lock id ≡ none
    → run_worker f (connect_worker id debug reconciliation) w ≡ (unit, w)
unfolding run_worker work locked_work take_connection_lock lock_connection or_return step ◌>>=◌
    connect_work resolve_connect_intent load pure
left_alone f id debug w (c, h, flagged) free = rw (free, h, flagged) refl

same_env :
    (e f : Env) (id : ConnectionId) (w : World)
    → f.platform ≡ e.platform
    → f.uuids ≡ e.uuids
    → IsFlagged e id w
    → IsFlagged f id w
unfolding load_in read_content from_disk_checked
same_env e f id w p q (c, h, flagged) = (c, rw (p, q) h, flagged)

-- After a user's disconnect of a stored connection, whether the tunnel came down or not, a connect that
-- reconciliation asks for later succeeds without changing anything. The connection's lock must be
-- free both times and the flag must reach the disk; what is printed of an address and of a key must
-- be read back.
pub disconnect-sticks :
    (e f : Env) (id : ConnectionId) (debug : Bool) (w : World) (c : StoredConnection)
    → Codecs e.platform
    → f.platform ≡ e.platform
    → f.uuids ≡ e.uuids
    → load_in e id w.records ≡ ok (some c)
    → e.connection_lock id ≡ none
    → f.connection_lock id ≡ none
    → e.write_record id ≡ none
    → run_worker f
        (connect_worker id debug reconciliation)
        (run_worker e (disconnect_worker id user) w).1
      ≡ (unit, (run_worker e (disconnect_worker id user) w).1)
unfolding run_worker work
disconnect-sticks e f id debug w c laws p q h free later fits =
    left_alone f id debug t (same_env e f id t p q flagged) later
  where
    t : World
    t = (run_worker e (disconnect_worker id user) w).1

    worked : t ≡ (locked_work e id (disconnect_work e id user) w).1
    worked = respond-world (locked_work e id (disconnect_work e id user) w)

    flagged : IsFlagged e id t
    flagged =
        subst (IsFlagged e id) (sym (worked ∙ locked-state e id (disconnect_work e id user) w free))
          (disconnected-IsFlagged e id w c laws h fits)
