-- ===== src/Daemon/Boot.antt =====
-- Boot reconciliation (src/privileged/connection_store.rs): bringing up the global automatic connections,
-- behind a marker that holds the boot's identifier.
pub mod Once
use tunmux.Api.{ConnectionId, ConnectionStartMode, automatic, manual}
use tunmux.Daemon.{Env, StoredConnection, World}
use tunmux.Daemon.Ops.{connect}
use tunmux.Daemon.Store.{Action, is_active, load, load_all, lock_connection}
use tunmux.Error.{AppError}
use tunmux.Exec.{Outcome, attempt, done, fail, gets, pure, step, ◌>>=◌, ◌>>◌}
use tunmux.Prelude.{
  Bool, List, List_eq, Option, [], false, if◌then◌else◌, map, none, not, retain, some, true, ℕ_eq,
  ◌&&◌, ◌==◌, ◌∷◌,
}
use tunmux.Text.{Str, trim}

abbrev pub is_automatic : ConnectionStartMode → Bool
is_automatic automatic = true
is_automatic manual = false

-- `is_active(id).unwrap_or(false)`
abbrev pub or_false : Outcome AppError Bool → Bool
or_false (done b) = b
or_false (fail _) = false

unfoldable pub seems_active : World → ConnectionId → Bool
unfolding is_active
seems_active w id = or_false (is_active id w).0

abbrev pub is_boot_candidate : World → StoredConnection → Bool
is_boot_candidate w c =
    c.global && is_automatic c.start_mode && not c.user_disconnected && not (seems_active w c.id)

unfoldable pub boot_reconcile_candidates : World → List StoredConnection → List ConnectionId
unfolding seems_active
boot_reconcile_candidates w connections =
    map (λ (c : StoredConnection). c.id) (retain (is_boot_candidate w) connections)

-- the flag is read again under the lock
abbrev pub connect_unless_disconnected :
    Env → ConnectionId → Option StoredConnection → Action (Unit {0})
connect_unless_disconnected e id none = connect e id false
connect_unless_disconnected e id (some c) =
    if c.user_disconnected then pure tt else connect e id false

unfoldable pub reconcile_connect : Env → ConnectionId → Action (Unit {0})
unfolding lock_connection load connect
reconcile_connect e id = do
  lock_connection e id
  found ← load e id
  connect_unless_disconnected e id found

abbrev pub succeeded : {A : Type 0} → Outcome AppError A → Bool
succeeded (done _) = true
succeeded (fail _) = false

-- every candidate is tried; whether all of them connected
unfoldable pub reconcile_each : Env → List ConnectionId → Bool → Action Bool
unfolding reconcile_connect
reconcile_each e [] good = pure good
reconcile_each e (id ∷ rest) good =
    attempt (reconcile_connect e id) >>= λ r. reconcile_each e rest (good && succeeded r)

unfoldable pub reconcile_boot_once : Env → Action Bool
unfolding load_all reconcile_each boot_reconcile_candidates
reconcile_boot_once e = attempt (load_all e) >>= elim [
  | fail _ ↦ pure false
  | done connections ↦ (do
    ids ← gets (λ w. boot_reconcile_candidates w connections)
    reconcile_each e ids true)
]

unfoldable pub already_reconciled_this_boot : Str → World → Bool
unfolding trim
already_reconciled_this_boot boot w = elim w.marker [
  | none ↦ false
  | some contents ↦ trim contents == boot
]

unfoldable pub mark_reconciled_this_boot : Env → Str → Action (Unit {0})
mark_reconciled_this_boot e boot = step (λ w. elim e.write_marker [
  | none ↦ (done tt, record w { marker = some boot })
  | some _ ↦ (done tt, w)
])

unfoldable pub reconcile_gated : Env → Str → Action (Unit {0})
unfolding already_reconciled_this_boot reconcile_boot_once mark_reconciled_this_boot
reconcile_gated e boot = do
  seen ← gets (already_reconciled_this_boot boot)
  if seen then pure tt else do
    good ← reconcile_boot_once e
    if good then mark_reconciled_this_boot e boot else pure tt

unfoldable pub reconcile_boot : Env → Action (Unit {0})
unfolding reconcile_gated reconcile_boot_once
reconcile_boot e = elim e.boot_id [
  | some boot ↦ reconcile_gated e boot
  | none ↦ (reconcile_boot_once e >>= λ _. pure tt)
]
