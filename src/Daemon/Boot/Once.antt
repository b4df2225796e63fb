-- ===== src/Daemon/Boot/Once.antt =====
-- Boot reconciliation a second time (src/privileged/connection_store.rs).
use mathlib.Core.Path.{ap}
use tunmux.Daemon.{Env, World}
use tunmux.Daemon.Boot.{
  already_reconciled_this_boot, mark_reconciled_this_boot, reconcile_boot, reconcile_boot_once,
  reconcile_gated,
}
use tunmux.Exec.{done, gets, pure, step, ◌>>=◌}
use tunmux.Prelude.{Bool-cases, List_eq, inl, inr, none, refl, some, true, ℕ, ℕ_eq, ◌∙◌, ◌≡◌}
use tunmux.Text.{Str, trim}

gated-seen :
    (e : Env) (boot : Str) (w : World)
    → already_reconciled_this_boot boot w ≡ true
    → reconcile_gated e boot w ≡ (done tt, w)
unfolding reconcile_gated ◌>>=◌ gets pure
gated-seen e boot w seen = rw seen refl

marked-seen :
    (e : Env) (boot : Str) (w : World)
    → trim boot ≡ boot
    → e.write_marker ≡ none
    → already_reconciled_this_boot boot (mark_reconciled_this_boot e boot w).1 ≡ true
unfolding already_reconciled_this_boot mark_reconciled_this_boot step
marked-seen e boot w p fits =
    rw (fits, p) (((List_eq {A = ℕ} ⦃e = ℕ_eq⦄).is_eq_iff boot boot).1 refl)

gated-marks :
    (e : Env) (boot : Str) (w : World)
    → trim boot ≡ boot
    → e.write_marker ≡ none
    → (reconcile_boot_once e w).0 ≡ done true
    → already_reconciled_this_boot boot (reconcile_gated e boot w).1 ≡ true
unfolding reconcile_gated ◌>>=◌ gets pure
gated-marks e boot w p fits good = elim (Bool-cases (already_reconciled_this_boot boot w)) [
  | inl seen ↦ rw seen seen
  | inr unseen ↦ rw (unseen, good) (marked-seen e boot (reconcile_boot_once e w).1 p fits)
]

by_marker :
    (t u : World) (boot : Str)
    → t.marker ≡ u.marker
    → already_reconciled_this_boot boot u ≡ true
    → already_reconciled_this_boot boot t ≡ true
unfolding already_reconciled_this_boot
by_marker t u boot same seen = rw same seen

-- Once a reconciliation has found every candidate connected and its marker is written, no later one in
-- the same boot does anything, whatever happened to the records and the connections in between, and
-- whatever the system then answers, as long as the marker's file is as it was left: a connection that
-- a user has disconnected since stays down. The boot's identifier is read with its blanks trimmed.
pub reconcile_boot-once :
    (e later : Env) (boot : Str) (w t : World)
    → e.boot_id ≡ some boot
    → later.boot_id ≡ some boot
    → trim boot ≡ boot
    → e.write_marker ≡ none
    → (reconcile_boot_once e w).0 ≡ done true
    → t.marker ≡ (reconcile_boot e w).1.marker
    → reconcile_boot later t ≡ (done tt, t)
unfolding reconcile_boot already_reconciled_this_boot
reconcile_boot-once e later boot w t named again p fits good kept =
    let left : (reconcile_boot e w).1 ≡ (reconcile_gated e boot w).1 = rw named refl in
    let marked = gated-marks e boot w p fits good in
    let same : t.marker ≡ (reconcile_gated e boot w).1.marker = kept ∙ ap (λ u. u.marker) left in
    rw again (gated-seen later boot t (by_marker t (reconcile_gated e boot w).1 boot same marked))
