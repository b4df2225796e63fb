-- ===== src/Daemon/Dispatch/Ownership/Handlers.antt =====
-- The handlers on the records of others (src/privileged/dispatch.rs).
use mathlib.Core.Path.{subst}
use tunmux.Api.{ConnectionId, ConnectionStartMode, PrivilegedResponse, unit}
use tunmux.Daemon.{Env, StoredConnection, World}
use tunmux.Daemon.Dispatch.{
  PeerOrigin, authorize_access, error_response, load_or_return, may_access, save_or_return,
}
use tunmux.Daemon.Dispatch.Add.{elevating, mode_eq, with_mode}
use tunmux.Daemon.Dispatch.AdminGate.Requests.{gate-Reads}
use tunmux.Daemon.Dispatch.Handlers.{handle_remove_connection, handle_set_connection_mode}
use tunmux.Daemon.Dispatch.Ownership.{IsOpen, Spares, Spares-IsPreorder, remove-Spares, save-Spares}
use tunmux.Daemon.Dispatch.Reading.{
  authorize_access-Reads, is_active-Reads, load_or_return-IsLoaded, load_or_return-Reads,
  refuse_active-Reads, require_admin_auth-Reads, take_connection_lock-Reads, take_index_lock-Reads,
}
use tunmux.Daemon.Store.{load, load_in, remove}
use tunmux.Error.{ok}
use tunmux.Exec.{done, or_return, pure, raise, step, ◌>>=◌}
use tunmux.Exec.Moves.{IsPreorder, Moves, Moves-bind_at, Moves-or_return, Reads-bind, ≡-IsPreorder}
use tunmux.Prelude.{Bool-cases, List, Option, arith, inl, inr, some, sym, true, ℕ, ◌≡◌}

pub authorize_access-granted :
    (c : StoredConnection) (origin : PeerOrigin) (w : World)
    → (authorize_access c origin w).0 ≡ done tt
    → may_access c origin ≡ true
unfolding authorize_access pure raise
authorize_access-granted c origin w h = ground arith

pub loaded_in :
    (e : Env) (id : ConnectionId) (w : World) (c : StoredConnection)
    → (load_or_return e id w).0 ≡ done c
    → load_in e id w.records ≡ ok (some c)
unfolding load_or_return load or_return step ◌>>=◌ raise pure
loaded_in e id w c h = ground arith

-- the record that was loaded is the one that the caller may access
pub loaded-IsOpen :
    (e : Env) (origin : PeerOrigin) (id : ConnectionId) (w : World) (c : StoredConnection)
    → (load_or_return e id w).0 ≡ done c
    → (authorize_access c origin w).0 ≡ done tt
    → IsOpen e origin id w
loaded-IsOpen e origin id w c found passed d there =
    let h : load_in e id w.records ≡ ok (some c) = loaded_in e id w c found in
    let same : c ≡ d = cc in rw (sym same) (authorize_access-granted c origin w passed)

module _ (e : Env) (origin : PeerOrigin) where
  abbrev S : IsPreorder (Spares e origin)
  S = Spares-IsPreorder e origin

  pub save_then-Spares :
      (t : StoredConnection) (r : PrivilegedResponse) (w : World)
      → IsOpen e origin t.id w
      → Spares e origin w ((save_or_return e t >>= λ _. pure r) w).1
  unfolding save_or_return
  save_then-Spares t r w free =
      Moves-bind_at S (save_or_return e t) (λ _. pure r) w
        (unfold or_return in save-Spares e origin t w free) (λ _ _. unfold pure in S.stay _)

  pub set_mode-Spares :
      (id : ConnectionId) (mode : ConnectionStartMode) (form : Option (List ℕ))
      → Moves (Spares e origin) (handle_set_connection_mode e origin id mode form)
  unfolding handle_set_connection_mode
  set_mode-Spares id mode form = record {
    from = λ w. Reads-bind S _ _ w (take_connection_lock-Reads e id) λ _ _.
        Reads-bind S _ _ w (load_or_return-Reads e id) λ c found.
          Reads-bind S _ _ w (authorize_access-Reads c origin) λ _ passed.
            Reads-bind S _ _ w (gate-Reads e (elevating c mode) form) λ _ _.
              elim (Bool-cases (mode_eq c.start_mode mode)) [
                | inl same ↦ rw same (unfold pure in S.stay w)
                | inr changed ↦ rw changed (
                    save_then-Spares (record (with_mode mode c) { updated_at = e.now }) unit w
                      (subst (λ i. IsOpen e origin i w)
                        (sym (load_or_return-IsLoaded e id w c found).is_read.same_id)
                        (loaded-IsOpen e origin id w c found passed)))
              ];
  }

  pub remove-Spares_handler :
      (id : ConnectionId) (form : Option (List ℕ))
      → Moves (Spares e origin) (handle_remove_connection e origin id form)
  unfolding handle_remove_connection
  remove-Spares_handler id form = record {
    from = λ w. Reads-bind S _ _ w (take_index_lock-Reads e) λ _ _.
        Reads-bind S _ _ w (load_or_return-Reads e id) λ c found.
          Reads-bind S _ _ w (authorize_access-Reads c origin) λ _ passed.
            Reads-bind S _ _ w (take_connection_lock-Reads e id) λ _ _.
              Reads-bind S _ _ w (Moves-or_return ≡-IsPreorder _ _ (is_active-Reads id)) λ active _.
                Reads-bind S _ _ w (refuse_active-Reads active) λ _ _.
                  Reads-bind S _ _ w (require_admin_auth-Reads e form) λ _ _.
                    Moves-bind_at S (or_return error_response (remove e id)) (λ _. pure unit) w
                      (unfold or_return in
                        remove-Spares e origin id w (loaded-IsOpen e origin id w c found passed))
                      (λ _ _. unfold pure in S.stay _);
  }
