-- ===== src/Daemon/Dispatch/Ownership/Adding.antt =====
-- Adding a connection, and the records of others (`handle_add_connection`, src/privileged/dispatch.rs).
use mathlib.Core.Path.{subst}
use tunmux.Api.{AddRequest, ConnectionId, connection_id}
use tunmux.Daemon.{Env, StoredConnection, StoredConnectionDisk, World}
use tunmux.Daemon.Dispatch.{
  PeerOrigin, attributed_owner_uid, error_response, is_root, may_access, socket, stdio, uid,
}
use tunmux.Daemon.Dispatch.Add.{
  add_parsed, elevating, existing_or_new, handle_add_connection, mode_eq, name_changes, new_record,
  owner_of, reconcile_existing_add, store_new, updated,
}
use tunmux.Daemon.Dispatch.AdminGate.Requests.{gate-Reads}
use tunmux.Daemon.Dispatch.Ownership.{IsOpen, Spares, Spares-IsPreorder}
use tunmux.Daemon.Dispatch.Ownership.Fresh.{allocate-fresh}
use tunmux.Daemon.Dispatch.Ownership.Handlers.{save_then-Spares}
use tunmux.Daemon.Dispatch.Reading.{
  allocate-Reads, check_free_name-Reads, check_new_name-Reads, find_by_identity-IsListed,
  find_by_identity-Reads, lift-Reads, load_in-IsLoaded, require_admin_auth-Reads,
  take_connection_lock-Reads, take_index_lock-Reads,
}
use tunmux.Daemon.Store.{
  allocate_unique_interface, find_by_identity, has_identity, load_in, read_file,
}
use tunmux.Daemon.Store.Listing.{IsListed}
use tunmux.Exec.{done, or_return, or_return-done, pure}
use tunmux.Exec.Moves.{
  IsPreorder, Moves, Moves-bind, Moves-or_return, Moves-raise, Reads-bind, Reads-Moves,
  ≡-IsPreorder,
}
use tunmux.Prelude.{
  Bool, Bool-cases, Bool_eq, Option, Option_eq, and-eq-true, arith, false, inl, inr, nat_eq,
  nat_eq_iff, none, not, refl, some, sym, true, ℕ, ℕ_eq, ◌&&◌, ◌==◌, ◌||◌, ◌∙◌, ◌≡◌,
}
use tunmux.Text.{Str}
use tunmux.Wireguard.{ConnectionConfig}
use tunmux.Wireguard.Fingerprint.{fingerprint}

is_root_if_allowed : (root : Bool) → true && not root ≡ false → root ≡ true
is_root_if_allowed true h = refl
is_root_if_allowed false h = absurd (cc)

or_same : (a b : Bool) → b ≡ true → a || b ≡ true
or_same a b h = ground (arith, h)

-- the caller may access what it may add
identity-access :
    (e : Env) (origin : PeerOrigin) (global : Bool) (fp : Str) (c d : StoredConnection)
    → global && not (is_root origin) ≡ false
    → has_identity fp global (owner_of e origin global) c ≡ true
    → d.global ≡ c.global
    → d.owner_uid ≡ c.owner_uid
    → may_access d origin ≡ true
unfolding is_root uid attributed_owner_uid
identity-access e (socket u) true fp c d fine found g o =
    let (named, _) = and-eq-true _ _ found in
    let (_, same) = and-eq-true _ _ named in
    let shared : c.global ≡ true = (Bool_eq.is_eq_iff c.global true).0 same in
    rw (g, shared) (is_root_if_allowed (u == 0) fine)
identity-access e (socket u) false fp c d fine found g o =
    let (named, owned) = and-eq-true _ _ found in
    let (_, same) = and-eq-true _ _ named in
    let private : c.global ≡ false = (Bool_eq.is_eq_iff c.global false).0 same in
    let own : c.owner_uid ≡ some u =
      ((Option_eq {A = ℕ} ⦃e = ℕ_eq⦄).is_eq_iff c.owner_uid (some u)).0 owned in
    rw (g, private, o, own) (or_same (u == 0) (nat_eq u u) ((nat_eq_iff u u).1 refl))
identity-access e stdio global fp c d fine found g o = ground arith

listed-IsOpen :
    (e : Env) (origin : PeerOrigin) (global : Bool) (fp : Str) (w : World) (c : StoredConnection)
    → global && not (is_root origin) ≡ false
    → IsListed e w.records c
    → has_identity fp global (owner_of e origin global) c ≡ true
    → IsOpen e origin c.id w
listed-IsOpen e origin global fp w c fine l found d there =
    let m = load_in-IsLoaded e c.id w d there in
    let same : m.on_disk ≡ l.on_disk = cc (m.held, l.held) in
    identity-access e origin global fp c d fine found
      (subst (λ (x : StoredConnectionDisk). d.global ≡ x.global) same m.is_read.same_global
        ∙ sym l.is_read.same_global)
      (subst (λ (x : StoredConnectionDisk). d.owner_uid ≡ x.owner_uid) same m.is_read.same_owner
        ∙ sym l.is_read.same_owner)

module _ (e : Env) (origin : PeerOrigin) where
  abbrev S : IsPreorder (Spares e origin)
  S = Spares-IsPreorder e origin

  reconcile_existing-Spares :
      (r : AddRequest) (c : StoredConnection) (w : World)
      → IsOpen e origin c.id w
      → Spares e origin w (reconcile_existing_add e r c w).1
  unfolding reconcile_existing_add
  reconcile_existing-Spares r c w free =
      elim (Bool-cases (not (name_changes r.name c) && mode_eq r.start_mode c.start_mode)) [
        | inl same ↦ rw same (unfold pure in S.stay w)
        | inr changed ↦ rw changed (
            Reads-bind S _ _ w (check_new_name-Reads e c r.name r.force) λ _ _.
              Reads-bind S _ _ w (gate-Reads e (elevating c r.start_mode) r.auth_external_form)
                λ _ _. Reads-bind S _ _ w (take_connection_lock-Reads e c.id) λ _ _.
                  save_then-Spares e origin (updated e r.name r.start_mode c) (connection_id c.id) w
                    (let same : (updated e r.name r.start_mode c).id ≡ c.id = ground arith in
                      subst (λ i. IsOpen e origin i w) (sym same) free))
      ]

  fresh-IsOpen :
      (id : ConnectionId) (w : World) → read_file id w.records ≡ none → IsOpen e origin id w
  unfolding load_in
  fresh-IsOpen id w absent c there = absurd (cc (rw absent at there))

  store_new-Spares :
      (r : AddRequest) (owner : Option ℕ) (text : Str) (parsed : ConnectionConfig) (w : World)
      → Spares e origin w (store_new e r owner text parsed w).1
  unfolding store_new
  store_new-Spares r owner text parsed w =
      Reads-bind S _ _ w (check_free_name-Reads e r.name r.force r.global owner) λ _ _.
        Reads-bind S _ _ w (require_admin_auth-Reads e r.auth_external_form) λ _ _.
          Reads-bind S _ _ w (Moves-or_return ≡-IsPreorder _ _ (allocate-Reads e)) λ a found.
            let (id, interface) = a in
            let (absent, _) = allocate-fresh e w id interface (
              or_return-done error_response (allocate_unique_interface e) w (id, interface)
                found) in
            save_then-Spares e origin (new_record e r owner text parsed id interface)
              (connection_id id) w (fresh-IsOpen id w absent)

  existing_or_new-Spares :
      (r : AddRequest) (text : Str) (parsed : ConnectionConfig) (existing : Option StoredConnection)
      (w : World)
      → r.global && not (is_root origin) ≡ false
      → (or_return error_response
          (find_by_identity e (fingerprint e.platform parsed) r.global (owner_of e origin r.global))
          w).0
        ≡ done existing
      → Spares e origin w
          (existing_or_new e r (owner_of e origin r.global) text parsed existing w).1
  existing_or_new-Spares r text parsed none w fine found =
      store_new-Spares r (owner_of e origin r.global) text parsed w
  existing_or_new-Spares r text parsed (some c) w fine found = record {
    at = λ h.
        let fp = fingerprint e.platform parsed in
        let owner = owner_of e origin r.global in
        let (l, same) =
          find_by_identity-IsListed e fp r.global owner w c h
            (or_return-done error_response (find_by_identity e fp r.global owner) w _ found) in
        (reconcile_existing-Spares r c w (listed-IsOpen e origin r.global fp w c fine l same)).at h;
  }

  add_parsed-Spares :
      (r : AddRequest) (text : Str) (parsed : ConnectionConfig)
      → r.global && not (is_root origin) ≡ false
      → Moves (Spares e origin) (add_parsed e r (owner_of e origin r.global) text parsed)
  unfolding add_parsed
  add_parsed-Spares r text parsed fine = record {
    from = λ w. Reads-bind S _ _ w (take_index_lock-Reads e) λ _ _.
        Reads-bind S _ _ w
          (Moves-or_return ≡-IsPreorder _ _ (find_by_identity-Reads e _ r.global _))
          λ existing found. existing_or_new-Spares r text parsed existing w fine found;
  }

  pub add-Spares : (r : AddRequest) → Moves (Spares e origin) (handle_add_connection e origin r)
  unfolding handle_add_connection
  add-Spares r = elim (Bool-cases (r.global && not (is_root origin))) [
    | inl outsider ↦ rw outsider (Moves-raise S _)
    | inr fine ↦ rw fine (
        Moves-bind S _ _ (Reads-Moves S _ (Moves-or_return ≡-IsPreorder _ _ (lift-Reads _)))
          λ parsed. add_parsed-Spares r _ parsed fine)
  ]
