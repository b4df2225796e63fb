-- ===== src/Daemon/Dispatch/AdminGate/Requests.antt =====
-- The handlers without a granted authorization (src/privileged/dispatch.rs).
use tunmux.Api.{
  AddRequest, ConnectionId, ConnectionStartMode, PrivilegedResponse, connection_id, manual, unit,
}
use tunmux.Daemon.{Env, StoredConnection, StoredConnectionDisk, World, readable}
use mathlib.Core.Path.{ap}
use tunmux.Daemon.Disk.{config_from_disk, config_to_disk, to_disk}
use tunmux.Daemon.Disk.RoundTrip.{Codecs, config_from_disk-again}
use tunmux.Daemon.Dispatch.{
  PeerOrigin, Reply, error_response, is_root, require_admin_auth, save_or_return,
}
use tunmux.Daemon.Dispatch.Add.{
  add_parsed, elevating, existing_or_new, handle_add_connection, mode_eq, name_changes, owner_of,
  reconcile_existing_add, store_new, updated, with_mode,
}
use tunmux.Daemon.Dispatch.AdminGate.{IsUngated, IsUngated-IsPreorder, Retains, save-IsUngated}
use tunmux.Daemon.Dispatch.Handlers.{handle_remove_connection, handle_set_connection_mode}
use tunmux.Daemon.Dispatch.Reading.{
  authorize_access-Reads, check_free_name-Reads, check_new_name-Reads, find_by_identity-IsListed,
  find_by_identity-Reads, granted, is_active-Reads, lift-Reads, load_or_return-IsLoaded,
  load_or_return-Reads, refuse_active-Reads, require_admin_auth-Reads, require_admin_auth-granted,
  take_connection_lock-Reads, take_index_lock-Reads,
}
use tunmux.Daemon.Store.{find_by_identity, read_file}
use tunmux.Daemon.Store.Files.{IsRead}
use tunmux.Daemon.Store.Listing.{IsListed, IsListing}
use tunmux.Exec.{done, or_return, or_return-done, pure, ◌>>=◌}
use tunmux.Exec.Moves.{
  IsPreorder, Moves, Moves-bind_at, Moves-or_return, Moves-pure, Moves-raise, Reads, Reads-bind,
  ≡-IsPreorder,
}
use tunmux.Prelude.{
  Bool, Bool-cases, List, Option, arith, false, if◌then◌else◌, inl, inr, none, not, refl, some, sym,
  true, ℕ, ◌&&◌, ◌∙◌, ◌≡◌,
}
use tunmux.Text.{Str}
use tunmux.Wireguard.{ConnectionConfig}
use tunmux.Wireguard.Fingerprint.{fingerprint}

abbrev pub O : (e : Env) → IsPreorder (IsUngated e.platform)
O e = IsUngated-IsPreorder e.platform

save_then-IsUngated :
    (e : Env) (id : ConnectionId) (w : World) (t : StoredConnection) (r : PrivilegedResponse)
    (d : StoredConnectionDisk)
    → read_file id w.records ≡ some (readable d)
    → t.id ≡ id
    → Retains e.platform d (to_disk e.platform t)
    → IsUngated e.platform w ((save_or_return e t >>= λ _. pure r) w).1
unfolding save_or_return
save_then-IsUngated e id w t r d held p h =
    Moves-bind_at (O e) (save_or_return e t) (λ _. pure r) w
      (unfold or_return in save-IsUngated e id w t d held p h) (λ _ _. unfold pure in (O e).stay _)

-- the optional step of a handler that asks for the authorization
abbrev pub gate : Env → Bool → Option (List ℕ) → Reply (Unit {0})
gate e needed form = if needed then require_admin_auth e form else pure tt

pub gate-Reads : (e : Env) (needed : Bool) (form : Option (List ℕ)) → Reads (gate e needed form)
gate-Reads e true form = require_admin_auth-Reads e form
gate-Reads e false form = Moves-pure ≡-IsPreorder tt

gate_closed :
    (e : Env) (needed : Bool) (form : Option (List ℕ)) (w : World)
    → granted e form ≡ false
    → (gate e needed form w).0 ≡ done tt
    → needed ≡ false
gate_closed e true form w denied h = cc (require_admin_auth-granted e form w h)
gate_closed e false form w denied h = refl

module _ (e : Env) (laws : Codecs e.platform) (form : Option (List ℕ))
    (denied : granted e form ≡ false) where
  -- an update that keeps the configuration and does not elevate
  kept-Retains :
      (id : ConnectionId) (d : StoredConnectionDisk) (c t : StoredConnection)
      → IsRead e id d c
      → (t.id ≡ c.id)
        × (t.raw_conf ≡ c.raw_conf)
        × (t.config ≡ c.config)
        × (t.fingerprint ≡ c.fingerprint)
        × (t.global ≡ c.global)
        × (t.owner_uid ≡ c.owner_uid)
        × (t.interface ≡ c.interface)
        × (t.created_at ≡ c.created_at)
      → (c.global ≡ true → c.start_mode ≡ manual → t.start_mode ≡ manual)
      → Retains e.platform d (to_disk e.platform t)
  unfolding to_disk
  kept-Retains id d c t r k m = record {
    id = k.0 ∙ r.same_id ∙ sym r.disk_id;
    raw_conf = k.1 ∙ r.same_raw_conf;
    config =
        ap (λ g. config_from_disk e.platform (config_to_disk e.platform g)) k.2
        ∙ config_from_disk-again e.platform laws d.config c.config r.same_config;
    fingerprint = k.3 ∙ r.same_fingerprint;
    global = k.4 ∙ r.same_global;
    owner_uid = k.5 ∙ r.same_owner;
    interface = k.6 ∙ r.same_interface;
    created_at = k.7 ∙ r.same_created;
    not_elevated = λ g n. m (r.same_global ∙ g) (r.same_mode ∙ n);
  }

  with_mode-Retains :
      (id : ConnectionId) (d : StoredConnectionDisk) (c : StoredConnection)
      (mode : ConnectionStartMode)
      → IsRead e id d c
      → elevating c mode ≡ false
      → Retains e.platform d (to_disk e.platform (record (with_mode mode c) { updated_at = e.now }))
  with_mode-Retains id d c mode r h =
      kept-Retains id d c _ r (refl, refl, refl, refl, refl, refl, refl, refl)
        (λ g m. ground (arith, g, m, h))

  updated-Retains :
      (id : ConnectionId) (d : StoredConnectionDisk) (c : StoredConnection) (name : Option Str)
      (mode : ConnectionStartMode)
      → IsRead e id d c
      → elevating c mode ≡ false
      → Retains e.platform d (to_disk e.platform (updated e name mode c))
  updated-Retains id d c name mode r h =
      kept-Retains id d c (updated e name mode c) r
        (
          ground arith,
          ground arith,
          ground arith,
          ground arith,
          ground arith,
          ground arith,
          ground arith,
          ground arith,
        )
        (λ g m. ground (arith, g, m, h))

  pub set_mode-IsUngated :
      (origin : PeerOrigin) (id : ConnectionId) (mode : ConnectionStartMode)
      → Moves (IsUngated e.platform) (handle_set_connection_mode e origin id mode form)
  unfolding handle_set_connection_mode
  set_mode-IsUngated origin id mode = record {
    from = λ w. Reads-bind (O e) _ _ w (take_connection_lock-Reads e id) λ _ _.
        Reads-bind (O e) _ _ w (load_or_return-Reads e id) λ c found.
          Reads-bind (O e) _ _ w (authorize_access-Reads c origin) λ _ _.
            Reads-bind (O e) _ _ w (gate-Reads e (elevating c mode) form) λ _ passed.
              elim (Bool-cases (mode_eq c.start_mode mode)) [
                | inl same ↦ rw same (unfold pure in (O e).stay w)
                | inr changed ↦
                    let l = load_or_return-IsLoaded e id w c found in
                    rw changed (
                      save_then-IsUngated e id w _ unit l.on_disk l.held l.is_read.same_id (
                        with_mode-Retains id l.on_disk c mode l.is_read
                          (gate_closed e (elevating c mode) form w denied passed)))
              ];
  }

  pub remove-IsUngated :
      (origin : PeerOrigin) (id : ConnectionId)
      → Moves (IsUngated e.platform) (handle_remove_connection e origin id form)
  unfolding handle_remove_connection
  remove-IsUngated origin id = record {
    from = λ w. Reads-bind (O e) _ _ w (take_index_lock-Reads e) λ _ _.
        Reads-bind (O e) _ _ w (load_or_return-Reads e id) λ c found.
          Reads-bind (O e) _ _ w (authorize_access-Reads c origin) λ _ _.
            Reads-bind (O e) _ _ w (take_connection_lock-Reads e id) λ _ _.
              Reads-bind (O e) _ _ w (Moves-or_return ≡-IsPreorder _ _ (is_active-Reads id))
                λ active _. Reads-bind (O e) _ _ w (refuse_active-Reads active) λ _ _.
                  Reads-bind (O e) _ _ w (require_admin_auth-Reads e form)
                    λ _ passed. absurd (cc (denied, require_admin_auth-granted e form w passed));
  }

  with_listing :
      (w t : World) → (IsListing w.records → IsUngated e.platform w t) → IsUngated e.platform w t
  with_listing w t f = record { at = λ h. (f h).at h }

  reconcile_existing-IsUngated :
      (r : AddRequest) (c : StoredConnection) (w : World)
      → r.auth_external_form ≡ form
      → IsListed e w.records c
      → IsUngated e.platform w (reconcile_existing_add e r c w).1
  unfolding reconcile_existing_add
  reconcile_existing-IsUngated r c w p l =
      elim (Bool-cases (not (name_changes r.name c) && mode_eq r.start_mode c.start_mode)) [
        | inl same ↦ rw same (unfold pure in (O e).stay w)
        | inr changed ↦ rw changed (
            Reads-bind (O e) _ _ w (check_new_name-Reads e c r.name r.force) λ _ _.
              Reads-bind (O e) _ _ w (gate-Reads e (elevating c r.start_mode) r.auth_external_form)
                λ _ passed. Reads-bind (O e) _ _ w (take_connection_lock-Reads e c.id) λ _ _.
                  save_then-IsUngated e c.id w (updated e r.name r.start_mode c)
                    (connection_id c.id) l.on_disk l.held (ground arith)
                    (updated-Retains c.id l.on_disk c r.name r.start_mode l.is_read (
                      gate_closed e (elevating c r.start_mode) r.auth_external_form w (rw p denied)
                        passed)))
      ]

  store_new-IsUngated :
      (r : AddRequest) (owner : Option ℕ) (text : Str) (parsed : ConnectionConfig) (w : World)
      → r.auth_external_form ≡ form
      → IsUngated e.platform w (store_new e r owner text parsed w).1
  unfolding store_new
  store_new-IsUngated r owner text parsed w p =
      Reads-bind (O e) _ _ w (check_free_name-Reads e r.name r.force r.global owner) λ _ _.
        Reads-bind (O e) _ _ w (require_admin_auth-Reads e r.auth_external_form) λ _ passed.
          let refused : granted e r.auth_external_form ≡ false = rw p denied in
          absurd (cc (refused, require_admin_auth-granted e r.auth_external_form w passed))

  existing_or_new-IsUngated :
      (r : AddRequest) (owner : Option ℕ) (text : Str) (parsed : ConnectionConfig)
      (existing : Option StoredConnection) (w : World)
      → r.auth_external_form ≡ form
      → (or_return error_response
          (find_by_identity e (fingerprint e.platform parsed) r.global owner)
          w).0
        ≡ done existing
      → IsUngated e.platform w (existing_or_new e r owner text parsed existing w).1
  existing_or_new-IsUngated r owner text parsed none w p found =
      store_new-IsUngated r owner text parsed w p
  existing_or_new-IsUngated r owner text parsed (some c) w p found = with_listing w _ λ h.
      let (l, _) =
        find_by_identity-IsListed e (fingerprint e.platform parsed) r.global owner w c h (
          or_return-done error_response
            (find_by_identity e (fingerprint e.platform parsed) r.global owner) w _ found) in
      reconcile_existing-IsUngated r c w p l

  add_parsed-IsUngated :
      (r : AddRequest) (owner : Option ℕ) (text : Str) (parsed : ConnectionConfig) (w : World)
      → r.auth_external_form ≡ form
      → IsUngated e.platform w (add_parsed e r owner text parsed w).1
  unfolding add_parsed
  add_parsed-IsUngated r owner text parsed w p =
      Reads-bind (O e) _ _ w (take_index_lock-Reads e) λ _ _.
        Reads-bind (O e) _ _ w
          (Moves-or_return ≡-IsPreorder _ _ (find_by_identity-Reads e _ r.global owner))
          λ existing found. existing_or_new-IsUngated r owner text parsed existing w p found

  pub add-IsUngated :
      (origin : PeerOrigin) (r : AddRequest)
      → r.auth_external_form ≡ form
      → Moves (IsUngated e.platform) (handle_add_connection e origin r)
  unfolding handle_add_connection
  add-IsUngated origin r p = elim (Bool-cases (r.global && not (is_root origin))) [
    | inl outsider ↦ rw outsider (Moves-raise (O e) _)
    | inr fine ↦ rw fine (record {
      from = λ w.
          Reads-bind (O e) _ _ w (Moves-or_return ≡-IsPreorder _ _ (lift-Reads _))
            λ parsed _. add_parsed-IsUngated r (owner_of e origin r.global) _ parsed w p;
    })
  ]
