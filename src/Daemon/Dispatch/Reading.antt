-- ===== src/Daemon/Dispatch/Reading.antt =====
-- The steps of a handler that only read (src/privileged/dispatch.rs), and what it knows after them.
use tunmux.Api.{ConnectionId}
use tunmux.Daemon.{
  Content, Env, StoredConnection, StoredConnectionDisk, World, readable, unreadable,
}
use tunmux.Daemon.Dispatch.{
  PeerOrigin, authorize_access, load_or_return, require_admin_auth, take_connection_lock,
  take_index_lock, verify_external_form,
}
use tunmux.Daemon.Dispatch.Add.{check_free_name, check_new_name, free_or_return, taken_by_other}
use tunmux.Daemon.Dispatch.Handlers.{legacy_interface_access, refuse_active}
use tunmux.Daemon.Ops.{lift}
use tunmux.Daemon.Store.{
  all_ok, allocate_from, allocate_unique_interface, attempts, find_by_identity, find_by_interface,
  find_by_name, for_each_stored_entry, has_identity, is_active, keep_ok, load, load_all,
  load_all_strict, load_all_strict_in, load_in, read_content, read_file, read_found, strict,
}
use tunmux.Daemon.Store.Files.{IsRead, from_disk_checked-IsRead}
use tunmux.Daemon.Store.Listing.{IsListed, IsListing, entries-IsListed, find-All}
use tunmux.Error.{Result, ok}
use tunmux.Exec.{bind-done, done, or_return, pure, raise, step, ◌>>=◌}
use tunmux.Exec.Moves.{
  Moves-bind, Moves-gets, Moves-if, Moves-or_return, Moves-pure, Moves-raise, Reads, ≡-IsPreorder,
}
use tunmux.Prelude.{
  Bool, List, Option, Option-cases, arith, false, inl, inr, none, refl, some, suc, true, zero, ℕ,
  ◌≡◌,
}
use tunmux.Text.{Str}

pub ruleset reading =
    (≡-IsPreorder, Moves-bind, Moves-if, Moves-pure, Moves-raise, Moves-gets, Moves-or_return)

pub load_or_return-Reads : (e : Env) (id : ConnectionId) → Reads (load_or_return e id)
unfolding load_or_return or_return ◌>>=◌
load_or_return-Reads e id = record { from = λ w. ground arith }

pub authorize_access-Reads :
    (c : StoredConnection) (origin : PeerOrigin) → Reads (authorize_access c origin)
unfolding authorize_access pure raise
authorize_access-Reads c origin = record { from = λ w. ground arith }

pub require_admin_auth-Reads :
    (e : Env) (form : Option (List ℕ)) → Reads (require_admin_auth e form)
unfolding require_admin_auth pure raise
require_admin_auth-Reads e form = record { from = λ w. ground arith }

pub take_index_lock-Reads : (e : Env) → Reads (take_index_lock e)
unfolding take_index_lock or_return step
take_index_lock-Reads e = record { from = λ w. ground arith }

pub take_connection_lock-Reads : (e : Env) (id : ConnectionId) → Reads (take_connection_lock e id)
unfolding take_connection_lock or_return step
take_connection_lock-Reads e id = record { from = λ w. ground arith }

pub load-Reads : (e : Env) (id : ConnectionId) → Reads (load e id)
unfolding load step
load-Reads e id = record { from = λ w. refl }

pub load_all-Reads : (e : Env) → Reads (load_all e)
unfolding load_all step
load_all-Reads e = record { from = λ w. refl }

pub load_all_strict-Reads : (e : Env) → Reads (load_all_strict e)
unfolding load_all_strict step
load_all_strict-Reads e = record { from = λ w. refl }

pub find_by_identity-Reads :
    (e : Env) (fp : Str) (global : Bool) (owner : Option ℕ)
    → Reads (find_by_identity e fp global owner)
unfolding find_by_identity
find_by_identity-Reads e fp global owner =
    Moves-bind ≡-IsPreorder _ _ (load_all_strict-Reads e) (λ all. Moves-pure ≡-IsPreorder _)

pub find_by_name-Reads :
    (e : Env) (n : Str) (global : Bool) (owner : Option ℕ) → Reads (find_by_name e n global owner)
unfolding find_by_name
find_by_name-Reads e n global owner =
    Moves-bind ≡-IsPreorder _ _ (load_all_strict-Reads e) (λ all. Moves-pure ≡-IsPreorder _)

pub find_by_interface-Reads : (e : Env) (i : Str) → Reads (find_by_interface e i)
unfolding find_by_interface
find_by_interface-Reads e i =
    Moves-bind ≡-IsPreorder _ _ (load_all-Reads e) (λ all. Moves-pure ≡-IsPreorder _)

pub allocate_from-Reads : (e : Env) (rounds n : ℕ) → Reads (allocate_from e rounds n)
unfolding allocate_from
allocate_from-Reads e zero n = Moves-raise ≡-IsPreorder _
allocate_from-Reads e (suc rounds) n =
    search (reading, load_all_strict-Reads e, allocate_from-Reads e rounds (suc n))

pub allocate-Reads : (e : Env) → Reads (allocate_unique_interface e)
unfolding allocate_unique_interface
allocate-Reads e = allocate_from-Reads e attempts 0

pub is_active-Reads : (id : ConnectionId) → Reads (is_active id)
unfolding is_active ◌>>=◌
is_active-Reads id = record { from = λ w. ground arith }

pub refuse_active-Reads : (active : Bool) → Reads (refuse_active active)
refuse_active-Reads true = Moves-raise ≡-IsPreorder _
refuse_active-Reads false = Moves-pure ≡-IsPreorder _

taken_by_other-Reads :
    (id : ConnectionId) (found : Option StoredConnection) → Reads (taken_by_other id found)
taken_by_other-Reads id none = Moves-pure ≡-IsPreorder _
taken_by_other-Reads id (some c) = search reading

pub check_new_name-Reads :
    (e : Env) (c : StoredConnection) (name : Option Str) (force : Bool)
    → Reads (check_new_name e c name force)
unfolding check_new_name
check_new_name-Reads e c none force = Moves-pure ≡-IsPreorder _
check_new_name-Reads e c (some n) force = search (reading, find_by_name-Reads, taken_by_other-Reads)

free_or_return-Reads : (found : Option StoredConnection) → Reads (free_or_return found)
free_or_return-Reads none = Moves-pure ≡-IsPreorder _
free_or_return-Reads (some c) = Moves-raise ≡-IsPreorder _

pub check_free_name-Reads :
    (e : Env) (name : Option Str) (force global : Bool) (owner : Option ℕ)
    → Reads (check_free_name e name force global owner)
unfolding check_free_name
check_free_name-Reads e none force global owner = Moves-pure ≡-IsPreorder _
check_free_name-Reads e (some n) force global owner =
    search (reading, find_by_name-Reads, free_or_return-Reads)

pub lift-Reads : {A : Type 0} (r : Result A) → Reads (lift r)
unfolding step
lift-Reads r = record { from = λ w. refl }

pub legacy_interface_access-Reads :
    (e : Env) (interface : Str) (origin : PeerOrigin)
    → Reads (legacy_interface_access e interface origin)
unfolding legacy_interface_access
legacy_interface_access-Reads e interface origin =
    Moves-bind ≡-IsPreorder _ _
      (Moves-or_return ≡-IsPreorder _ _ (find_by_interface-Reads e interface))
      (elim [ none ↦ Moves-pure ≡-IsPreorder _ | some c ↦ authorize_access-Reads c origin ])

-- What a handler has loaded: the file of `id` holds `disk`, and reads as `c`.
pub record IsLoaded (e : Env) (id : ConnectionId) (w : World) (c : StoredConnection) : Type 0 where
  pub on_disk : StoredConnectionDisk
  pub held : read_file id w.records ≡ some (readable on_disk)
  pub is_read : IsRead e id on_disk c

content-IsLoaded :
    (e : Env) (id : ConnectionId) (w : World) (c : StoredConnection)
    (x : Option (Content StoredConnectionDisk))
    → read_file id w.records ≡ x
    → read_found e id x ≡ ok (some c)
    → IsLoaded e id w c
unfolding read_content
content-IsLoaded e id w c none p h = absurd (cc)
content-IsLoaded e id w c (some (readable d)) p h = record {
  on_disk = d;
  held = p;
  is_read = from_disk_checked-IsRead e id d c (ground arith);
}
content-IsLoaded e id w c (some unreadable) p h = absurd (cc)

pub load_in-IsLoaded :
    (e : Env) (id : ConnectionId) (w : World) (c : StoredConnection)
    → load_in e id w.records ≡ ok (some c)
    → IsLoaded e id w c
unfolding load_in
load_in-IsLoaded e id w c h = content-IsLoaded e id w c (read_file id w.records) refl h

pub load-IsLoaded :
    (e : Env) (id : ConnectionId) (w : World) (c : StoredConnection)
    → (load e id w).0 ≡ done (some c)
    → IsLoaded e id w c
unfolding load step
load-IsLoaded e id w c h = load_in-IsLoaded e id w c (ground arith)

pub load_or_return-IsLoaded :
    (e : Env) (id : ConnectionId) (w : World) (c : StoredConnection)
    → (load_or_return e id w).0 ≡ done c
    → IsLoaded e id w c
unfolding load_or_return or_return ◌>>=◌
load_or_return-IsLoaded e id w c h = load_in-IsLoaded e id w c (ground arith)

-- Whether the request carries a form that the framework grants the right to.
abbrev pub granted : Env → Option (List ℕ) → Bool
granted e none = false
granted e (some form) = verify_external_form e form

pub require_admin_auth-granted :
    (e : Env) (form : Option (List ℕ)) (w : World)
    → (require_admin_auth e form w).0 ≡ done tt
    → granted e form ≡ true
unfolding require_admin_auth pure raise
require_admin_auth-granted e form w h = ground arith

strict-keep_ok :
    (results : List (Result StoredConnection)) (cs : List StoredConnection)
    → strict results ≡ done cs
    → (cs ≡ keep_ok results) × (all_ok results ≡ true)
strict-keep_ok results cs h = ground arith

-- What a strict load returns is the whole listing.
pub load_all_strict-eq :
    (e : Env) (w : World) (cs : List StoredConnection)
    → (load_all_strict e w).0 ≡ done cs
    → (cs ≡ keep_ok (for_each_stored_entry e w.records))
      × (all_ok (for_each_stored_entry e w.records) ≡ true)
unfolding load_all_strict load_all_strict_in step
load_all_strict-eq e w cs h = elim (Option-cases e.read_dir) [
  | inl fine ↦ strict-keep_ok (for_each_stored_entry e w.records) cs (rw fine at h)
  | inr (k, bad) ↦ absurd (cc (rw bad at h))
]

-- What a search for an identity finds is what its own file holds.
pub find_by_identity-IsListed :
    (e : Env) (fp : Str) (global : Bool) (owner : Option ℕ) (w : World) (c : StoredConnection)
    → IsListing w.records
    → (find_by_identity e fp global owner w).0 ≡ done (some c)
    → IsListed e w.records c × (has_identity fp global owner c ≡ true)
unfolding find_by_identity pure
find_by_identity-IsListed e fp global owner w c h q =
    let (cs, loaded, found) = bind-done (load_all_strict e) _ w (some c) q in
    let (same, _) = load_all_strict-eq e w cs loaded in
    find-All (IsListed e w.records) (has_identity fp global owner) cs c
      (rw same (entries-IsListed e w.records h)) (cc)
