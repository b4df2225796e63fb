-- ===== src/Daemon/Dispatch/Ownership/Fresh.antt =====
-- A new connection's id (`allocate_unique_interface`, src/privileged/connection_store.rs).
use mathlib.Core.Path.{subst}
use tunmux.Api.{ConnectionId, interface_name}
use tunmux.Daemon.{
  Content, Env, File, FileName, StoredConnection, StoredConnectionDisk, World, odd_json, other_file,
  readable, record_file, unreadable,
}
use tunmux.Daemon.Dispatch.Reading.{load_all_strict-eq}
use tunmux.Daemon.Store.{
  all_ok, allocate_from, allocate_unique_interface, attempts, entry, for_each_stored_entry,
  from_disk_checked, has_interface, keep_ok, load_all_strict, read_content, read_file,
}
use tunmux.Daemon.Store.Files.{from_disk_checked-IsRead}
use tunmux.Error.{Result, err, ok}
use tunmux.Exec.{bind-done, done, pure, raise, step}
use tunmux.Prelude.{
  Bool, Bool-cases, List, List_eq, Option-cases, [], all, any, arith, false, if◌then◌else◌, inl,
  inr, nat_eq, nat_eq_iff, none, refl, some, suc, sym, true, zero, ℕ, ℕ_eq, ◌==◌, ◌∷◌, ◌≡◌,
}
use tunmux.Text.{Str}

by_content :
    (e : Env) (id : ConnectionId) (k : Content StoredConnectionDisk)
    (rest : List (Result StoredConnection))
    → all_ok (read_content e id k ∷ rest) ≡ true
    → any (has_interface (interface_name e.uuids id)) (keep_ok (read_content e id k ∷ rest)) ≡ true
unfolding read_content
by_content e id (readable d) rest h = by_result (from_disk_checked e id d) refl h
  where
    by_result :
        (r : Result StoredConnection)
        → from_disk_checked e id d ≡ r
        → all_ok (r ∷ rest) ≡ true
        → any (has_interface (interface_name e.uuids id)) (keep_ok (r ∷ rest)) ≡ true
    by_result (ok c) p k =
        let own : c.interface ≡ interface_name e.uuids id =
          (from_disk_checked-IsRead e id d c p).own_interface in
        let same : c.interface == interface_name e.uuids id ≡ true =
          ((List_eq {A = ℕ}).is_eq_iff c.interface (interface_name e.uuids id)).1 own in
        rw same refl
    by_result (err x) p k = absurd (cc)
by_content e id unreadable rest h = absurd (cc)

skip :
    (test : StoredConnection → Bool) (r : Result StoredConnection)
    (rest : List (Result StoredConnection))
    → (all_ok rest ≡ true → any test (keep_ok rest) ≡ true)
    → all_ok (r ∷ rest) ≡ true
    → any test (keep_ok (r ∷ rest)) ≡ true
skip test (ok c) rest h good = rw (h good) (ground arith)
skip test (err x) rest h good = absurd (cc)

entry_loaded :
    (e : Env) (id : ConnectionId) (n : FileName) (x k : Content StoredConnectionDisk)
    (fs : List File) (rest : List (Result StoredConnection))
    → read_file id (record { name = n; content = x } ∷ fs) ≡ some k
    → (read_file id fs ≡ some k
        → all_ok rest ≡ true
        → any (has_interface (interface_name e.uuids id)) (keep_ok rest) ≡ true)
    → all_ok (entry e (record { name = n; content = x }) rest) ≡ true
    → any
        (has_interface (interface_name e.uuids id))
        (keep_ok (entry e (record { name = n; content = x }) rest))
      ≡ true
unfolding read_file
entry_loaded e id (record_file i) x k fs rest h next good = elim (Bool-cases (nat_eq i id)) [
  | inl same ↦
      let p : i ≡ id = (nat_eq_iff i id).0 same in
      subst
        (λ j.
          any (has_interface (interface_name e.uuids j)) (keep_ok (read_content e i x ∷ rest))
          ≡ true)
        p (by_content e i x rest good)
  | inr other ↦
      skip (has_interface (interface_name e.uuids id)) (read_content e i x) rest
        (next (rw other at h)) good
]
entry_loaded e id odd_json x k fs rest h next good = absurd (cc)
entry_loaded e id other_file x k fs rest h next good = next h good

-- every record file of a listing that loads strictly has its interface among the loaded ones
interface_loaded :
    (e : Env) (id : ConnectionId) (fs : List File) (k : Content StoredConnectionDisk)
    → read_file id fs ≡ some k
    → all_ok (for_each_stored_entry e fs) ≡ true
    → any (has_interface (interface_name e.uuids id)) (keep_ok (for_each_stored_entry e fs)) ≡ true
unfolding read_file for_each_stored_entry
interface_loaded e id [] k h good = absurd (cc)
interface_loaded e id (f ∷ fs) k h good =
    entry_loaded e id f.name f.content k fs (for_each_stored_entry e fs) h
      (interface_loaded e id fs k) good

fresh_if_unused :
    (e : Env) (id : ConnectionId) (w : World)
    → all_ok (for_each_stored_entry e w.records) ≡ true
    → any (has_interface (interface_name e.uuids id)) (keep_ok (for_each_stored_entry e w.records))
      ≡ false
    → read_file id w.records ≡ none
fresh_if_unused e id w good unused = elim (Option-cases (read_file id w.records)) [
  | inl absent ↦ absent
  | inr (k, there) ↦ absurd (cc (interface_loaded e id w.records k there good, unused))
]

round_fresh :
    (e : Env) (rounds n : ℕ) (w : World) (id : ConnectionId) (interface : Str)
    (all : List StoredConnection) (taken : Bool)
    → all ≡ keep_ok (for_each_stored_entry e w.records)
    → all_ok (for_each_stored_entry e w.records) ≡ true
    → any (has_interface (interface_name e.uuids (e.new_id n))) all ≡ taken
    → ((allocate_from e rounds (suc n) w).0 ≡ done (id, interface)
        → (read_file id w.records ≡ none) × (interface ≡ interface_name e.uuids id))
    → ((if taken
          then allocate_from e rounds (suc n)
          else pure (e.new_id n, interface_name e.uuids (e.new_id n)))
        w).0
      ≡ done (id, interface)
    → (read_file id w.records ≡ none) × (interface ≡ interface_name e.uuids id)
unfolding pure
round_fresh e rounds n w id interface all true same good test next h = next h
round_fresh e rounds n w id interface all false same good test next h =
    let p : e.new_id n ≡ id = cc in
    let q : interface_name e.uuids (e.new_id n) ≡ interface = cc in
    subst (λ j. (read_file j w.records ≡ none) × (interface ≡ interface_name e.uuids j)) p
      (fresh_if_unused e (e.new_id n) w good (rw (sym same) test), sym q)

allocate_from-fresh :
    (e : Env) (rounds n : ℕ) (w : World) (id : ConnectionId) (interface : Str)
    → (allocate_from e rounds n w).0 ≡ done (id, interface)
    → (read_file id w.records ≡ none) × (interface ≡ interface_name e.uuids id)
unfolding allocate_from pure raise load_all_strict step
allocate_from-fresh e zero n w id interface h = absurd (cc)
allocate_from-fresh e (suc rounds) n w id interface h =
    let (cs, loaded, round) = bind-done (load_all_strict e) _ w (id, interface) h in
    let (same, good) = load_all_strict-eq e w cs loaded in
    round_fresh e rounds n w id interface cs
      (any (has_interface (interface_name e.uuids (e.new_id n))) cs) same good refl
      (allocate_from-fresh e rounds (suc n) w id interface) round

-- The id that a new connection is given names no file of the listing, and its interface is the one
-- that the id stands for.
pub allocate-fresh :
    (e : Env) (w : World) (id : ConnectionId) (interface : Str)
    → (allocate_unique_interface e w).0 ≡ done (id, interface)
    → (read_file id w.records ≡ none) × (interface ≡ interface_name e.uuids id)
unfolding allocate_unique_interface
allocate-fresh e w id interface h = allocate_from-fresh e attempts 0 w id interface h
