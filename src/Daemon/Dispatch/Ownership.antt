-- ===== src/Daemon/Dispatch/Ownership.antt =====
-- What a caller can do to the records of others (`authorize_access`, src/privileged/dispatch.rs).
pub mod Fresh
pub mod Handlers
pub mod Adding
pub mod Every
pub mod Spawning
use tunmux.Api.{ConnectionId}
use tunmux.Daemon.{Content, Env, StoredConnection, StoredConnectionDisk, World}
use tunmux.Daemon.Disk.{to_disk}
use tunmux.Daemon.Dispatch.{PeerOrigin, may_access}
use tunmux.Daemon.Store.{load_in, read_file, remove, remove_file, remove_found, save, write_file}
use tunmux.Daemon.Store.Files.{read_file-remove_file, read_file-write_file}
use tunmux.Daemon.Store.Listing.{IsListing, remove_file-IsListing, write_file-IsListing}
use tunmux.Error.{ErrorKind, ok}
use tunmux.Exec.{step}
use tunmux.Exec.Moves.{IsPreorder}
use tunmux.Prelude.{
  Bool-cases, Option, Option-cases, false, inl, inr, nat_eq, nat_eq_iff, none, refl, some, true,
  ◌∙◌, ◌≡◌,
}

-- A record that reads well and that the caller may not access is as it was; a listing stays one.
pub record Spares (e : Env) (origin : PeerOrigin) (w t : World) : Type 0 where
  pub at :
      IsListing w.records
      → IsListing t.records
        × ((id : ConnectionId) (c : StoredConnection)
            → load_in e id w.records ≡ ok (some c)
            → may_access c origin ≡ false
            → read_file id t.records ≡ read_file id w.records)

same_file :
    (e : Env) (id : ConnectionId) (w t : World) (c : StoredConnection)
    → read_file id t.records ≡ read_file id w.records
    → load_in e id w.records ≡ ok (some c)
    → load_in e id t.records ≡ ok (some c)
unfolding load_in
same_file e id w t c p h = rw p h

pub Spares-IsPreorder : (e : Env) (origin : PeerOrigin) → IsPreorder (Spares e origin)
Spares-IsPreorder e origin = record {
  stay = λ w. record { at = λ h. (h, λ id c _ _. refl) };
  chain = λ w t u p q. record {
    at = λ h.
        let (k, r) = p.at h in
        let (l, s) = q.at k in
        (
          l,
          λ id c found foreign.
              s id c (same_file e id w t c (r id c found foreign) found) foreign
              ∙ r id c found foreign,
        );
  };
}

pub same_records-Spares :
    (e : Env) (origin : PeerOrigin) (w t : World) → t.records ≡ w.records → Spares e origin w t
same_records-Spares e origin w t p = record { at = λ h. (rw p h, λ id c _ _. rw p refl) }

-- no record that the caller may not access is at `id`
abbrev pub IsOpen : Env → PeerOrigin → ConnectionId → World → Type 0
IsOpen e origin id w =
    (c : StoredConnection) → load_in e id w.records ≡ ok (some c) → may_access c origin ≡ true

pub save-Spares :
    (e : Env) (origin : PeerOrigin) (t : StoredConnection) (w : World)
    → IsOpen e origin t.id w
    → Spares e origin w (save e t w).1
unfolding save step
save-Spares e origin t w free = elim (Option-cases (e.write_record t.id)) [
  | inl fits ↦ rw fits (record {
    at = λ h. (
      write_file-IsListing t.id (to_disk e.platform t) w.records h,
      λ id c found foreign. written id c found foreign,
    );
  })
  | inr (x, fails) ↦ rw fails ((Spares-IsPreorder e origin).stay w)
]
  where
    written :
        (id : ConnectionId) (c : StoredConnection)
        → load_in e id w.records ≡ ok (some c)
        → may_access c origin ≡ false
        → read_file id (write_file t.id (to_disk e.platform t) w.records) ≡ read_file id w.records
    written id c found foreign = elim (Bool-cases (nat_eq t.id id)) [
      | inl same ↦
          let p : t.id ≡ id = (nat_eq_iff t.id id).0 same in
          absurd (cc (free c (rw p found), foreign))
      | inr other ↦ rw (read_file-write_file id t.id (to_disk e.platform t) w.records, other) refl
    ]

pub remove-Spares :
    (e : Env) (origin : PeerOrigin) (id : ConnectionId) (w : World)
    → IsOpen e origin id w
    → Spares e origin w (remove e id w).1
unfolding remove step
remove-Spares e origin id w free = by_file (read_file id w.records) (e.delete_record id)
  where
    removed :
        (j : ConnectionId) (c : StoredConnection)
        → load_in e j w.records ≡ ok (some c)
        → may_access c origin ≡ false
        → read_file j (remove_file id w.records) ≡ read_file j w.records
    removed j c found foreign = elim (Bool-cases (nat_eq id j)) [
      | inl same ↦
          let p : id ≡ j = (nat_eq_iff id j).0 same in absurd (cc (free c (rw p found), foreign))
      | inr other ↦ read_file-remove_file j id w.records other
    ]

    by_file :
        (x : Option (Content StoredConnectionDisk)) (k : Option ErrorKind)
        → Spares e origin w (remove_found e id w x k).1
    by_file none k = (Spares-IsPreorder e origin).stay w
    by_file (some _) (some _) = (Spares-IsPreorder e origin).stay w
    by_file (some _) none = record {
      at = λ h.
          (remove_file-IsListing id w.records h, λ j c found foreign. removed j c found foreign);
    }
