-- ===== src/Daemon/Dispatch/AdminGate.antt =====
-- What a request can do to the stored records without a granted admin authorization
-- (src/privileged/dispatch.rs, src/privileged/authz.rs).
pub mod Workers
pub mod Requests
pub mod Every
use tunmux.Api.{ConnectionId, manual}
use tunmux.Daemon.{
  Content, Env, StoredConnection, StoredConnectionDisk, World, readable, unreadable,
}
use tunmux.Daemon.Disk.{config_from_disk, to_disk}
use tunmux.Daemon.Store.{read_file, save, write_file}
use tunmux.Daemon.Store.Files.{read_file-write_file}
use tunmux.Daemon.Store.Listing.{IsListing, write_file-IsListing}
use tunmux.Exec.{step}
use tunmux.Exec.Moves.{IsPreorder}
use tunmux.Prelude.{
  Bool-cases, Option, Option-cases, inl, inr, nat_eq, nat_eq_iff, none, refl, some, sym, true, ◌∙◌,
  ◌≡◌,
}
use tunmux.Wireguard.{Platform}

-- The record holds a configuration that reads as the same one, for the same owner, and runs at boot only if it did.
pub record Retains (p : Platform) (d t : StoredConnectionDisk) : Type 0 where
  pub id : t.id ≡ d.id
  pub raw_conf : t.raw_conf ≡ d.raw_conf
  pub config : config_from_disk p t.config ≡ config_from_disk p d.config
  pub fingerprint : t.fingerprint ≡ d.fingerprint
  pub global : t.global ≡ d.global
  pub owner_uid : t.owner_uid ≡ d.owner_uid
  pub interface : t.interface ≡ d.interface
  pub created_at : t.created_at ≡ d.created_at
  pub not_elevated : d.global ≡ true → d.start_mode ≡ manual → t.start_mode ≡ manual

-- No file appears, disappears or becomes another's.
abbrev pub Evolves :
    Platform
    → Option (Content StoredConnectionDisk)
    → Option (Content StoredConnectionDisk)
    → Type 0
Evolves p none none = Unit
Evolves p (some (readable d)) (some (readable t)) = Retains p d t
Evolves p (some unreadable) (some unreadable) = Unit
Evolves p _ _ = ⊥

-- Over a listing, which stays one.
pub record IsUngated (p : Platform) (w t : World) : Type 0 where
  pub at :
      IsListing w.records
      → IsListing t.records
        × ((id : ConnectionId) → Evolves p (read_file id w.records) (read_file id t.records))

Retains-refl : (p : Platform) (d : StoredConnectionDisk) → Retains p d d
Retains-refl p d = record {
  id = refl;
  raw_conf = refl;
  config = refl;
  fingerprint = refl;
  global = refl;
  owner_uid = refl;
  interface = refl;
  created_at = refl;
  not_elevated = λ _ m. m;
}

Retains-trans :
    (p : Platform) (d t u : StoredConnectionDisk) → Retains p d t → Retains p t u → Retains p d u
Retains-trans p d t u r s = record {
  id = s.id ∙ r.id;
  raw_conf = s.raw_conf ∙ r.raw_conf;
  config = s.config ∙ r.config;
  fingerprint = s.fingerprint ∙ r.fingerprint;
  global = s.global ∙ r.global;
  owner_uid = s.owner_uid ∙ r.owner_uid;
  interface = s.interface ∙ r.interface;
  created_at = s.created_at ∙ r.created_at;
  not_elevated = λ g m. s.not_elevated (r.global ∙ g) (r.not_elevated g m);
}

pub Evolves-refl : (p : Platform) (x : Option (Content StoredConnectionDisk)) → Evolves p x x
Evolves-refl p none = tt
Evolves-refl p (some (readable d)) = Retains-refl p d
Evolves-refl p (some unreadable) = tt

Evolves-trans :
    (p : Platform) (x y z : Option (Content StoredConnectionDisk))
    → Evolves p x y
    → Evolves p y z
    → Evolves p x z
Evolves-trans p none none none _ _ = tt
Evolves-trans p (some (readable d)) (some (readable t)) (some (readable u)) r s =
    Retains-trans p d t u r s
Evolves-trans p (some unreadable) (some unreadable) (some unreadable) _ _ = tt
Evolves-trans p none none (some _) _ s = elim s [ ]
Evolves-trans p none (some _) _ r _ = elim r [ ]
Evolves-trans p (some (readable d)) none _ r _ = elim r [ ]
Evolves-trans p (some (readable d)) (some unreadable) _ r _ = elim r [ ]
Evolves-trans p (some (readable d)) (some (readable t)) none _ s = elim s [ ]
Evolves-trans p (some (readable d)) (some (readable t)) (some unreadable) _ s = elim s [ ]
Evolves-trans p (some unreadable) none _ r _ = elim r [ ]
Evolves-trans p (some unreadable) (some (readable _)) _ r _ = elim r [ ]
Evolves-trans p (some unreadable) (some unreadable) none _ s = elim s [ ]
Evolves-trans p (some unreadable) (some unreadable) (some (readable _)) _ s = elim s [ ]

pub IsUngated-IsPreorder : (p : Platform) → IsPreorder (IsUngated p)
IsUngated-IsPreorder p = record {
  stay = λ w. record { at = λ h. (h, λ id. Evolves-refl p _) };
  chain = λ w t u f g. record {
    at = λ h.
        let (k, r) = f.at h in
        let (l, s) = g.at k in (l, λ id. Evolves-trans p _ _ _ (r id) (s id));
  };
}

pub same_records-IsUngated : (p : Platform) (w t : World) → t.records ≡ w.records → IsUngated p w t
same_records-IsUngated p w t q = record { at = λ h. (rw q h, λ id. rw q (Evolves-refl p _)) }

write-IsUngated :
    (p : Platform) (w : World) (id j : ConnectionId) (d t : StoredConnectionDisk) (k : ConnectionId)
    → read_file id w.records ≡ some (readable d)
    → Retains p d t
    → j ≡ id
    → Evolves p (read_file k w.records) (read_file k (write_file j t w.records))
write-IsUngated p w id j d t k held r at_id = elim (Bool-cases (nat_eq j k)) [
  | inl same ↦
      let q : k ≡ id = sym ((nat_eq_iff j k).0 same) ∙ at_id in
      rw (read_file-write_file k j t w.records, same, q, held) r
  | inr other ↦ rw (read_file-write_file k j t w.records, other) (Evolves-refl p _)
]

-- Writing back a record that was loaded, with its configuration as it was.
pub save-IsUngated :
    (e : Env) (id : ConnectionId) (w : World) (t : StoredConnection) (d : StoredConnectionDisk)
    → read_file id w.records ≡ some (readable d)
    → t.id ≡ id
    → Retains e.platform d (to_disk e.platform t)
    → IsUngated e.platform w (save e t w).1
unfolding save step
save-IsUngated e id w t d held p r = elim (Option-cases (e.write_record t.id)) [
  | inl fits ↦ rw fits (record {
    at = λ h. (
      write_file-IsListing t.id (to_disk e.platform t) w.records h,
      λ k. write-IsUngated e.platform w id t.id d (to_disk e.platform t) k held r p,
    );
  })
  | inr (x, fails) ↦ rw fails ((IsUngated-IsPreorder e.platform).stay w)
]
