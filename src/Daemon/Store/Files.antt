-- ===== src/Daemon/Store/Files.antt =====
-- The files of the store: what reading finds after a write or a removal, and what a record that was
-- read says of its file.
use tunmux.Api.{ConnectionId, interface_name}
use tunmux.Daemon.{
  Env, File, FileName, StoredConnection, StoredConnectionDisk, odd_json, other_file, readable,
  record_file,
}
use tunmux.Daemon.Disk.{config_from_disk, from_disk}
use tunmux.Daemon.Store.{from_disk_checked, is_file, read_file, remove_file, write_file}
use tunmux.Error.{ok}
use tunmux.Prelude.{
  List, List_eq, [], arith, false, if◌then◌else◌, nat_eq_iff, refl, some, true, ℕ, ℕ_eq, ◌==◌, ◌↔◌,
  ◌∷◌, ◌≡◌,
}

pub is_file_iff : (id : ConnectionId) (n : FileName) → (is_file id n ≡ true) ↔ (n ≡ record_file id)
is_file_iff id (record_file i) = ground (arith, nat_eq_iff i id)
is_file_iff id odd_json = ground arith
is_file_iff id other_file = ground arith

pub read_file-write_file :
    (id j : ConnectionId) (d : StoredConnectionDisk) (files : List File)
    → read_file id (write_file j d files)
      ≡ (if j == id then some (readable d) else read_file id files)
unfolding read_file write_file
read_file-write_file id j d [] = ground arith
read_file-write_file id j d (f ∷ fs) = ground (
  arith,
  read_file-write_file id j d fs,
  is_file_iff id f.name,
  is_file_iff j f.name,
  nat_eq_iff j id,
)

pub read_file-remove_file :
    (id j : ConnectionId) (files : List File)
    → (j == id) ≡ false
    → read_file id (remove_file j files) ≡ read_file id files
unfolding read_file remove_file
read_file-remove_file id j [] h = refl
read_file-remove_file id j (f ∷ fs) h = ground (
  arith,
  read_file-remove_file id j fs h,
  is_file_iff id f.name,
  is_file_iff j f.name,
  nat_eq_iff j id,
)

-- `c` was read from the file of `id`, which holds `d`.
pub record IsRead (e : Env) (id : ConnectionId) (d : StoredConnectionDisk) (c : StoredConnection)
    : Type 0 where
  pub same_id : c.id ≡ id
  pub disk_id : d.id ≡ id
  pub own_interface : c.interface ≡ interface_name e.uuids id
  pub same_interface : c.interface ≡ d.interface
  pub same_raw_conf : c.raw_conf ≡ d.raw_conf
  pub same_config : config_from_disk e.platform d.config ≡ ok c.config
  pub same_fingerprint : c.fingerprint ≡ d.fingerprint
  pub same_global : c.global ≡ d.global
  pub same_owner : c.owner_uid ≡ d.owner_uid
  pub same_mode : c.start_mode ≡ d.start_mode
  pub same_created : c.created_at ≡ d.created_at
  pub same_name : c.name ≡ d.name
  pub same_flag : c.user_disconnected ≡ d.user_disconnected

pub from_disk_checked-IsRead :
    (e : Env) (id : ConnectionId) (d : StoredConnectionDisk) (c : StoredConnection)
    → from_disk_checked e id d ≡ ok c
    → IsRead e id d c
unfolding from_disk_checked from_disk
from_disk_checked-IsRead e id d c h = ground (
  arith,
  nat_eq_iff d.id id,
  (List_eq {A = ℕ}).is_eq_iff d.interface (interface_name e.uuids d.id),
)
