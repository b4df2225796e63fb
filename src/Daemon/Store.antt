-- ===== src/Daemon/Store.antt =====
-- The store's operations (src/privileged/connection_store.rs): a listing of `connections/`, and an
-- action on the daemon's state for each accessor. `write_atomic` replaces a file whole or leaves it;
-- a new file is listed last.
pub mod Files
pub mod Listing
use tunmux.Api.{ConnectionId, interface_name}
use tunmux.Daemon.{
  ActiveConnectionState, Content, Env, File, FileName, Metadata, StoredConnection,
  StoredConnectionDisk, World, odd_json, other_file, readable, record_file, unreadable,
}
use tunmux.Daemon.Disk.{from_disk, to_disk}
use tunmux.Error.{AppError, ErrorKind, Result, err, io, json, map_ok, ok, other, wireguard}
use tunmux.Exec.{Exec, Outcome, done, fail, gets, pure, raise, step, ◌>>=◌, ◌>>◌}
use tunmux.Prelude.{
  Bool, Bool_eq, List, List_eq, Option, Option_eq, [], all, any, false, find, if◌then◌else◌, none,
  some, suc, true, zero, ℕ, ℕ_eq, ◌&&◌, ◌==◌, ◌∷◌,
}
use tunmux.Text.{Str}

abbrev pub Action : Type 0 → Type 0
Action A = Exec World AppError A

abbrev pub of_result : {A : Type 0} → Result A → Outcome AppError A
of_result (ok a) = done a
of_result (err e) = fail e

abbrev pub io_check : {A : Type 0} → Option ErrorKind → A → Outcome AppError A
io_check none a = done a
io_check (some k) a = fail (io k)

-- the path `connections/<id>.json`
abbrev pub is_file : ConnectionId → FileName → Bool
is_file id (record_file i) = i == id
is_file id _ = false

unfoldable pub read_file : ConnectionId → List File → Option (Content StoredConnectionDisk)
read_file id [] = none
read_file id (f ∷ fs) = if is_file id f.name then some f.content else read_file id fs

unfoldable pub write_file : ConnectionId → StoredConnectionDisk → List File → List File
write_file id d [] = record { name = record_file id; content = readable d } ∷ []
write_file id d (f ∷ fs) =
    if is_file id f.name
    then record { name = f.name; content = readable d } ∷ fs
    else f ∷ write_file id d fs

unfoldable pub remove_file : ConnectionId → List File → List File
remove_file id [] = []
remove_file id (f ∷ fs) = if is_file id f.name then fs else f ∷ remove_file id fs

unfoldable pub from_disk_checked :
    Env → ConnectionId → StoredConnectionDisk → Result StoredConnection
unfolding from_disk interface_name
from_disk_checked e id d =
    if d.id == id
    then if d.interface == interface_name e.uuids d.id
      then from_disk e.platform d
      else err wireguard
    else err wireguard

unfoldable pub read_content :
    Env → ConnectionId → Content StoredConnectionDisk → Result StoredConnection
unfolding from_disk_checked
read_content e id (readable d) = from_disk_checked e id d
read_content e id unreadable = err json

abbrev pub read_found :
    Env → ConnectionId → Option (Content StoredConnectionDisk) → Result (Option StoredConnection)
read_found e id none = ok none
read_found e id (some c) = map_ok some (read_content e id c)

unfoldable pub load_in : Env → ConnectionId → List File → Result (Option StoredConnection)
unfolding read_file read_content
load_in e id files = read_found e id (read_file id files)

unfoldable pub load : Env → ConnectionId → Action (Option StoredConnection)
unfolding load_in
load e id = step (λ w. (of_result (load_in e id w.records), w))

-- the result for each .json file of the listing
abbrev pub entry : Env → File → List (Result StoredConnection) → List (Result StoredConnection)
entry e f rest = elim f.name [
  | record_file id ↦ read_content e id f.content ∷ rest
  | odd_json ↦ err wireguard ∷ rest
  | other_file ↦ rest
]

unfoldable pub for_each_stored_entry : Env → List File → List (Result StoredConnection)
unfolding read_content
for_each_stored_entry e [] = []
for_each_stored_entry e (f ∷ fs) = entry e f (for_each_stored_entry e fs)

abbrev pub keep_ok : List (Result StoredConnection) → List StoredConnection
keep_ok [] = []
keep_ok (ok s ∷ rest) = s ∷ keep_ok rest
keep_ok (err _ ∷ rest) = keep_ok rest

abbrev pub all_ok : List (Result StoredConnection) → Bool
all_ok [] = true
all_ok (ok s ∷ rest) = all_ok rest
all_ok (err _ ∷ rest) = false

-- best effort: a record that cannot be read is skipped
unfoldable pub load_all : Env → Action (List StoredConnection)
unfolding for_each_stored_entry
load_all e = step (λ w. (io_check e.read_dir (keep_ok (for_each_stored_entry e w.records)), w))

-- fails closed: a record that cannot be read is an error
abbrev pub strict : List (Result StoredConnection) → Outcome AppError (List StoredConnection)
strict results = if all_ok results then done (keep_ok results) else fail other

unfoldable pub load_all_strict_in : Env → List File → Outcome AppError (List StoredConnection)
unfolding for_each_stored_entry
load_all_strict_in e files = elim e.read_dir [
  | some k ↦ fail (io k)
  | none ↦ strict (for_each_stored_entry e files)
]

unfoldable pub load_all_strict : Env → Action (List StoredConnection)
unfolding load_all_strict_in
load_all_strict e = step (λ w. (load_all_strict_in e w.records, w))

abbrev pub has_interface : Str → StoredConnection → Bool
has_interface interface c = c.interface == interface

unfoldable pub find_by_interface : Env → Str → Action (Option StoredConnection)
unfolding load_all
find_by_interface e interface = do all ← load_all e; pure (find (has_interface interface) all)

abbrev pub has_identity : Str → Bool → Option ℕ → StoredConnection → Bool
has_identity fingerprint global owner_uid c =
    c.fingerprint == fingerprint && c.global == global && c.owner_uid == owner_uid

unfoldable pub find_by_identity : Env → Str → Bool → Option ℕ → Action (Option StoredConnection)
unfolding load_all_strict
find_by_identity e fingerprint global owner_uid = do
  all ← load_all_strict e
  pure (find (has_identity fingerprint global owner_uid) all)

abbrev pub has_name : Str → Bool → Option ℕ → StoredConnection → Bool
has_name name global owner_uid c =
    c.name == some name && c.global == global && c.owner_uid == owner_uid

unfoldable pub find_by_name : Env → Str → Bool → Option ℕ → Action (Option StoredConnection)
unfolding load_all_strict
find_by_name e name global owner_uid = do
  all ← load_all_strict e
  pure (find (has_name name global owner_uid) all)

-- `for _ in 0..ATTEMPTS`: the rounds left, and the number of the next fresh id
unfoldable pub allocate_from : Env → ℕ → ℕ → Action (ConnectionId × Str)
unfolding load_all_strict interface_name
allocate_from e zero n = raise other
allocate_from e (suc rounds) n = load_all_strict e >>= λ all.
    let id = e.new_id n in
    let interface = interface_name e.uuids id in
    let again = allocate_from e rounds (suc n) in
    if any (has_interface interface) all then again else pure (id, interface)

abbrev pub attempts : ℕ
attempts = 8

unfoldable pub allocate_unique_interface : Env → Action (ConnectionId × Str)
unfolding allocate_from
allocate_unique_interface e = allocate_from e attempts 0

unfoldable pub lock_index : Env → Action (Unit {0})
lock_index e = step (λ w. (io_check e.index_lock tt, w))

unfoldable pub lock_connection : Env → ConnectionId → Action (Unit {0})
lock_connection e id = step (λ w. (io_check (e.connection_lock id) tt, w))

abbrev pub when_ok : Option ErrorKind → World → World → Outcome AppError (Unit {0}) × World
when_ok none after before = (done tt, after)
when_ok (some k) after before = (fail (io k), before)

-- `create` and `update`
unfoldable pub save : Env → StoredConnection → Action (Unit {0})
unfolding write_file to_disk
save e c = step (λ w.
    when_ok (e.write_record c.id)
      (record w { records = write_file c.id (to_disk e.platform c) w.records }) w)

abbrev pub remove_found :
    Env
    → ConnectionId
    → World
    → Option (Content StoredConnectionDisk)
    → Option ErrorKind
    → Outcome AppError (Unit {0}) × World
remove_found e id w none k = (done tt, w)
remove_found e id w (some _) k = when_ok k (record w { records = remove_file id w.records }) w

unfoldable pub remove : Env → ConnectionId → Action (Unit {0})
unfolding remove_file read_file
remove e id = step (λ w. remove_found e id w (read_file id w.records) (e.delete_record id))

-- `active/<id>.json`
abbrev pub Actives : Type 0
Actives = List (ConnectionId × Content ActiveConnectionState)

unfoldable pub read_active : ConnectionId → Actives → Option (Content ActiveConnectionState)
read_active id [] = none
read_active id ((i, c) ∷ rest) = if i == id then some c else read_active id rest

unfoldable pub write_active_file : ConnectionId → ActiveConnectionState → Actives → Actives
write_active_file id a [] = (id, readable a) ∷ []
write_active_file id a ((i, c) ∷ rest) =
    if i == id then (i, readable a) ∷ rest else (i, c) ∷ write_active_file id a rest

unfoldable pub remove_active_file : ConnectionId → Actives → Actives
remove_active_file id [] = []
remove_active_file id ((i, c) ∷ rest) =
    if i == id then rest else (i, c) ∷ remove_active_file id rest

unfoldable pub load_active : ConnectionId → Action (Option ActiveConnectionState)
unfolding read_active
load_active id = step (λ w. elim (read_active id w.active) [
  | none ↦ (done none, w)
  | some (readable a) ↦ (done (some a), w)
  | some unreadable ↦ (fail json, w)
])

unfoldable pub save_active : Env → ConnectionId → ActiveConnectionState → Action (Unit {0})
unfolding write_active_file
save_active e id a =
    step
      (λ w. when_ok (e.write_active id) (record w { active = write_active_file id a w.active }) w)

abbrev pub clear_found :
    Env
    → ConnectionId
    → World
    → Option (Content ActiveConnectionState)
    → Outcome AppError (Unit {0}) × World
clear_found e id w none = (done tt, w)
clear_found e id w (some _) =
    when_ok (e.delete_active id) (record w { active = remove_active_file id w.active }) w

unfoldable pub clear_active : Env → ConnectionId → Action (Unit {0})
unfolding remove_active_file read_active
clear_active e id = step (λ w. clear_found e id w (read_active id w.active))

-- `socket.try_exists().unwrap_or(false)`
abbrev pub exists : Result Metadata → Bool
exists (ok _) = true
exists (err _) = false

unfoldable pub is_active : ConnectionId → Action Bool
unfolding load_active
is_active id =
    load_active id >>= elim [ none ↦ pure false | some a ↦ gets (λ w. exists (w.sockets a.socket)) ]
