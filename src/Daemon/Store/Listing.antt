-- ===== src/Daemon/Store/Listing.antt =====
-- Listings of `connections/` that name no file twice, as the file system gives them, and the records
-- that a search finds in one (src/privileged/connection_store.rs).
use mathlib.Core.Path.{subst}
use tunmux.Api.{ConnectionId}
use tunmux.Daemon.{
  Content, Env, File, FileName, StoredConnection, StoredConnectionDisk, odd_json, other_file,
  readable, record_file, unreadable,
}
use tunmux.Daemon.Store.{
  entry, for_each_stored_entry, is_file, keep_ok, read_content, read_file, remove_file, write_file,
}
use tunmux.Daemon.Store.Files.{IsRead, from_disk_checked-IsRead, read_file-write_file}
use tunmux.Error.{Result, err, ok}
use tunmux.Prelude.{
  All, Bool, Bool-cases, List, [], arith, false, find, inl, inr, nat_eq, nat_eq_iff, none, refl,
  some, sym, true, ◌∷◌, ◌≡◌,
}

abbrev pub IsFresh : FileName → List File → Type 0
IsFresh (record_file id) fs = read_file id fs ≡ none
IsFresh odd_json fs = Unit
IsFresh other_file fs = Unit

abbrev pub IsListing : List File → Type 0
IsListing [] = Unit
IsListing (f ∷ fs) = IsFresh f.name fs × IsListing fs

write_file-IsFresh :
    (n : FileName) (id : ConnectionId) (d : StoredConnectionDisk) (fs : List File)
    → IsFresh n fs
    → is_file id n ≡ false
    → IsFresh n (write_file id d fs)
write_file-IsFresh (record_file i) id d fs h k =
    ground (arith, read_file-write_file i id d fs, nat_eq_iff i id, nat_eq_iff id i)
write_file-IsFresh odd_json id d fs h k = tt
write_file-IsFresh other_file id d fs h k = tt

pub write_file-IsListing :
    (id : ConnectionId) (d : StoredConnectionDisk) (fs : List File)
    → IsListing fs
    → IsListing (write_file id d fs)
unfolding write_file read_file
write_file-IsListing id d [] h = (refl, tt)
write_file-IsListing id d (f ∷ fs) (fresh_name, h) = elim (Bool-cases (is_file id f.name)) [
  | inl same ↦ rw same (fresh_name, h)
  | inr other ↦
      rw other (write_file-IsFresh f.name id d fs fresh_name other, write_file-IsListing id d fs h)
]

read_file-remove_file-none :
    (i id : ConnectionId) (fs : List File)
    → read_file i fs ≡ none
    → read_file i (remove_file id fs) ≡ none
unfolding read_file remove_file
read_file-remove_file-none i id [] h = refl
read_file-remove_file-none i id (f ∷ fs) h = ground (arith, read_file-remove_file-none i id fs)

remove_file-IsFresh :
    (n : FileName) (id : ConnectionId) (fs : List File)
    → IsFresh n fs
    → IsFresh n (remove_file id fs)
remove_file-IsFresh (record_file i) id fs h = read_file-remove_file-none i id fs h
remove_file-IsFresh odd_json id fs h = tt
remove_file-IsFresh other_file id fs h = tt

pub remove_file-IsListing :
    (id : ConnectionId) (fs : List File) → IsListing fs → IsListing (remove_file id fs)
unfolding remove_file
remove_file-IsListing id [] h = tt
remove_file-IsListing id (f ∷ fs) (fresh_name, h) = elim (Bool-cases (is_file id f.name)) [
  | inl same ↦ rw same h
  | inr other ↦
      rw other (remove_file-IsFresh f.name id fs fresh_name, remove_file-IsListing id fs h)
]

-- `c` is what its own file holds.
pub record IsListed (e : Env) (fs : List File) (c : StoredConnection) : Type 0 where
  pub on_disk : StoredConnectionDisk
  pub held : read_file c.id fs ≡ some (readable on_disk)
  pub is_read : IsRead e c.id on_disk c

module _ (e : Env) where
  IsListed-skip :
      (n : FileName) (f : File) (fs : List File) (c : StoredConnection)
      → f.name ≡ n
      → IsFresh n fs
      → IsListed e fs c
      → IsListed e (f ∷ fs) c
  unfolding read_file
  IsListed-skip (record_file i) f fs c p h l = record {
    on_disk = l.on_disk;
    held = elim (Bool-cases (nat_eq i c.id)) [
      | inl same ↦
          absurd (cc (subst (λ k. read_file k fs ≡ none) ((nat_eq_iff i c.id).0 same) h, l.held))
      | inr other ↦ rw (p, other) l.held
    ];
    is_read = l.is_read;
  }
  IsListed-skip odd_json f fs c p h l = record {
    on_disk = l.on_disk;
    held = rw p l.held;
    is_read = l.is_read;
  }
  IsListed-skip other_file f fs c p h l = record {
    on_disk = l.on_disk;
    held = rw p l.held;
    is_read = l.is_read;
  }

  All-skip :
      (f : File) (fs : List File) (cs : List StoredConnection)
      → IsFresh f.name fs
      → All (IsListed e fs) cs
      → All (IsListed e (f ∷ fs)) cs
  All-skip f fs [] h ls = tt
  All-skip f fs (c ∷ cs) h (l, ls) = (IsListed-skip f.name f fs c refl h l, All-skip f fs cs h ls)

  read_content-IsListed :
      (id : ConnectionId) (f : File) (fs : List File) (k : Content StoredConnectionDisk)
      (c : StoredConnection)
      → f.name ≡ record_file id
      → f.content ≡ k
      → read_content e id k ≡ ok c
      → IsListed e (f ∷ fs) c
  unfolding read_content read_file
  read_content-IsListed id f fs (readable d) c p q h =
      let r = from_disk_checked-IsRead e id d c h in
      record {
        on_disk = d;
        held = rw (p, r.same_id, (nat_eq_iff id id).1 refl, q);
        is_read = subst (λ k. IsRead e k d c) (sym r.same_id) r;
      }
  read_content-IsListed id f fs unreadable c p q h = absurd (cc)

  All-entry :
      (f : File) (fs : List File) (n : FileName)
      → f.name ≡ n
      → All (IsListed e (f ∷ fs)) (keep_ok (for_each_stored_entry e fs))
      → All (IsListed e (f ∷ fs)) (
          keep_ok (entry e (record { name = n; content = f.content }) (for_each_stored_entry e fs)))
  All-entry f fs (record_file id) p ls = entry_result (read_content e id f.content) refl
    where
      entry_result :
          (r : Result StoredConnection)
          → read_content e id f.content ≡ r
          → All (IsListed e (f ∷ fs)) (keep_ok (r ∷ for_each_stored_entry e fs))
      entry_result (ok c) q = (read_content-IsListed id f fs f.content c p refl q, ls)
      entry_result (err x) q = ls
  All-entry f fs odd_json p ls = ls
  All-entry f fs other_file p ls = ls

  pub entries-IsListed :
      (fs : List File) → IsListing fs → All (IsListed e fs) (keep_ok (for_each_stored_entry e fs))
  unfolding for_each_stored_entry
  entries-IsListed [] h = tt
  entries-IsListed (f ∷ fs) (fresh_name, h) =
      All-entry f fs f.name refl
        (All-skip f fs (keep_ok (for_each_stored_entry e fs)) fresh_name (entries-IsListed fs h))

pub find-All {ℓ κ} :
    {A : Type ℓ} (P : A → Type κ) (test : A → Bool) (xs : List A) (a : A)
    → All P xs
    → find test xs ≡ some a
    → P a × (test a ≡ true)
find-All P test [] a h q = absurd (cc)
find-All P test (x ∷ xs) a (p, h) q = elim (Bool-cases (test x)) [
  | inl hit ↦ let same : x ≡ a = ground arith in subst (λ y. P y × (test y ≡ true)) same (p, hit)
  | inr miss ↦ find-All P test xs a h (rw miss at q)
]
