-- ===== src/Cache/Blobs/Writes.antt =====
-- What a blob is after `write_blob`, on disk.
use pulld.Base.{
  ℕ, ◌+◌, ◌-◌, ◌%◌, ◌≡◌, refl, ◌⊎◌, Bool, true, false, none, some, [], ◌∷◌, arith, length,
  Option-cases, Bool-cases, inl, inr, ok, if◌then◌else◌,
}
use pulld.Text.{Text, text, text_eq}
use pulld.Text.Laws.{text_eq_iff, text_eq_refl}
use pulld.Cache.{CacheStorage, filesystem, with_extension}
use pulld.Cache.Disk.{
  Bytes, File, Files, Disk, find_file, put_file, delete_file, write_file, rename_file, remove_file,
  read_file, ObjectStore, Cached,
}
use pulld.Text.Numbers.{u64_limit}
use pulld.Cache.Keys.{blob_path}
use pulld.Cache.Evict.{evict_on, evict_if_needed, calculate_cache_size, sort_by_age, read_dir}
use pulld.Cache.Blobs.{read_blob, write_blob, write_blob_file, with_files, parent, finish_write}

pub find_file-put_file :
    (files : Files) (p q : Text) (f : File)
    → find_file (put_file files p f) q ≡ (if text_eq p q then some f else find_file files q)
unfolding find_file put_file
find_file-put_file [] p q f = refl
find_file-put_file ((r, g) ∷ files) p q f =
    ground
      (arith, text_eq_iff r p, text_eq_iff r q, text_eq_iff p q, find_file-put_file files p q f)

pub find_file-delete_file :
    (files : Files) (p q : Text)
    → find_file (delete_file files p) q ≡ (if text_eq p q then none else find_file files q)
unfolding find_file delete_file
find_file-delete_file [] p q = ground arith
find_file-delete_file ((r, g) ∷ files) p q =
    ground
      (arith, text_eq_iff r p, text_eq_iff r q, text_eq_iff p q, find_file-delete_file files p q)

find_file-remove_file :
    (d : Disk) (files files' : Files) (p q : Text)
    → remove_file d files p ≡ some files'
    → (find_file files' q ≡ find_file files q) ⊎ (find_file files' q ≡ none)
unfolding remove_file
find_file-remove_file d files files' p q h = ground (arith, find_file-delete_file files p q)

-- Eviction changes no file that it keeps.
find_file-evict_on :
    (d : Disk) (target freed : ℕ) (todo files : Files) (q : Text)
    → (find_file (evict_on d target freed todo files) q ≡ find_file files q)
      ⊎ (find_file (evict_on d target freed todo files) q ≡ none)
unfolding evict_on
find_file-evict_on d target freed [] files q = inl refl
find_file-evict_on d target freed ((p, f) ∷ todo) files q =
    elim (Option-cases (remove_file d files p)) [
      | inl e ↦ ground (arith, find_file-evict_on d target freed todo files q)
      | inr (files', e) ↦ ground (
        arith,
        find_file-evict_on d target ((freed + length f.bytes) % u64_limit) todo files' q,
        find_file-remove_file d files files' p q e,
      )
    ]

pub find_file-evict_if_needed :
    (c : CacheStorage) (d : Disk) (files : Files) (n : ℕ) (q : Text)
    → (find_file (evict_if_needed c d files n) q ≡ find_file files q)
      ⊎ (find_file (evict_if_needed c d files n) q ≡ none)
unfolding evict_if_needed
find_file-evict_if_needed c d files n q =
    let wanted = (calculate_cache_size c files + n) % u64_limit in
    ground (
      arith,
      find_file-evict_on d (wanted - c.max_size_bytes) 0 (sort_by_age (read_dir files c.blobs_dir))
          files q,
    )

pub rename_file-found :
    (d : Disk) (files files' : Files) (source target : Text) (f : File)
    → find_file files source ≡ some f
    → rename_file d files source target ≡ some files'
    → find_file files' target ≡ some f
unfolding rename_file
rename_file-found d files files' source target f h r =
    ground
      (arith, find_file-put_file (delete_file files source) target target f, text_eq_refl target)

module _ (S : ObjectStore) where
  finish_write-found :
      (d : Disk) (temp path : Text) (s : Cached S) (written : Bool) (f : File)
      → find_file s.files temp ≡ some f
      → (finish_write S d temp path s written).1 ≡ ok tt
      → (written ≡ true)
        × (find_file ((finish_write S d temp path s written).0).files path ≡ some f)
  finish_write-found d temp path s false f h e = absurd (cc)
  finish_write-found d temp path s true f h e =
      elim (Option-cases (rename_file d s.files temp path)) [
        | inl r ↦ absurd (ground arith)
        | inr (files, r) ↦ ground (arith, rename_file-found d s.files files temp path f h r)
      ]

  write_blob_file-found :
      (c : CacheStorage) (d : Disk) (now : ℕ) (s : Cached S) (digest : Text) (content : Bytes)
      → (write_blob_file S c d now s digest content).1 ≡ ok tt
      → find_file ((write_blob_file S c d now s digest content).0).files (blob_path c digest)
        ≡ some (record { bytes = content; modified = now })
  unfolding write_blob_file write_file
  write_blob_file-found c d now s digest content h =
      let path = blob_path c digest in
      let temp = with_extension path (text "tmp") in
      let files = evict_if_needed c d s.files (length content) in
      let f : File = record { bytes = content; modified = now } in
      elim (Bool-cases (d.create_dir_fails (parent path))) [
        | inl e ↦ absurd (ground arith)
        | inr e ↦ elim (Option-cases (d.write_fails temp)) [
          | inl w ↦ ground (
            arith,
            finish_write-found d temp path (with_files S (put_file files temp f) s) true f,
            find_file-put_file files temp temp f,
            text_eq_refl temp,
          )
          | inr (n, w) ↦ absurd (ground arith)
        ]
      ]

  write_blob-found :
      (c : CacheStorage) (d : Disk) (now : ℕ) (s : Cached S) (digest : Text) (content : Bytes)
      → c.backend ≡ filesystem
      → (write_blob S c d now s digest content).1 ≡ ok tt
      → find_file ((write_blob S c d now s digest content).0).files (blob_path c digest)
        ≡ some (record { bytes = content; modified = now })
  unfolding write_blob
  write_blob-found c d now s digest content b =
      simp (write_blob, b) (write_blob_file-found c d now s digest content)

  -- A blob that `write_blob` has written to disk without an error is read back, if it can be read.
  pub write_blob-read_blob :
      (c : CacheStorage) (d : Disk) (now : ℕ) (s : Cached S) (digest : Text) (content : Bytes)
      → c.backend ≡ filesystem
      → d.read_fails (blob_path c digest) ≡ false
      → (write_blob S c d now s digest content).1 ≡ ok tt
      → read_blob S c d (write_blob S c d now s digest content).0 digest ≡ ok content
  unfolding write_blob read_blob read_file
  write_blob-read_blob c d now s digest content b r h =
      let at_path = write_blob-found c d now s digest content b h in
      simp (read_blob, read_file, b, at_path, r)
