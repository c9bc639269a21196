-- ===== src/Cache/Manifests/RoundTrip.antt =====
-- What is read of manifests and of tags after they were written.
use pulld.Base.{ℕ, ◌≡◌, refl, false, some, ◌>>=◌, arith, Option-cases, inl, inr, ◌⊎◌, ok}
use pulld.Text.{Text, text, trim}
use pulld.Text.Laws.{text_eq_refl}
use pulld.Cache.{CacheStorage, CacheBackend, filesystem, object_store, with_extension}
use pulld.Cache.Disk.{
  Bytes, File, Disk, find_file, put_file, write_file, rename_file, read_file, ObjectStore, Cached,
}
use pulld.Cache.Keys.{
  manifest_path_by_digest, tag_digest_mapping_path, manifest_object_key_by_digest,
  tag_digest_mapping_object_key,
}
use pulld.Cache.Blobs.{Done, or_cache_error, with_files, put_object}
use pulld.Cache.Blobs.Writes.{find_file-put_file, rename_file-found}
use pulld.Cache.Manifests.{
  write_in_place, write_atomically, renamed, read_tag_digest_mapping, write_tag_digest_mapping,
  read_manifest_by_digest, write_manifest_by_digest,
}

-- An object store gives what was put last.
pub record IsStore (S : ObjectStore) : Type 0 where
  pub get-put :
      (s s' : S.Objects) (key : Text) (content : Bytes)
      → S.put s key content ≡ some s'
      → S.get s' key ≡ some content

module _ (S : ObjectStore) where
  write_in_place-found :
      (d : Disk) (now : ℕ) (s : Cached S) (path : Text) (content : Bytes)
      → (write_in_place S d now s path content).1 ≡ ok tt
      → find_file ((write_in_place S d now s path content).0).files path
        ≡ some (record { bytes = content; modified = now })
  unfolding write_file
  write_in_place-found d now s path content h =
      let f : File = record { bytes = content; modified = now } in
      elim (Option-cases (d.write_fails path)) [
        | inl e ↦ ground (arith, find_file-put_file s.files path path f, text_eq_refl path)
        | inr (n, e) ↦ absurd (ground arith)
      ]

  renamed-found :
      (d : Disk) (temp path : Text) (s : Cached S) (f : File)
      → find_file s.files temp ≡ some f
      → (renamed S d temp path s).1 ≡ ok tt
      → find_file ((renamed S d temp path s).0).files path ≡ some f
  renamed-found d temp path s f there h = elim (Option-cases (rename_file d s.files temp path)) [
    | inl e ↦ absurd (ground arith)
    | inr (files, e) ↦ ground (arith, rename_file-found d s.files files temp path f there e)
  ]

  pub write_atomically-found :
      (d : Disk) (now : ℕ) (s : Cached S) (path : Text) (content : Bytes)
      → (write_atomically S d now s path content).1 ≡ ok tt
      → find_file ((write_atomically S d now s path content).0).files path
        ≡ some (record { bytes = content; modified = now })
  unfolding write_file
  write_atomically-found d now s path content h =
      let f : File = record { bytes = content; modified = now } in
      let temp = with_extension path (text "tmp") in
      elim (Option-cases (d.write_fails temp)) [
        | inl e ↦ ground (
          arith,
          renamed-found d temp path (with_files S (put_file s.files temp f) s) f,
          find_file-put_file s.files temp temp f,
          text_eq_refl temp,
        )
        | inr (n, e) ↦ absurd (ground arith)
      ]

  put_object-get :
      IsStore S
      → (s : Cached S) (key : Text) (content : Bytes) → (put_object S s key content).1 ≡ ok tt
      → S.get ((put_object S s key content).0).objects key ≡ some content
  put_object-get I s key content h = elim (Option-cases (S.put s.objects key content)) [
    | inl e ↦ absurd (ground arith)
    | inr (s', e) ↦ ground (arith, I.get-put s.objects s' key content e)
  ]

backend-cases : (b : CacheBackend) → (b ≡ filesystem) ⊎ ((p : Text) × (b ≡ object_store p))
backend-cases filesystem = inl refl
backend-cases (object_store p) = inr (p, refl)

-- A manifest that was written under its digest without an error is read back, on disk if it can be
-- read, and from an object store that gives what was put last.
pub write_manifest_by_digest-read :
    (S : ObjectStore) (c : CacheStorage) (d : Disk) (now : ℕ) (s : Cached S)
    (registry repository digest : Text) (content : Bytes)
    → IsStore S
    → d.read_fails (manifest_path_by_digest c registry repository digest) ≡ false
    → (write_manifest_by_digest S c d now s registry repository digest content).1 ≡ ok tt
    → read_manifest_by_digest S c d
        (write_manifest_by_digest S c d now s registry repository digest content).0
        registry
        repository
        digest
      ≡ ok content
unfolding write_manifest_by_digest read_manifest_by_digest read_file
write_manifest_by_digest-read S c d now s registry repository digest content I r =
    let path = manifest_path_by_digest c registry repository digest in
    let key = manifest_object_key_by_digest c registry repository digest in
    elim (backend-cases c.backend) [
      | inl b ↦
          simp (write_manifest_by_digest, read_manifest_by_digest, read_file, b)
            (on_disk (write_atomically S d now s path content)
              (write_atomically-found S d now s path content) r)
      | inr (p, b) ↦
          simp (write_manifest_by_digest, read_manifest_by_digest, b)
            (λ h. rw (put_object-get S I s key content h) refl)
    ]
  where
    on_disk :
        (w : Done S Unit)
        → (w.1 ≡ ok tt
            → find_file w.0.files (manifest_path_by_digest c registry repository digest)
              ≡ some (record { bytes = content; modified = now }))
        → d.read_fails (manifest_path_by_digest c registry repository digest) ≡ false
        → w.1 ≡ ok tt
        → or_cache_error S
            (read_file d w.0.files (manifest_path_by_digest c registry repository digest))
          ≡ ok content
    on_disk w found r h = simp (read_file, found h, r)

-- The digest of a tag that was written without an error is read back but for the white space around
-- it, on disk if it can be read, and from an object store that gives what was put last.
pub write_tag_digest_mapping-read :
    (S : ObjectStore) (c : CacheStorage) (d : Disk) (now : ℕ) (s : Cached S)
    (registry repository tag : Text) (digest : Text)
    → IsStore S
    → d.read_fails (tag_digest_mapping_path c registry repository tag) ≡ false
    → (write_tag_digest_mapping S c d now s registry repository tag digest).1 ≡ ok tt
    → read_tag_digest_mapping S c d
        (write_tag_digest_mapping S c d now s registry repository tag digest).0
        registry
        repository
        tag
      ≡ some (trim digest)
unfolding write_tag_digest_mapping read_tag_digest_mapping read_file
write_tag_digest_mapping-read S c d now s registry repository tag digest I r =
    let path = tag_digest_mapping_path c registry repository tag in
    let key = tag_digest_mapping_object_key c registry repository tag in
    elim (backend-cases c.backend) [
      | inl b ↦
          simp (write_tag_digest_mapping, read_tag_digest_mapping, read_file, b)
            (on_disk (write_in_place S d now s path digest)
              (write_in_place-found S d now s path digest))
      | inr (p, b) ↦
          simp (write_tag_digest_mapping, read_tag_digest_mapping, b)
            (λ h. rw (put_object-get S I s key digest h) refl)
    ]
  where
    on_disk :
        (w : Done S Unit)
        → (w.1 ≡ ok tt
            → find_file w.0.files (tag_digest_mapping_path c registry repository tag)
              ≡ some (record { bytes = digest; modified = now }))
        → w.1 ≡ ok tt
        → (do
          content ← read_file d w.0.files (tag_digest_mapping_path c registry repository tag)
          some (trim content))
          ≡ some (trim digest)
    on_disk w found h = simp (read_file, found h, r)
