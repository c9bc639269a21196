-- ===== src/Cache/Manifests.antt =====
-- Manifests, tags and charts in the cache: the operations of src/cache/storage.rs on them.
pub mod RoundTrip
pub mod Tagged
pub mod Legacy
use pulld.Base.{
  ℕ, Bool, true, false, Option, none, some, ◌>>=◌, is_some, if◌then◌else◌, DockerProxyError, Result,
  ok, err,
}
use pulld.Text.{Text, text, trim, rsplit_once}
use pulld.Cache.{CacheStorage, filesystem, object_store, with_extension}
use pulld.Cache.Disk.{
  Bytes, File, Files, Disk, find_file, write_file, rename_file, remove_file, read_file, ObjectStore,
  Cached,
}
use pulld.Cache.Keys.{
  manifest_path, manifest_path_by_digest, tag_digest_mapping_path, chart_path, manifest_object_key,
  manifest_object_key_by_digest, tag_digest_mapping_object_key, chart_object_key,
}
use pulld.Cache.Blobs.{Done, or_cache_error, with_files, parent, put_object}

module _ (S : ObjectStore) where
  -- `fs::write` to the path itself, in a directory that is made.
  abbrev pub write_in_place : Disk → ℕ → Cached S → Text → Bytes → Done S Unit
  write_in_place d now s path content =
      let (files, written) = write_file d now s.files path content in
      if d.create_dir_fails (parent path)
      then (s, err DockerProxyError.cache)
      else if written
      then (with_files S files s, ok tt)
      else (with_files S files s, err DockerProxyError.cache)

  -- A write to a temporary file that is then renamed.
  abbrev pub renamed : Disk → Text → Text → Cached S → Done S Unit
  renamed d temp_path path s = elim (rename_file d s.files temp_path path) [
    | none ↦ (s, err DockerProxyError.cache)
    | some files ↦ (with_files S files s, ok tt)
  ]

  abbrev pub write_atomically : Disk → ℕ → Cached S → Text → Bytes → Done S Unit
  write_atomically d now s path content =
      let temp_path = with_extension path (text "tmp") in
      let (files, written) = write_file d now s.files temp_path content in
      if d.create_dir_fails (parent path)
      then (s, err DockerProxyError.cache)
      else if written
      then renamed d temp_path path (with_files S files s)
      else (with_files S files s, err DockerProxyError.cache)

  -- What cannot be read is no mapping; an object's bytes are read as a text.
  unfoldable pub read_tag_digest_mapping :
      CacheStorage → Disk → Cached S → Text → Text → Text → Option Text
  unfolding read_file tag_digest_mapping_path tag_digest_mapping_object_key trim
  read_tag_digest_mapping c d s registry repository tag = elim c.backend [
    | object_store prefix ↦ (do
      digest ← S.get s.objects (tag_digest_mapping_object_key c registry repository tag)
      some (trim digest))
    | filesystem ↦ (do
      digest ← read_file d s.files (tag_digest_mapping_path c registry repository tag)
      some (trim digest))
  ]

  unfoldable pub write_tag_digest_mapping :
      CacheStorage → Disk → ℕ → Cached S → Text → Text → Text → Text → Done S Unit
  unfolding write_file tag_digest_mapping_path tag_digest_mapping_object_key rsplit_once
  write_tag_digest_mapping c d now s registry repository tag digest = elim c.backend [
    | object_store prefix ↦
        put_object S s (tag_digest_mapping_object_key c registry repository tag) digest
    | filesystem ↦ write_in_place d now s (tag_digest_mapping_path c registry repository tag) digest
  ]

  unfoldable pub manifest_exists_by_digest : CacheStorage → Cached S → Text → Text → Text → Bool
  unfolding find_file manifest_path_by_digest manifest_object_key_by_digest
  manifest_exists_by_digest c s registry repository digest = elim c.backend [
    | filesystem ↦
        is_some (find_file s.files (manifest_path_by_digest c registry repository digest))
    | object_store prefix ↦
        is_some (S.head s.objects (manifest_object_key_by_digest c registry repository digest))
  ]

  unfoldable pub read_manifest_by_digest :
      CacheStorage → Disk → Cached S → Text → Text → Text → Result Bytes
  unfolding read_file manifest_path_by_digest manifest_object_key_by_digest
  read_manifest_by_digest c d s registry repository digest = elim c.backend [
    | filesystem ↦
        or_cache_error S
          (read_file d s.files (manifest_path_by_digest c registry repository digest))
    | object_store prefix ↦
        or_cache_error S
          (S.get s.objects (manifest_object_key_by_digest c registry repository digest))
  ]

  unfoldable pub write_manifest_by_digest :
      CacheStorage → Disk → ℕ → Cached S → Text → Text → Text → Bytes → Done S Unit
  unfolding write_file rename_file manifest_path_by_digest manifest_object_key_by_digest
      with_extension rsplit_once
  write_manifest_by_digest c d now s registry repository digest content = elim c.backend [
    | object_store prefix ↦
        put_object S s (manifest_object_key_by_digest c registry repository digest) content
    | filesystem ↦
        write_atomically d now s (manifest_path_by_digest c registry repository digest) content
  ]

  unfoldable pub manifest_exists : CacheStorage → Cached S → Text → Text → Text → Bool
  unfolding find_file manifest_path manifest_object_key
  manifest_exists c s registry repository reference = elim c.backend [
    | filesystem ↦ is_some (find_file s.files (manifest_path c registry repository reference))
    | object_store prefix ↦
        is_some (S.head s.objects (manifest_object_key c registry repository reference))
  ]

  unfoldable pub read_manifest : CacheStorage → Disk → Cached S → Text → Text → Text → Result Bytes
  unfolding read_file manifest_path manifest_object_key
  read_manifest c d s registry repository reference = elim c.backend [
    | filesystem ↦
        or_cache_error S (read_file d s.files (manifest_path c registry repository reference))
    | object_store prefix ↦
        or_cache_error S (S.get s.objects (manifest_object_key c registry repository reference))
  ]

  abbrev deleted : Cached S → Option (Cached S) → Done S Unit
  deleted s none = (s, err DockerProxyError.cache)
  deleted s (some s') = (s', ok tt)

  unfoldable pub delete_manifest : CacheStorage → Disk → Cached S → Text → Text → Text → Done S Unit
  unfolding remove_file manifest_path manifest_object_key
  delete_manifest c d s registry repository reference = elim c.backend [
    | filesystem ↦ deleted s (do
      files ← remove_file d s.files (manifest_path c registry repository reference)
      some (with_files S files s))
    | object_store prefix ↦ deleted s (do
      objects ← S.delete s.objects (manifest_object_key c registry repository reference)
      some (record s { objects = objects }))
  ]

  unfoldable pub write_manifest :
      CacheStorage → Disk → ℕ → Cached S → Text → Text → Text → Bytes → Done S Unit
  unfolding write_file manifest_path manifest_object_key rsplit_once
  write_manifest c d now s registry repository reference content = elim c.backend [
    | object_store prefix ↦
        put_object S s (manifest_object_key c registry repository reference) content
    | filesystem ↦ write_in_place d now s (manifest_path c registry repository reference) content
  ]

  unfoldable pub chart_exists : CacheStorage → Cached S → Text → Text → Bool
  unfolding find_file chart_path chart_object_key
  chart_exists c s repo chart = elim c.backend [
    | filesystem ↦ is_some (find_file s.files (chart_path c repo chart))
    | object_store prefix ↦ is_some (S.head s.objects (chart_object_key c repo chart))
  ]

  unfoldable pub read_chart : CacheStorage → Disk → Cached S → Text → Text → Result Bytes
  unfolding read_file chart_path chart_object_key
  read_chart c d s repo chart = elim c.backend [
    | filesystem ↦ or_cache_error S (read_file d s.files (chart_path c repo chart))
    | object_store prefix ↦ or_cache_error S (S.get s.objects (chart_object_key c repo chart))
  ]

  unfoldable pub write_chart :
      CacheStorage → Disk → ℕ → Cached S → Text → Text → Bytes → Done S Unit
  unfolding write_file rename_file chart_path chart_object_key with_extension rsplit_once
  write_chart c d now s repo chart content = elim c.backend [
    | object_store prefix ↦ put_object S s (chart_object_key c repo chart) content
    | filesystem ↦ write_atomically d now s (chart_path c repo chart) content
  ]
