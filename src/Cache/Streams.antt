-- ===== src/Cache/Streams.antt =====
-- `write_blob_stream` and `blob_upload_temp_path` of src/cache/storage.rs. The identity of the process
-- and the time in a name are parameters.
pub mod Stored
use pulld.Base.{
  ℕ, suc, ◌+◌, ◌%◌, Bool, true, false, ◌&&◌, ◌||◌, not, Option, none, some, List, [], ◌∷◌, ◌++◌,
  length, ltb, is_some, if◌then◌else◌, DockerProxyError, Result, ok, err,
}
use pulld.Text.{Text, text, rsplit_once}
use pulld.Text.Numbers.{to_text, u64_limit}
use pulld.Cache.{CacheStorage, filesystem, object_store, join_path, bare, with_extension}
use pulld.Cache.Disk.{
  Bytes, File, Files, Disk, put_file, rename_file, remove_file, ObjectStore, Cached,
}
use pulld.Cache.Keys.{blob_path, blob_object_key}
use pulld.Cache.Evict.{evict_if_needed}
use pulld.Cache.Blobs.{Done, with_files, parent, try_remove, object_put_file}

unfoldable pub blob_upload_temp_path : CacheStorage → ℕ → ℕ → Text → Text
unfolding bare join_path to_text
blob_upload_temp_path c process timestamp digest = join_path c.blobs_dir (
    bare digest
    ++ text "."
    ++ to_text process
    ++ text "."
    ++ to_text timestamp
    ++ text ".upload.tmp")

-- A reader: what its reads give, whether the read after them fails, and which of the writes fail.
pub record Reader : Type 0 where
  pub reads : List Bytes
  pub read_fails : Bool
  pub write_fails : ℕ → Bool

-- The loop: what is written, how much was counted, and whether all went well. A read that gives
-- nothing ends it.
unfoldable pub copy_on : Reader → ℕ → List Bytes → Bytes → ℕ → Bytes × ℕ × Bool
copy_on r i [] content written = (content, written, not r.read_fails)
copy_on r i ([] ∷ reads) content written = (content, written, true)
copy_on r i ((x ∷ xs) ∷ reads) content written =
    let b = x ∷ xs in
    let rest = copy_on r (suc i) reads (content ++ b) ((written + length b) % u64_limit) in
    if r.write_fails i then (content, written, false) else rest

module _ (S : ObjectStore) where
  abbrev pub created : Disk → ℕ → Reader → Text → Cached S → Cached S × ℕ × Bool
  created d now r temp_path s =
      let (content, written, copied) = copy_on r 0 r.reads [] 0 in
      (
        with_files S (put_file s.files temp_path (record { bytes = content; modified = now })) s,
        written,
        copied && not (d.sync_fails temp_path),
      )

  -- Old blobs make room once the blob is written, and the file is renamed.
  abbrev pub settle : CacheStorage → Disk → Text → Text → Cached S × ℕ × Bool → Done S Unit
  settle c d temp_path path (s, written, false) = (s, err DockerProxyError.cache)
  settle c d temp_path path (s, written, true) =
      let files = (if ltb 0 written then evict_if_needed c d s.files written else s.files) in
      elim (rename_file d files temp_path path) [
        | none ↦ (with_files S files s, err DockerProxyError.cache)
        | some files' ↦ (with_files S files' s, ok tt)
      ]

  -- The file is uploaded, and removed whether or not that succeeds.
  abbrev pub upload : CacheStorage → Disk → Text → Text → Cached S × ℕ × Bool → Done S Unit
  upload c d temp_path digest (s, written, false) = (s, err DockerProxyError.cache)
  upload c d temp_path digest (s, written, true) =
      after_upload d temp_path (object_put_file S d s (blob_object_key c digest) temp_path)
    where
      after_upload : Disk → Text → Cached S × Result {0} ℕ → Done S Unit
      after_upload d temp_path (s, ok size) = (try_remove S d temp_path s, ok tt)
      after_upload d temp_path (s, err e) = (try_remove S d temp_path s, err e)

  -- The blob's size, where it is stored without an error.
  abbrev pub counted : ℕ → Done S Unit → Cached S × Result {0} ℕ
  counted written (s, ok u) = (s, ok written)
  counted written (s, err e) = (s, err e)

  abbrev pub begin_file :
      Disk → Text → Text → Cached S → Cached S × Result {0} ℕ → Cached S × Result {0} ℕ
  begin_file d path temp_path s rest =
      if d.create_dir_fails (parent path) || is_some (d.write_fails temp_path)
      then (s, err DockerProxyError.cache)
      else rest

  unfoldable pub write_blob_stream :
      CacheStorage → Disk → ℕ → ℕ → Cached S → Text → Reader → Cached S × Result {0} ℕ
  unfolding blob_upload_temp_path blob_path with_extension copy_on put_file evict_if_needed
      rename_file object_put_file remove_file blob_object_key rsplit_once
  write_blob_stream c d now process s digest r = elim c.backend [
    | object_store prefix ↦
        let temp_path = blob_upload_temp_path c process now digest in
        let started = created d now r temp_path s in
        begin_file d temp_path temp_path s (counted started.1 (upload c d temp_path digest started))
    | filesystem ↦
        let path = blob_path c digest in
        let temp_path = with_extension path (text "tmp") in
        let started = created d now r temp_path s in
        begin_file d path temp_path s (counted started.1 (settle c d temp_path path started))
  ]
