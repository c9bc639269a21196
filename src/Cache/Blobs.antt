-- ===== src/Cache/Blobs.antt =====
-- Blobs in the cache: the operations of src/cache/storage.rs that look for, read and write them.
pub mod Ranges
pub mod Reads
pub mod Writes
use pulld.Base.{
  ℕ, zero, suc, ◌+◌, ◌-◌, ◌*◌, ◌%◌, min, Bool, true, false, not, Option, none, some, ◌>>=◌, List,
  [], ◌∷◌, ◌++◌, map, length, take, drop, leb, ltb, ◌==◌, is_some, unwrap_or, if◌then◌else◌,
  DockerProxyError, Result, ok, err,
}
use pulld.Text.{Text, text, rsplit_once}
use pulld.Text.Numbers.{u64_limit}
use pulld.Cache.{CacheStorage, filesystem, object_store, with_extension}
use pulld.Cache.Disk.{
  Bytes, File, Files, Disk, find_file, put_file, write_file, rename_file, remove_file, read_file,
  ObjectStore, Cached,
}
use pulld.Cache.Keys.{blob_path, blob_object_key}
use pulld.Cache.Evict.{evict_if_needed}

pub record BlobByteRange : Type 0 where
  pub start : ℕ
  pub end : Option ℕ

pub record CachedBlob : Type 0 where
  pub size : ℕ
  pub range_start : Option ℕ
  pub range_end : Option ℕ
  pub body : Bytes

-- The byte positions of a blob of a size that a range asks for, the last one included. There is
-- none where the range begins behind the blob or ends before its start.
unfoldable pub range_of : ℕ → BlobByteRange → Option (ℕ × ℕ)
range_of size range =
    let last = min (unwrap_or range.end (size - 1)) (size - 1) in
    if leb size range.start
    then none
    else if ltb last range.start
    then none
    else some (range.start, last)

abbrev pub parent : Text → Text
parent path = elim (rsplit_once path b'/') [ none ↦ [] | some (dir, name) ↦ dir ]

module _ (S : ObjectStore) where
  unfoldable pub blob_size : CacheStorage → Cached S → Text → Option ℕ
  unfolding find_file blob_path blob_object_key
  blob_size c s digest = elim c.backend [
    | filesystem ↦ (do file ← find_file s.files (blob_path c digest); some (length file.bytes))
    | object_store prefix ↦ S.head s.objects (blob_object_key c digest)
  ]

  unfoldable pub blob_exists : CacheStorage → Cached S → Text → Bool
  unfolding find_file blob_path blob_object_key
  blob_exists c s digest = elim c.backend [
    | filesystem ↦ is_some (find_file s.files (blob_path c digest))
    | object_store prefix ↦ is_some (S.head s.objects (blob_object_key c digest))
  ]

  abbrev pub or_cache_error {ℓ} : {A : Type ℓ} → Option A → Result A
  or_cache_error none = err DockerProxyError.cache
  or_cache_error (some a) = ok a

  unfoldable pub read_blob : CacheStorage → Disk → Cached S → Text → Result Bytes
  unfolding read_file blob_path blob_object_key
  read_blob c d s digest = elim c.backend [
    | filesystem ↦ or_cache_error (read_file d s.files (blob_path c digest))
    | object_store prefix ↦ or_cache_error (S.get s.objects (blob_object_key c digest))
  ]

  unfoldable pub read_blob_range : CacheStorage → Disk → Cached S → Text → ℕ → Result Bytes
  unfolding blob_size read_file blob_path blob_object_key
  read_blob_range c d s digest start = elim (blob_size c s digest) [
    | none ↦ err DockerProxyError.cache
    | some size ↦ if leb size start then ok [] else (elim c.backend [
      | filesystem ↦
          or_cache_error
            (do content ← read_file d s.files (blob_path c digest); some (drop start content))
      | object_store prefix ↦
          or_cache_error (S.get_range s.objects (blob_object_key c digest) start size)
    ])
  ]

  -- The body: `start..end_exclusive` of the file or of the object.
  abbrev pub open_body : CacheStorage → Disk → Cached S → Text → Bool → ℕ → ℕ → Option Bytes
  open_body c d s digest is_range start end_exclusive = elim c.backend [
    | filesystem ↦ (do
      content ← read_file d s.files (blob_path c digest)
      some (take (end_exclusive - start) (drop start content)))
    | object_store prefix ↦
        if is_range
        then S.get_range s.objects (blob_object_key c digest) start end_exclusive
        else S.get s.objects (blob_object_key c digest)
  ]

  abbrev pub opened : ℕ → Option (ℕ × ℕ) → Option Bytes → Result (Option CachedBlob)
  opened size range none = err DockerProxyError.cache
  opened size range (some body) = ok (
      some (record {
        size = size;
        range_start = (do r ← range; some r.0);
        range_end = (do r ← range; some r.1);
        body = body;
      }))

  unfoldable pub open_blob :
      CacheStorage → Disk → Cached S → Text → Option BlobByteRange → Result (Option CachedBlob)
  unfolding blob_size range_of read_file blob_path blob_object_key
  open_blob c d s digest range = elim (blob_size c s digest) [
    | none ↦ ok none
    | some size ↦ if size == 0 then ok none else (elim range [
      | none ↦ opened size none (open_body c d s digest false 0 size)
      | some r ↦ elim (range_of size r) [
        | none ↦ ok none
        | some (start, end) ↦
            opened size (some (start, end)) (open_body c d s digest true start (end + 1))
      ]
    ])
  ]

  abbrev pub with_files : Files → Cached S → Cached S
  with_files files s = record s { files = files }

  -- A result with the state after it.
  abbrev pub Done : Type 0 → Type 0
  Done A = Cached S × Result A

  abbrev pub put_object : Cached S → Text → Bytes → Done Unit
  put_object s key content = elim (S.put s.objects key content) [
    | none ↦ (s, err DockerProxyError.cache)
    | some objects ↦ (record s { objects = objects }, ok tt)
  ]

  abbrev pub finish_write : Disk → Text → Text → Cached S → Bool → Done Unit
  finish_write d temp_path path s false = (s, err DockerProxyError.cache)
  finish_write d temp_path path s true =
      if d.create_dir_fails (parent path)
      then (s, err DockerProxyError.cache)
      else (elim (rename_file d s.files temp_path path) [
        | none ↦ (s, err DockerProxyError.cache)
        | some files ↦ (with_files files s, ok tt)
      ])

  -- On disk: the content goes to a temporary file, after old blobs have made room, and the file is
  -- then renamed.
  unfoldable pub write_blob_file : CacheStorage → Disk → ℕ → Cached S → Text → Bytes → Done Unit
  unfolding blob_path with_extension rsplit_once evict_if_needed write_file rename_file
  write_blob_file c d now s digest content =
      let path = blob_path c digest in
      let temp_path = with_extension path (text "tmp") in
      let (files, written) =
        write_file d now (evict_if_needed c d s.files (length content)) temp_path content in
      if d.create_dir_fails (parent path)
      then (s, err DockerProxyError.cache)
      else finish_write d temp_path path (with_files files s) written

  unfoldable pub write_blob : CacheStorage → Disk → ℕ → Cached S → Text → Bytes → Done Unit
  unfolding write_blob_file blob_object_key
  write_blob c d now s digest content = elim c.backend [
    | object_store prefix ↦ put_object s (blob_object_key c digest) content
    | filesystem ↦ write_blob_file c d now s digest content
  ]

  -- `S3_MULTIPART_MIN_PART_SIZE` and `S3_MULTIPART_CHUNK_SIZE`.
  abbrev pub min_part_size : ℕ
  min_part_size = 5 * 1024 * 1024

  abbrev pub chunk_size : ℕ
  chunk_size = 8 * 1024 * 1024

  -- The reads of the upload's loop, each of a full buffer but the last. The content's length is
  -- fuel enough, since a read takes at least one byte.
  unfoldable pub parts_on : ℕ → Bytes → List Bytes
  parts_on fuel [] = []
  parts_on zero (b ∷ content) = []
  parts_on (suc fuel) (b ∷ content) =
      take chunk_size (b ∷ content) ∷ parts_on fuel (drop chunk_size (b ∷ content))

  unfoldable pub object_put_file : Disk → Cached S → Text → Text → Done ℕ
  unfolding find_file read_file parts_on
  object_put_file d s key file_path = elim (find_file s.files file_path) [
    | none ↦ (s, err DockerProxyError.cache)
    | some file ↦ elim (read_file d s.files file_path) [
      | none ↦ (s, err DockerProxyError.cache)
      | some content ↦
          let size = length content in
          let stored =
            (if ltb size min_part_size
              then S.put s.objects key content
              else S.put_multipart s.objects key (parts_on size content)) in
          elim stored [
            | none ↦ (s, err DockerProxyError.cache)
            | some objects ↦ (record s { objects = objects }, ok size)
          ]
    ]
  ]

  -- `let _ = fs::remove_file(path)`.
  abbrev pub try_remove : Disk → Text → Cached S → Cached S
  try_remove d path s = with_files (unwrap_or (remove_file d s.files path) s.files) s

  abbrev commit_uploaded : Disk → Text → Done ℕ → Done Unit
  commit_uploaded d temp_path (s, err e) = (s, err e)
  commit_uploaded d temp_path (s, ok size) = (try_remove d temp_path s, ok tt)

  unfoldable pub commit_blob_from_temp : CacheStorage → Disk → Cached S → Text → Text → Done Unit
  unfolding blob_path blob_object_key rsplit_once rename_file remove_file object_put_file
  commit_blob_from_temp c d s digest temp_path = elim c.backend [
    | filesystem ↦
        let path = blob_path c digest in
        if d.create_dir_fails (parent path)
        then (s, err DockerProxyError.cache)
        else (elim (rename_file d s.files temp_path path) [
          | none ↦ (s, err DockerProxyError.cache)
          | some files ↦ (with_files files s, ok tt)
        ])
    | object_store prefix ↦
        commit_uploaded d temp_path (object_put_file d s (blob_object_key c digest) temp_path)
  ]
