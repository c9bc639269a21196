-- ===== src/Registry/Transfer/Reports.antt =====
-- The events that the task of a download records, of src/registry/blob.rs. What a status and an
-- error print as is a parameter.
use pulld.Base.{
  some, Option, List, [], ◌∷◌, ◌++◌, is_none, if◌then◌else◌, DockerProxyError, Result, ok, err, ℕ,
}
use pulld.Text.{Text, text}
use pulld.Text.Numbers.{to_text}
use pulld.Cache.{CacheStorage, with_extension}
use pulld.Cache.Disk.{Bytes, Disk, ObjectStore, Cached, put_file}
use pulld.Cache.Keys.{blob_path}
use pulld.Cache.Blobs.{commit_blob_from_temp, with_files}
use pulld.Registry.Events.{PullEvent, new_event}
use pulld.Registry.Transfer.{
  Transfer, Streamed, Ended, completed, disconnected, broke_off, stream_on, Resumed, begin,
  keep_file, is_verified,
}

-- What a status, an error and the break of a stream print as.
pub record Printed : Type 0 where
  pub status_text : ℕ → Text
  pub error_text : DockerProxyError → Text
  pub stream_error_text : Text

-- An event of a GET about a digest.
abbrev pub get_event : Text → Text → Text → Text → PullEvent
get_event event image digest message = record (new_event event image message) {
  method = some (text "GET");
  digest = some digest;
}

unfoldable pub committed_event : Printed → Text → Text → Streamed → Result {0} Unit → PullEvent
unfolding to_text new_event
committed_event t image digest s (ok u) =
    record (get_event (text "pulld_image_blob_cached") image digest
      (text "blob cached successfully size=" ++ to_text s.total_bytes)) {
        status = some (t.status_text 200);
        cache = some (text "MISS");
      }
committed_event t image digest s (err e) =
    get_event (text "pulld_image_blob_cache_write_failed") image digest
      (text "blob cache write failed: " ++ t.error_text e)

module _ (S : ObjectStore) (sha256_hex : Bytes → Text) where
  -- The event after the loop, if the file is written to and can be synced.
  unfoldable pub final_events :
      Printed
      → CacheStorage
      → Disk
      → Text
      → Text
      → Text
      → Option ℕ
      → Streamed
      → Cached S
      → List PullEvent
  unfolding committed_event is_verified commit_blob_from_temp to_text new_event
  final_events t c d image digest temp_path expected_size s cached =
      if s.caching
      then (if d.sync_fails temp_path
          then []
          else if is_verified sha256_hex digest expected_size s
          then committed_event t image digest s
              (commit_blob_from_temp S c d cached digest temp_path).1
            ∷ []
          else get_event (text "pulld_image_blob_verification_failed") image digest (
              text "blob verification failed actual_size="
              ++ to_text s.total_bytes
              ++ text " calculated_digest=sha256:"
              ++ sha256_hex s.hashed)
            ∷ [])
      else []

  abbrev ended_events :
      Printed
      → CacheStorage
      → Disk
      → Text
      → Text
      → Text
      → Option ℕ
      → Ended
      → Streamed
      → Cached S
      → List PullEvent
  ended_events t c d image digest temp_path expected_size completed s cached =
      final_events t c d image digest temp_path expected_size s cached
  ended_events t c d image digest temp_path expected_size disconnected s cached =
      get_event (text "pulld_image_blob_client_disconnected") image digest
        (text "client disconnected after " ++ to_text s.total_bytes ++ text " bytes")
      ∷ final_events t c d image digest temp_path expected_size s cached
  ended_events t c d image digest temp_path expected_size broke_off s cached =
      get_event (text "pulld_image_blob_stream_error") image digest (
        text "upstream stream error after "
        ++ to_text s.total_bytes
        ++ text " bytes: "
        ++ t.stream_error_text)
      ∷ []

  -- The events of `run_task`, in their order.
  unfoldable pub task_events :
      Printed
      → CacheStorage
      → Disk
      → ℕ
      → Cached S
      → Text
      → Text
      → Option Resumed
      → Option ℕ
      → Transfer
      → List PullEvent
  unfolding blob_path with_extension begin stream_on final_events to_text new_event put_file
  task_events t c d now cached image digest resumed expected_size transfer =
      let temp_path = with_extension (blob_path c digest) (text "tmp") in
      let opens = is_none (d.write_fails temp_path) in
      let (ended, s) =
        stream_on transfer 0 transfer.chunks (begin cached.files temp_path resumed opens) in
      ended_events t c d image digest temp_path expected_size ended s
        (with_files S (keep_file now temp_path opens s cached.files) cached)
