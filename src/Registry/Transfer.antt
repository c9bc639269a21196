-- ===== src/Registry/Transfer.antt =====
-- The background task of `get_blob` in src/registry/blob.rs: it passes a blob on to the client,
-- keeps it in a temporary file, and commits the file if it is the blob that was asked for. The
-- hash function is a parameter, and so is what fails, and when.
pub mod Written
pub mod Verified
pub mod Delivery
pub mod Reports
mod Tests
use pulld.Base.{
  ℕ, suc, ◌+◌, ◌%◌, Bool, true, false, ◌&&◌, Option, none, some, List, [], ◌∷◌, ◌++◌, length,
  unwrap_or, not, is_none, is_some, ◌==◌, if◌then◌else◌, Result, ok, err,
}
use pulld.Text.{Text, text, text_eq, rsplit_once}
use pulld.Text.Numbers.{u64_limit}
use pulld.Cache.{CacheStorage, with_extension}
use pulld.Cache.Disk.{
  Bytes, File, Files, Disk, find_file, put_file, remove_file, ObjectStore, Cached,
}
use pulld.Cache.Keys.{blob_path}
use pulld.Cache.Blobs.{commit_blob_from_temp, with_files, try_remove, Done, parent}

-- What happens in a download: the chunks that come, whether they break off with an error, and which
-- of them can not be written to the file or not be sent to the client.
pub record Transfer : Type 0 where
  pub chunks : List Bytes
  pub broken : Bool
  pub write_fails : ℕ → Bool
  pub client_gone : ℕ → Bool

pub record Streamed : Type 0 where
  pub total_bytes : ℕ
  pub hashed : Bytes
  pub written : Bytes
  pub caching : Bool
  pub sent : List Bytes

pub data Ended : Type 0 where
  completed disconnected broke_off : Ended

-- One chunk: counted, hashed, and written if the file is still written to.
unfoldable pub take_chunk : (ℕ → Bool) → ℕ → Bytes → Streamed → Streamed
take_chunk write_fails i chunk s = record s {
  total_bytes = (s.total_bytes + length chunk) % u64_limit;
  hashed = s.hashed ++ chunk;
  written = if s.caching && not (write_fails i) then s.written ++ chunk else s.written;
  caching = s.caching && not (write_fails i);
}

-- The loop, from the chunk `i` on.
unfoldable pub stream_on : Transfer → ℕ → List Bytes → Streamed → Ended × Streamed
unfolding take_chunk
stream_on t i [] s = (if t.broken then broke_off else completed, s)
stream_on t i (chunk ∷ chunks) s =
    let s' = take_chunk t.write_fails i chunk s in
    let rest = stream_on t (suc i) chunks (record s' { sent = s'.sent ++ (chunk ∷ []) }) in
    if t.client_gone i then (disconnected, s') else rest

-- A resumed download: the position, and the content that was read to be hashed, if it could be.
pub record Resumed : Type 0 where
  pub position : ℕ
  pub existing : Option Bytes

abbrev pub position_of : Option Resumed → ℕ
position_of none = 0
position_of (some r) = r.position

abbrev pub hashed_of : Option Resumed → Bytes
hashed_of none = []
hashed_of (some r) = unwrap_or r.existing []

-- The content of the temporary file when it is opened: appended to if the download is resumed, and
-- empty if not.
unfoldable pub opened_content : Files → Text → Option Resumed → Bytes
unfolding find_file
opened_content files temp_path none = []
opened_content files temp_path (some r) = elim (find_file files temp_path) [
  | none ↦ []
  | some file ↦ file.bytes
]

unfoldable pub begin : Files → Text → Option Resumed → Bool → Streamed
unfolding opened_content
begin files temp_path resumed opens = record {
  total_bytes = position_of resumed;
  hashed = hashed_of resumed;
  written = opened_content files temp_path resumed;
  caching = opens;
  sent = [];
}

-- The file is there as far as it was written, if it could be opened.
abbrev pub keep_file : ℕ → Text → Bool → Streamed → Files → Files
keep_file now temp_path opens s files =
    if opens then put_file files temp_path (record { bytes = s.written; modified = now }) else files

-- `calculated_digest == digest_clone`, and the size if it is known.
unfoldable pub is_verified : (Bytes → Text) → Text → Option ℕ → Streamed → Bool
is_verified sha256_hex digest expected_size s =
    (elim expected_size [ none ↦ true | some expected ↦ s.total_bytes == expected ])
    && text_eq (text "sha256:" ++ sha256_hex s.hashed) digest

module _ (S : ObjectStore) (sha256_hex : Bytes → Text) where
  abbrev pub commit_or_remove : Disk → Text → Done S Unit → Cached S
  commit_or_remove d temp_path (s, ok u) = s
  commit_or_remove d temp_path (s, err e) = try_remove S d temp_path s

  -- What is done after the loop, unless the upstream broke off.
  unfoldable pub finalize :
      CacheStorage → Disk → Text → Text → Option ℕ → Streamed → Cached S → Cached S
  unfolding is_verified commit_blob_from_temp remove_file
  finalize c d digest temp_path expected_size s cached =
      if s.caching
      then (if not (d.sync_fails temp_path) && is_verified sha256_hex digest expected_size s
          then commit_or_remove d temp_path (commit_blob_from_temp S c d cached digest temp_path)
          else try_remove S d temp_path cached)
      else cached

  -- After a stream error the file is left as it is, to be resumed.
  abbrev pub end_task :
      CacheStorage → Disk → Text → Text → Option ℕ → Ended → Streamed → Cached S → Cached S
  end_task c d digest temp_path expected_size broke_off s cached = cached
  end_task c d digest temp_path expected_size completed s cached =
      finalize c d digest temp_path expected_size s cached
  end_task c d digest temp_path expected_size disconnected s cached =
      finalize c d digest temp_path expected_size s cached

  -- The task: how the stream ended, what was streamed, and the cache after it.
  unfoldable pub run_task :
      CacheStorage
      → Disk
      → ℕ
      → Cached S
      → Text
      → Option Resumed
      → Option ℕ
      → Transfer
      → Ended × Streamed × Cached S
  unfolding blob_path with_extension begin stream_on finalize put_file
  run_task c d now cached digest resumed expected_size t =
      let temp_path = with_extension (blob_path c digest) (text "tmp") in
      let opens = is_none (d.write_fails temp_path) in
      let (ended, s) = stream_on t 0 t.chunks (begin cached.files temp_path resumed opens) in
      (
        ended,
        s,
        end_task c d digest temp_path expected_size ended s
            (with_files S (keep_file now temp_path opens s cached.files) cached),
      )
