-- ===== src/Registry/Blob.antt =====
-- Small parts of src/registry/blob.rs: the client's range, the answer from the cache, and whether a
-- download is resumed.
pub mod Retry
pub mod Handler
pub mod Head
mod Tests
use pulld.Base.{
  ℕ, ◌+◌, ◌-◌, Bool, true, false, Option, none, some, ◌>>=◌, List, [], ◌∷◌, ◌++◌, is_empty,
  unwrap_or, is_some, ◌==◌, length, if◌then◌else◌,
}
use pulld.Text.{Text, text, trim, strip_prefix, split_once}
use pulld.Text.Numbers.{parse_below, u64_limit, to_text}
use pulld.Cache.Disk.{Bytes, File, Files, Disk, find_file, remove_file, read_file}
use pulld.Cache.Blobs.{BlobByteRange, CachedBlob}
use pulld.Registry.Http.{Headers, Response, header_text, partial_content}
use pulld.Registry.Transfer.{Resumed}

-- What a reply carries: bytes, the message of an error, whose text is not modelled, or the chunks
-- of a download and whether it breaks off after them.
pub data ReplyBody : Type 0 where
  content : Bytes → ReplyBody
  message : ReplyBody
  chunked : List Bytes → Bool → ReplyBody

pub record Reply : Type 0 where
  pub status : ℕ
  pub headers : List (Text × Text)
  pub body : ReplyBody

unfoldable pub parse_range_header : Text → Option BlobByteRange
unfolding trim strip_prefix split_once parse_below
parse_range_header value = do
  rest ← strip_prefix (trim value) (text "bytes=")
  (start, end) ← split_once rest b'-'
  (if is_empty start then none else (do
    first ← parse_below u64_limit start
    (if is_empty end then some (record { start = first; end = none }) else (do
      last ← parse_below u64_limit end
      some (record { start = first; end = some last })))))

abbrev octet_stream : Text × Text
octet_stream = (text "Content-Type", text "application/octet-stream")

-- The reply from the cache. A blob that is opened is not empty.
unfoldable pub hit_reply : CachedBlob → Reply
unfolding to_text
hit_reply blob =
    let start = unwrap_or blob.range_start 0 in
    let end = unwrap_or blob.range_end (blob.size - 1) in
    let headers =
      octet_stream
      ∷ (text "Content-Length", to_text (end - start + 1))
      ∷ (text "X-Cache", text "HIT")
      ∷ [] in
    if is_some blob.range_start
    then record {
      status = partial_content;
      headers =
          headers
          ++ ((
            text "Content-Range",
            text "bytes "
                ++ to_text start
                ++ text "-"
                ++ to_text end
                ++ text "/"
                ++ to_text blob.size,
          )
              ∷ []);
      body = content blob.body;
    }
    else record { status = 200; headers = headers; body = content blob.body }

-- The partial file of an earlier download, if there is one that is not empty.
unfoldable pub resume_from : Disk → Files → Text → Option Resumed
unfolding find_file read_file
resume_from d files temp_path = elim (find_file files temp_path) [
  | none ↦ none
  | some file ↦
      if is_empty file.bytes
      then none
      else some (record { position = length file.bytes; existing = read_file d files temp_path })
]

unfoldable pub range_header_of : Option Resumed → Option Text
unfolding to_text
range_header_of resumed = do r ← resumed; some (text "bytes=" ++ to_text r.position ++ text "-")

-- The first byte that a `content-range` names. It is read up to the first `-`, or whole.
unfoldable pub range_start_of : Headers → Option ℕ
unfolding header_text strip_prefix split_once parse_below
range_start_of headers = do
  rest ← strip_prefix (unwrap_or (header_text headers (text "content-range")) []) (text "bytes ")
  parse_below u64_limit (elim (split_once rest b'-') [ none ↦ rest | some (a, b) ↦ a ])

abbrev confirms : Option ℕ → ℕ → Bool
confirms none position = false
confirms (some start) position = start == position

-- Whether the response resumes; if it does not, the partial file is removed.
unfoldable pub confirm_resume :
    Disk → Text → Files → Option Resumed → Response → Option Resumed × Files
unfolding range_start_of remove_file
confirm_resume d temp_path files none response = (none, files)
confirm_resume d temp_path files (some r) response =
    if response.status == partial_content
    then (if confirms (range_start_of response.headers) r.position
        then (some r, files)
        else (none, unwrap_or (remove_file d files temp_path) files))
    else (none, unwrap_or (remove_file d files temp_path) files)
