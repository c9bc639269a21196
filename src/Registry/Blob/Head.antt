-- ===== src/Registry/Blob/Head.antt =====
-- `head_blob` and `fetch_blob_size_from_get` of src/registry/blob.rs. A digest is taken to have only
-- characters that a header can have.
pub mod Found
use pulld.Base.{
  ℕ, suc, Bool, true, false, Option, none, some, ◌>>=◌, List, [], ◌∷◌, ◌++◌, ltb, if◌then◌else◌,
}
use pulld.Text.{Text, text, rsplit_once}
use pulld.Text.Numbers.{to_text, parse_below, u64_limit}
use pulld.Cache.{CacheStorage}
use pulld.Cache.Disk.{ObjectStore, Cached}
use pulld.Cache.Blobs.{blob_size}
use pulld.Registry.Http.{Response, header_text, header_u64, is_success, bad_gateway}
use pulld.Registry.Names.{parse_repository}
use pulld.Registry.Upstreams.{Registries, get_upstream_client}
use pulld.Registry.Blob.{Reply, content, message}

-- What the client of a mirror's index gets for an address: to a HEAD, to a GET of the first byte, and
-- to a GET.
pub record HeadNetwork : Type 0 where
  pub head : ℕ → Text → Option Response
  pub get_first_byte : ℕ → Text → Option Response
  pub get : ℕ → Text → Option Response

abbrev pub successful : Option Response → Option Response
successful none = none
successful (some r) = if is_success r.status then some r else none

unfoldable pub fetch_blob_size_from_get : HeadNetwork → ℕ → Text → Option ℕ
unfolding header_u64
fetch_blob_size_from_get net mirror_idx url = do
  r ← successful (net.get mirror_idx url)
  header_u64 r.headers (text "content-length")

-- The size behind the last `/` of a `content-range`.
unfoldable pub total_of : Response → Option ℕ
unfolding header_text rsplit_once parse_below
total_of r = do
  range ← header_text r.headers (text "content-range")
  (unit, size) ← rsplit_once range b'/'
  parse_below u64_limit size

abbrev or_else {ℓ} : {A : Type ℓ} → Option A → Option A → Option A
or_else (some a) other = some a
or_else none other = other

-- The size of a blob at a mirror that has answered a HEAD: what the answer announces, or what the
-- first byte's answer says, or what a GET announces.
unfoldable pub probe_size : HeadNetwork → ℕ → Text → Response → Option ℕ
unfolding header_u64 total_of fetch_blob_size_from_get
probe_size net i url r = or_else (header_u64 r.headers (text "content-length")) (
    or_else (do total_of (← successful (net.get_first_byte i url)))
      (fetch_blob_size_from_get net i url))

abbrev pub size_reply : Text → ℕ → List (Text × Text) → Reply
size_reply digest size more = record {
  status = 200;
  headers =
      (text "Content-Type", text "application/octet-stream")
      ∷ (text "Content-Length", to_text size)
      ∷ (text "Docker-Content-Digest", digest)
      ∷ more;
  body = content [];
}

abbrev pub not_found : Reply
not_found = record { status = 404; headers = []; body = content [] }

abbrev pub probed : Text → Option ℕ → Reply
probed digest none = record { status = bad_gateway; headers = []; body = message }
probed digest (some size) = size_reply digest size []

-- The mirrors in turn, until one has the blob.
unfoldable pub head_on : HeadNetwork → Text → Text → ℕ → List Text → Reply
unfolding probe_size to_text
head_on net path digest i [] = not_found
head_on net path digest i (mirror ∷ mirrors) =
    let rest = head_on net path digest (suc i) mirrors in
    elim (successful (net.head i (mirror ++ path))) [
      | none ↦ rest
      | some r ↦ probed digest (probe_size net i (mirror ++ path) r)
    ]

module _ (S : ObjectStore) where
  -- The blob in the cache, if it is not empty.
  abbrev pub cached_size : CacheStorage → Cached S → Text → Option ℕ
  cached_size c cached digest = do
    size ← blob_size S c cached digest
    (if ltb 0 size then some size else none)

  -- The reply, and the clients after it.
  unfoldable pub head_blob :
      CacheStorage → HeadNetwork → Cached S → Registries → Text → Text → Reply × Registries
  unfolding blob_size to_text parse_repository get_upstream_client head_on
  head_blob c net cached registries name digest = elim (cached_size c cached digest) [
    | some size ↦ (size_reply digest size ((text "X-Cache", text "HIT") ∷ []), registries)
    | none ↦
        let (registry, repository) = parse_repository name in
        let (client, registries') = get_upstream_client registries registry in
        (
          head_on net (text "/v2/" ++ repository ++ text "/blobs/" ++ digest) digest 0
              client.mirrors,
          registries',
        )
  ]
