-- ===== src/Registry/Blob/Handler.antt =====
-- `get_blob` of src/registry/blob.rs. What the network, the server of tokens,
-- the disk and the hash function do is a parameter.
pub mod Hit
pub mod Sample
mod Tests
use pulld.Base.{
  ℕ, Bool, true, false, Option, none, some, ◌>>=◌, List, [], ◌∷◌, ◌++◌, is_empty, unwrap_or, ◌||◌,
  ◌⊎◌, inl, inr, ◌==◌, if◌then◌else◌, ok, err,
}
use pulld.Text.{Text, text}
use pulld.Text.Numbers.{to_text}
use pulld.Json.{Json}
use pulld.Cache.{CacheStorage, with_extension, is_object_store_backed}
use pulld.Cache.Disk.{Bytes, Disk, ObjectStore, Cached}
use pulld.Cache.Keys.{blob_path}
use pulld.Cache.Blobs.{CachedBlob, open_blob, with_files}
use pulld.Registry.Http.{
  Headers, Response, Request, get_header, to_str, header_text, header_u64, is_success, unauthorized,
  partial_content, bad_gateway, concat,
}
use pulld.Registry.Stats.{Float, StatsUpdate}
use pulld.Registry.Race.{Network, MirrorSelector, race_mirrors}
use pulld.Registry.Names.{parse_repository}
use pulld.Registry.Tokens.{
  TokenServer, TokenCache, fetch_registry_token_with_cache, realm_from_www_authenticate,
  mirror_index_from_realm,
}
use pulld.Registry.Transfer.{Transfer, Resumed, Ended, broke_off, run_task}
use pulld.Registry.Events.{PullEvent, new_event}
use pulld.Registry.Transfer.Reports.{Printed, get_event, task_events}
use pulld.Registry.Upstreams.{Registries, get_upstream_client, get_registry_config}
use pulld.Registry.Blob.{
  Reply, content, message, chunked, parse_range_header, hit_reply, resume_from, range_header_of,
  confirm_resume,
}
use pulld.Registry.Blob.Retry.{retry_mirrors}

-- What the handler meets: the network, the server of tokens, and, in the download, the chunks that
-- can not be written or sent.
pub record World (X : Float) : Type 0 where
  pub net : Network
  pub server : TokenServer
  pub disk : Disk
  pub now : ℕ
  pub write_fails : ℕ → Bool
  pub client_gone : ℕ → Bool
  pub selector : Option (MirrorSelector X)
  pub printed : Printed

-- What the handler changes; the calls of `update_stats` and of `record_pull_event` are kept in their
-- order.
pub record Proxy (S : ObjectStore) : Type 0 where
  pub cached : Cached S
  pub registries : Registries
  pub tokens : TokenCache
  pub updates : List StatsUpdate
  pub events : List PullEvent

abbrev pub recorded : {S : ObjectStore} → List PullEvent → Proxy S → Proxy S
recorded events p = record p { events = p.events ++ events }

abbrev backend_name : CacheStorage → Text
backend_name c = if is_object_store_backed c then text "s3" else text "filesystem"

abbrev pub failure : ℕ → Reply
failure status = record { status = status; headers = []; body = message }

-- A `Content-Length` that the reply announces.
abbrev length_header : Option ℕ → List (Text × Text)
length_header none = []
length_header (some size) = (text "Content-Length", to_text size) ∷ []

module _ (X : Float) (S : ObjectStore) (J : Json) (sha256_hex : Bytes → Text)
    (to_lowercase : Text → Text) (c : CacheStorage) (w : World X) where
  -- The response after a 401 has been dealt with, or the reply that ends the request.
  abbrev pub Answered : Type 0
  Answered = Response ⊎ Reply

  -- A challenge that can be read: a token is fetched, and the mirrors are retried with it.
  unfoldable pub meet_challenge : List Text → Request → Text → Text → Proxy S → Answered × Proxy S
  unfolding fetch_registry_token_with_cache realm_from_www_authenticate mirror_index_from_realm
      retry_mirrors
  meet_challenge mirrors req repository challenge p =
      let (token, tokens) =
        fetch_registry_token_with_cache J w.server challenge repository (some p.tokens) in
      let p' : Proxy S = record p { tokens = unwrap_or tokens p.tokens } in
      elim token [
        | none ↦ (inr (failure bad_gateway), p')
        | some t ↦
            let mirror_ix = (do
              mirror_index_from_realm to_lowercase (← realm_from_www_authenticate challenge)
                  mirrors) in
            let (answer, tokens') =
              retry_mirrors J w.net w.server mirrors req repository t mirror_ix tokens in
            let p'' : Proxy S = record p { tokens = unwrap_or tokens' p.tokens } in
            elim answer [ ok r ↦ (inl r, p'') | err e ↦ (inr (failure bad_gateway), p'') ]
      ]

  unfoldable pub authenticate : List Text → Request → Text → Response → Proxy S → Answered × Proxy S
  unfolding meet_challenge get_header
  authenticate mirrors req repository r p =
      if r.status == unauthorized
      then (elim (get_header r.headers (text "www-authenticate")) [
        | none ↦ (inr (failure bad_gateway), p)
        | some value ↦ elim (to_str value) [
          | none ↦ (inl r, p)
          | some challenge ↦ meet_challenge mirrors req repository challenge p
        ]
      ])
      else (inl r, p)

  -- The download of a response that is a success.
  unfoldable pub deliver : Text → Text → Option Resumed → Response → Proxy S → Reply × Proxy S
  unfolding confirm_resume header_u64 run_task task_events blob_path with_extension to_text
  deliver image digest resumed r p =
      let temp_path = with_extension (blob_path c digest) (text "tmp") in
      let (resumed', files) = confirm_resume w.disk temp_path p.cached.files resumed r in
      let content_length = header_u64 r.headers (text "content-length") in
      let transfer : Transfer = record {
        chunks = r.body.chunks;
        broken = r.body.broken;
        write_fails = w.write_fails;
        client_gone = w.client_gone;
      } in
      let (ended, streamed, after) =
        run_task S sha256_hex c w.disk w.now (with_files S files p.cached) digest resumed'
          content_length transfer in
      (
        record {
          status = 200;
          headers =
              (text "Content-Type", text "application/octet-stream") ∷ length_header content_length
              ++ ((text "X-Cache", text "MISS") ∷ []);
          body = chunked streamed.sent (breaks ended);
        },
        record p { cached = after },
      )
    where
      breaks : Ended → Bool
      breaks broke_off = true
      breaks _ = false

  abbrev pub error_body : Response → Bytes
  error_body r = if r.body.broken then [] else concat r.body.chunks

  unfoldable pub conclude : Text → Text → Option Resumed → Answered × Proxy S → Reply × Proxy S
  unfolding deliver
  conclude image digest resumed (inr reply, p) = (reply, p)
  conclude image digest resumed (inl r, p) =
      if is_success r.status || r.status == partial_content
      then deliver image digest resumed r p
      else (record { status = r.status; headers = []; body = content (error_body r) }, p)

  -- A blob that the cache does not give.
  unfoldable pub fetch_blob : Text → Text → Proxy S → Reply × Proxy S
  unfolding parse_repository get_upstream_client get_registry_config resume_from range_header_of
      race_mirrors authenticate conclude blob_path with_extension
  fetch_blob name digest p =
      let image = name ++ b'@' ∷ digest in
      let (registry, repository) = parse_repository name in
      let (client, registries) = get_upstream_client p.registries registry in
      let p1 : Proxy S = record p { registries = registries } in
      if is_empty client.mirrors
      then (failure bad_gateway, p1)
      else (let config = get_registry_config registries registry in
          let resumed =
            resume_from w.disk p.cached.files (with_extension (blob_path c digest) (text "tmp")) in
          let req : Request = record {
            url_path = text "/v2/" ++ repository ++ text "/blobs/" ++ digest;
            auth_token = none;
            accept_header = none;
            range_header = range_header_of resumed;
          } in
          let (answer, updates) =
            race_mirrors X w.net client.mirrors req config.strategy config.hedge_delay_ms
              w.selector in
          let p2 : Proxy S = record p1 {
            updates = p1.updates ++ updates;
            events =
                p1.events
                ++ (get_event (text "pulld_upstream_blob_pull_start") image digest
                      (text "upstream blob pull started")
                    ∷ []);
          } in
          elim answer [
            | err e ↦ (
              failure bad_gateway,
              recorded
                  (record (get_event (text "pulld_upstream_blob_pull_error") image digest
                      (text "upstream blob pull error: " ++ w.printed.error_text e)) {
                        status = some (w.printed.status_text bad_gateway);
                      }
                    ∷ [])
                  p2,
            )
            | ok r ↦ conclude image digest resumed (
                authenticate client.mirrors req repository r (
                  recorded
                    (record (get_event (text "pulld_upstream_blob_pull_response") image digest
                        (text "upstream blob pull response received")) {
                          status = some (w.printed.status_text r.status);
                        }
                      ∷ [])
                    p2))
          ])

  abbrev pub hit_event : Text → Text → CachedBlob → PullEvent
  hit_event image digest blob =
      record (get_event (text "pulld_image_blob_cache_hit") image digest (
        text "blob cache hit backend="
        ++ backend_name c
        ++ text " size="
        ++ to_text blob.size
        ++ text " range_start="
        ++ to_text (unwrap_or blob.range_start 0))) {
          status = some (w.printed.status_text (hit_reply blob).status);
          cache = some (text "HIT");
        }

  -- A miss is recorded, a failure of the cache is not.
  abbrev pub fetch_missed : Text → Text → Proxy S → Reply × Proxy S
  fetch_missed name digest p = fetch_blob name digest (
      recorded
        (record (get_event (text "pulld_image_blob_cache_miss") (name ++ b'@' ∷ digest) digest
            (text "blob cache miss backend=" ++ backend_name c)) { cache = some (text "MISS") }
          ∷ [])
        p)

  -- The client's range is used for the cache alone.
  unfoldable pub get_blob : Text → Text → Headers → Proxy S → Reply × Proxy S
  unfolding header_text parse_range_header open_blob hit_reply fetch_blob
  get_blob name digest req_headers p =
      let client_range = (do parse_range_header (← header_text req_headers (text "range"))) in
      elim (open_blob S c w.disk p.cached digest client_range) [
        | ok (some blob) ↦
            (hit_reply blob, recorded (hit_event (name ++ b'@' ∷ digest) digest blob ∷ []) p)
        | ok none ↦ fetch_missed name digest p
        | err e ↦ fetch_blob name digest p
      ]
