-- ===== src/Registry/Manifest/Handler.antt =====
-- `get_manifest` of src/registry/manifest.rs: the answer from the cache, the request to the upstream
-- registry with its token, and what is stored of the response.
pub mod Hit
pub mod Stored
use pulld.Base.{
  ℕ, Bool, true, false, ◌&&◌, not, Option, none, some, ◌>>=◌, List, [], ◌∷◌, ◌++◌, leb, ltb,
  is_empty, unwrap_or, ◌==◌, if◌then◌else◌, Result, ok, err,
}
use pulld.Text.{Text, text, starts_with}
use pulld.Json.{Json}
use pulld.Cache.{CacheStorage}
use pulld.Cache.Disk.{Bytes, ObjectStore, Cached}
use pulld.Cache.Manifests.{write_tag_digest_mapping, write_manifest_by_digest}
use pulld.Registry.Http.{
  Response, Request, header_text, is_success, unauthorized, bad_gateway, all_bytes,
}
use pulld.Registry.Stats.{Float}
use pulld.Registry.Race.{race_mirrors}
use pulld.Registry.Names.{parse_repository}
use pulld.Registry.Tokens.{fetch_registry_token_with_cache}
use pulld.Registry.Upstreams.{
  RegistryConfig, UpstreamClient, get_upstream_client, get_registry_config,
}
use pulld.Registry.Blob.{Reply, content, message}
use pulld.Registry.Blob.Handler.{World, Proxy, failure}
use pulld.Registry.Manifest.{
  Served, replied, panics, manifest_v2, parse_value, is_digest, media_type_of, is_schema_1,
  is_manifest_list, cached_manifest, resolve_platform_manifest,
}

-- `DEFAULT_MANIFEST_ACCEPT_HEADER`.
abbrev pub manifest_accept : Text
manifest_accept =
    text "application/vnd.docker.distribution.manifest.list.v2+json, "
    ++ text "application/vnd.oci.image.index.v1+json, "
    ++ text "application/vnd.docker.distribution.manifest.v2+json, "
    ++ text "application/vnd.oci.image.manifest.v1+json"

-- `StatusCode::from_u16(status).unwrap_or(BAD_GATEWAY)`.
abbrev pub status_or_gateway : ℕ → ℕ
status_or_gateway status = if leb 100 status && ltb status 1000 then status else bad_gateway

abbrev pub upstream_path : Text → Text → Text
upstream_path repository reference = text "/v2/" ++ repository ++ text "/manifests/" ++ reference

-- A reply with a manifest. The digest is one of characters that a header can have.
unfoldable pub serve : Text → Text → Bytes → Served
unfolding parse_value
serve content_type digest manifest = elim (parse_value content_type) [
  | none ↦ panics
  | some value ↦ replied (record {
    status = 200;
    headers = (text "Content-Type", value) ∷ (text "Docker-Content-Digest", digest) ∷ [];
    body = content manifest;
  })
]

module _ (X : Float) (S : ObjectStore) (J : Json) (sha256_hex : Bytes → Text) (c : CacheStorage)
    (w : World X) where
  abbrev pub digest_of : Bytes → Text
  digest_of manifest = text "sha256:" ++ sha256_hex manifest

  -- The answer that a cached manifest gives, if it gives one.
  unfoldable pub serve_cached : Text → Cached S → Text → Text → Text → Bytes → Option Served
  unfolding is_schema_1 is_manifest_list resolve_platform_manifest media_type_of serve starts_with
  serve_cached host_arch s registry repository reference manifest =
      if is_schema_1 J manifest
      then none
      else if is_manifest_list J manifest && not (is_digest reference)
      then (elim (resolve_platform_manifest S J c w.disk host_arch s registry repository manifest) [
        | ok (some (platform_manifest, media_type)) ↦
            some (serve media_type (digest_of platform_manifest) platform_manifest)
        | ok none ↦ none
        | err e ↦ none
      ])
      else some (
          let media_type : Text = unwrap_or (media_type_of J manifest) [] in
          serve (if is_empty media_type then manifest_v2 else media_type) (digest_of manifest)
            manifest)

  -- A race of all mirrors for a manifest.
  abbrev pub race_manifest :
      List Text → RegistryConfig → Text → Option Text → Proxy S → Result Response × Proxy S
  race_manifest mirrors config path token p =
      let (answer, updates) =
        race_mirrors X w.net mirrors
          (record {
            url_path = path;
            auth_token = token;
            accept_header = some manifest_accept;
            range_header = none;
          })
          config.strategy config.hedge_delay_ms w.selector in
      (answer, record p { updates = p.updates ++ updates })

  abbrev retry_with :
      List Text
      → RegistryConfig
      → Text
      → Response
      → Option Text
      → Proxy S
      → Result Response × Proxy S
  retry_with mirrors config path r none p = (ok r, p)
  retry_with mirrors config path r (some token) p = race_manifest mirrors config path (some token) p

  -- After a 401 with a challenge that can be read, the race is run again with a token.
  unfoldable pub authenticate_manifest :
      List Text → RegistryConfig → Text → Text → Response → Proxy S → Result Response × Proxy S
  unfolding header_text fetch_registry_token_with_cache race_mirrors
  authenticate_manifest mirrors config path repository r p =
      if r.status == unauthorized
      then (elim (header_text r.headers (text "www-authenticate")) [
        | none ↦ (ok r, p)
        | some challenge ↦
            let (token, tokens) =
              fetch_registry_token_with_cache J w.server challenge repository (some p.tokens) in
            retry_with mirrors config path r token (record p { tokens = unwrap_or tokens p.tokens })
      ])
      else (ok r, p)

  abbrev after_race :
      List Text
      → RegistryConfig
      → Text
      → Text
      → Result Response × Proxy S
      → Result Response × Proxy S
  after_race mirrors config path repository (err e, p) = (err e, p)
  after_race mirrors config path repository (ok r, p) =
      authenticate_manifest mirrors config path repository r p

  -- The response of the upstream registry; without mirrors there is none.
  unfoldable pub fetch_upstream : Text → Text → Text → Proxy S → Option Response × Proxy S
  unfolding get_upstream_client get_registry_config authenticate_manifest race_mirrors
  fetch_upstream registry repository reference p =
      let (client, registries) = get_upstream_client p.registries registry in
      let p1 : Proxy S = record p { registries = registries } in
      let path = upstream_path repository reference in
      let config = get_registry_config registries registry in
      if is_empty client.mirrors
      then (none, p1)
      else answered (
          after_race client.mirrors config path repository
            (race_manifest client.mirrors config path none p1))
    where
      answered : Result Response × Proxy S → Option Response × Proxy S
      answered (ok r, p) = (some r, p)
      answered (err e, p) = (none, p)

  -- What is stored of a manifest: its bytes under the digest, and the digest under a tag. A failure
  -- to write is passed over.
  unfoldable pub store_manifest : Text → Text → Text → Text → Bytes → Cached S → Cached S
  unfolding write_manifest_by_digest write_tag_digest_mapping starts_with
  store_manifest registry repository reference digest manifest s =
      let s1 =
        (write_manifest_by_digest S c w.disk w.now s registry repository digest manifest).0 in
      if is_digest reference
      then s1
      else (write_tag_digest_mapping S c w.disk w.now s1 registry repository reference digest).0

  -- The digest that a response names, or that of the manifest.
  abbrev pub named_digest : Response → Bytes → Text
  named_digest r manifest =
      unwrap_or (header_text r.headers (text "docker-content-digest")) (digest_of manifest)

  abbrev pub content_type_of : Response → Bytes → Text
  content_type_of r manifest =
      unwrap_or (header_text r.headers (text "content-type"))
        (unwrap_or (media_type_of J manifest) manifest_v2)

  -- The response of the upstream registry becomes the answer.
  unfoldable pub conclude_manifest :
      Text → Text → Text → Option Response × Proxy S → Served × Proxy S
  unfolding is_schema_1 store_manifest serve header_text media_type_of
  conclude_manifest registry repository reference (none, p) = (replied (failure bad_gateway), p)
  conclude_manifest registry repository reference (some r, p) =
      if is_success r.status
      then (elim (all_bytes r.body) [
        | none ↦ (replied (failure bad_gateway), p)
        | some manifest ↦ if is_schema_1 J manifest then (replied (failure bad_gateway), p) else (
          serve (content_type_of r manifest) (named_digest r manifest) manifest,
          record p {
            cached =
                store_manifest registry repository reference (named_digest r manifest) manifest
                  p.cached;
          },
        )
      ])
      else (replied (failure (status_or_gateway r.status)), p)

  abbrev from_cache : Text → Proxy S → Text → Text → Text → Option Served
  from_cache host_arch p registry repository reference =
      elim (cached_manifest S J c w.disk p.cached registry repository reference) [
        | ok manifest ↦ serve_cached host_arch p.cached registry repository reference manifest
        | err e ↦ none
      ]

  unfoldable pub get_manifest : Text → Text → Text → Proxy S → Served × Proxy S
  unfolding parse_repository cached_manifest serve_cached fetch_upstream conclude_manifest
  get_manifest host_arch name reference p =
      let (registry, repository) = parse_repository name in
      elim (from_cache host_arch p registry repository reference) [
        | some served ↦ (served, p)
        | none ↦
            conclude_manifest registry repository reference
              (fetch_upstream registry repository reference p)
      ]
