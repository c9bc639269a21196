-- ===== src/Prepull/Manifests.antt =====
-- `fetch_manifest` of src/prepull.rs. The network and the server of tokens are parameters.
pub mod Served
use pulld.Base.{
  ℕ, Bool, Option, none, some, List, [], ◌∷◌, ◌++◌, is_empty, unwrap_or, ◌==◌, if◌then◌else◌,
  DockerProxyError, Result, ok, err,
}
use pulld.Text.{Text, text, starts_with}
use pulld.Json.{Json}
use pulld.Cache.{CacheStorage}
use pulld.Cache.Disk.{Bytes, Disk, ObjectStore, Cached}
use pulld.Cache.Manifests.{
  read_tag_digest_mapping, write_tag_digest_mapping, read_manifest_by_digest,
  write_manifest_by_digest, read_manifest, write_manifest,
}
use pulld.Registry.Http.{Response, Request, header_text, is_success, unauthorized, all_bytes}
use pulld.Registry.Stats.{Float, MirrorStrategy}
use pulld.Registry.Race.{Network, race_mirrors}
use pulld.Registry.Tokens.{TokenServer, fetch_registry_token}
use pulld.Registry.Manifest.{is_digest}
use pulld.Registry.Manifest.Handler.{manifest_accept, upstream_path}

-- What a pull asks, and how: the mirrors of the registry, the strategy and the delay of a hedge.
pub record Upstream : Type 0 where
  pub net : Network
  pub server : TokenServer
  pub mirrors : List Text
  pub strategy : MirrorStrategy
  pub hedge_delay_ms : ℕ

abbrev pub or_registry_error {ℓ} : {A : Type ℓ} → Result A → Result A
or_registry_error (ok a) = ok a
or_registry_error (err e) = err DockerProxyError.registry

abbrev pub successful : Response → Result Response
successful r = if is_success r.status then ok r else err DockerProxyError.registry

-- The steps of a request: each may end it with its error.
abbrev pub and_then {ℓ κ} : {A : Type ℓ} {B : Type κ} → Result A → (A → Result B) → Result B
and_then (ok a) k = k a
and_then (err e) k = err e

module _ (X : Float) (J : Json) where
  -- A race without statistics.
  abbrev pub race : Upstream → Text → Option Text → Option Text → Result Response
  race u path token accept =
      (race_mirrors X u.net u.mirrors
        (record {
          url_path = path;
          auth_token = token;
          accept_header = accept;
          range_header = none;
        })
        u.strategy u.hedge_delay_ms none).0

  -- A 401 is answered with a token, that `retry` then uses; without a token the pull fails.
  unfoldable pub authorized :
      Upstream → Text → (Text → Result Response) → Response → Result Response
  unfolding header_text fetch_registry_token
  authorized u repository retry r =
      if r.status == unauthorized
      then (elim (header_text r.headers (text "www-authenticate")) [
        | none ↦ err DockerProxyError.registry
        | some challenge ↦ elim (fetch_registry_token J u.server challenge repository) [
          | none ↦ err DockerProxyError.registry
          | some token ↦ retry token
        ]
      ])
      else ok r

  unfoldable pub request_manifest : Upstream → Text → Text → Result Response
  unfolding authorized race_mirrors
  request_manifest u repository reference =
      let path = upstream_path repository reference in
      if is_empty u.mirrors
      then err DockerProxyError.registry
      else and_then (or_registry_error (race u path none (some manifest_accept))) (λ r.
        and_then
          (authorized u repository
            (λ token. or_registry_error (race u path (some token) (some manifest_accept))) r)
          successful)

module _ (S : ObjectStore) (sha256_hex : Bytes → Text) (c : CacheStorage) (d : Disk) where
  -- The look-up: by digest, or by the mapping of a tag and then by the tag itself.
  unfoldable pub pulled_manifest : Cached S → Text → Text → Text → Result Bytes
  unfolding read_manifest_by_digest read_tag_digest_mapping read_manifest starts_with
  pulled_manifest s registry repository reference =
      if is_digest reference
      then read_manifest_by_digest S c d s registry repository reference
      else (elim (read_tag_digest_mapping S c d s registry repository reference) [
        | none ↦ read_manifest S c d s registry repository reference
        | some digest ↦ elim (read_manifest_by_digest S c d s registry repository digest) [
          | ok manifest ↦ ok manifest
          | err e ↦ read_manifest S c d s registry repository reference
        ]
      ])

  abbrev pub header_digest : Response → Bytes → Text
  header_digest r manifest =
      unwrap_or (header_text r.headers (text "docker-content-digest"))
        (text "sha256:" ++ sha256_hex manifest)

  -- Failures to write are passed over.
  unfoldable pub store_pulled : ℕ → Text → Text → Text → Text → Bytes → Cached S → Cached S
  unfolding write_manifest_by_digest write_tag_digest_mapping write_manifest starts_with
  store_pulled now registry repository reference digest manifest s =
      let s1 = (write_manifest_by_digest S c d now s registry repository digest manifest).0 in
      let s2 = (write_tag_digest_mapping S c d now s1 registry repository reference digest).0 in
      if is_digest reference
      then s1
      else (write_manifest S c d now s2 registry repository reference manifest).0

  abbrev keep_pulled : ℕ → Text → Text → Text → Cached S → Result Response → Result Bytes × Cached S
  keep_pulled now registry repository reference s (err e) = (err e, s)
  keep_pulled now registry repository reference s (ok r) = elim (all_bytes r.body) [
    | none ↦ (err DockerProxyError.http, s)
    | some manifest ↦ (
      ok manifest,
      store_pulled now registry repository reference (header_digest r manifest) manifest s,
    )
  ]

  unfoldable pub fetch_manifest :
      Float → Json → Upstream → ℕ → Text → Text → Text → Cached S → Result Bytes × Cached S
  unfolding pulled_manifest request_manifest store_pulled header_text
  fetch_manifest X J u now registry repository reference s =
      elim (pulled_manifest s registry repository reference) [
        | ok manifest ↦ (ok manifest, s)
        | err e ↦
            keep_pulled now registry repository reference s
              (request_manifest X J u repository reference)
      ]
