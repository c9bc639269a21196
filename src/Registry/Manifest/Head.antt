-- ===== src/Registry/Manifest/Head.antt =====
-- `head_manifest` of src/registry/manifest.rs. It looks a manifest up and fetches it as
-- `get_manifest` does, but checks neither its schema nor the platform.
pub mod Agreement
use pulld.Base.{
  ℕ, Bool, Option, none, some, List, [], ◌∷◌, length, unwrap_or, if◌then◌else◌, ok, err,
}
use pulld.Text.{Text, text}
use pulld.Text.Numbers.{to_text}
use pulld.Json.{Json}
use pulld.Cache.{CacheStorage}
use pulld.Cache.Disk.{Bytes, ObjectStore}
use pulld.Registry.Http.{Response, header_text, is_success, bad_gateway, all_bytes, concat}
use pulld.Registry.Stats.{Float}
use pulld.Registry.Names.{parse_repository}
use pulld.Registry.Blob.{Reply, content}
use pulld.Registry.Blob.Handler.{World, Proxy, failure, error_body}
use pulld.Registry.Manifest.{
  Served, replied, panics, manifest_v2, parse_value, media_type_of, cached_manifest,
}
use pulld.Registry.Manifest.Handler.{
  status_or_gateway, digest_of, fetch_upstream, store_manifest, named_digest, content_type_of,
}

-- The headers of a manifest.
unfoldable pub serve_headers : Text → Text → Bytes → Served
unfolding parse_value to_text
serve_headers content_type digest manifest = elim (parse_value content_type) [
  | none ↦ panics
  | some value ↦ replied (record {
    status = 200;
    headers =
        (text "Content-Type", value)
        ∷ (text "Content-Length", to_text (length manifest))
        ∷ (text "Docker-Content-Digest", digest)
        ∷ [];
    body = content [];
  })
]

module _ (X : Float) (S : ObjectStore) (J : Json) (sha256_hex : Bytes → Text) (c : CacheStorage)
    (w : World X) where
  unfoldable pub conclude_head : Text → Text → Text → Option Response × Proxy S → Served × Proxy S
  unfolding store_manifest serve_headers header_text media_type_of
  conclude_head registry repository reference (none, p) = (replied (failure bad_gateway), p)
  conclude_head registry repository reference (some r, p) =
      if is_success r.status
      then (elim (all_bytes r.body) [
        | none ↦ (replied (failure bad_gateway), p)
        | some manifest ↦
            let digest = named_digest X S J sha256_hex c w r manifest in
            (
              serve_headers (content_type_of X S J sha256_hex c w r manifest) digest manifest,
              record p {
                cached =
                    store_manifest X S J sha256_hex c w registry repository reference digest
                      manifest p.cached;
              },
            )
      ])
      else (
        replied (record {
          status = status_or_gateway r.status;
          headers = [];
          body = content (if r.body.broken then [] else concat r.body.chunks);
        }),
        p,
      )

  unfoldable pub head_manifest : Text → Text → Proxy S → Served × Proxy S
  unfolding parse_repository cached_manifest media_type_of serve_headers fetch_upstream
      conclude_head
  head_manifest name reference p =
      let (registry, repository) = parse_repository name in
      elim (cached_manifest S J c w.disk p.cached registry repository reference) [
        | ok manifest ↦ (
          serve_headers (unwrap_or (media_type_of J manifest) manifest_v2)
              (digest_of X S J sha256_hex c w manifest) manifest,
          p,
        )
        | err e ↦
            conclude_head registry repository reference
              (fetch_upstream X S J sha256_hex c w registry repository reference p)
      ]
