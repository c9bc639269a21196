-- ===== src/Registry/Manifest/Head/Agreement.antt =====
-- `head_manifest` against `get_manifest` on what the cache has.
use pulld.Base.{
  ◌≡◌, refl, ◌⊎◌, inl, inr, false, Option, none, some, [], ◌∷◌, length, Option-cases, is_empty,
  unwrap_or, if◌then◌else◌, ok,
}
use pulld.Text.{Text, text}
use pulld.Text.Numbers.{to_text}
use pulld.Json.{Json}
use pulld.Cache.{CacheStorage}
use pulld.Cache.Disk.{Bytes, ObjectStore}
use pulld.Registry.Stats.{Float}
use pulld.Registry.Names.{parse_repository}
use pulld.Registry.Blob.{content}
use pulld.Registry.Blob.Handler.{World, Proxy}
use pulld.Registry.Manifest.{
  Served, replied, panics, manifest_v2, parse_value, media_type_of, is_schema_1, is_manifest_list,
  cached_manifest,
}
use pulld.Registry.Manifest.Handler.{serve, digest_of, get_manifest}
use pulld.Registry.Manifest.Handler.Stored.{cached_type, plain_hit}
use pulld.Registry.Manifest.Head.{serve_headers, head_manifest}

-- One answer is a reply, and the other has its status and headers, the length of its body, and no
-- body; or both panic.
abbrev pub IsHeadOf : Served → Served → Type 0
IsHeadOf head got =
    ((head ≡ panics) × (got ≡ panics))
    ⊎ ((content_type digest : Text) × (manifest : Bytes) × (got
          ≡ replied (record {
            status = 200;
            headers =
                (text "Content-Type", content_type) ∷ (text "Docker-Content-Digest", digest) ∷ [];
            body = content manifest;
          }))
        × (head
            ≡ replied (record {
              status = 200;
              headers =
                  (text "Content-Type", content_type)
                  ∷ (text "Content-Length", to_text (length manifest))
                  ∷ (text "Docker-Content-Digest", digest)
                  ∷ [];
              body = content [];
            })))

serve-IsHeadOf :
    (content_type digest : Text) (manifest : Bytes)
    → IsHeadOf (serve_headers content_type digest manifest) (serve content_type digest manifest)
unfolding serve serve_headers
serve-IsHeadOf content_type digest manifest = elim (Option-cases (parse_value content_type)) [
  | inl e ↦ inl (rw (serve_headers, e), rw (serve, e))
  | inr (value, e) ↦ inr (value, digest, manifest, rw (serve, e), rw (serve_headers, e))
]

module _ (X : Float) (S : ObjectStore) (J : Json) (sha256_hex : Bytes → Text) (c : CacheStorage)
    (w : World X) where
  -- Of a cached manifest that is no list, none of schema 1, and has no empty media type, a HEAD is
  -- answered as a GET is, with the length and without the body, and neither changes anything.
  pub head_manifest-get :
      (host_arch name reference : Text) (p : Proxy S) (manifest : Bytes)
      → cached_manifest S J c w.disk p.cached
          (parse_repository name).0
          (parse_repository name).1
          reference
        ≡ ok manifest
      → is_schema_1 J manifest ≡ false
      → is_manifest_list J manifest ≡ false
      → is_empty (unwrap_or (media_type_of J manifest) manifest_v2) ≡ false
      → let (got, p1) = get_manifest X S J sha256_hex c w host_arch name reference p in
        let (head, p2) = head_manifest X S J sha256_hex c w name reference p in
        IsHeadOf head got × (p1 ≡ p) × (p2 ≡ p)
  unfolding head_manifest
  head_manifest-get host_arch name reference p manifest found e l n =
      let digest = digest_of X S J sha256_hex c w manifest in
      let got = plain_hit X S J sha256_hex c w host_arch name reference p manifest e l found in
      let head : head_manifest X S J sha256_hex c w name reference p
          ≡ (serve_headers (unwrap_or (media_type_of J manifest) manifest_v2) digest manifest, p) =
        simp (head_manifest, found) in
      rw (got, head, same_type (media_type_of J manifest) n)
        (serve-IsHeadOf (cached_type J manifest) digest manifest, refl, refl)
    where
      same_type :
          (mt : Option Text)
          → is_empty (unwrap_or mt manifest_v2) ≡ false
          → unwrap_or mt manifest_v2 ≡ (
              let media_type : Text = unwrap_or mt [] in
              if is_empty media_type then manifest_v2 else media_type)
      same_type none n = refl
      same_type (some mt) n = rw n refl
