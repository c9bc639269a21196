-- ===== src/Prepull/Manifests/Served.antt =====
-- What the pre-pull of a manifest is good for: the proxy answers the tag from the cache.
use pulld.Base.{ℕ, ◌≡◌, refl, ap, false, some, ok, err, DockerProxyError}
use pulld.Text.{Text, text_eq, trim}
use pulld.Json.{Json}
use pulld.Cache.{CacheStorage, filesystem}
use pulld.Cache.Disk.{Bytes, ObjectStore, Cached}
use pulld.Cache.Keys.{manifest_path, manifest_path_by_digest, tag_digest_mapping_path}
use pulld.Cache.Manifests.{write_tag_digest_mapping, write_manifest_by_digest}
use pulld.Cache.Manifests.RoundTrip.{
  IsStore, write_manifest_by_digest-read, write_tag_digest_mapping-read,
}
use pulld.Cache.Manifests.Tagged.{read_manifest_by_digest-tagged}
use pulld.Cache.Manifests.Legacy.{read_tag_digest_mapping-written, read_manifest_by_digest-written}
use pulld.Registry.Http.{Response, all_bytes}
use pulld.Registry.Stats.{Float}
use pulld.Registry.Names.{parse_repository}
use pulld.Registry.Blob.Handler.{World, Proxy}
use pulld.Registry.Manifest.{Served, is_digest, is_schema_1, is_manifest_list, cached_manifest}
use pulld.Registry.Manifest.Handler.{digest_of, get_manifest}
use pulld.Registry.Manifest.Handler.Stored.{IsServed, answered, cached_type, plain_hit}
use pulld.Prepull.Manifests.{
  Upstream, request_manifest, pulled_manifest, header_digest, store_pulled, fetch_manifest,
  keep_pulled,
}

module _ (X : Float) (S : ObjectStore) (J : Json) (sha256_hex : Bytes → Text) (c : CacheStorage)
    (w : World X) where
  -- What the pre-pull stores for a tag is found by the proxy.
  store_pulled-found :
      (now : ℕ) (registry repository tag digest : Text) (manifest : Bytes) (s : Cached S)
      → IsStore S
      → c.backend ≡ filesystem
      → is_digest tag ≡ false
      → trim digest ≡ digest
      → text_eq
          (manifest_path c registry repository tag)
          (manifest_path_by_digest c registry repository digest)
        ≡ false
      → w.disk.read_fails (manifest_path_by_digest c registry repository digest) ≡ false
      → w.disk.read_fails (tag_digest_mapping_path c registry repository tag) ≡ false
      → let (s1, r) =
          write_manifest_by_digest S c w.disk now s registry repository digest manifest in
        r ≡ ok tt
        → (write_tag_digest_mapping S c w.disk now s1 registry repository tag digest).1 ≡ ok tt
        → cached_manifest S J c w.disk
            (store_pulled S sha256_hex c w.disk now registry repository tag digest manifest s)
            registry
            repository
            tag
          ≡ ok manifest
  unfolding cached_manifest store_pulled
  store_pulled-found now registry repository tag digest manifest s I b t trimmed apart r1 r2 w1 w2 =
      let s1 = (write_manifest_by_digest S c w.disk now s registry repository digest manifest).0 in
      let s2 = (write_tag_digest_mapping S c w.disk now s1 registry repository tag digest).0 in
      simp (
        cached_manifest,
        store_pulled,
        t,
        read_tag_digest_mapping-written S c w.disk w.disk now s2 registry repository tag manifest b
            tag,
        write_tag_digest_mapping-read S c w.disk now s1 registry repository tag digest I r2 w2,
        trimmed,
        read_manifest_by_digest-written S c w.disk w.disk now s2 registry repository tag manifest b
            digest apart,
        read_manifest_by_digest-tagged S c w.disk w.disk now s1 registry repository digest tag
            digest b,
        write_manifest_by_digest-read S c w.disk now s registry repository digest manifest I r1 w1,
      )

-- A manifest that `fetch_manifest` gets from upstream for a tag that it has not in the cache is what a
-- GET of the tag is answered with from the cache, whatever the network then does, with its own media
-- type and the digest that is its hash, and the GET changes nothing. This holds if the manifest is no
-- list and none of schema 1, it and the mapping of its tag are stored on disk without an error and can
-- be read, its digest has no white space around it, the file that it has under its tag is not the one
-- that it has under its digest, and the proxy reads the image's name as the pre-pull does. In place of
-- an answer whose media type has a character that no header can have, there is a panic.
pub fetch_manifest-get_manifest :
    (X : Float) (S : ObjectStore) (J : Json) (sha256_hex : Bytes → Text) (c : CacheStorage)
    (w : World X) (host_arch name tag registry repository : Text) (u : Upstream) (now : ℕ)
    (s : Cached S) (p : Proxy S) (r : Response) (manifest : Bytes) (missed : DockerProxyError)
    → let digest = header_digest S sha256_hex c w.disk r manifest in
      let (s1, written) =
        write_manifest_by_digest S c w.disk now s registry repository digest manifest in
      let (fetched, s') =
        fetch_manifest S sha256_hex c w.disk X J u now registry repository tag s in
      let p' : Proxy S = record p { cached = s' } in
      let (served, after) = get_manifest X S J sha256_hex c w host_arch name tag p' in
      parse_repository name ≡ (registry, repository)
      → IsStore S
      → c.backend ≡ filesystem
      → is_digest tag ≡ false
      → trim digest ≡ digest
      → text_eq
          (manifest_path c registry repository tag)
          (manifest_path_by_digest c registry repository digest)
        ≡ false
      → pulled_manifest S sha256_hex c w.disk s registry repository tag ≡ err missed
      → request_manifest X J u repository tag ≡ ok r
      → all_bytes r.body ≡ some manifest
      → is_schema_1 J manifest ≡ false
      → is_manifest_list J manifest ≡ false
      → w.disk.read_fails (manifest_path_by_digest c registry repository digest) ≡ false
      → w.disk.read_fails (tag_digest_mapping_path c registry repository tag) ≡ false
      → written ≡ ok tt
      → (write_tag_digest_mapping S c w.disk now s1 registry repository tag digest).1 ≡ ok tt
      → (fetched ≡ ok manifest)
        × IsServed
            (cached_type J manifest)
            (digest_of X S J sha256_hex c w manifest)
            manifest
            served
        × (after ≡ p')
unfolding fetch_manifest
fetch_manifest-get_manifest X S J sha256_hex c w host_arch name tag registry repository u now s p r
      manifest missed named I b t trimmed apart m f body e l r1 r2 w1 w2 =
    let digest = header_digest S sha256_hex c w.disk r manifest in
    let stored = store_pulled S sha256_hex c w.disk now registry repository tag digest manifest s in
    let found =
      store_pulled-found X S J sha256_hex c w now registry repository tag digest manifest s I b t
        trimmed apart r1 r2 w1 w2 in
    let same : fetch_manifest S sha256_hex c w.disk X J u now registry repository tag s
        ≡ (ok manifest, stored) =
      simp (fetch_manifest, m, f, keep_pulled, body) in
    let hit =
      plain_hit X S J sha256_hex c w host_arch name tag (record p { cached = stored }) manifest e l
        (rw named found) in
    rw same (
      refl,
      answered (ap (λ (z : Served × Proxy S). z.0) hit),
      ap (λ (z : Served × Proxy S). z.1) hit,
    )
