-- ===== src/Registry/Manifest/Handler/Stored.antt =====
-- What `get_manifest` stores: the next request for the tag is answered from the cache.
use pulld.Base.{
  ◌≡◌, refl, sym, subst, ap, ◌∙◌, ◌⊎◌, inl, inr, true, false, none, some, [], ◌∷◌, Bool-cases, all,
  leb, ltb, ◌==◌, ◌&&◌, ◌||◌, is_empty, unwrap_or, if◌then◌else◌, ok, err, DockerProxyError,
}
use pulld.Text.{Text, text, trim}
use pulld.Json.{Json}
use pulld.Cache.{CacheStorage, filesystem}
use pulld.Cache.Disk.{Bytes, ObjectStore, Cached}
use pulld.Cache.Keys.{manifest_path_by_digest, tag_digest_mapping_path}
use pulld.Cache.Manifests.{write_tag_digest_mapping, write_manifest_by_digest}
use pulld.Cache.Manifests.RoundTrip.{
  IsStore, write_manifest_by_digest-read, write_tag_digest_mapping-read,
}
use pulld.Cache.Manifests.Tagged.{read_manifest_by_digest-tagged}
use pulld.Registry.Http.{Response, is_success, all_bytes}
use pulld.Registry.Stats.{Float}
use pulld.Registry.Race.{Network}
use pulld.Registry.Tokens.{TokenServer}
use pulld.Registry.Names.{parse_repository}
use pulld.Registry.Blob.{content}
use pulld.Registry.Blob.Handler.{World, Proxy}
use pulld.Registry.Manifest.{
  Served, replied, panics, manifest_v2, parse_value, is_digest, media_type_of, is_schema_1,
  is_manifest_list, cached_manifest,
}
use pulld.Registry.Manifest.Handler.{
  serve, digest_of, serve_cached, conclude_manifest, fetch_upstream, get_manifest, content_type_of,
  named_digest, store_manifest,
}

-- The media type of a manifest that is answered from the cache.
abbrev pub cached_type : Json → Bytes → Text
cached_type J manifest =
    let media_type : Text = unwrap_or (media_type_of J manifest) [] in
    if is_empty media_type then manifest_v2 else media_type

-- An answer with a manifest, its media type and its digest; or a panic, where the media type has a
-- character that no header can have.
abbrev pub IsServed : Text → Text → Bytes → Served → Type 0
IsServed media_type digest manifest served =
    ((parse_value media_type ≡ none) × (served ≡ panics))
    ⊎ ((parse_value media_type ≡ some media_type)
        × (served
            ≡ replied (record {
              status = 200;
              headers =
                  (text "Content-Type", media_type) ∷ (text "Docker-Content-Digest", digest) ∷ [];
              body = content manifest;
            })))

pub serve-IsServed :
    (media_type digest : Text) (manifest : Bytes)
    → IsServed media_type digest manifest (serve media_type digest manifest)
unfolding serve parse_value
serve-IsServed media_type digest manifest =
    elim (Bool-cases (all (λ c. (leb 32 c && ltb c 127) || c == 9) media_type)) [
      | inl e ↦ inr (rw (parse_value, e) refl, rw (serve, parse_value, e) refl)
      | inr e ↦ inl (rw (parse_value, e) refl, rw (serve, parse_value, e) refl)
    ]

pub answered :
    {media_type digest : Text} {manifest : Bytes} {served : Served}
    → served ≡ serve media_type digest manifest
    → IsServed media_type digest manifest served
answered {media_type} {digest} {manifest} e =
    subst (IsServed media_type digest manifest) (sym e) (serve-IsServed media_type digest manifest)

module _ (X : Float) (S : ObjectStore) (J : Json) (sha256_hex : Bytes → Text) (c : CacheStorage)
    (w : World X) where
  -- A manifest that was stored for a tag without an error is found by the tag.
  pub stored-found :
      (registry repository tag digest : Text) (manifest : Bytes) (s : Cached S)
      → IsStore S
      → c.backend ≡ filesystem
      → is_digest tag ≡ false
      → trim digest ≡ digest
      → w.disk.read_fails (manifest_path_by_digest c registry repository digest) ≡ false
      → w.disk.read_fails (tag_digest_mapping_path c registry repository tag) ≡ false
      → let (s1, r) =
          write_manifest_by_digest S c w.disk w.now s registry repository digest manifest in
        r ≡ ok tt
        → (write_tag_digest_mapping S c w.disk w.now s1 registry repository tag digest).1 ≡ ok tt
        → cached_manifest S J c w.disk
            (store_manifest X S J sha256_hex c w registry repository tag digest manifest s)
            registry
            repository
            tag
          ≡ ok manifest
  unfolding cached_manifest store_manifest
  stored-found registry repository tag digest manifest s I b t trimmed r1 r2 w1 w2 =
      let s1 =
        (write_manifest_by_digest S c w.disk w.now s registry repository digest manifest).0 in
      simp (
        cached_manifest,
        store_manifest,
        t,
        write_tag_digest_mapping-read S c w.disk w.now s1 registry repository tag digest I r2 w2,
        trimmed,
        read_manifest_by_digest-tagged S c w.disk w.disk w.now s1 registry repository digest tag
            digest b,
        write_manifest_by_digest-read S c w.disk w.now s registry repository digest manifest I r1
            w1,
      )

  -- A cached manifest that is no list and none of schema 1 is the answer, and nothing changes.
  pub plain_hit :
      (host_arch name reference : Text) (p : Proxy S) (manifest : Bytes)
      → is_schema_1 J manifest ≡ false
      → is_manifest_list J manifest ≡ false
      → cached_manifest S J c w.disk p.cached
          (parse_repository name).0
          (parse_repository name).1
          reference
        ≡ ok manifest
      → get_manifest X S J sha256_hex c w host_arch name reference p
        ≡ (serve (cached_type J manifest) (digest_of X S J sha256_hex c w manifest) manifest, p)
  unfolding get_manifest serve_cached
  plain_hit host_arch name reference p manifest e l found =
      simp (get_manifest, serve_cached, found, e, l)

  miss_stores :
      (host_arch name reference : Text) (p p1 : Proxy S) (manifest : Bytes) (r : Response)
      (missed : DockerProxyError)
      → let (registry, repository) = parse_repository name in
        cached_manifest S J c w.disk p.cached registry repository reference ≡ err missed
        → fetch_upstream X S J sha256_hex c w registry repository reference p ≡ (some r, p1)
        → is_success r.status ≡ true
        → all_bytes r.body ≡ some manifest
        → is_schema_1 J manifest ≡ false
        → get_manifest X S J sha256_hex c w host_arch name reference p ≡ (
          serve
              (content_type_of X S J sha256_hex c w r manifest)
              (named_digest X S J sha256_hex c w r manifest)
              manifest,
          record p1 {
            cached =
                store_manifest X S J sha256_hex c w registry repository reference
                  (named_digest X S J sha256_hex c w r manifest)
                  manifest
                  p1.cached;
          },
        )
  unfolding get_manifest conclude_manifest
  miss_stores host_arch name reference p p1 manifest r missed m f s b e =
      simp (get_manifest, m, f, conclude_manifest, s, b, e)

-- The manifest that upstream gives with success for a tag that the cache has not, where it is no list
-- and none of schema 1, its digest has no white space around it, and it and the mapping of its tag are
-- stored on disk without an error and can be read: the request is answered with the manifest, the
-- media type and the digest that were found for it, and the next request for the tag, whatever the
-- network and the server of tokens then do, with the same manifest, its own media type and the digest
-- that is its hash, and changes nothing. In place of an answer whose media type has a character that
-- no header can have, there is a panic.
pub get_manifest-again :
    (X : Float) (S : ObjectStore) (J : Json) (sha256_hex : Bytes → Text) (c : CacheStorage)
    (w : World X) (host_arch host_arch' name tag : Text) (p p1 : Proxy S) (r : Response)
    (manifest : Bytes) (missed : DockerProxyError) (net : Network) (server : TokenServer)
    → let (registry, repository) = parse_repository name in
      let digest = named_digest X S J sha256_hex c w r manifest in
      let (s1, written) =
        write_manifest_by_digest S c w.disk w.now p1.cached registry repository digest manifest in
      let (served, p2) = get_manifest X S J sha256_hex c w host_arch name tag p in
      let (again, p3) =
        get_manifest X S J sha256_hex c
          (record w { net = net; server = server })
          host_arch'
          name
          tag
          p2 in
      IsStore S
      → c.backend ≡ filesystem
      → is_digest tag ≡ false
      → trim digest ≡ digest
      → cached_manifest S J c w.disk p.cached registry repository tag ≡ err missed
      → fetch_upstream X S J sha256_hex c w registry repository tag p ≡ (some r, p1)
      → is_success r.status ≡ true
      → all_bytes r.body ≡ some manifest
      → is_schema_1 J manifest ≡ false
      → is_manifest_list J manifest ≡ false
      → w.disk.read_fails (manifest_path_by_digest c registry repository digest) ≡ false
      → w.disk.read_fails (tag_digest_mapping_path c registry repository tag) ≡ false
      → written ≡ ok tt
      → (write_tag_digest_mapping S c w.disk w.now s1 registry repository tag digest).1 ≡ ok tt
      → IsServed (content_type_of X S J sha256_hex c w r manifest) digest manifest served
        × IsServed (cached_type J manifest) (digest_of X S J sha256_hex c w manifest) manifest again
        × (p3 ≡ p2)
get_manifest-again X S J sha256_hex c w host_arch host_arch' name tag p p1 r manifest missed net
      server I b t trimmed m f s body e l r1 r2 w1 w2 =
    let (registry, repository) = parse_repository name in
    let digest = named_digest X S J sha256_hex c w r manifest in
    let first =
      miss_stores X S J sha256_hex c w host_arch name tag p p1 manifest r missed m f s body e in
    let found =
      stored-found X S J sha256_hex c w registry repository tag digest manifest p1.cached I b t
        trimmed r1 r2 w1 w2 in
    let again =
      plain_hit X S J sha256_hex c (record w { net = net; server = server }) host_arch' name tag
        (get_manifest X S J sha256_hex c w host_arch name tag p).1 manifest e l
        (ap
            (λ (z : Served × Proxy S).
              cached_manifest S J c w.disk z.1.cached registry repository tag)
            first
          ∙ found) in
    (
      answered (ap (λ (z : Served × Proxy S). z.0) first),
      answered (ap (λ (z : Served × Proxy S). z.0) again),
      ap (λ (z : Served × Proxy S). z.1) again,
    )
