-- ===== src/Registry/Manifest/Handler/Hit.antt =====
-- What `get_manifest` can answer: never a manifest of schema 1, but for one that the cache holds for
-- a platform of a list.
use pulld.Base.{
  ◌≡◌, refl, sym, ap, subst, ◌∙◌, ◌⊎◌, inl, inr, true, false, ◌&&◌, not, Option, none, some, [],
  arith, Bool-cases, Option-cases, Result-cases, is_empty, unwrap_or, if◌then◌else◌, Result, ok,
  err,
}
use pulld.Text.{Text}
use pulld.Json.{Json}
use pulld.Cache.{CacheStorage}
use pulld.Cache.Disk.{Bytes, ObjectStore, Cached}
use pulld.Registry.Http.{Response, is_success, all_bytes}
use pulld.Registry.Stats.{Float}
use pulld.Registry.Names.{parse_repository}
use pulld.Registry.Blob.{Reply, content}
use pulld.Registry.Blob.Handler.{World, Proxy}
use pulld.Registry.Manifest.{
  Served, replied, manifest_v2, parse_value, is_digest, media_type_of, is_schema_1,
  is_manifest_list, cached_manifest, resolve_platform_manifest,
}
use pulld.Registry.Manifest.Handler.{
  serve, digest_of, serve_cached, conclude_manifest, fetch_upstream, get_manifest, content_type_of,
  named_digest,
}

-- An answer with the status 200 that has a manifest as its body.
abbrev pub Serves : Served → Bytes → Type 0
Serves served manifest =
    (r : Reply) × (served ≡ replied r) × (r.status ≡ 200) × (r.body ≡ content manifest)

serve-Serves :
    (served : Served) (content_type digest m manifest : Bytes)
    → served ≡ serve content_type digest m
    → Serves served manifest
    → manifest ≡ m
unfolding serve
serve-Serves served content_type digest m manifest h (r, e, s, b) =
    elim (Option-cases (parse_value content_type)) [
      | inl n ↦ absurd (ground arith)
      | inr (v, n) ↦ ground arith
    ]

module _ (X : Float) (S : ObjectStore) (J : Json) (sha256_hex : Bytes → Text) (c : CacheStorage)
    (w : World X) where
  -- The manifest of a platform, of a list that the cache has for a tag.
  abbrev pub IsResolved : Text → Cached S → Text → Text → Text → Bytes → Type 0
  IsResolved host_arch s registry repository reference manifest =
      (list : Bytes) × (media_type : Text) × (is_digest reference ≡ false)
      × (is_manifest_list J list ≡ true)
      × (cached_manifest S J c w.disk s registry repository reference ≡ ok list)
      × (resolve_platform_manifest S J c w.disk host_arch s registry repository list
          ≡ ok (some (manifest, media_type)))

  platform_served :
      (host_arch : Text) (s : Cached S) (registry repository reference : Text)
      (list manifest : Bytes) (served : Served)
      → cached_manifest S J c w.disk s registry repository reference ≡ ok list
      → is_schema_1 J list ≡ false
      → is_manifest_list J list ≡ true
      → is_digest reference ≡ false
      → serve_cached X S J sha256_hex c w host_arch s registry repository reference list
        ≡ some served
      → Serves served manifest
      → IsResolved host_arch s registry repository reference manifest
  unfolding serve_cached
  platform_served host_arch s registry repository reference list manifest served found e l t h k =
      of_answer (resolve_platform_manifest S J c w.disk host_arch s registry repository list) refl
        (ap (λ (z : Option Served). z) (simp (serve_cached, e, l, t) refl) ∙ h)
    where
      answer_of : Result (Option (Bytes × Text)) → Option Served
      answer_of r = elim r [
        | ok (some (m, mt)) ↦ some (serve mt (digest_of X S J sha256_hex c w m) m)
        | ok none ↦ none
        | err e ↦ none
      ]

      of_answer :
          (r : Result (Option (Bytes × Text)))
          → resolve_platform_manifest S J c w.disk host_arch s registry repository list ≡ r
          → answer_of r ≡ some served
          → IsResolved host_arch s registry repository reference manifest
      of_answer (ok (some (m, mt))) e h =
          let same : manifest ≡ m =
            serve-Serves served mt (digest_of X S J sha256_hex c w m) m manifest (cc) k in
          (list, mt, t, l, found, e ∙ ap (λ b. ok (some (b, mt))) (sym same))
      of_answer (ok none) e h = absurd (cc)
      of_answer (err x) e h = absurd (cc)

  serve_cached-Serves :
      (host_arch : Text) (s : Cached S) (registry repository reference : Text)
      (list manifest : Bytes) (served : Served)
      → cached_manifest S J c w.disk s registry repository reference ≡ ok list
      → serve_cached X S J sha256_hex c w host_arch s registry repository reference list
        ≡ some served
      → Serves served manifest
      → (is_schema_1 J manifest ≡ false)
        ⊎ IsResolved host_arch s registry repository reference manifest
  unfolding serve_cached
  serve_cached-Serves host_arch s registry repository reference list manifest served found h k =
      elim (Bool-cases (is_schema_1 J list)) [
        | inl e ↦ absurd (ground arith)
        | inr e ↦ elim (Bool-cases (is_manifest_list J list && not (is_digest reference))) [
          | inl l ↦ inr (
              platform_served host_arch s registry repository reference list manifest served found e
                (ground arith) (ground arith) h k)
          | inr l ↦
              let mt : Text = unwrap_or (media_type_of J list) [] in
              let same : manifest ≡ list =
                serve-Serves served (if is_empty mt then manifest_v2 else mt)
                  (digest_of X S J sha256_hex c w list) list manifest (ground arith) k in
              inl (rw same e)
        ]
      ]

  conclude-Serves :
      (registry repository reference : Text) (o : Option Response) (p : Proxy S) (manifest : Bytes)
      → Serves
          (conclude_manifest X S J sha256_hex c w registry repository reference (o, p)).0
          manifest
      → is_schema_1 J manifest ≡ false
  unfolding conclude_manifest
  conclude-Serves registry repository reference none p manifest (r, e, s, b) = absurd (ground arith)
  conclude-Serves registry repository reference (some r) p manifest k =
      elim (Bool-cases (is_success r.status)) [
        | inr e ↦ absurd (ground arith)
        | inl e ↦ elim (Option-cases (all_bytes r.body)) [
          | inl n ↦ absurd (ground arith)
          | inr (list, n) ↦ elim (Bool-cases (is_schema_1 J list)) [
            | inl e1 ↦ absurd (ground arith)
            | inr e1 ↦
                let same : manifest ≡ list =
                  serve-Serves
                    (conclude_manifest X S J sha256_hex c w registry repository reference
                      (some r, p)).0
                    (content_type_of X S J sha256_hex c w r list)
                    (named_digest X S J sha256_hex c w r list) list manifest
                    (simp (conclude_manifest, e, n, e1) refl) k in
                rw same e1
          ]
        ]
      ]

  -- What `get_manifest` answers with the status 200 is none of schema 1, or it is the manifest that the
  -- cache has for a platform, of a list that it has for the tag.
  pub get_manifest-Serves :
      (host_arch name reference : Text) (p : Proxy S) (manifest : Bytes)
      → let (registry, repository) = parse_repository name in
        Serves (get_manifest X S J sha256_hex c w host_arch name reference p).0 manifest
        → (is_schema_1 J manifest ≡ false)
          ⊎ IsResolved host_arch p.cached registry repository reference manifest
  unfolding get_manifest
  get_manifest-Serves host_arch name reference p manifest k =
      let (registry, repository) = parse_repository name in
      let got = (get_manifest X S J sha256_hex c w host_arch name reference p).0 in
      let fetched = fetch_upstream X S J sha256_hex c w registry repository reference p in
      let concluded =
        (conclude_manifest X S J sha256_hex c w registry repository reference fetched).0 in
      let from_upstream = λ (same : got ≡ concluded).
        conclude-Serves registry repository reference fetched.0 fetched.1 manifest
          (subst (λ z. Serves z manifest) same k) in
      elim (Result-cases (cached_manifest S J c w.disk p.cached registry repository reference)) [
        | inr (x, e) ↦ inl (from_upstream (simp (get_manifest, e) refl))
        | inl (list, e) ↦
            elim (Option-cases (
              serve_cached X S J sha256_hex c w host_arch p.cached registry repository reference
                list)) [
                  | inl n ↦ inl (from_upstream (simp (get_manifest, e, n) refl))
                  | inr (served, n) ↦
                      let same : got ≡ served = simp (get_manifest, e, n) refl in
                      serve_cached-Serves host_arch p.cached registry repository reference list
                        manifest served e n (subst (λ z. Serves z manifest) same k)
                ]
      ]
