-- ===== src/Prepull/Images.antt =====
-- `pull_image` of src/prepull.rs. The layers of an image are pulled one after the other here; each
-- finds the cache as those before it leave it.
pub mod Complete
use pulld.Base.{
  ℕ, suc, ◌+◌, ◌%◌, Bool, Option, none, some, List, [], ◌∷◌, ◌++◌, any, is_empty, is_some,
  unwrap_or, ◌==◌, if◌then◌else◌, DockerProxyError, Result, ok, err,
}
use pulld.Text.{Text, text, text_eq, contains_text}
use pulld.Text.Numbers.{u64_limit}
use pulld.Json.{Json}
use pulld.Cache.{CacheStorage}
use pulld.Cache.Disk.{Bytes, Disk, ObjectStore, Cached}
use pulld.Registry.Stats.{Float, MirrorStrategy}
use pulld.Registry.Race.{Network}
use pulld.Registry.Tokens.{TokenServer}
use pulld.Registry.Upstreams.{RegistryConfig, lookup, default_registry_name}
use pulld.Registry.Manifest.{detect_platform_architecture}
use pulld.Prepull.Names.{parse_image_reference, parse_repository}
use pulld.Prepull.Layers.{
  is_index_type, media_type, manifests_of, select_digest, extract_layer_digests,
}
use pulld.Prepull.Manifests.{Upstream, fetch_manifest}
use pulld.Prepull.Blobs.{pull_blob}

-- A `HashSet` of digests, as a list without repetitions.
unfoldable pub insert_all : List Text → List Text → List Text
insert_all set [] = set
insert_all set (digest ∷ digests) =
    insert_all (if any (text_eq digest) set then set else set ++ digest ∷ []) digests

-- What the layers of an image came to: the sizes' sum, and how many failed.
pub record Pulled : Type 0 where
  pub total_size : ℕ
  pub failed_count : ℕ

module _ (X : Float) (J : Json) (S : ObjectStore) (sha256_hex : Bytes → Text) (host_arch : Text)
    (c : CacheStorage) (d : Disk) (now : ℕ) where
  abbrev extracted : Result Bytes × Cached S → Result (List Text) × Cached S
  extracted (err e, s) = (err e, s)
  extracted (ok manifest, s) = elim (J.from_slice manifest) [
    | none ↦ (err DockerProxyError.registry, s)
    | some value ↦ (extract_layer_digests J value, s)
  ]

  -- The digests of a list's manifest for the host's platform.
  abbrev list_layers : Upstream → Text → Text → J.Value → Cached S → Result (List Text) × Cached S
  list_layers u registry repository list s = elim (manifests_of J list) [
    | none ↦ (err DockerProxyError.registry, s)
    | some entries ↦
        let (arch, os) = detect_platform_architecture host_arch in
        elim (select_digest J arch os entries none) [
          | none ↦ (err DockerProxyError.registry, s)
          | some digest ↦
              extracted (fetch_manifest S sha256_hex c d X J u now registry repository digest s)
        ]
  ]

  abbrev read_layers :
      Upstream → Text → Text → Result Bytes × Cached S → Result (List Text) × Cached S
  read_layers u registry repository (err e, s) = (err e, s)
  read_layers u registry repository (ok manifest, s) = elim (J.from_slice manifest) [
    | none ↦ (err DockerProxyError.registry, s)
    | some value ↦
        if is_index_type (media_type J value)
        then list_layers u registry repository value s
        else (extract_layer_digests J value, s)
  ]

  -- The digests of the blobs of an image.
  unfoldable pub image_layers : Upstream → Text → Cached S → Result (List Text) × Cached S
  unfolding parse_image_reference parse_repository fetch_manifest extract_layer_digests
      select_digest detect_platform_architecture contains_text
  image_layers u image s =
      let (name, reference) = parse_image_reference image in
      let (registry, repository) = parse_repository name in
      read_layers u registry repository
        (fetch_manifest S sha256_hex c d X J u now registry repository reference s)

  abbrev pub counted : Pulled → Result ℕ → Pulled
  counted p (ok size) = record p { total_size = (p.total_size + size) % u64_limit }
  counted p (err e) = record p { failed_count = suc p.failed_count }

  -- The blobs, of which `tries` says what each attempt meets.
  unfoldable pub pull_layers :
      Text → (Text → ℕ → Upstream) → List Text → Pulled → Cached S → Pulled × Cached S
  unfolding pull_blob
  pull_layers repository tries [] p s = (p, s)
  pull_layers repository tries (digest ∷ digests) p s =
      let (result, s') = pull_blob X J S c d now digest repository (tries digest) s in
      pull_layers repository tries digests (counted p result) s'

  abbrev finished : Pulled × Cached S → Result ℕ × Cached S
  finished (p, s) =
      if p.failed_count == 0 then (ok p.total_size, s) else (err DockerProxyError.registry, s)

  -- `iterate` is the order in which the set of digests is gone through.
  unfoldable pub pull_image :
      (List Text → List Text)
      → Upstream
      → (Text → ℕ → Upstream)
      → Text
      → Cached S
      → Result ℕ × Cached S
  unfolding image_layers insert_all pull_layers parse_image_reference parse_repository
  pull_image iterate u tries image s =
      let (name, reference) = parse_image_reference image in
      let (registry, repository) = parse_repository name in
      let (layers, s') = image_layers u image s in
      elim layers [
        | err e ↦ (err e, s')
        | ok digests ↦ finished (
            pull_layers repository tries (iterate (insert_all [] digests))
              (record { total_size = 0; failed_count = 0 }) s')
      ]
