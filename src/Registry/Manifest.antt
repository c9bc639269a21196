-- ===== src/Registry/Manifest.antt =====
-- The parts of `get_manifest` and `head_manifest` of src/registry/manifest.rs that read the cache:
-- which manifests are refused, the look-up by digest or tag, and the manifest of a platform. JSON,
-- the hash function and the architecture of the host are parameters.
pub mod Handler
pub mod Head
pub mod Platform
mod Tests
use pulld.Base.{
  ℕ, Bool, true, false, ◌&&◌, ◌||◌, not, Option, none, some, ◌>>=◌, List, [], ◌∷◌, leb, ltb, first,
  all, is_empty, unwrap_or, ◌==◌, if◌then◌else◌, DockerProxyError, Result, ok, err,
}
use pulld.Text.{Text, text, text_eq, starts_with, contains_text}
use pulld.Json.{Json, str_field}
use pulld.Cache.{CacheStorage}
use pulld.Cache.Disk.{Bytes, Disk, ObjectStore, Cached}
use pulld.Cache.Manifests.{read_tag_digest_mapping, read_manifest_by_digest}
use pulld.Registry.Blob.{Reply, content}

-- How a handler ends. A header's value that `unwrap` finds to be none panics.
pub data Served : Type 0 where
  replied : Reply → Served
  panics : Served

abbrev pub manifest_v2 : Text
manifest_v2 = text "application/vnd.docker.distribution.manifest.v2+json"

abbrev pub manifest_v1 : Text
manifest_v1 = text "application/vnd.docker.distribution.manifest.v1+json"

-- `.parse::<HeaderValue>()` of a text: visible ASCII, spaces and tabs.
unfoldable pub parse_value : Text → Option Text
parse_value s = if all (λ c. (leb 32 c && ltb c 127) || c == 9) s then some s else none

abbrev pub is_digest : Text → Bool
is_digest reference = starts_with reference (text "sha256:")

abbrev pub is_list_type : Text → Bool
is_list_type mt = contains_text mt (text "manifest.list") || contains_text mt (text "image.index")

abbrev is_one : Option ℕ → Bool
is_one none = false
is_one (some n) = n == 1

abbrev is_docker_schema_1 : Option Text → Bool
is_docker_schema_1 none = false
is_docker_schema_1 (some mt) = text_eq mt manifest_v1 || contains_text mt (text "schema1")

module _ (J : Json) where
  -- The `mediaType` of a manifest, if it is JSON and has one.
  unfoldable pub media_type_of : Bytes → Option Text
  media_type_of manifest = do str_field J (← J.from_slice manifest) (text "mediaType")

  -- `serde_json` gives a `schemaVersion` and a `mediaType` of a value; a manifest that is no JSON is none of schema 1.
  unfoldable pub is_schema_1 : Bytes → Bool
  unfolding contains_text
  is_schema_1 manifest = elim (J.from_slice manifest) [
    | none ↦ false
    | some json ↦
        is_one (do J.as_u64 (← J.get json (text "schemaVersion")))
        || is_docker_schema_1 (str_field J json (text "mediaType"))
  ]

  unfoldable pub is_manifest_list : Bytes → Bool
  unfolding media_type_of contains_text
  is_manifest_list manifest = elim (media_type_of manifest) [
    | none ↦ false
    | some mt ↦ is_list_type mt
  ]

  abbrev platform_field : J.Value → Text → Text
  platform_field platform name = unwrap_or (str_field J platform name) []

  abbrev pub is_for : Text → Text → J.Value → Bool
  is_for arch os manifest = elim (J.get manifest (text "platform")) [
    | none ↦ false
    | some platform ↦
        text_eq (platform_field platform (text "architecture")) arch
        && text_eq (platform_field platform (text "os")) os
  ]

  -- The first manifest for a platform.
  unfoldable pub best_match : Text → Text → List J.Value → Option J.Value
  best_match arch os [] = none
  best_match arch os (manifest ∷ manifests) =
      if is_for arch os manifest then some manifest else best_match arch os manifests

  -- `best_match.or_else(|| manifests.first())`.
  unfoldable pub selected_manifest : Text → Text → List J.Value → Option J.Value
  unfolding best_match
  selected_manifest arch os manifests = elim (best_match arch os manifests) [
    | some manifest ↦ some manifest
    | none ↦ first manifests
  ]

-- The names that registries use, and the system of all virtual machines.
unfoldable pub detect_platform_architecture : Text → Text × Text
detect_platform_architecture arch =
    if text_eq arch (text "x86_64")
    then (text "amd64", text "linux")
    else if text_eq arch (text "aarch64")
    then (text "arm64", text "linux")
    else (arch, text "linux")

module _ (S : ObjectStore) (J : Json) (c : CacheStorage) (d : Disk) where
  -- The look-up of both handlers: by the digest, or by the digest that the tag is mapped to.
  unfoldable pub cached_manifest : Cached S → Text → Text → Text → Result Bytes
  unfolding read_manifest_by_digest read_tag_digest_mapping starts_with
  cached_manifest s registry repository reference =
      if is_digest reference
      then read_manifest_by_digest S c d s registry repository reference
      else (elim (read_tag_digest_mapping S c d s registry repository reference) [
        | some digest ↦ read_manifest_by_digest S c d s registry repository digest
        | none ↦ err DockerProxyError.cache
      ])

  -- The manifest that a list selects, with its media type, if the cache has it.
  abbrev pub read_selected : Cached S → Text → Text → J.Value → Result (Option (Bytes × Text))
  read_selected s registry repository selected = elim (str_field J selected (text "digest")) [
    | none ↦ err DockerProxyError.registry
    | some digest ↦ elim (read_manifest_by_digest S c d s registry repository digest) [
      | err e ↦ ok none
      | ok manifest ↦
          ok (some (manifest, unwrap_or (str_field J selected (text "mediaType")) manifest_v2))
    ]
  ]

  abbrev pub read_list : Text → Cached S → Text → Text → J.Value → Result (Option (Bytes × Text))
  read_list host_arch s registry repository manifest_list =
      elim (do J.as_array (← J.get manifest_list (text "manifests"))) [
        | none ↦ err DockerProxyError.registry
        | some manifests ↦
            let (arch, os) = detect_platform_architecture host_arch in
            elim (selected_manifest J arch os manifests) [
              | none ↦ err DockerProxyError.registry
              | some selected ↦ read_selected s registry repository selected
            ]
      ]

  unfoldable pub resolve_platform_manifest :
      Text → Cached S → Text → Text → Bytes → Result (Option (Bytes × Text))
  unfolding detect_platform_architecture selected_manifest read_manifest_by_digest contains_text
  resolve_platform_manifest host_arch s registry repository list = elim (J.from_slice list) [
    | none ↦ err DockerProxyError.registry
    | some manifest_list ↦
        if is_list_type (unwrap_or (str_field J manifest_list (text "mediaType")) [])
        then read_list host_arch s registry repository manifest_list
        else ok none
  ]
