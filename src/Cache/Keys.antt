-- ===== src/Cache/Keys.antt =====
-- The paths and the keys of src/cache/storage.rs under which the cache keeps what it keeps.
pub mod Apart
pub mod Clash
use pulld.Base.{
  ℕ, Bool, not, Option, none, some, List, [], ◌∷◌, ◌++◌, is_empty, filter, if◌then◌else◌,
}
use pulld.Text.{Text, text, replace, join}
use pulld.Cache.{CacheStorage, filesystem, object_store, join_path, bare}

unfoldable pub blob_path : CacheStorage → Text → Text
unfolding bare join_path
blob_path c digest = join_path c.blobs_dir (bare digest)

abbrev prefix_segments : CacheStorage → List Text
prefix_segments c = elim c.backend [
  | filesystem ↦ []
  | object_store prefix ↦ if is_empty prefix then [] else prefix ∷ []
]

unfoldable pub object_key : CacheStorage → List Text → Text
unfolding join
object_key c parts =
    join (text "/") (prefix_segments c ++ filter (λ part. not (is_empty part)) parts)

unfoldable pub blob_object_key : CacheStorage → Text → Text
unfolding bare object_key
blob_object_key c digest = object_key c (text "blobs" ∷ text "sha256" ∷ bare digest ∷ [])

unfoldable pub manifest_object_key : CacheStorage → Text → Text → Text → Text
unfolding bare object_key replace
manifest_object_key c registry repository reference = object_key c (
    text "manifests"
    ∷ registry
    ∷ repository
    ∷ text "refs"
    ∷ (replace (bare reference) b':' (text "_") ++ text ".json")
    ∷ [])

unfoldable pub manifest_object_key_by_digest : CacheStorage → Text → Text → Text → Text
unfolding bare object_key
manifest_object_key_by_digest c registry repository digest =
    object_key c (
      text "manifests" ∷ registry ∷ repository ∷ text "sha256" ∷ (bare digest ++ text ".json") ∷ [])

unfoldable pub tag_digest_mapping_object_key : CacheStorage → Text → Text → Text → Text
unfolding object_key replace
tag_digest_mapping_object_key c registry repository tag = object_key c (
    text "manifests"
    ∷ registry
    ∷ repository
    ∷ text "tags"
    ∷ (replace tag b':' (text "_") ++ text ".digest")
    ∷ [])

unfoldable pub chart_object_key : CacheStorage → Text → Text → Text
unfolding object_key
chart_object_key c repo chart = object_key c (text "charts" ∷ repo ∷ chart ∷ [])

unfoldable pub manifest_path : CacheStorage → Text → Text → Text → Text
unfolding bare join_path replace
manifest_path c registry repository reference =
    join_path (join_path (join_path c.manifests_dir registry) repository)
      (replace (bare reference) b':' (text "_") ++ text ".json")

unfoldable pub manifest_path_by_digest : CacheStorage → Text → Text → Text → Text
unfolding bare join_path
manifest_path_by_digest c registry repository digest =
    join_path
      (join_path (join_path (join_path c.manifests_dir registry) repository) (text "sha256"))
      (bare digest ++ text ".json")

unfoldable pub tag_digest_mapping_path : CacheStorage → Text → Text → Text → Text
unfolding join_path replace
tag_digest_mapping_path c registry repository tag =
    join_path (join_path (join_path (join_path c.manifests_dir registry) repository) (text "tags"))
      (replace tag b':' (text "_") ++ text ".digest")

unfoldable pub chart_path : CacheStorage → Text → Text → Text
unfolding join_path
chart_path c repo chart = join_path (join_path c.charts_dir repo) chart
