-- ===== src/Cache.antt =====
-- The store of blobs, manifests and charts of src/cache/storage.rs: its configuration, and what it
-- uses of the disk and of an object store.
pub mod Disk
pub mod Keys
pub mod Blobs
pub mod Evict
pub mod Manifests
pub mod Streams
pub mod Flights
pub mod Sample
mod Tests
use pulld.Base.{
  ℕ, ◌+◌, ◌-◌, ◌*◌, ◌%◌, Bool, true, false, not, Option, none, some, ◌>>=◌, List, [], ◌∷◌, ◌++◌,
  is_empty, unwrap_or, if◌then◌else◌, ◌==◌,
}
use pulld.Text.{
  Text, text, strip_prefix, starts_with, ends_with, trim_start_by, trim_end_by, rsplit_once,
  text_eq,
}
use pulld.Text.Numbers.{u64_limit}

pub data CacheBackend : Type 0 where
  filesystem : CacheBackend
  object_store : Text → CacheBackend

-- The directories of `CacheStorage`, its bound and its backend. The table of downloads under way is
-- modelled in `Flights`.
pub record CacheStorage : Type 0 where
  pub base_dir : Text
  pub blobs_dir : Text
  pub manifests_dir : Text
  pub charts_dir : Text
  pub max_size_bytes : ℕ
  pub backend : CacheBackend

-- `Path::join`: an absolute path takes the place of all that is before it.
unfoldable pub join_path : Text → Text → Text
unfolding starts_with ends_with
join_path base p =
    if starts_with p (text "/")
    then p
    else if is_empty base
    then p
    else if ends_with base (text "/")
    then base ++ p
    else base ++ b'/' ∷ p

-- `Path::with_extension` on the last component of a path.
abbrev stem_of : Text → Text
stem_of name = elim (rsplit_once name b'.') [
  | none ↦ name
  | some (stem, extension) ↦ if is_empty stem then name else stem
]

abbrev set_extension : Text → Text → Text
set_extension name extension =
    if text_eq name (text "..") then name else stem_of name ++ b'.' ∷ extension

unfoldable pub with_extension : Text → Text → Text
unfolding rsplit_once
with_extension path extension = elim (rsplit_once path b'/') [
  | none ↦ set_extension path extension
  | some (dir, name) ↦ dir ++ b'/' ∷ set_extension name extension
]

unfoldable pub normalize_prefix : Text → Text
unfolding trim_end_by trim_start_by
normalize_prefix prefix = trim_end_by (λ c. c == b'/') (trim_start_by (λ c. c == b'/') prefix)

-- `gb * 1024 * 1024 * 1024` wraps as release builds do; without a bound it is `u64::MAX`.
abbrev max_size : Option ℕ → ℕ
max_size none = u64_limit - 1
max_size (some gb) = (gb * 1024 * 1024 * 1024) % u64_limit

abbrev directories : Text → ℕ → CacheBackend → CacheStorage
directories base_dir max_size_bytes backend = record {
  base_dir = base_dir;
  blobs_dir = join_path (join_path base_dir (text "blobs")) (text "sha256");
  manifests_dir = join_path base_dir (text "manifests");
  charts_dir = join_path base_dir (text "charts");
  max_size_bytes = max_size_bytes;
  backend = backend;
}

-- The constructors, where the directories can be made.
unfoldable pub with_max_size : Text → Option ℕ → CacheStorage
unfolding join_path
with_max_size base_dir max_size_gb = directories base_dir (max_size max_size_gb) filesystem

unfoldable pub with_object_store : Text → Text → Option ℕ → CacheStorage
unfolding join_path normalize_prefix
with_object_store base_dir prefix max_size_gb =
    directories base_dir (max_size max_size_gb) (object_store (normalize_prefix prefix))

abbrev pub is_object_store_backed : CacheStorage → Bool
is_object_store_backed c = elim c.backend [ filesystem ↦ false | object_store prefix ↦ true ]

-- A digest without `sha256:`.
unfoldable pub bare : Text → Text
unfolding strip_prefix
bare digest = unwrap_or (strip_prefix digest (text "sha256:")) digest
