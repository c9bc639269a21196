-- ===== src/Cache/Evict.antt =====
-- `calculate_cache_size` and `evict_if_needed` of src/cache/storage.rs.
pub mod Listed
pub mod Room
use pulld.Base.{
  ℕ, ◌+◌, ◌-◌, ◌%◌, Bool, false, not, none, some, [], ◌∷◌, length, leb, ◌==◌, ◌++◌, if◌then◌else◌,
}
use pulld.Text.{Text, text, strip_prefix, contains}
use pulld.Text.Numbers.{u64_limit}
use pulld.Cache.{CacheStorage}
use pulld.Cache.Disk.{Disk, File, Files, remove_file}

-- The files right under a directory: what `read_dir` lists and `is_file` keeps, where all metadata
-- can be read.
unfoldable pub is_in_dir : Text → Text → Bool
unfolding strip_prefix contains
is_in_dir dir path = elim (strip_prefix path (dir ++ text "/")) [
  | none ↦ false
  | some name ↦ not (contains name b'/')
]

unfoldable pub read_dir : Files → Text → Files
unfolding is_in_dir
read_dir [] dir = []
read_dir ((path, file) ∷ rest) dir =
    let more = read_dir rest dir in if is_in_dir dir path then (path, file) ∷ more else more

abbrev pub size_on : ℕ → Files → ℕ
size_on total [] = total
size_on total ((path, file) ∷ rest) = size_on ((total + length file.bytes) % u64_limit) rest

unfoldable pub calculate_cache_size : CacheStorage → Files → ℕ
unfolding read_dir
calculate_cache_size c files = size_on 0 (read_dir files c.blobs_dir)

-- The stable sort by the time of modification, the oldest in front.
unfoldable pub insert_old : (Text × File) → Files → Files
insert_old x [] = x ∷ []
insert_old x (y ∷ ys) = if leb x.1.modified y.1.modified then x ∷ y ∷ ys else y ∷ insert_old x ys

unfoldable pub sort_by_age : Files → Files
unfolding insert_old
sort_by_age [] = []
sort_by_age (x ∷ xs) = insert_old x (sort_by_age xs)

-- The loop: the blobs in turn, until enough is freed. A blob that can not be removed is passed
-- over.
unfoldable pub evict_on : Disk → ℕ → ℕ → Files → Files → Files
unfolding remove_file
evict_on d target freed [] files = files
evict_on d target freed ((path, file) ∷ rest) files = elim (remove_file d files path) [
  | none ↦ let kept = evict_on d target freed rest files in if leb target freed then files else kept
  | some files' ↦
      let kept = evict_on d target ((freed + length file.bytes) % u64_limit) rest files' in
      if leb target freed then files else kept
]

unfoldable pub evict_if_needed : CacheStorage → Disk → Files → ℕ → Files
unfolding calculate_cache_size evict_on sort_by_age
evict_if_needed c d files new_blob_size =
    let wanted = (calculate_cache_size c files + new_blob_size) % u64_limit in
    if c.max_size_bytes == u64_limit - 1
    then files
    else if leb wanted c.max_size_bytes
    then files
    else evict_on d (wanted - c.max_size_bytes) 0 (sort_by_age (read_dir files c.blobs_dir)) files
