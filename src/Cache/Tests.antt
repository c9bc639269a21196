-- ===== src/Cache/Tests.antt =====
-- Examples of the cache's paths, keys and blobs.
use pulld.Base.{
  ◌+◌, ◌%◌, ◌≤◌, arith, false, ◌≡◌, refl, ◌≢◌, ◌||◌, Option, none, some, [], ◌∷◌, ok, is_none,
  is_empty,
}
use pulld.Text.{text, starts_with, ends_with, contains}
use pulld.Text.Numbers.{u64_limit}
use pulld.Cache.Streams.{Reader, write_blob_stream}
use pulld.Cache.Streams.Stored.{write_blob_stream-read_blob}
use pulld.Cache.{CacheStorage, with_max_size, join_path, bare}
use pulld.Cache.Disk.{Bytes, Files, Cached, find_file}
use pulld.Cache.Sample.{sample_cache, s3_cache, good_disk, no_store}
use pulld.Cache.Evict.{evict_if_needed, read_dir}
use pulld.Cache.Evict.Listed.{total}
use pulld.Cache.Evict.Room.{evict_if_needed-room}
use pulld.Cache.Manifests.RoundTrip.{IsStore}
use pulld.Cache.Keys.{
  blob_path, manifest_path, manifest_path_by_digest, manifest_object_key,
  manifest_object_key_by_digest, tag_digest_mapping_object_key,
}
use pulld.Cache.Keys.Clash.{manifest_path-clash}
use pulld.Cache.Keys.Apart.{manifest_keys-apart}
use pulld.Cache.Blobs.{CachedBlob, BlobByteRange, open_blob, read_blob, write_blob}
use pulld.Cache.Blobs.Reads.{IsOpenedFrom, misses, open_blob-IsOpenedFrom}
use pulld.Cache.Blobs.Writes.{write_blob-read_blob}

abbrev five_bytes : Bytes
five_bytes = 1 ∷ 2 ∷ 3 ∷ 4 ∷ 5 ∷ []

abbrev one_blob : Cached no_store
one_blob = record {
  files = (text "/c/blobs/sha256/ab", record { bytes = five_bytes; modified = 1 }) ∷ [];
  objects = tt;
}

directories_example : with_max_size (text "/c") none ≡ sample_cache
unfolding with_max_size
directories_example = refl

manifest_path-clash_example :
    manifest_path sample_cache (text "quay.io") (text "a/sha256") (text "sha256:0f")
    ≡ manifest_path_by_digest sample_cache (text "quay.io") (text "a") (text "sha256:0f")
unfolding starts_with ends_with join_path contains bare
manifest_path-clash_example =
    manifest_path-clash sample_cache (text "quay.io") (text "a") (text "sha256:0f") refl refl refl
      refl

manifest_keys-apart_example :
    (manifest_object_key s3_cache (text "quay.io") (text "a") (text "1.0")
      ≢ manifest_object_key_by_digest s3_cache (text "quay.io") (text "a") (text "sha256:0f"))
    × (manifest_object_key s3_cache (text "quay.io") (text "a") (text "1.0")
        ≢ tag_digest_mapping_object_key s3_cache (text "quay.io") (text "a") (text "1.0"))
    × (manifest_object_key_by_digest s3_cache (text "quay.io") (text "a") (text "sha256:0f")
        ≢ tag_digest_mapping_object_key s3_cache (text "quay.io") (text "a") (text "1.0"))
unfolding contains
manifest_keys-apart_example =
    manifest_keys-apart s3_cache (text "quay.io") (text "quay.io") (text "quay.io") (text "a")
      (text "a") (text "a") (text "1.0") (text "sha256:0f") (text "1.0") refl refl refl

s3_key :
    manifest_object_key s3_cache (text "quay.io") (text "a") (text "1.0")
    ≡ text "proxy/manifests/quay.io/a/refs/1.0.json"
unfolding manifest_object_key
s3_key = refl

abbrev middle : Option BlobByteRange
middle = some (record { start = 1; end = some 3 })

open_blob-IsOpenedFrom_example :
    (outcome : Option CachedBlob) × (open_blob no_store sample_cache good_disk one_blob
        (text "sha256:ab")
        middle
      ≡ ok outcome)
    × (is_none outcome ≡ (is_empty five_bytes || misses five_bytes middle))
    × ((blob : CachedBlob) → outcome ≡ some blob → IsOpenedFrom five_bytes middle blob)
unfolding find_file blob_path
open_blob-IsOpenedFrom_example =
    open_blob-IsOpenedFrom no_store sample_cache good_disk one_blob (text "sha256:ab") middle
      five_bytes 1 refl refl refl

write_blob-read_blob_example :
    read_blob no_store sample_cache good_disk
      (write_blob no_store sample_cache good_disk 7 one_blob (text "sha256:cd") five_bytes).0
      (text "sha256:cd")
    ≡ ok five_bytes
unfolding write_blob
write_blob-read_blob_example =
    write_blob-read_blob no_store sample_cache good_disk 7 one_blob (text "sha256:cd") five_bytes
      refl refl refl

-- Two blobs of five bytes, and room for twelve.
abbrev small_cache : CacheStorage
small_cache = record sample_cache { max_size_bytes = 12 }

abbrev two_blobs : Files
two_blobs =
    (text "/c/blobs/sha256/ab", record { bytes = five_bytes; modified = 2 })
    ∷ (text "/c/blobs/sha256/cd", record { bytes = five_bytes; modified = 1 })
    ∷ []

evict_if_needed-room_example :
    total (read_dir (evict_if_needed small_cache good_disk two_blobs 4) (text "/c/blobs/sha256"))
      + 4
    ≤ 12
unfolding read_dir
evict_if_needed-room_example =
    evict_if_needed-room small_cache good_disk two_blobs 4 (λ p. refl) ((refl, tt), (tt, tt))
      (omega arith) (omega arith)

oldest_example :
    evict_if_needed small_cache good_disk two_blobs 4
    ≡ (text "/c/blobs/sha256/ab", record { bytes = five_bytes; modified = 2 }) ∷ []
unfolding evict_if_needed
oldest_example = refl

no_store-IsStore : IsStore no_store
no_store-IsStore = record { get-put = λ s s' key content h. absurd (cc) }

abbrev two_reads : Reader
two_reads = record {
  reads = (1 ∷ 2 ∷ []) ∷ (3 ∷ []) ∷ [];
  read_fails = false;
  write_fails = λ i. false;
}

write_blob_stream-read_blob_example :
    (read_blob no_store sample_cache good_disk
        (write_blob_stream no_store sample_cache good_disk 7 42 one_blob
          (text "sha256:cd")
          two_reads).0
        (text "sha256:cd")
      ≡ ok (1 ∷ 2 ∷ 3 ∷ []))
    × (3 ≡ 3 % u64_limit)
unfolding write_blob_stream
write_blob_stream-read_blob_example =
    write_blob_stream-read_blob no_store sample_cache good_disk 7 42 one_blob (text "sha256:cd")
      two_reads 3 refl refl refl
