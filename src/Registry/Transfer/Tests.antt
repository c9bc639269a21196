-- ===== src/Registry/Transfer/Tests.antt =====
-- Examples of downloads, with a hash that gives a text of the length of its argument.
use pulld.Base.{ℕ, ◌%◌, ◌≡◌, refl, ◌⊎◌, false, none, some, [], ◌∷◌, ◌++◌, arith, length}
use pulld.Text.{Text, text}
use pulld.Text.Numbers.{u64_limit}
use pulld.Cache.{with_extension}
use pulld.Cache.Disk.{Bytes, File, Cached, find_file}
use pulld.Cache.Keys.{blob_path}
use pulld.Cache.Sample.{sample_cache, good_disk, no_store, no_files}
use pulld.Registry.Transfer.{Transfer, Resumed, completed, run_task, opened_content}
use pulld.Registry.Transfer.Verified.{run_task-verified}
use pulld.Registry.Transfer.Delivery.{run_task-resumed, run_task-cached}

abbrev length_hash : Bytes → Text
length_hash [] = []
length_hash (b ∷ bs) = b'f' ∷ length_hash bs

abbrev two_chunks : Transfer
two_chunks = record {
  chunks = (1 ∷ 2 ∷ []) ∷ (3 ∷ []) ∷ [];
  broken = false;
  write_fails = λ i. false;
  client_gone = λ i. false;
}

abbrev partial_file : Cached no_store
partial_file = record {
  files = (text "/c/blobs/sha256/fffff.tmp", record { bytes = 8 ∷ 9 ∷ []; modified = 1 }) ∷ [];
  objects = tt;
}

abbrev from_two : Resumed
from_two = record { position = 2; existing = some (8 ∷ 9 ∷ []) }

run_task-verified_example :
    let (ended, s, after) =
      run_task no_store length_hash sample_cache good_disk 7 partial_file
        (text "sha256:fffff")
        (some from_two)
        none
        two_chunks in
    (find_file after.files (text "/c/blobs/sha256/fffff")
      ≡ find_file partial_file.files (text "/c/blobs/sha256/fffff"))
    ⊎ ((f : File) × (find_file after.files (text "/c/blobs/sha256/fffff") ≡ some f)
        × (text "sha256:" ++ length_hash f.bytes ≡ text "sha256:fffff")
        × ((n : ℕ) → none ≡ some n → length f.bytes % u64_limit ≡ n))
unfolding blob_path with_extension opened_content find_file
run_task-verified_example =
    run_task-verified no_store length_hash sample_cache good_disk 7 partial_file
      (text "sha256:fffff") (some from_two) none two_chunks refl refl refl refl

run_task-resumed_example :
    let (ended, s, after) =
      run_task no_store length_hash sample_cache good_disk 7 partial_file
        (text "sha256:fffff")
        (some from_two)
        (some 3)
        two_chunks in
    find_file after.files (text "/c/blobs/sha256/fffff") ≡ none
unfolding blob_path with_extension find_file
run_task-resumed_example =
    run_task-resumed no_store length_hash sample_cache good_disk 7 partial_file
      (text "sha256:fffff") from_two two_chunks refl refl (λ k. refl) (omega arith) (omega arith)

run_task-cached_example :
    let (ended, s, after) =
      run_task no_store length_hash sample_cache good_disk 7 no_files
        (text "sha256:fff")
        none
        (some 3)
        two_chunks in
    (ended ≡ completed)
    × (s.sent ≡ (1 ∷ 2 ∷ []) ∷ (3 ∷ []) ∷ [])
    × (find_file after.files (text "/c/blobs/sha256/fff")
        ≡ some (record { bytes = 1 ∷ 2 ∷ 3 ∷ []; modified = 7 }))
unfolding blob_path
run_task-cached_example =
    run_task-cached no_store length_hash sample_cache good_disk 7 no_files (text "sha256:fff")
      (some 3) two_chunks refl (refl, refl, refl, refl) (λ k. refl) (λ k. refl) refl (omega arith)
      refl refl
