-- ===== src/Registry/Transfer/Verified.antt =====
-- What the task of a download may leave in the cache.
use pulld.Base.{
  ℕ, ◌%◌, ◌≡◌, refl, ◌⊎◌, inl, inr, sym, ap, ◌∙◌, true, false, ◌&&◌, not, is_none, Option, some,
  ◌++◌, arith, length, Bool-cases, Option-cases, ok, err, DockerProxyError,
}
use pulld.Text.{Text, text, text_eq}
use pulld.Text.Laws.{text_eq_iff}
use pulld.Text.Numbers.{u64_limit}
use pulld.Cache.{CacheStorage, filesystem, with_extension}
use pulld.Cache.Disk.{Bytes, File, Disk, find_file, rename_file, ObjectStore, Cached}
use pulld.Cache.Keys.{blob_path}
use pulld.Cache.Blobs.{commit_blob_from_temp, with_files, try_remove, Done, parent}
use pulld.Cache.Blobs.Writes.{rename_file-found}
use pulld.Registry.Transfer.{
  Transfer, Streamed, Ended, completed, disconnected, broke_off, stream_on, Resumed, position_of,
  hashed_of, opened_content, begin, keep_file, is_verified, finalize, end_task, run_task,
  commit_or_remove,
}
use pulld.Registry.Transfer.Written.{
  stream_on-IsStreamed, AreSame, try_remove-AreSame, stream_on-caching, keep_file-AreSame,
  keep_file-found,
}

module _ (S : ObjectStore) (sha256_hex : Bytes → Text) where
  -- On disk, a commit moves the temporary file to the blob's path, or changes nothing.
  commit-cases :
      (c : CacheStorage) (d : Disk) (s : Cached S) (digest temp : Text) (f : File)
      → c.backend ≡ filesystem
      → find_file s.files temp ≡ some f
      → let (s', r) = commit_blob_from_temp S c d s digest temp in
        ((r ≡ ok tt) × (find_file s'.files (blob_path c digest) ≡ some f))
        ⊎ ((r ≡ err DockerProxyError.cache) × (s' ≡ s))
  unfolding commit_blob_from_temp
  commit-cases c d s digest temp f b h =
      let path = blob_path c digest in
      elim (Bool-cases (d.create_dir_fails (parent path))) [
        | inl e ↦ inr (simp (commit_blob_from_temp, b, e), simp (commit_blob_from_temp, b, e))
        | inr e ↦ elim (Option-cases (rename_file d s.files temp path)) [
          | inl r ↦
              inr (simp (commit_blob_from_temp, b, e, r), simp (commit_blob_from_temp, b, e, r))
          | inr (files, r) ↦ inl (
            simp (commit_blob_from_temp, b, e, r),
            simp (commit_blob_from_temp, b, e, r)
                (rename_file-found d s.files files temp path f h r),
          )
        ]
      ]

  commit_or_remove-ok :
      (d : Disk) (temp : Text) (r : Done S Unit)
      → r.1 ≡ ok tt
      → commit_or_remove S sha256_hex d temp r ≡ r.0
  commit_or_remove-ok d temp (s, ok u) h = refl
  commit_or_remove-ok d temp (s, err e) h = cc

  commit_or_remove-err :
      (d : Disk) (temp : Text) (r : Done S Unit)
      → r.1 ≡ err DockerProxyError.cache
      → commit_or_remove S sha256_hex d temp r ≡ try_remove S d temp r.0
  commit_or_remove-err d temp (s, ok u) h = cc
  commit_or_remove-err d temp (s, err e) h = refl

  finalize-cases :
      (c : CacheStorage) (d : Disk) (s : Streamed) (cached : Cached S) (digest temp : Text)
      (size : Option ℕ) (f : File)
      → c.backend ≡ filesystem
      → text_eq temp (blob_path c digest) ≡ false
      → (s.caching ≡ true → find_file cached.files temp ≡ some f)
      → let now = finalize S sha256_hex c d digest temp size s cached in
        AreSame cached.files now.files (blob_path c digest)
        ⊎ ((s.caching ≡ true)
            × (is_verified sha256_hex digest size s ≡ true)
            × (find_file now.files (blob_path c digest) ≡ some f))
  unfolding finalize
  finalize-cases c d s cached digest temp size f b apart there =
      let path = blob_path c digest in
      elim (Bool-cases s.caching) [
        | inr e ↦ inl (rw (finalize, e) refl)
        | inl e ↦
            elim (Bool-cases (not (d.sync_fails temp) && is_verified sha256_hex digest size s)) [
              | inr v ↦ inl (rw (finalize, e, v) (try_remove-AreSame S d temp path cached apart))
              | inl v ↦ elim (commit-cases c d cached digest temp f b (there e)) [
                | inl (r, found) ↦ inr (
                  e,
                  ground arith,
                  rw (finalize, e, v)
                      (rw
                        (commit_or_remove-ok d temp (commit_blob_from_temp S c d cached digest temp)
                          r)
                        found),
                )
                | inr (r, same) ↦ inl (
                    rw (finalize, e, v)
                      (rw
                        (
                          commit_or_remove-err d temp
                              (commit_blob_from_temp S c d cached digest temp) r,
                          same,
                        )
                        (try_remove-AreSame S d temp path cached apart)))
              ]
            ]
      ]

pub is_verified-hash :
    (sha256_hex : Bytes → Text) (digest : Text) (size : Option ℕ) (s : Streamed)
    → is_verified sha256_hex digest size s ≡ true
    → (text "sha256:" ++ sha256_hex s.hashed ≡ digest)
      × ((n : ℕ) → size ≡ some n → s.total_bytes ≡ n)
unfolding is_verified
is_verified-hash sha256_hex digest size s h = (
  (text_eq_iff (text "sha256:" ++ sha256_hex s.hashed) digest).0 (ground arith),
  λ n e. ground arith,
)

module _ (S : ObjectStore) (sha256_hex : Bytes → Text) where
  pub end_task-cases :
      (c : CacheStorage) (d : Disk) (ended : Ended) (s : Streamed) (cached : Cached S)
      (digest temp : Text) (size : Option ℕ) (f : File)
      → c.backend ≡ filesystem
      → text_eq temp (blob_path c digest) ≡ false
      → (s.caching ≡ true → find_file cached.files temp ≡ some f)
      → let now = end_task S sha256_hex c d digest temp size ended s cached in
        AreSame cached.files now.files (blob_path c digest)
        ⊎ ((s.caching ≡ true)
            × (is_verified sha256_hex digest size s ≡ true)
            × (find_file now.files (blob_path c digest) ≡ some f))
  end_task-cases c d completed s cached digest temp size f =
      finalize-cases S sha256_hex c d s cached digest temp size f
  end_task-cases c d disconnected s cached digest temp size f =
      finalize-cases S sha256_hex c d s cached digest temp size f
  end_task-cases c d broke_off s cached digest temp size f = λ b apart there. inl refl

-- The task of a download changes the blob of its digest on disk only into a file whose hash gives
-- the digest and whose size is the announced one, if one was announced. It needs that the temporary
-- file has a path of its own, and that a resumed download has hashed the content that it appends to.
pub run_task-verified :
    (S : ObjectStore) (sha256_hex : Bytes → Text) (c : CacheStorage) (d : Disk) (now : ℕ)
    (cached : Cached S) (digest : Text) (resumed : Option Resumed) (size : Option ℕ) (t : Transfer)
    → let temp = with_extension (blob_path c digest) (text "tmp") in
      let (ended, s, after) = run_task S sha256_hex c d now cached digest resumed size t in
      c.backend ≡ filesystem
      → text_eq temp (blob_path c digest) ≡ false
      → hashed_of resumed ≡ opened_content cached.files temp resumed
      → position_of resumed ≡ length (hashed_of resumed) % u64_limit
      → (find_file after.files (blob_path c digest) ≡ find_file cached.files (blob_path c digest))
        ⊎ ((f : File) × (find_file after.files (blob_path c digest) ≡ some f)
            × (text "sha256:" ++ sha256_hex f.bytes ≡ digest)
            × ((n : ℕ) → size ≡ some n → length f.bytes % u64_limit ≡ n))
unfolding run_task begin
run_task-verified S sha256_hex c d now cached digest resumed size t b apart whole position =
    let path = blob_path c digest in
    let temp = with_extension path (text "tmp") in
    let opens = is_none (d.write_fails temp) in
    let s0 = begin cached.files temp resumed opens in
    let (ended, s) = stream_on t 0 t.chunks s0 in
    let (total, same) = stream_on-IsStreamed t 0 t.chunks s0 (position, λ h. sym whole) in
    let kept = keep_file-AreSame now temp path opens s cached.files apart in
    let there = λ (h : s.caching ≡ true).
      keep_file-found now temp opens s cached.files (stream_on-caching t 0 t.chunks s0 h) in
    let f : File = record { bytes = s.written; modified = now } in
    elim (end_task-cases S sha256_hex c d ended s
      (with_files S (keep_file now temp opens s cached.files) cached) digest temp size f b apart
      there) [
        | inl e ↦ inl (e ∙ kept)
        | inr (caching, verified, found) ↦
            let (hash, sized) = is_verified-hash sha256_hex digest size s verified in
            inr (
              f,
              found,
              ap (λ bs. text "sha256:" ++ sha256_hex bs) (same caching) ∙ hash,
              λ n e. ap (λ bs. length bs % u64_limit) (same caching) ∙ sym total ∙ sized n e,
            )
      ]
