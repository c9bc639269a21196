-- ===== src/Registry/Transfer/Delivery.antt =====
-- What the client of a download gets, and which downloads are cached.
use pulld.Base.{
  append_assoc, append_nil, ℕ, suc, ◌+◌, ◌%◌, ◌<◌, ◌≡◌, refl, sym, ap, ◌∙◌, true, false, is_none,
  Option, none, some, List, [], ◌∷◌, ◌++◌, arith, length, length-append, unwrap_or, inl, inr,
  ==_iff, if◌then◌else◌,
}
use pulld.Text.{Text, text, text_eq}
use pulld.Text.Numbers.{u64_limit}
use pulld.Cache.{CacheStorage, filesystem, with_extension}
use pulld.Cache.Disk.{Bytes, File, Disk, find_file, delete_file, rename_file, ObjectStore, Cached}
use pulld.Cache.Keys.{blob_path}
use pulld.Registry.Http.{concat}
use pulld.Cache.Blobs.{with_files, parent, commit_blob_from_temp}
use pulld.Cache.Blobs.Writes.{find_file-put_file}
use pulld.Text.Laws.{text_eq_refl, text_eq_iff}
use pulld.Registry.Transfer.{
  Transfer, Streamed, completed, broke_off, take_chunk, stream_on, Resumed, begin, keep_file,
  is_verified, finalize, run_task,
}
use pulld.Registry.Transfer.Written.{
  stream_on-IsStreamed, keep_file-AreSame, keep_file-found, stream_on-caching, mod_add,
}
use pulld.Registry.Transfer.Verified.{end_task-cases, is_verified-hash}

-- A stream to a client that stays: all is sent, hashed and counted.
pub stream_on-all :
    (t : Transfer) (i : ℕ) (chunks : List Bytes) (s : Streamed)
    → ((k : ℕ) → t.client_gone k ≡ false)
    → s.total_bytes < u64_limit
    → let (ended, s') = stream_on t i chunks s in
      (ended ≡ (if t.broken then broke_off else completed))
      × (s'.sent ≡ s.sent ++ chunks)
      × (s'.hashed ≡ s.hashed ++ concat chunks)
      × (s'.total_bytes ≡ (s.total_bytes + length (concat chunks)) % u64_limit)
unfolding stream_on take_chunk
stream_on-all t i [] s stays h =
    (refl, sym (append_nil s.sent), sym (append_nil s.hashed), omega arith)
stream_on-all t i (chunk ∷ chunks) s stays h =
    let (ended, sent, hashed, total) =
      stream_on-all t (suc i) chunks
        (record (take_chunk t.write_fails i chunk s) { sent = s.sent ++ (chunk ∷ []) }) stays
        (omega arith) in
    rw (stays i) (
      ended,
      sent ∙ append_assoc s.sent (chunk ∷ []) chunks,
      hashed ∙ append_assoc s.hashed chunk (concat chunks),
      total
          ∙ mod_add (s.total_bytes + length chunk) (length (concat chunks))
          ∙ ap (λ n. n % u64_limit) {x = s.total_bytes + length chunk + length (concat chunks)}
              {y = s.total_bytes + length (chunk ++ concat chunks)}
              (omega (arith, length-append chunk (concat chunks))),
    )

-- On disk, where the temporary file has a path of its own, a download that is resumed behind the
-- beginning, and whose response announces the length of what it sends, leaves the blob as it was when
-- all comes and the client stays: the size that is counted, if it is below 2^64, is never the one that
-- was announced.
pub run_task-resumed :
    (S : ObjectStore) (sha256_hex : Bytes → Text) (c : CacheStorage) (d : Disk) (now : ℕ)
    (cached : Cached S) (digest : Text) (resumed : Resumed) (t : Transfer)
    → c.backend ≡ filesystem
    → text_eq (with_extension (blob_path c digest) (text "tmp")) (blob_path c digest) ≡ false
    → ((k : ℕ) → t.client_gone k ≡ false)
    → 0 < resumed.position
    → resumed.position + length (concat t.chunks) < u64_limit
    → let (ended, s, after) =
        run_task S sha256_hex c d now cached digest
          (some resumed)
          (some (length (concat t.chunks)))
          t in
      find_file after.files (blob_path c digest) ≡ find_file cached.files (blob_path c digest)
unfolding run_task begin
run_task-resumed S sha256_hex c d now cached digest resumed t b apart stays behind fits =
    let path = blob_path c digest in
    let temp = with_extension path (text "tmp") in
    let opens = is_none (d.write_fails temp) in
    let s0 = begin cached.files temp (some resumed) opens in
    let (ended, s) = stream_on t 0 t.chunks s0 in
    let (_, _, _, total) = stream_on-all t 0 t.chunks s0 stays (omega arith) in
    let kept = keep_file-AreSame now temp path opens s cached.files apart in
    let there = λ (h : s.caching ≡ true).
      keep_file-found now temp opens s cached.files (stream_on-caching t 0 t.chunks s0 h) in
    elim (end_task-cases S sha256_hex c d ended s
      (with_files S (keep_file now temp opens s cached.files) cached) digest temp
      (some (length (concat t.chunks))) (record { bytes = s.written; modified = now }) b apart
      there) [
        | inl e ↦ e ∙ kept
        | inr (caching, verified, found) ↦
            let (_, sized) =
              is_verified-hash sha256_hex digest (some (length (concat t.chunks))) s verified in
            let counted : s.total_bytes ≡ length (concat t.chunks) =
              sized (length (concat t.chunks)) refl in
            absurd (omega arith)
      ]

stream_on-writes :
    (t : Transfer) (i : ℕ) (chunks : List Bytes) (s : Streamed)
    → ((k : ℕ) → t.client_gone k ≡ false)
    → ((k : ℕ) → t.write_fails k ≡ false)
    → s.caching ≡ true
    → (stream_on t i chunks s).1.caching ≡ true
unfolding stream_on take_chunk
stream_on-writes t i [] s stays writes h = h
stream_on-writes t i (chunk ∷ chunks) s stays writes h = rw (stays i) (
    stream_on-writes t (suc i) chunks
      (record (take_chunk t.write_fails i chunk s) { sent = s.sent ++ (chunk ∷ []) }) stays writes
      (rw (writes i, h) refl))

-- A disk that refuses nothing that a commit of this blob asks for.
abbrev pub Serves : Disk → Text → Text → Type 0
Serves d temp path =
    (d.write_fails temp ≡ none)
    × (d.sync_fails temp ≡ false)
    × (d.create_dir_fails (parent path) ≡ false)
    × (d.rename_fails path ≡ false)

finalize-commits :
    (S : ObjectStore) (sha256_hex : Bytes → Text) (c : CacheStorage) (d : Disk) (digest temp : Text)
    (size : Option ℕ) (s : Streamed) (cached : Cached S) (f : File)
    → c.backend ≡ filesystem
    → Serves d temp (blob_path c digest)
    → s.caching ≡ true
    → is_verified sha256_hex digest size s ≡ true
    → find_file cached.files temp ≡ some f
    → find_file (finalize S sha256_hex c d digest temp size s cached).files (blob_path c digest)
      ≡ some f
unfolding finalize commit_blob_from_temp rename_file
finalize-commits S sha256_hex c d digest temp size s cached f b (w, y, m, r) k v there =
    simp (finalize, commit_blob_from_temp, rename_file, b, k, v, y, m, there, r)
      (find_file-put_file (delete_file cached.files temp) (blob_path c digest) (blob_path c digest)
          f
        ∙ rw (text_eq_refl (blob_path c digest)) refl)

is_verified-all :
    (sha256_hex : Bytes → Text) (digest content : Text) (size : Option ℕ) (s : Streamed)
    → s.hashed ≡ content
    → s.total_bytes ≡ length content
    → text "sha256:" ++ sha256_hex content ≡ digest
    → unwrap_or size (length content) ≡ length content
    → is_verified sha256_hex digest size s ≡ true
unfolding is_verified
is_verified-all sha256_hex digest content size s h total hash sized =
    let e =
      (text_eq_iff (text "sha256:" ++ sha256_hex s.hashed) digest).1
        (ap (λ bs. text "sha256:" ++ sha256_hex bs) h ∙ hash) in
    ground (arith, ==_iff s.total_bytes (unwrap_or size (length content)))

-- A download from the beginning that comes whole, to a client that stays and a disk that serves,
-- completes: the client is sent every chunk in its order, and the blob is on disk with their bytes,
-- if these hash to the digest and have the announced length or none is announced.
pub run_task-cached :
    (S : ObjectStore) (sha256_hex : Bytes → Text) (c : CacheStorage) (d : Disk) (now : ℕ)
    (cached : Cached S) (digest : Text) (size : Option ℕ) (t : Transfer)
    → c.backend ≡ filesystem
    → Serves d (with_extension (blob_path c digest) (text "tmp")) (blob_path c digest)
    → ((k : ℕ) → t.client_gone k ≡ false)
    → ((k : ℕ) → t.write_fails k ≡ false)
    → t.broken ≡ false
    → length (concat t.chunks) < u64_limit
    → text "sha256:" ++ sha256_hex (concat t.chunks) ≡ digest
    → unwrap_or size (length (concat t.chunks)) ≡ length (concat t.chunks)
    → let (ended, s, after) = run_task S sha256_hex c d now cached digest none size t in
      (ended ≡ completed)
      × (s.sent ≡ t.chunks)
      × (find_file after.files (blob_path c digest)
          ≡ some (record { bytes = concat t.chunks; modified = now }))
unfolding run_task begin
run_task-cached S sha256_hex c d now cached digest size t b serves stays writes whole fits hash
      sized =
    let path = blob_path c digest in
    let temp = with_extension path (text "tmp") in
    let opens = is_none (d.write_fails temp) in
    let s0 = begin cached.files temp none opens in
    let (ended, s) = stream_on t 0 t.chunks s0 in
    let (ends, sent, hashed, total) = stream_on-all t 0 t.chunks s0 stays (omega arith) in
    let opened : opens ≡ true = rw (serves.0) refl in
    let caching = stream_on-writes t 0 t.chunks s0 stays writes opened in
    let (_, same) = stream_on-IsStreamed t 0 t.chunks s0 (refl, λ h. refl) in
    let f : File = record { bytes = s.written; modified = now } in
    let verified =
      is_verified-all sha256_hex digest (concat t.chunks) size s hashed (omega arith) hash sized in
    let found =
      finalize-commits S sha256_hex c d digest temp size s
        (with_files S (keep_file now temp opens s cached.files) cached) f b serves caching verified
        (keep_file-found now temp opens s cached.files opened) in
    let done : ended ≡ completed = ends ∙ rw whole refl in
    (
      done,
      sent,
      rw done
          (found ∙ ap (λ bs. some (record { bytes = bs; modified = now })) (same caching ∙ hashed)),
    )
