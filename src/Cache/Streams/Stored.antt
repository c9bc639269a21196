-- ===== src/Cache/Streams/Stored.antt =====
-- What is stored of a stream that is written to disk.
use pulld.Base.{
  append_assoc, append_nil, ℕ, suc, ◌+◌, ◌%◌, ◌<◌, ◌≡◌, refl, sym, ap, ◌∙◌, Bool, true, false, ◌&&◌,
  ◌||◌, not, none, some, List, [], ◌∷◌, ◌++◌, arith, length, length-append, ltb, is_some,
  Bool-cases, Option-cases, inl, inr, ◌⊎◌, if◌then◌else◌, Result, ok, err,
}
use pulld.Text.{Text, text}
use pulld.Text.Laws.{text_eq_refl}
use pulld.Text.Numbers.{u64_limit}
use pulld.Cache.{CacheStorage, filesystem, with_extension}
use pulld.Cache.Disk.{
  Bytes, File, Files, Disk, find_file, rename_file, read_file, ObjectStore, Cached,
}
use pulld.Cache.Keys.{blob_path}
use pulld.Cache.Evict.{evict_if_needed}
use pulld.Cache.Blobs.{Done, parent, read_blob}
use pulld.Cache.Blobs.Writes.{find_file-put_file, find_file-evict_if_needed, rename_file-found}
use pulld.Cache.Streams.{Reader, copy_on, created, settle, counted, begin_file, write_blob_stream}
use pulld.Registry.Http.{concat}

-- The reads before the first that gives nothing.
abbrev pub given : List Bytes → List Bytes
given [] = []
given ([] ∷ reads) = []
given ((x ∷ xs) ∷ reads) = (x ∷ xs) ∷ given reads

-- A copy that goes well has written all that was read, and counted it.
copy_on-all :
    (r : Reader) (i : ℕ) (reads : List Bytes) (content : Bytes) (written : ℕ)
    → written < u64_limit
    → (copy_on r i reads content written).2 ≡ true
    → ((copy_on r i reads content written).0 ≡ content ++ concat (given reads))
      × ((copy_on r i reads content written).1
          ≡ (written + length (concat (given reads))) % u64_limit)
unfolding copy_on
copy_on-all r i [] content written fits h = (sym (append_nil content), omega arith)
copy_on-all r i ([] ∷ reads) content written fits h = (sym (append_nil content), omega arith)
copy_on-all r i ((x ∷ xs) ∷ reads) content written fits h = elim (Bool-cases (r.write_fails i)) [
  | inl e ↦ absurd (ground arith)
  | inr e ↦
      let b = x ∷ xs in
      let (all, count) =
        copy_on-all r (suc i) reads (content ++ b) ((written + length b) % u64_limit) (omega arith)
          (kept i e h) in
      rw e (
        all ∙ append_assoc content b (concat (given reads)),
        count
            ∙ wrapped written (length b) (length (concat (given reads)))
                (length (b ++ concat (given reads))) (length-append b (concat (given reads))),
      )
]
  where
    kept :
        (i : ℕ)
        → r.write_fails i ≡ false
        → (copy_on r i ((x ∷ xs) ∷ reads) content written).2 ≡ true
        → (copy_on r
            (suc i)
            reads
            (content ++ (x ∷ xs))
            ((written + length (x ∷ xs)) % u64_limit)).2
          ≡ true
    kept i e h = ground arith

    wrapped :
        (w a c n : ℕ) → n ≡ a + c → ((w + a) % u64_limit + c) % u64_limit ≡ (w + n) % u64_limit
    wrapped w a c n e = omega arith

-- A file that was renamed was there, and eviction changes no file that it keeps.
renamed_kept :
    (d : Disk) (before files files' : Files) (temp path : Text) (f : File)
    → find_file before temp ≡ some f
    → (find_file files temp ≡ find_file before temp) ⊎ (find_file files temp ≡ none)
    → rename_file d files temp path ≡ some files'
    → find_file files' path ≡ some f
unfolding rename_file
renamed_kept d before files files' temp path f there (inl same) e =
    rename_file-found d files files' temp path f (same ∙ there) e
renamed_kept d before files files' temp path f there (inr gone) e = absurd (ground arith)

evicted :
    (c : CacheStorage) (d : Disk) (s : Files) (written : ℕ) (q : Text) (b : Bool)
    → let files = (if b then evict_if_needed c d s written else s) in
      (find_file files q ≡ find_file s q) ⊎ (find_file files q ≡ none)
evicted c d s written q true = find_file-evict_if_needed c d s written q
evicted c d s written q false = inl refl

module _ (S : ObjectStore) where
  settle-found :
      (c : CacheStorage) (d : Disk) (temp path : Text) (s : Cached S) (written : ℕ) (done : Bool)
      (f : File)
      → find_file s.files temp ≡ some f
      → (settle S c d temp path (s, written, done)).1 ≡ ok tt
      → (done ≡ true)
        × (find_file ((settle S c d temp path (s, written, done)).0).files path ≡ some f)
  settle-found c d temp path s written false f there h = absurd (cc)
  settle-found c d temp path s written true f there h =
      let files = (if ltb 0 written then evict_if_needed c d s.files written else s.files) in
      elim (Option-cases (rename_file d files temp path)) [
        | inl e ↦ absurd (ground arith)
        | inr (files', e) ↦ (
          refl,
          rw (settle, e)
              (renamed_kept d s.files files files' temp path f there
                (evicted c d s.files written temp (ltb 0 written)) e),
        )
      ]

  counted-ok :
      (written n : ℕ) (r : Done S Unit)
      → (counted S written r).1 ≡ ok n
      → (r.1 ≡ ok tt) × (written ≡ n) × ((counted S written r).0 ≡ r.0)
  counted-ok written n (s, ok u) h = (refl, ap (λ x. size_of x) h, refl)
    where
      size_of : Result {0} ℕ → ℕ
      size_of (ok m) = m
      size_of (err e) = 0
  counted-ok written n (s, err e) h = absurd (cc)

  abbrev on_disk : CacheStorage → Disk → ℕ → Cached S → Text → Reader → Cached S × Result {0} ℕ
  on_disk c d now s digest r =
      let path = blob_path c digest in
      let temp_path = with_extension path (text "tmp") in
      let started = created S d now r temp_path s in
      begin_file S d path temp_path s (counted S started.1 (settle S c d temp_path path started))

  begin_file-ok :
      (d : Disk) (path temp : Text) (s : Cached S) (rest : Cached S × Result {0} ℕ) (n : ℕ)
      → (begin_file S d path temp s rest).1 ≡ ok n
      → begin_file S d path temp s rest ≡ rest
  begin_file-ok d path temp s rest n h =
      elim (Bool-cases (d.create_dir_fails (parent path) || is_some (d.write_fails temp))) [
        | inl e ↦ absurd (ground arith)
        | inr e ↦ rw (begin_file, e) refl
      ]

  on_disk-found :
      (c : CacheStorage) (d : Disk) (now : ℕ) (s : Cached S) (digest : Text) (r : Reader) (n : ℕ)
      → (on_disk c d now s digest r).1 ≡ ok n
      → (find_file ((on_disk c d now s digest r).0).files (blob_path c digest)
          ≡ some (record { bytes = concat (given r.reads); modified = now }))
        × (n ≡ length (concat (given r.reads)) % u64_limit)
  on_disk-found c d now s digest r n h =
      let path = blob_path c digest in
      let temp = with_extension path (text "tmp") in
      let (s1, written, done) = created S d now r temp s in
      let body = counted S written (settle S c d temp path (s1, written, done)) in
      let same = begin_file-ok d path temp s body n h in
      let (settled, size, state) =
        counted-ok written n (settle S c d temp path (s1, written, done))
          (ap (λ (z : Cached S × Result {0} ℕ). z.1) (sym same) ∙ h) in
      let f : File = record { bytes = (copy_on r 0 r.reads [] 0).0; modified = now } in
      let (went, found) =
        settle-found c d temp path s1 written done f
          (find_file-put_file s.files temp temp f ∙ rw (text_eq_refl temp) refl) settled in
      let (all, count) =
        copy_on-all r 0 r.reads [] 0 (omega arith)
          (copied (copy_on r 0 r.reads [] 0).2 (d.sync_fails temp) went) in
      (
        ap (λ (z : Cached S × Result {0} ℕ). find_file z.0.files path) same
            ∙ ap (λ (z : Cached S). find_file z.files path) state
            ∙ found
            ∙ ap (λ bs. some (record { bytes = bs; modified = now })) all,
        sym size
            ∙ count
            ∙ ap (λ k. k % u64_limit) {x = 0 + length (concat (given r.reads))}
                {y = length (concat (given r.reads))} (omega arith),
      )
    where
      copied : (a b : Bool) → (a && not b) ≡ true → a ≡ true
      copied a b h = ground arith

  -- A stream that `write_blob_stream` has written to disk without an error is read back as all that
  -- its reads gave before one gave nothing, if it can be read, and the size that is given is theirs.
  pub write_blob_stream-read_blob :
      (c : CacheStorage) (d : Disk) (now process : ℕ) (s : Cached S) (digest : Text) (r : Reader)
      (n : ℕ)
      → c.backend ≡ filesystem
      → d.read_fails (blob_path c digest) ≡ false
      → (write_blob_stream S c d now process s digest r).1 ≡ ok n
      → (read_blob S c d (write_blob_stream S c d now process s digest r).0 digest
          ≡ ok (concat (given r.reads)))
        × (n ≡ length (concat (given r.reads)) % u64_limit)
  unfolding write_blob_stream read_blob read_file
  write_blob_stream-read_blob c d now process s digest r n b readable =
      simp (write_blob_stream, read_blob, b)
        (λ h.
          let (found, size) = on_disk-found c d now s digest r n h in
          (simp (read_file, found, readable), size))
