-- ===== src/Registry/Transfer/Written.antt =====
-- What the task of a download hashes, counts and writes to its temporary file.
use pulld.Base.{
  ℕ, suc, ◌+◌, ◌%◌, ◌≡◌, refl, inl, inr, sym, ap, ◌∙◌, Bool, true, false, ◌&&◌, not, some, List, [],
  ◌∷◌, ◌++◌, arith, length, length-append, Bool-cases, if◌then◌else◌,
}
use pulld.Text.{Text, text_eq}
use pulld.Text.Laws.{text_eq_refl}
use pulld.Text.Numbers.{u64_limit}
use pulld.Cache.Disk.{
  Bytes, File, Files, Disk, find_file, put_file, remove_file, ObjectStore, Cached,
}
use pulld.Cache.Blobs.{try_remove}
use pulld.Cache.Blobs.Writes.{find_file-put_file, find_file-delete_file}
use pulld.Registry.Transfer.{Transfer, Streamed, take_chunk, stream_on, keep_file}

-- What is hashed is what is counted, and what is written as long as the file is written to.
abbrev pub IsStreamed : Streamed → Type 0
IsStreamed s =
    (s.total_bytes ≡ length s.hashed % u64_limit) × (s.caching ≡ true → s.written ≡ s.hashed)

pub mod_add : (a b : ℕ) → (a % u64_limit + b) % u64_limit ≡ (a + b) % u64_limit
mod_add a b = omega arith

take_chunk-IsStreamed :
    (fails : ℕ → Bool) (i : ℕ) (chunk : Bytes) (s : Streamed)
    → IsStreamed s
    → IsStreamed (take_chunk fails i chunk s)
unfolding take_chunk
take_chunk-IsStreamed fails i chunk s (total, same) = (
  ap (λ n. (n + length chunk) % u64_limit) total
      ∙ mod_add (length s.hashed) (length chunk)
      ∙ ap (λ n. n % u64_limit) (sym (length-append s.hashed chunk)),
  λ h. written h,
)
  where
    written :
        (s.caching && not (fails i)) ≡ true
        → (if s.caching && not (fails i) then s.written ++ chunk else s.written) ≡ s.hashed ++ chunk
    written h = rw (h, same (ground arith)) refl

pub stream_on-IsStreamed :
    (t : Transfer) (i : ℕ) (chunks : List Bytes) (s : Streamed)
    → IsStreamed s
    → IsStreamed (stream_on t i chunks s).1
unfolding stream_on
stream_on-IsStreamed t i [] s h = h
stream_on-IsStreamed t i (chunk ∷ chunks) s h =
    let taken = take_chunk-IsStreamed t.write_fails i chunk s h in
    elim (Bool-cases (t.client_gone i)) [
      | inl e ↦ rw e taken
      | inr e ↦ rw e (stream_on-IsStreamed t (suc i) chunks _ taken)
    ]

-- Of a file that is read before and after: it is the same, or none.
abbrev pub AreSame : Files → Files → Text → Type 0
AreSame before now path = find_file now path ≡ find_file before path

pub try_remove-AreSame :
    (S : ObjectStore) (d : Disk) (temp path : Text) (s : Cached S)
    → text_eq temp path ≡ false
    → AreSame s.files (try_remove S d temp s).files path
unfolding remove_file
try_remove-AreSame S d temp path s h = ground (arith, find_file-delete_file s.files temp path)

put_file-AreSame :
    (files : Files) (temp path : Text) (f : File)
    → text_eq temp path ≡ false
    → AreSame files (put_file files temp f) path
put_file-AreSame files temp path f h = find_file-put_file files temp path f ∙ rw h refl

pub stream_on-caching :
    (t : Transfer) (i : ℕ) (chunks : List Bytes) (s : Streamed)
    → (stream_on t i chunks s).1.caching ≡ true
    → s.caching ≡ true
unfolding stream_on take_chunk
stream_on-caching t i [] s h = h
stream_on-caching t i (chunk ∷ chunks) s h = elim (Bool-cases (t.client_gone i)) [
  | inl e ↦ ground arith
  | inr e ↦ ground (
    arith,
    stream_on-caching t (suc i) chunks
        (record (take_chunk t.write_fails i chunk s) { sent = s.sent ++ (chunk ∷ []) }),
  )
]

pub keep_file-AreSame :
    (now : ℕ) (temp path : Text) (opens : Bool) (s : Streamed) (files : Files)
    → text_eq temp path ≡ false
    → AreSame files (keep_file now temp opens s files) path
keep_file-AreSame now temp path true s files h = put_file-AreSame files temp path _ h
keep_file-AreSame now temp path false s files h = refl

pub keep_file-found :
    (now : ℕ) (temp : Text) (opens : Bool) (s : Streamed) (files : Files)
    → opens ≡ true
    → find_file (keep_file now temp opens s files) temp
      ≡ some (record { bytes = s.written; modified = now })
keep_file-found now temp opens s files h = rw h (
    find_file-put_file files temp temp (record { bytes = s.written; modified = now })
    ∙ rw (text_eq_refl temp) refl)
