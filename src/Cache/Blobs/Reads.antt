-- ===== src/Cache/Blobs/Reads.antt =====
-- What `open_blob` opens on disk.
use pulld.Base.{
  ℕ, suc, ◌+◌, ◌-◌, ◌≤◌, ◌<◌, ◌≡◌, refl, Bool, false, Option, none, some, [], ◌∷◌, arith, length,
  take, drop, unwrap_or, Option-cases, inl, inr, length-take, ok, leb, ltb, ◌==◌, sym, ap, ◌∙◌,
  subst, is_none, is_empty, ◌||◌, ◌>>=◌,
}
use pulld.Text.{Text}
use pulld.Cache.{CacheStorage, filesystem}
use pulld.Cache.Disk.{Bytes, Disk, find_file, read_file, ObjectStore, Cached}
use pulld.Cache.Keys.{blob_path}
use pulld.Cache.Blobs.Ranges.{slice, range_of-within, length-slice, IsEnd, range_of-IsEnd}
use pulld.Cache.Blobs.{BlobByteRange, CachedBlob, range_of, blob_size, open_blob, open_body, opened}

-- The positions that a blob has are those that were asked for.
abbrev pub IsAsked : Bytes → Option BlobByteRange → CachedBlob → Type 0
IsAsked content none blob = (blob.range_start ≡ none) × (blob.range_end ≡ none)
IsAsked content (some r) blob =
    (last : ℕ) × (blob.range_start ≡ some r.start)
    × (blob.range_end ≡ some last)
    × IsEnd (length content) r.end last

-- What is said of an opened blob of a content.
abbrev pub IsOpenedFrom : Bytes → Option BlobByteRange → CachedBlob → Type 0
IsOpenedFrom content range blob =
    let first = unwrap_or blob.range_start 0 in
    let last = unwrap_or blob.range_end (blob.size - 1) in
    (blob.size ≡ length content)
    × (first ≤ last)
    × (last < length content)
    × (blob.body ≡ slice first last content)
    × (length blob.body ≡ last + 1 - first)
    × IsAsked content range blob

-- The outcome of `open_blob` on a file of a content.
abbrev pub whole_blob : Bytes → CachedBlob
whole_blob content = record {
  size = length content;
  range_start = none;
  range_end = none;
  body = take (length content - 0) (drop 0 content);
}

abbrev pub part_blob : Bytes → ℕ → ℕ → CachedBlob
part_blob content first last = record {
  size = length content;
  range_start = some first;
  range_end = some last;
  body = slice first last content;
}

abbrev pub open_content : Bytes → Option BlobByteRange → Option CachedBlob
open_content [] range = none
open_content (b ∷ content) none = some (whole_blob (b ∷ content))
open_content (b ∷ content) (some r) = elim (range_of (length (b ∷ content)) r) [
  | none ↦ none
  | some (first, last) ↦ some (part_blob (b ∷ content) first last)
]

length-cons_nonzero : (x : ℕ) (content : Bytes) → (length (x ∷ content) == 0) ≡ false
length-cons_nonzero x content = ground arith

module _ (S : ObjectStore) where
  pub open_blob-open_content :
      (c : CacheStorage) (d : Disk) (s : Cached S) (digest : Text) (range : Option BlobByteRange)
      (content : Bytes) (modified : ℕ)
      → c.backend ≡ filesystem
      → find_file s.files (blob_path c digest)
        ≡ some (record { bytes = content; modified = modified })
      → d.read_fails (blob_path c digest) ≡ false
      → open_blob S c d s digest range ≡ ok (open_content content range)
  unfolding open_blob blob_size read_file
  open_blob-open_content c d s digest range [] modified b f h =
      simp (open_blob, blob_size, ◌>>=◌, b, f)
  open_blob-open_content c d s digest none (x ∷ content) modified b f h = simp (
    open_blob,
    blob_size,
    read_file,
    open_body,
    opened,
    ◌>>=◌,
    b,
    f,
    h,
    length-cons_nonzero x content,
  )
  open_blob-open_content c d s digest (some r) (x ∷ content) modified b f h =
      elim (Option-cases (range_of (suc (length content)) r)) [
        | inl e ↦ simp (
          open_content,
          open_blob,
          blob_size,
          read_file,
          open_body,
          opened,
          ◌>>=◌,
          b,
          f,
          e,
          length-cons_nonzero x content,
        )
        | inr ((first, last), e) ↦ simp (
          open_content,
          open_blob,
          blob_size,
          read_file,
          open_body,
          opened,
          ◌>>=◌,
          b,
          f,
          e,
          h,
          length-cons_nonzero x content,
        )
      ]

IsOpened-whole :
    (b : ℕ) (content : Bytes) → IsOpenedFrom (b ∷ content) none (whole_blob (b ∷ content))
IsOpened-whole b content = (
  refl,
  omega arith,
  omega arith,
  ap (λ n. take n (b ∷ content)) {x = suc (length content) - 0}
      {y = suc (length content) - 1 + 1 - 0} (omega arith),
  omega (arith, length-take {0} (suc (length content) - 0) (b ∷ content)),
  (refl, refl),
)

IsOpened-part :
    (r : BlobByteRange) (content : Bytes) (first last : ℕ)
    → (first ≤ last) × (last < length content)
    → (first ≡ r.start) × IsEnd (length content) r.end last
    → IsOpenedFrom content (some r) (part_blob content first last)
IsOpened-part r content first last (h, f) (starts, ends) =
    (refl, h, f, refl, length-slice first last content h f, (last, ap some starts, refl, ends))

pub open_content-range :
    (b : ℕ) (content : Bytes) (r : BlobByteRange) (p : ℕ × ℕ)
    → range_of (length (b ∷ content)) r ≡ some p
    → open_content (b ∷ content) (some r) ≡ some (part_blob (b ∷ content) p.0 p.1)
open_content-range b content r p e = rw (open_content, e) refl

open_content-IsOpenedFrom :
    (content : Bytes) (range : Option BlobByteRange) (blob : CachedBlob)
    → open_content content range ≡ some blob
    → IsOpenedFrom content range blob
open_content-IsOpenedFrom [] range blob h = cc
open_content-IsOpenedFrom (b ∷ content) none blob h =
    subst (IsOpenedFrom (b ∷ content) none) (ap (λ o. unwrap_or o blob) h)
      (IsOpened-whole b content)
open_content-IsOpenedFrom (b ∷ content) (some r) blob h =
    elim (Option-cases (range_of (length (b ∷ content)) r)) [
      | inl e ↦ absurd (cc)
      | inr ((first, last), e) ↦ subst (IsOpenedFrom (b ∷ content) (some r)) (part first last e) (
          IsOpened-part r (b ∷ content) first last
            (range_of-within (length (b ∷ content)) r (first, last) e)
            (range_of-IsEnd (length (b ∷ content)) r (first, last) e))
    ]
  where
    part :
        (first last : ℕ)
        → range_of (length (b ∷ content)) r ≡ some (first, last)
        → part_blob (b ∷ content) first last ≡ blob
    part first last e =
        ap (λ o. unwrap_or o blob) (sym (open_content-range b content r (first, last) e) ∙ h)

-- A range that has no byte of a content.
abbrev pub misses : Bytes → Option BlobByteRange → Bool
misses content none = false
misses content (some r) =
    leb (length content) r.start || ltb (unwrap_or r.end (length content)) r.start

pub open_content-none :
    (content : Bytes) (range : Option BlobByteRange)
    → is_none (open_content content range) ≡ (is_empty content || misses content range)
unfolding range_of
open_content-none [] range = refl
open_content-none (b ∷ content) none = refl
open_content-none (b ∷ content) (some r) = ground arith

-- On a file that can be read, `open_blob` gives no blob exactly where the file is empty or the range has
-- no byte of it. A blob that it gives has the file's size, its body is the part of the file from its
-- first to its last position, which lie in the file, and the body is as long as they say. With a range
-- the first position is where it begins, and the last is its end, or the file's last where the range
-- has no end or one behind the file; without a range the blob has no positions, and is the whole file.
pub open_blob-IsOpenedFrom :
    (S : ObjectStore) (c : CacheStorage) (d : Disk) (s : Cached S) (digest : Text)
    (range : Option BlobByteRange) (content : Bytes) (modified : ℕ)
    → c.backend ≡ filesystem
    → find_file s.files (blob_path c digest)
      ≡ some (record { bytes = content; modified = modified })
    → d.read_fails (blob_path c digest) ≡ false
    → (outcome : Option CachedBlob) × (open_blob S c d s digest range ≡ ok outcome)
      × (is_none outcome ≡ (is_empty content || misses content range))
      × ((blob : CachedBlob) → outcome ≡ some blob → IsOpenedFrom content range blob)
open_blob-IsOpenedFrom S c d s digest range content modified b f h = (
  open_content content range,
  open_blob-open_content S c d s digest range content modified b f h,
  open_content-none content range,
  open_content-IsOpenedFrom content range,
)
