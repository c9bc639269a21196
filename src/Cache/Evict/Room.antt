-- ===== src/Cache/Evict/Room.antt =====
-- That eviction makes room.
use pulld.Base.{
  ℕ, ◌+◌, ◌-◌, ◌%◌, ◌≤◌, ◌<◌, ◌≡◌, refl, sym, ap, ◌∙◌, true, false, some, [], ◌∷◌, arith, length,
  leb, leb_iff, ◌==◌, ==_iff, if◌then◌else◌, Bool-cases, inl, inr, ◌⊎◌,
}
use pulld.Text.{Text, text_eq}
use pulld.Text.Laws.{text_eq_sym, text_eq_iff, text_eq_refl}
use pulld.Text.Numbers.{u64_limit}
use pulld.Cache.{CacheStorage}
use pulld.Cache.Disk.{Disk, File, Files, find_file, delete_file, remove_file}
use pulld.Cache.Blobs.Writes.{find_file-delete_file}
use pulld.Cache.Evict.{
  is_in_dir, read_dir, calculate_cache_size, sort_by_age, evict_on, evict_if_needed,
}
use pulld.Cache.Evict.Listed.{
  total, Lacks, IsDistinct, AreIn, size_on-total, total-sort_by_age, IsDistinct-sort_by_age,
  All-sort_by_age,
}

Lacks-read_dir : (p dir : Text) (files : Files) → Lacks p files → Lacks p (read_dir files dir)
unfolding read_dir
Lacks-read_dir p dir [] h = tt
Lacks-read_dir p dir ((q, f) ∷ files) (n, h) = elim (Bool-cases (is_in_dir dir q)) [
  | inl e ↦ rw e (n, Lacks-read_dir p dir files h)
  | inr e ↦ rw e (Lacks-read_dir p dir files h)
]

IsDistinct-read_dir :
    (dir : Text) (files : Files) → IsDistinct files → IsDistinct (read_dir files dir)
unfolding read_dir
IsDistinct-read_dir dir [] h = tt
IsDistinct-read_dir dir ((q, f) ∷ files) (n, h) = elim (Bool-cases (is_in_dir dir q)) [
  | inl e ↦ rw e (Lacks-read_dir q dir files n, IsDistinct-read_dir dir files h)
  | inr e ↦ rw e (IsDistinct-read_dir dir files h)
]

-- More files of other paths hide no entry.
AreIn-cons :
    (dir q : Text) (f : File) (files todo : Files)
    → Lacks q todo
    → AreIn dir files todo
    → AreIn dir ((q, f) ∷ files) todo
unfolding find_file
AreIn-cons dir q f files [] l h = tt
AreIn-cons dir q f files (e ∷ todo) (n, l) ((found, inside), h) =
    ((rw n found, inside), AreIn-cons dir q f files todo l h)

AreIn-read_dir :
    (dir : Text) (files : Files) → IsDistinct files → AreIn dir files (read_dir files dir)
unfolding read_dir find_file
AreIn-read_dir dir [] h = tt
AreIn-read_dir dir ((q, f) ∷ files) (n, h) =
    let rest =
      AreIn-cons dir q f files (read_dir files dir) (Lacks-read_dir q dir files n)
        (AreIn-read_dir dir files h) in
    elim (Bool-cases (is_in_dir dir q)) [
      | inl e ↦ rw e ((rw (text_eq_refl q) refl, e), rest)
      | inr e ↦ rw e rest
    ]

delete_file-Lacks : (files : Files) (p : Text) → Lacks p files → delete_file files p ≡ files
unfolding delete_file
delete_file-Lacks [] p h = refl
delete_file-Lacks ((q, f) ∷ files) p (n, h) =
    rw (text_eq_sym p q n) (ap (λ t. (q, f) ∷ t) (delete_file-Lacks files p h))

Lacks-delete_file : (p q : Text) (files : Files) → Lacks q files → Lacks q (delete_file files p)
unfolding delete_file
Lacks-delete_file p q [] h = tt
Lacks-delete_file p q ((r, f) ∷ files) (n, h) = elim (Bool-cases (text_eq r p)) [
  | inl e ↦ rw e (Lacks-delete_file p q files h)
  | inr e ↦ rw e (n, Lacks-delete_file p q files h)
]

IsDistinct-delete_file :
    (p : Text) (files : Files) → IsDistinct files → IsDistinct (delete_file files p)
unfolding delete_file
IsDistinct-delete_file p [] h = tt
IsDistinct-delete_file p ((r, f) ∷ files) (n, h) = elim (Bool-cases (text_eq r p)) [
  | inl e ↦ rw e (IsDistinct-delete_file p files h)
  | inr e ↦ rw e (Lacks-delete_file p r files n, IsDistinct-delete_file p files h)
]

AreIn-delete_file :
    (dir p : Text) (files todo : Files)
    → Lacks p todo
    → AreIn dir files todo
    → AreIn dir (delete_file files p) todo
AreIn-delete_file dir p files [] l h = tt
AreIn-delete_file dir p files (e ∷ todo) (n, l) ((found, inside), h) = (
  (find_file-delete_file files p e.0 ∙ rw n found, inside),
  AreIn-delete_file dir p files todo l h,
)

-- What a directory is after one of its files is removed.
total-delete_file :
    (dir p : Text) (f : File) (files : Files)
    → IsDistinct files
    → find_file files p ≡ some f
    → is_in_dir dir p ≡ true
    → length f.bytes + total (read_dir (delete_file files p) dir) ≡ total (read_dir files dir)
unfolding read_dir find_file delete_file
total-delete_file dir p f [] h found inside = absurd (cc)
total-delete_file dir p f ((q, g) ∷ files) (n, h) found inside = elim (Bool-cases (text_eq q p)) [
  | inl e ↦ let same = (text_eq_iff q p).0 e in ground (arith, delete_file-Lacks files q n)
  | inr e ↦ ground (arith, total-delete_file dir p f files h)
]

leb-false : (a b : ℕ) → leb a b ≡ false → b < a
leb-false a b h = ground arith

remove_file-found :
    (d : Disk) (files : Files) (p : Text) (f : File)
    → d.remove_fails p ≡ false
    → find_file files p ≡ some f
    → remove_file d files p ≡ some (delete_file files p)
unfolding remove_file
remove_file-found d files p f h found = rw (remove_file, found, h) refl

evict_on-removed :
    (d : Disk) (target freed : ℕ) (p : Text) (f : File) (todo files files' : Files)
    → remove_file d files p ≡ some files'
    → evict_on d target freed ((p, f) ∷ todo) files ≡ (
        if leb target freed
        then files
        else evict_on d target ((freed + length f.bytes) % u64_limit) todo files')
unfolding evict_on
evict_on-removed d target freed p f todo files files' h = rw (evict_on, h) refl

-- The loop: what is freed leaves the directory, until the target is reached or nothing is left.
evict_on-room :
    (d : Disk) (dir : Text) (target freed : ℕ) (todo files : Files)
    → ((p : Text) → d.remove_fails p ≡ false)
    → IsDistinct files
    → IsDistinct todo
    → AreIn dir files todo
    → total (read_dir files dir) ≡ total todo
    → freed + total todo < u64_limit
    → let left = total (read_dir (evict_on d target freed todo files) dir) in
      (left + target ≤ freed + total todo) ⊎ (left ≡ 0)
unfolding evict_on
evict_on-room d dir target freed [] files works h n i same fits = inr same
evict_on-room d dir target freed ((p, f) ∷ todo) files works h (l, n) ((found, inside), i) same
      fits =
    let step =
      evict_on-removed d target freed p f todo files (delete_file files p)
        (remove_file-found d files p f (works p) found) in
    elim (Bool-cases (leb target freed)) [
      | inl e ↦ inl (rw (step, e) (omega (arith, (leb_iff target freed).0 e)))
      | inr e ↦
          let removed = total-delete_file dir p f files h found inside in
          rw (step, e)
            (elim (evict_on-room d dir target ((freed + length f.bytes) % u64_limit) todo
              (delete_file files p) works (IsDistinct-delete_file p files h) n
              (AreIn-delete_file dir p files todo l i) (omega arith) (omega arith)) [
                | inl le ↦ inl (omega arith)
                | inr zero ↦ inr zero
              ])
    ]

-- Where every file can be removed, each path has one file, and the sizes fit the counter, the blobs
-- on disk and a new blob that is no larger than the bound fit the bound after `evict_if_needed`.
pub evict_if_needed-room :
    (c : CacheStorage) (d : Disk) (files : Files) (new_blob_size : ℕ)
    → ((p : Text) → d.remove_fails p ≡ false)
    → IsDistinct files
    → total (read_dir files c.blobs_dir) + new_blob_size < u64_limit
    → new_blob_size ≤ c.max_size_bytes
    → total (read_dir (evict_if_needed c d files new_blob_size) c.blobs_dir) + new_blob_size
      ≤ c.max_size_bytes
unfolding evict_if_needed calculate_cache_size
evict_if_needed-room c d files n works h fits small =
    let listed = read_dir files c.blobs_dir in
    let size : calculate_cache_size c files ≡ total listed =
      size_on-total 0 listed (omega arith) ∙ omega arith in
    let wanted : (calculate_cache_size c files + n) % u64_limit ≡ total listed + n =
      ap (λ k. (k + n) % u64_limit) size ∙ omega arith in
    let sorted = total-sort_by_age listed in
    let room =
      evict_on-room d c.blobs_dir
        ((calculate_cache_size c files + n) % u64_limit - c.max_size_bytes) 0 (sort_by_age listed)
        files works h (IsDistinct-sort_by_age listed (IsDistinct-read_dir c.blobs_dir files h))
        (All-sort_by_age
          (λ (e : Text × File).
            (find_file files e.0 ≡ some e.1) × (is_in_dir c.blobs_dir e.0 ≡ true))
          listed (AreIn-read_dir c.blobs_dir files h))
        (sym sorted) (omega arith) in
    elim (Bool-cases (c.max_size_bytes == u64_limit - 1)) [
      | inl e ↦
          rw (evict_if_needed, e) (omega (arith, (==_iff c.max_size_bytes (u64_limit - 1)).0 e))
      | inr e ↦
          elim (Bool-cases
            (leb ((calculate_cache_size c files + n) % u64_limit) c.max_size_bytes)) [
              | inl f ↦
                  rw (evict_if_needed, e, f)
                    (omega (
                      arith,
                      (leb_iff ((calculate_cache_size c files + n) % u64_limit) c.max_size_bytes).0
                          f,
                    ))
              | inr f ↦
                  rw (evict_if_needed, e, f)
                    (elim room [
                      | inl le ↦ omega (
                        arith,
                        wanted,
                        sorted,
                        leb-false ((calculate_cache_size c files + n) % u64_limit) c.max_size_bytes
                            f,
                      )
                      | inr zero ↦ omega arith
                    ])
            ]
    ]
