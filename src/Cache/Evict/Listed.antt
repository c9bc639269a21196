-- ===== src/Cache/Evict/Listed.antt =====
-- The sizes of the files of a directory, and their order by age.
use pulld.Base.{
  ℕ, ◌+◌, ◌%◌, ◌<◌, ◌≡◌, refl, true, false, some, [], ◌∷◌, arith, length, leb, All, Bool-cases, inl,
  inr,
}
use pulld.Text.{Text, text_eq}
use pulld.Text.Laws.{text_eq_sym}
use pulld.Text.Numbers.{u64_limit}
use pulld.Cache.Disk.{File, Files, find_file}
use pulld.Cache.Evict.{is_in_dir, size_on, insert_old, sort_by_age}

abbrev pub total : Files → ℕ
total [] = 0
total ((path, file) ∷ rest) = length file.bytes + total rest

-- No entry of the files has the path.
abbrev pub Lacks : Text → Files → Type 0
Lacks path files = All (λ (e : Text × File). text_eq path e.0 ≡ false) files

-- Each path has one entry.
abbrev pub IsDistinct : Files → Type 0
IsDistinct [] = Unit
IsDistinct ((path, file) ∷ rest) = Lacks path rest × IsDistinct rest

-- Each entry of a list is an entry of the files, and lies in the directory.
abbrev pub AreIn : Text → Files → Files → Type 0
AreIn dir files todo =
    All (λ (e : Text × File). (find_file files e.0 ≡ some e.1) × (is_in_dir dir e.0 ≡ true)) todo

pub size_on-total :
    (acc : ℕ) (files : Files)
    → acc < u64_limit
    → size_on acc files ≡ (acc + total files) % u64_limit
size_on-total acc [] h = omega arith
size_on-total acc ((path, file) ∷ rest) h =
    omega (arith, size_on-total ((acc + length file.bytes) % u64_limit) rest (omega arith))

total-insert_old :
    (x : Text × File) (ys : Files) → total (insert_old x ys) ≡ length x.1.bytes + total ys
unfolding insert_old
total-insert_old x [] = refl
total-insert_old x (y ∷ ys) = ground (arith, total-insert_old x ys)

pub total-sort_by_age : (xs : Files) → total (sort_by_age xs) ≡ total xs
unfolding sort_by_age
total-sort_by_age [] = refl
total-sort_by_age (x ∷ xs) =
    omega (arith, total-insert_old x (sort_by_age xs), total-sort_by_age xs)

module _ (P : Text × File → Type 0) where
  All-insert_old : (x : Text × File) (ys : Files) → P x → All P ys → All P (insert_old x ys)
  unfolding insert_old
  All-insert_old x [] p h = (p, tt)
  All-insert_old x (y ∷ ys) p (q, h) = elim (Bool-cases (leb x.1.modified y.1.modified)) [
    | inl e ↦ rw (insert_old, e) (p, (q, h))
    | inr e ↦ rw (insert_old, e) (q, All-insert_old x ys p h)
  ]

  pub All-sort_by_age : (xs : Files) → All P xs → All P (sort_by_age xs)
  unfolding sort_by_age
  All-sort_by_age [] h = tt
  All-sort_by_age (x ∷ xs) (p, h) = All-insert_old x (sort_by_age xs) p (All-sort_by_age xs h)

IsDistinct-insert_old :
    (x : Text × File) (ys : Files) → Lacks x.0 ys → IsDistinct ys → IsDistinct (insert_old x ys)
unfolding insert_old
IsDistinct-insert_old x [] l h = (tt, tt)
IsDistinct-insert_old x (y ∷ ys) (n, l) (m, h) = elim (Bool-cases (leb x.1.modified y.1.modified)) [
  | inl e ↦ rw (insert_old, e) ((n, l), (m, h))
  | inr e ↦
      rw (insert_old, e)
        (
          All-insert_old (λ (z : Text × File). text_eq y.0 z.0 ≡ false) x ys (text_eq_sym x.0 y.0 n)
              m,
          IsDistinct-insert_old x ys l h,
        )
]

pub IsDistinct-sort_by_age : (xs : Files) → IsDistinct xs → IsDistinct (sort_by_age xs)
unfolding sort_by_age
IsDistinct-sort_by_age [] h = tt
IsDistinct-sort_by_age (x ∷ xs) (l, h) =
    IsDistinct-insert_old x (sort_by_age xs)
      (All-sort_by_age (λ (z : Text × File). text_eq x.0 z.0 ≡ false) xs l)
      (IsDistinct-sort_by_age xs h)
