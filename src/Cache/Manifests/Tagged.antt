-- ===== src/Cache/Manifests/Tagged.antt =====
-- On disk, the mapping of a tag is written without touching a manifest.
use pulld.Base.{
  ℕ, ◌≡◌, refl, sym, ap, ◌∙◌, Bool, true, false, Option, none, some, [], ◌∷◌, ◌++◌, arith, is_empty,
  take, ◌==◌, Bool-cases, Option-cases, inl, inr,
}
use pulld.Text.{Text, text, text_eq, starts_with, ends_with, replace}
use pulld.Text.Laws.{text_eq_sound}
use pulld.Cache.{CacheStorage, filesystem, join_path, bare}
use pulld.Cache.Disk.{Bytes, Disk, find_file, write_file, read_file, ObjectStore, Cached}
use pulld.Cache.Keys.{manifest_path_by_digest, tag_digest_mapping_path}
use pulld.Cache.Blobs.Writes.{find_file-put_file}
use pulld.Cache.Manifests.{write_in_place, write_tag_digest_mapping, read_manifest_by_digest}

abbrev pub last : Text → Option ℕ
last [] = none
last (x ∷ []) = some x
last (x ∷ y ∷ s) = last (y ∷ s)

last-append : (s : Text) (x : ℕ) (t : Text) → last (s ++ x ∷ t) ≡ last (x ∷ t)
last-append [] x t = refl
last-append (y ∷ []) x t = refl
last-append (y ∷ z ∷ s) x t = last-append (z ∷ s) x t

-- A path ends as its last part does.
pub last-join_path :
    (base name : Text) (x : ℕ) (t : Text) → last (join_path base (name ++ x ∷ t)) ≡ last (x ∷ t)
unfolding join_path
last-join_path base name x t =
    let p = name ++ x ∷ t in
    elim (Bool-cases (starts_with p (text "/"))) [
      | inl e ↦ rw (join_path, e) (last-append name x t)
      | inr e ↦ elim (Bool-cases (is_empty base)) [
        | inl e1 ↦ rw (join_path, e, e1) (last-append name x t)
        | inr e1 ↦ elim (Bool-cases (ends_with base (text "/"))) [
          | inl e2 ↦ rw (join_path, e, e1, e2) (behind base name)
          | inr e2 ↦ rw (join_path, e, e1, e2) (last-append base b'/' p ∙ behind (b'/' ∷ []) name)
        ]
      ]
    ]
  where
    behind : (a b : Text) → last (a ++ (b ++ x ∷ t)) ≡ last (x ∷ t)
    behind a [] = last-append a x t
    behind a (y ∷ b) = last-append a y (b ++ x ∷ t) ∙ last-append (y ∷ b) x t

-- A file of a mapping and one of a manifest have different names.
pub endings_differ :
    (p q : Text)
    → last p ≡ last (text ".digest")
    → last q ≡ last (text ".json")
    → text_eq p q ≡ false
endings_differ p q ep eq = elim (Bool-cases (text_eq p q)) [
  | inr e ↦ e
  | inl e ↦ absurd (differ (ap is_t (sym ep ∙ ap last (text_eq_sound p q e) ∙ eq)))
]
  where
    is_t : Option ℕ → Bool
    is_t none = false
    is_t (some x) = x == b't'

    differ : true ≡ false → ⊥
    differ h = absurd (cc)

paths_differ :
    (c : CacheStorage) (registry repository digest tag : Text)
    → text_eq
        (tag_digest_mapping_path c registry repository tag)
        (manifest_path_by_digest c registry repository digest)
      ≡ false
unfolding tag_digest_mapping_path manifest_path_by_digest
paths_differ c registry repository digest tag =
    let dir = join_path (join_path c.manifests_dir registry) repository in
    endings_differ (tag_digest_mapping_path c registry repository tag)
      (manifest_path_by_digest c registry repository digest)
      (last-join_path (join_path dir (text "tags")) (replace tag b':' (text "_")) b'.'
        (text "digest"))
      (last-join_path (join_path dir (text "sha256")) (bare digest) b'.' (text "json"))

module _ (S : ObjectStore) where
  pub write_in_place-other :
      (d : Disk) (now : ℕ) (s : Cached S) (path q : Text) (content : Bytes)
      → text_eq path q ≡ false
      → find_file (write_in_place S d now s path content).0.files q ≡ find_file s.files q
  unfolding write_file
  write_in_place-other d now s path q content h = elim (Option-cases (d.write_fails path)) [
    | inl e ↦
        ground
          (arith, find_file-put_file s.files path q (record { bytes = content; modified = now }))
    | inr (n, e) ↦ ground (
      arith,
      find_file-put_file s.files path q (record { bytes = take n content; modified = now }),
    )
  ]

  -- On disk, a manifest is read as before after a tag is mapped.
  pub read_manifest_by_digest-tagged :
      (c : CacheStorage) (d e : Disk) (now : ℕ) (s : Cached S)
      (registry repository digest tag mapped : Text)
      → c.backend ≡ filesystem
      → read_manifest_by_digest S c e
          (write_tag_digest_mapping S c d now s registry repository tag mapped).0
          registry
          repository
          digest
        ≡ read_manifest_by_digest S c e s registry repository digest
  unfolding write_tag_digest_mapping read_manifest_by_digest read_file
  read_manifest_by_digest-tagged c d e now s registry repository digest tag mapped b = simp (
    write_tag_digest_mapping,
    read_manifest_by_digest,
    read_file,
    b,
    write_in_place-other d now s (tag_digest_mapping_path c registry repository tag)
        (manifest_path_by_digest c registry repository digest) mapped
        (paths_differ c registry repository digest tag),
  )
