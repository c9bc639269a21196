-- ===== src/Cache/Keys/Clash.antt =====
-- Paths that two different names of the cache share.
use pulld.Base.{
  append_assoc, ℕ, ◌≡◌, refl, true, false, [], ◌∷◌, ◌++◌, arith, is_empty, sym, ap, ◌∙◌, Bool-cases,
  inl, inr,
}
use pulld.Text.{Text, text, strip_prefix, starts_with, ends_with, contains, replace}
use pulld.Cache.{CacheStorage, join_path, bare}
use pulld.Cache.Keys.{blob_path, manifest_path, manifest_path_by_digest}

-- The blob of a digest that begins with `/` is the file of that path, wherever the cache is.
pub blob_path-absolute : (c : CacheStorage) (p : Text) → blob_path c (b'/' ∷ p) ≡ b'/' ∷ p
unfolding blob_path bare strip_prefix join_path starts_with
blob_path-absolute c p = refl

replace-lacks : (s : Text) (c : ℕ) (t : Text) → contains s c ≡ false → replace s c t ≡ s
unfolding replace contains
replace-lacks [] c t h = refl
replace-lacks (d ∷ s) c t h = ground (arith, replace-lacks s c t)

relative-append :
    (n p : Text) → is_empty n ≡ false → starts_with (n ++ p) (text "/") ≡ starts_with n (text "/")
unfolding starts_with strip_prefix
relative-append [] p h = cc
relative-append (x ∷ n) p h = ground arith

join_path-plain :
    (base p : Text)
    → is_empty base ≡ false
    → ends_with base (text "/") ≡ false
    → starts_with p (text "/") ≡ false
    → join_path base p ≡ base ++ b'/' ∷ p
unfolding join_path
join_path-plain base p h0 h1 h2 = rw (h2, h0, h1) refl

join_path-empty : (p : Text) → join_path [] p ≡ p
unfolding join_path
join_path-empty p = elim (Bool-cases (starts_with p (text "/"))) [
  | inl e ↦ rw e refl
  | inr e ↦ rw e refl
]

join_path-slash :
    (base p : Text)
    → is_empty base ≡ false
    → ends_with base (text "/") ≡ true
    → starts_with p (text "/") ≡ false
    → join_path base p ≡ base ++ p
unfolding join_path
join_path-slash base p h0 h1 h2 = rw (h2, h0, h1) refl

is_empty-append : (a b : Text) → is_empty b ≡ false → is_empty (a ++ b) ≡ false
is_empty-append [] b h = h
is_empty-append (x ∷ a) b h = refl

is_empty_sound : (a : Text) → is_empty a ≡ true → a ≡ []
is_empty_sound [] h = refl
is_empty_sound (x ∷ a) h = cc

-- Joining a relative path of two parts is joining the parts in turn.
join_path-under :
    (base n p : Text)
    → is_empty n ≡ false
    → starts_with n (text "/") ≡ false
    → starts_with p (text "/") ≡ false
    → ends_with (join_path base n) (text "/") ≡ false
    → join_path base (n ++ b'/' ∷ p) ≡ join_path (join_path base n) p
join_path-under base n p h0 h1 h2 h3 =
    let h = relative-append n (b'/' ∷ p) h0 ∙ h1 in
    elim (Bool-cases (is_empty base)) [
      | inl e ↦
          rw (is_empty_sound base e, join_path-empty n, join_path-empty (n ++ b'/' ∷ p))
            (sym (
              join_path-plain n p h0
                (ap (λ z. ends_with z (text "/"))
                    (sym (ap (λ b. join_path b n) (is_empty_sound base e) ∙ join_path-empty n))
                  ∙ h3)
                h2))
      | inr e ↦ elim (Bool-cases (ends_with base (text "/"))) [
        | inl f ↦
            let e1 = join_path-slash base n e f h1 in
            join_path-slash base (n ++ b'/' ∷ p) e f h
            ∙ sym (append_assoc base n (b'/' ∷ p))
            ∙ sym (
                join_path-plain (base ++ n) p (is_empty-append base n h0)
                  (ap (λ z. ends_with z (text "/")) (sym e1) ∙ h3) h2)
            ∙ sym (ap (λ z. join_path z p) e1)
        | inr f ↦
            let e1 = join_path-plain base n e f h1 in
            join_path-plain base (n ++ b'/' ∷ p) e f h
            ∙ sym (append_assoc base (b'/' ∷ n) (b'/' ∷ p))
            ∙ sym (
                join_path-plain (base ++ b'/' ∷ n) p (is_empty-append base (b'/' ∷ n) refl)
                  (ap (λ z. ends_with z (text "/")) (sym e1) ∙ h3) h2)
            ∙ sym (ap (λ z. join_path z p) e1)
      ]
    ]

slashless : starts_with (text "sha256") (text "/") ≡ false
unfolding starts_with strip_prefix
slashless = refl

-- On disk, the manifest of a digest in a repository has the path of a tag's manifest in the
-- repository `<repository>/sha256`, if the repository is no empty and no absolute path, the digest
-- has no `:` behind `sha256:`, and the directory has no `/` at its end.
pub manifest_path-clash :
    (c : CacheStorage) (registry repository digest : Text)
    → is_empty repository ≡ false
    → starts_with repository (text "/") ≡ false
    → ends_with (join_path (join_path c.manifests_dir registry) repository) (text "/") ≡ false
    → contains (bare digest) b':' ≡ false
    → manifest_path c registry (repository ++ text "/sha256") digest
      ≡ manifest_path_by_digest c registry repository digest
unfolding manifest_path manifest_path_by_digest
manifest_path-clash c registry repository digest h0 h1 h2 h3 =
    rw
      (
        replace-lacks (bare digest) b':' (text "_") h3,
        join_path-under (join_path c.manifests_dir registry) repository (text "sha256") h0 h1
            slashless h2,
      )
      refl
