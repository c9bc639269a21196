-- ===== src/Registry/Manifest/Platform.antt =====
-- Which manifest of a list `resolve_platform_manifest` gives.
use pulld.Base.{
  ◌≡◌, ap, ◌∙◌, ◌⊎◌, inl, inr, true, false, none, some, ◌>>=◌, List, [], ◌∷◌, ◌++◌, arith, All,
  first, Bool-cases, Option-cases, Result-cases, unwrap_or, ok,
}
use pulld.Text.{Text, text}
use pulld.Json.{Json, str_field}
use pulld.Cache.{CacheStorage}
use pulld.Cache.Disk.{Bytes, Disk, ObjectStore, Cached}
use pulld.Cache.Manifests.{read_manifest_by_digest}
use pulld.Registry.Manifest.{
  manifest_v2, is_for, best_match, selected_manifest, detect_platform_architecture, is_list_type,
  read_selected, read_list, resolve_platform_manifest,
}

module _ (J : Json) (arch os : Text) where
  abbrev Others : List J.Value → Type 0
  Others manifests = All (λ m. is_for J arch os m ≡ false) manifests

  -- The first manifest for the platform, or the first of all if there is none for it.
  abbrev pub IsSelected : List J.Value → J.Value → Type 0
  IsSelected manifests selected =
      ((before after : List J.Value) × (manifests ≡ before ++ selected ∷ after)
        × Others before
        × (is_for J arch os selected ≡ true))
      ⊎ ((rest : List J.Value) × (manifests ≡ selected ∷ rest) × Others manifests)

  best_match-some :
      (manifests : List J.Value) (selected : J.Value)
      → best_match J arch os manifests ≡ some selected
      → (before after : List J.Value) × (manifests ≡ before ++ selected ∷ after)
        × Others before
        × (is_for J arch os selected ≡ true)
  unfolding best_match
  best_match-some [] selected h = absurd (cc)
  best_match-some (m ∷ ms) selected h = elim (Bool-cases (is_for J arch os m)) [
    | inl e ↦
        let same : m ≡ selected = ground arith in ([], ms, ap (λ x. x ∷ ms) same, tt, rw (← same) e)
    | inr e ↦
        let (before, after, split, others, fits) = best_match-some ms selected (ground arith) in
        (m ∷ before, after, ap (λ l. m ∷ l) split, (e, others), fits)
  ]

  best_match-none :
      (manifests : List J.Value) → best_match J arch os manifests ≡ none → Others manifests
  unfolding best_match
  best_match-none [] h = tt
  best_match-none (m ∷ ms) h = elim (Bool-cases (is_for J arch os m)) [
    | inl e ↦ absurd (ground arith)
    | inr e ↦ (e, best_match-none ms (ground arith))
  ]

  selected_manifest-IsSelected :
      (manifests : List J.Value) (selected : J.Value)
      → selected_manifest J arch os manifests ≡ some selected
      → IsSelected manifests selected
  unfolding selected_manifest
  selected_manifest-IsSelected manifests selected h =
      elim (Option-cases (best_match J arch os manifests)) [
        | inr (m, e) ↦
            inl (best_match-some manifests selected (e ∙ (rw (selected_manifest, e) at h)))
        | inl e ↦
            inr (of_first manifests (rw (selected_manifest, e) at h) (best_match-none manifests e))
      ]
    where
      of_first :
          (l : List J.Value)
          → first l ≡ some selected
          → Others l
          → (rest : List J.Value) × (l ≡ selected ∷ rest) × Others l
      of_first [] h o = absurd (cc)
      of_first (x ∷ l) h o = let same : x ≡ selected = cc in (l, ap (λ y. y ∷ l) same, o)

module _ (S : ObjectStore) (J : Json) (c : CacheStorage) (d : Disk) (host_arch : Text)
    (s : Cached S) (registry repository : Text) where
  -- What is given of a list: the cached manifest of the digest that its selected entry has.
  abbrev pub Resolves : J.Value → Bytes → Text → Type 0
  Resolves list manifest media_type =
      (manifests : List J.Value) × (selected : J.Value) × (digest : Text) × ((do
        J.as_array (← J.get list (text "manifests")))
        ≡ some manifests)
      × IsSelected J (detect_platform_architecture host_arch).0
          (detect_platform_architecture host_arch).1 manifests selected
      × (str_field J selected (text "digest") ≡ some digest)
      × (read_manifest_by_digest S c d s registry repository digest ≡ ok manifest)
      × (media_type ≡ unwrap_or (str_field J selected (text "mediaType")) manifest_v2)

  read_selected-some :
      (selected : J.Value) (manifest : Bytes) (media_type : Text)
      → read_selected S J c d s registry repository selected ≡ ok (some (manifest, media_type))
      → (digest : Text) × (str_field J selected (text "digest") ≡ some digest)
        × (read_manifest_by_digest S c d s registry repository digest ≡ ok manifest)
        × (media_type ≡ unwrap_or (str_field J selected (text "mediaType")) manifest_v2)
  read_selected-some selected manifest media_type h =
      elim (Option-cases (str_field J selected (text "digest"))) [
        | inl e ↦ absurd (ground arith)
        | inr (digest, e) ↦
            elim (Result-cases (read_manifest_by_digest S c d s registry repository digest)) [
              | inr (x, n) ↦ absurd (ground arith)
              | inl (m, n) ↦ (digest, e, ground arith, ground arith)
            ]
      ]

  read_list-Resolves :
      (list : J.Value) (manifest : Bytes) (media_type : Text)
      → read_list S J c d host_arch s registry repository list ≡ ok (some (manifest, media_type))
      → Resolves list manifest media_type
  read_list-Resolves list manifest media_type h =
      let (arch, os) = detect_platform_architecture host_arch in
      elim (Option-cases (do J.as_array (← J.get list (text "manifests")))) [
        | inl e ↦ absurd (ground arith)
        | inr (manifests, e) ↦ elim (Option-cases (selected_manifest J arch os manifests)) [
          | inl n ↦ absurd (ground arith)
          | inr (selected, n) ↦
              let (digest, named, found, typed) =
                read_selected-some selected manifest media_type (ground arith) in
              (
                manifests,
                selected,
                digest,
                e,
                selected_manifest-IsSelected J arch os manifests selected n,
                named,
                found,
                typed,
              )
        ]
      ]

  -- A manifest that `resolve_platform_manifest` gives is one that the cache has for the digest of an
  -- entry of the list: the first entry for the host's architecture and Linux, or the first of all if
  -- none is for these.
  pub resolve_platform_manifest-Resolves :
      (bytes manifest : Bytes) (media_type : Text)
      → resolve_platform_manifest S J c d host_arch s registry repository bytes
        ≡ ok (some (manifest, media_type))
      → (list : J.Value) × (J.from_slice bytes ≡ some list) × Resolves list manifest media_type
  unfolding resolve_platform_manifest
  resolve_platform_manifest-Resolves bytes manifest media_type h =
      elim (Option-cases (J.from_slice bytes)) [
        | inl e ↦ absurd (ground arith)
        | inr (list, e) ↦
            elim (Bool-cases (is_list_type (unwrap_or (str_field J list (text "mediaType")) []))) [
              | inr n ↦ absurd (ground arith)
              | inl n ↦ (list, e, read_list-Resolves list manifest media_type (ground arith))
            ]
      ]
