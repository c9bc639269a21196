-- ===== src/Admission/Patches.antt =====
-- Which patches a pod gets, and what a review is answered.
use pulld.Base.{
  ℕ, zero, suc, ◌+◌, ◌≡◌, refl, ◌↔◌, ◌∙◌, inl, inr, some, List, [], ◌∷◌, get_elem?, arith,
  Option-cases,
}
use mathlib.Core.List.Memᴰ
use mathlib.Core.List.{Memᴰ}
use native.Mathlib.Nat.{add-zero}
use pulld.Json.{Json}
use pulld.Text.{Text, text}
use pulld.Admission.{
  rewrite_image, JsonPatchOperation, image_path, init_containers, containers, ephemeral_containers,
  image_of, patch_of, patches_from, containers_at, collect_container_patches,
  build_pod_image_patches,
}

module _ (J : Json) (endpoint : Text) where
  open J use {Value}

  -- `op` replaces, by its rewritten name, the image of the container at a position of `cs`.
  abbrev pub Rewrites : Text → ℕ → List Value → JsonPatchOperation → Type 0
  Rewrites pointer index cs op =
      (i : ℕ) × (c : Value) × (image : Text) × (value : Text) × (get_elem? cs i ≡ some c)
      × (image_of J c ≡ some image)
      × (rewrite_image image endpoint ≡ some value)
      × (op ≡ record { op = text "replace"; path = image_path pointer (index + i); value = value })

  patch_of-eq-some :
      (pointer : Text) (index : ℕ) (c : Value) (op : JsonPatchOperation)
      → patch_of J endpoint pointer index c ≡ some op
      → (image : Text) × (value : Text) × (image_of J c ≡ some image)
        × (rewrite_image image endpoint ≡ some value)
        × (op ≡ record { op = text "replace"; path = image_path pointer index; value = value })
  unfolding patch_of
  patch_of-eq-some pointer index c op e = elim (Option-cases (image_of J c)) [
    | inl n ↦ absurd (ground arith)
    | inr (image, has) ↦ elim (Option-cases (rewrite_image image endpoint)) [
      | inl n ↦ absurd (ground arith)
      | inr (value, new) ↦ (image, value, has, new, ground arith)
    ]
  ]

  shift :
      (pointer : Text) (index : ℕ) (c : Value) (cs : List Value) (op : JsonPatchOperation)
      → Rewrites pointer (suc index) cs op
      → Rewrites pointer index (c ∷ cs) op
  shift pointer index c cs op (i, d, image, value, at, has, new, e) =
      let same : suc index + i ≡ index + suc i = omega arith in
      (suc i, d, image, value, at, has, new, rw (← same) e)

  patches_from_sound :
      (pointer : Text) (index : ℕ) (cs : List Value) (op : JsonPatchOperation)
      → Memᴰ op (patches_from J endpoint pointer index cs)
      → Rewrites pointer index cs op
  unfolding patches_from
  patches_from_sound pointer index [] op m = elim m [ ]
  patches_from_sound pointer index (c ∷ cs) op m =
      elim (Option-cases (patch_of J endpoint pointer index c)) [
        | inl e ↦
            shift pointer index c cs op
              (patches_from_sound pointer (suc index) cs op (rw (e, patches_from) at m))
        | inr (p, e) ↦ elim (Memᴰ.cases_cons (rw (e, patches_from) at m)) [
          | inl same ↦
              let (image, value, has, new, it) = patch_of-eq-some pointer index c p e in
              (0, c, image, value, refl, has, new, same ∙ it ∙ rw add-zero)
          | inr later ↦
              shift pointer index c cs op (patches_from_sound pointer (suc index) cs op later)
        ]
      ]

  patches_from_complete :
      (pointer : Text) (index : ℕ) (cs : List Value) (i : ℕ) (c : Value) (op : JsonPatchOperation)
      → get_elem? cs i ≡ some c
      → patch_of J endpoint pointer (index + i) c ≡ some op
      → Memᴰ op (patches_from J endpoint pointer index cs)
  unfolding patches_from
  patches_from_complete pointer index [] i c op at new = absurd (cc)
  patches_from_complete pointer index (d ∷ cs) zero c op at new =
      let here : patch_of J endpoint pointer index d ≡ some op = rw (← add-zero index) (cc) in
      rw (here, patches_from) (Memᴰ.head refl)
  patches_from_complete pointer index (d ∷ cs) (suc i) c op at new =
      let same : index + suc i ≡ suc index + i = omega arith in
      let later = patches_from_complete pointer (suc index) cs i c op at (rw same at new) in
      elim (Option-cases (patch_of J endpoint pointer index d)) [
        | inl e ↦ rw (e, patches_from) later
        | inr (p, e) ↦ rw (e, patches_from) (Memᴰ.tail later)
      ]

  there :
      (pod : Value) (pointer : Text) (op : JsonPatchOperation)
      → Memᴰ op (collect_container_patches J pod pointer endpoint)
      → (cs : List Value) × (containers_at J pod pointer ≡ some cs) × Rewrites pointer 0 cs op
  unfolding collect_container_patches
  there pod pointer op m = elim (Option-cases (containers_at J pod pointer)) [
    | inl e ↦ absurd (Memᴰ.not-nil (rw (e, collect_container_patches) at m))
    | inr (cs, e) ↦
        (cs, e, patches_from_sound pointer 0 cs op (rw (e, collect_container_patches) at m))
  ]

  back :
      (pod : Value) (pointer : Text) (op : JsonPatchOperation) (cs : List Value)
      → containers_at J pod pointer ≡ some cs
      → Rewrites pointer 0 cs op
      → Memᴰ op (collect_container_patches J pod pointer endpoint)
  unfolding collect_container_patches patch_of
  back pod pointer op cs found (i, c, image, value, at, has, new, e) =
      rw (found, collect_container_patches)
        (patches_from_complete pointer 0 cs i c op at (ground arith))

  abbrev groups : List Text
  groups = init_containers ∷ containers ∷ ephemeral_containers ∷ []

  -- `op` rewrites the image of a container in one of the three lists of containers.
  abbrev pub RewritesIn : Value → JsonPatchOperation → Type 0
  RewritesIn pod op =
      (pointer : Text) × (cs : List Value) × Memᴰ pointer groups
      × (containers_at J pod pointer ≡ some cs)
      × Rewrites pointer 0 cs op

  build_sound :
      (pod : Value) (op : JsonPatchOperation)
      → Memᴰ op (build_pod_image_patches J pod endpoint)
      → RewritesIn pod op
  unfolding build_pod_image_patches
  build_sound pod op m = elim (Memᴰ.append_cases _ m) [
    | inl m ↦ at init_containers (Memᴰ.head refl) m
    | inr m ↦ elim (Memᴰ.append_cases _ m) [
      | inl m ↦ at containers (Memᴰ.tail (Memᴰ.head refl)) m
      | inr m ↦ at ephemeral_containers (Memᴰ.tail (Memᴰ.tail (Memᴰ.head refl))) m
    ]
  ]
    where
      at :
          (pointer : Text)
          → Memᴰ pointer groups
          → Memᴰ op (collect_container_patches J pod pointer endpoint)
          → RewritesIn pod op
      at pointer listed m =
          let (cs, found, r) = there pod pointer op m in (pointer, cs, listed, found, r)

  build_complete :
      (pod : Value) (op : JsonPatchOperation)
      → RewritesIn pod op
      → Memᴰ op (build_pod_image_patches J pod endpoint)
  unfolding build_pod_image_patches
  build_complete pod op (pointer, cs, Memᴰ.head e, found, r) =
      Memᴰ.append_left _ (back pod _ op cs (rw e at found) (rw e at r))
  build_complete pod op (pointer, cs, Memᴰ.tail (Memᴰ.head e), found, r) =
      Memᴰ.append_right _ (Memᴰ.append_left _ (back pod _ op cs (rw e at found) (rw e at r)))
  build_complete pod op (pointer, cs, Memᴰ.tail (Memᴰ.tail (Memᴰ.head e)), found, r) =
      Memᴰ.append_right _ (Memᴰ.append_right _ (back pod _ op cs (rw e at found) (rw e at r)))
  build_complete pod op (pointer, cs, Memᴰ.tail (Memᴰ.tail (Memᴰ.tail m)), found, r) = elim m [ ]

  -- A pod gets exactly the patches that rewrite the image of a container, at its place in one of
  -- the three lists of containers.
  pub mem-build_pod_image_patches_iff :
      (pod : Value) (op : JsonPatchOperation)
      → Memᴰ op (build_pod_image_patches J pod endpoint) ↔ RewritesIn pod op
  mem-build_pod_image_patches_iff pod op = (build_sound pod op, build_complete pod op)
