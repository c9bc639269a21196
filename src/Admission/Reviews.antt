-- ===== src/Admission/Reviews.antt =====
-- A patched pod is settled, and what a review is answered.
use pulld.Base.{
  ℕ, suc, ◌≡◌, refl, false, ◌&&◌, not, ◌⊎◌, inl, inr, Option, none, some, List, [], ◌∷◌, map,
  is_empty, arith, Option-cases, unwrap_or, is_some,
}
use pulld.Json.{Json}
use pulld.Text.{Text}
use pulld.Admission.{
  rewrite_image, JsonPatchOperation, init_containers, containers, ephemeral_containers, image_of,
  patch_of, patches_from, containers_at, collect_container_patches, build_pod_image_patches,
  PatchEncoder, Encoded, bytes, failed, AdmissionReview, AdmissionRequest, AdmissionResponse,
  respond, mutate_pod_review,
}
use pulld.Admission.Names.{rewrite_image_idem}

-- An image after the patches are applied.
abbrev pub patched : Text → Option Text → Option Text
patched endpoint none = none
patched endpoint (some image) = some (unwrap_or (rewrite_image image endpoint) image)

rewrite-patched :
    (endpoint image : Text)
    → rewrite_image (unwrap_or (rewrite_image image endpoint) image) endpoint ≡ none
rewrite-patched endpoint image = elim (Option-cases (rewrite_image image endpoint)) [
  | inl e ↦ rw e e
  | inr (value, e) ↦ rw e (rewrite_image_idem image endpoint value e)
]

module _ (J : Json) (endpoint : Text) where
  open J use {Value}

  -- The images of the containers at `pointer`.
  abbrev pub images_at : Value → Text → List (Option Text)
  images_at pod pointer = elim (containers_at J pod pointer) [
    | none ↦ []
    | some cs ↦ map (image_of J) cs
  ]

  patch_of-patched :
      (pointer : Text) (index : ℕ) (c : Value) (o : Option Text)
      → image_of J c ≡ patched endpoint o
      → patch_of J endpoint pointer index c ≡ none
  unfolding patch_of
  patch_of-patched pointer index c none e = ground arith
  patch_of-patched pointer index c (some image) e = ground (arith, rewrite-patched endpoint image)

  patches_from-patched :
      (pointer : Text) (index : ℕ) (cs : List Value) (images : List (Option Text))
      → map (image_of J) cs ≡ map (patched endpoint) images
      → patches_from J endpoint pointer index cs ≡ []
  unfolding patches_from
  patches_from-patched pointer index [] images e = refl
  patches_from-patched pointer index (c ∷ cs) [] e = cc
  patches_from-patched pointer index (c ∷ cs) (o ∷ images) e =
      rw (patch_of-patched pointer index c o (cc), patches_from)
        (patches_from-patched pointer (suc index) cs images (cc))

  collect-patched :
      (pod pod' : Value) (pointer : Text)
      → images_at pod' pointer ≡ map (patched endpoint) (images_at pod pointer)
      → collect_container_patches J pod' pointer endpoint ≡ []
  unfolding collect_container_patches
  collect-patched pod pod' pointer e = elim (Option-cases (containers_at J pod' pointer)) [
    | inl n ↦ rw (n, collect_container_patches) refl
    | inr (cs, f) ↦
        rw (f, collect_container_patches)
          (patches_from-patched pointer 0 cs (images_at pod pointer) (rw (f, images_at) at e))
  ]

  -- When the images of a pod's three lists of containers are those of another pod after its
  -- patches, there is nothing more to patch: the webhook may see a pod any number of times.
  pub build_pod_image_patches-patched :
      (pod pod' : Value)
      → images_at pod' init_containers ≡ map (patched endpoint) (images_at pod init_containers)
      → images_at pod' containers ≡ map (patched endpoint) (images_at pod containers)
      → images_at pod' ephemeral_containers
        ≡ map (patched endpoint) (images_at pod ephemeral_containers)
      → build_pod_image_patches J pod' endpoint ≡ []
  unfolding build_pod_image_patches
  build_pod_image_patches-patched pod pod' e f g = rw (
    collect-patched pod pod' init_containers e,
    collect-patched pod pod' containers f,
    collect-patched pod pod' ephemeral_containers g,
  )

Encoded-cases :
    (e : Encoded) → ((b : List ℕ) × (e ≡ bytes b)) ⊎ ((message : Text) × (e ≡ failed message))
Encoded-cases (bytes b) = inl (b, refl)
Encoded-cases (failed message) = inr (message, refl)

module _ (J : Json) (E : PatchEncoder) where
  respond_lem :
      (uid : Text) (patches : List JsonPatchOperation)
      → let r = respond J E uid patches in
        (r.uid ≡ uid)
        × (is_some r.status ≡ not r.allowed)
        × (is_some r.patch ≡ (r.allowed && not (is_empty patches)))
        × (is_some r.patch_type ≡ is_some r.patch)
        × (r.allowed ≡ false → (message : Text) × (E.to_vec patches ≡ failed message))
  unfolding respond
  respond_lem uid [] = (refl, refl, refl, refl, λ h. absurd (cc))
  respond_lem uid (p ∷ ps) = elim (Encoded-cases (E.to_vec (p ∷ ps))) [
    | inl (data_bytes, e) ↦ rw (e, respond) (refl, refl, refl, refl, λ h. absurd (cc))
    | inr (message, e) ↦ rw (e, respond) (refl, refl, refl, refl, λ h. (message, refl))
  ]

  -- A review is answered, its request is taken out of it, and its other fields stay. The answer
  -- to a request carries its uid. It is a refusal, with a status and no patch, only where the
  -- patches do not encode; it has a patch, with its type, exactly where it is not a refusal and
  -- the pod has patches.
  pub mutate_pod_review_lem :
      (review : AdmissionReview J) (request : AdmissionRequest J) (endpoint : Text)
      → review.request ≡ some request
      → let result = mutate_pod_review J E review endpoint in
        let patches = build_pod_image_patches J request.object endpoint in
        (r : AdmissionResponse) × (result ≡ record review { request = none; response = some r })
        × (r.uid ≡ request.uid)
        × (is_some r.status ≡ not r.allowed)
        × (is_some r.patch ≡ (r.allowed && not (is_empty patches)))
        × (is_some r.patch_type ≡ is_some r.patch)
        × (r.allowed ≡ false → (message : Text) × (E.to_vec patches ≡ failed message))
  unfolding mutate_pod_review
  mutate_pod_review_lem review request endpoint e =
      let patches = build_pod_image_patches J request.object endpoint in
      let (uid, status, patch, patch_type, why) = respond_lem request.uid patches in
      (
        respond J E request.uid patches,
        rw (e, mutate_pod_review),
        uid,
        status,
        patch,
        patch_type,
        why,
      )
