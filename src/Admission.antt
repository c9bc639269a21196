-- ===== src/Admission.antt =====
-- src/admission.rs: the webhook that rewrites the images of a pod to go through the proxy.
mod Names
mod Patches
mod Reviews
mod Tests
use pulld.Base.{
  ℕ, suc, ◌≡◌, Bool, true, false, ◌||◌, Option, none, some, ◌>>=◌, List, [], ◌∷◌, ◌++◌, is_empty,
  ◌==◌, if◌then◌else◌, DockerProxyError, Result, ok, err,
}
use pulld.Json.{Json}
use pulld.Text.{
  Text, text, text_eq, starts_with, contains, split_once, trim, trim_start_matches, trim_end_by,
}
use pulld.Text.Numbers.{to_text}

unfoldable pub normalize_registry_endpoint : Text → Text
unfolding trim_end_by trim_start_matches trim
normalize_registry_endpoint endpoint =
    trim_end_by (λ c. c == b'/')
      (trim_start_matches (trim_start_matches (trim endpoint) (text "https://")) (text "http://"))

unfoldable pub is_explicit_registry : Text → Bool
unfolding contains
is_explicit_registry first_component =
    contains first_component b'.'
    || contains first_component b':'
    || text_eq first_component (text "localhost")

unfoldable pub is_docker_hub_registry : Text → Bool
is_docker_hub_registry registry =
    text_eq registry (text "docker.io")
    || text_eq registry (text "index.docker.io")
    || text_eq registry (text "registry-1.docker.io")

unfoldable pub normalize_docker_hub_image : Text → Text
unfolding contains
normalize_docker_hub_image repository =
    if contains repository b'/'
    then text "docker.io/" ++ repository
    else text "docker.io/library/" ++ repository

unfoldable pub normalize_upstream_image : Text → Text
unfolding is_explicit_registry is_docker_hub_registry normalize_docker_hub_image split_once
normalize_upstream_image image = elim (split_once image b'/') [
  | none ↦ text "docker.io/library/" ++ image
  | some (first, remainder) ↦
      if is_explicit_registry first
      then (if is_docker_hub_registry first then normalize_docker_hub_image remainder else image)
      else text "docker.io/" ++ image
]

-- `endpoint` is already normalised.
unfoldable pub rewrite_to : Text → Text → Option Text
unfolding starts_with normalize_upstream_image
rewrite_to endpoint image =
    if is_empty endpoint || is_empty image
    then none
    else if text_eq image endpoint || starts_with image (endpoint ++ text "/")
    then none
    else some (endpoint ++ text "/" ++ normalize_upstream_image image)

unfoldable pub rewrite_image : Text → Text → Option Text
unfolding normalize_registry_endpoint rewrite_to
rewrite_image image registry_endpoint =
    rewrite_to (normalize_registry_endpoint registry_endpoint) image

pub record JsonPatchOperation : Type 0 where
  pub op : Text
  pub path : Text
  pub value : Text

pub record AdmissionStatus : Type 0 where
  pub message : Text

pub record AdmissionResponse : Type 0 where
  pub uid : Text
  pub allowed : Bool
  pub patch : Option Text
  pub patch_type : Option Text
  pub status : Option AdmissionStatus

-- `format!("{pointer}/{index}/image")`.
abbrev pub image_path : Text → ℕ → Text
image_path pointer index = pointer ++ text "/" ++ to_text index ++ text "/image"

abbrev pub init_containers : Text
init_containers = text "/spec/initContainers"

abbrev pub containers : Text
containers = text "/spec/containers"

abbrev pub ephemeral_containers : Text
ephemeral_containers = text "/spec/ephemeralContainers"

-- `serde_json::to_vec` of the patches, and the base64 encoder. `to_vec` fails with a message.
pub data Encoded : Type 0 where
  bytes : List ℕ → Encoded
  failed : Text → Encoded

pub record PatchEncoder : Type 0 where
  pub to_vec : List JsonPatchOperation → Encoded
  pub encode : List ℕ → Text

module _ (J : Json) where
  open J use {Value, get, as_str, as_array}

  pub record AdmissionRequest : Type 0 where
    pub uid : Text
    pub namespace : Option Text
    pub name : Option Text
    pub operation : Text
    pub object : Value

  pub record AdmissionReview : Type 0 where
    pub api_version : Text
    pub kind : Text
    pub request : Option AdmissionRequest
    pub response : Option AdmissionResponse

  -- `container.get("image").and_then(Value::as_str)`.
  abbrev pub image_of : Value → Option Text
  image_of container = do as_str (← get container (text "image"))

  -- One round of the loop of `collect_container_patches`.
  unfoldable pub patch_of : Text → Text → ℕ → Value → Option JsonPatchOperation
  patch_of registry_endpoint pointer index container = do
    image ← image_of container
    value ← rewrite_image image registry_endpoint
    some (record { op = text "replace"; path = image_path pointer index; value = value })

  -- The loop, from the container at `index` on.
  unfoldable pub patches_from : Text → Text → ℕ → List Value → List JsonPatchOperation
  patches_from registry_endpoint pointer index [] = []
  patches_from registry_endpoint pointer index (container ∷ rest) =
      let later = patches_from registry_endpoint pointer (suc index) rest in
      elim (patch_of registry_endpoint pointer index container) [
        | none ↦ later
        | some patch ↦ patch ∷ later
      ]

  -- `pod.pointer(pointer).and_then(Value::as_array)`.
  abbrev pub containers_at : Value → Text → Option (List Value)
  containers_at pod pointer = do as_array (← J.pointer pod pointer)

  unfoldable pub collect_container_patches : Value → Text → Text → List JsonPatchOperation
  unfolding patches_from patch_of
  collect_container_patches pod pointer registry_endpoint = elim (containers_at pod pointer) [
    | none ↦ []
    | some cs ↦ patches_from registry_endpoint pointer 0 cs
  ]

  unfoldable pub build_pod_image_patches : Value → Text → List JsonPatchOperation
  unfolding collect_container_patches
  build_pod_image_patches pod registry_endpoint =
      collect_container_patches pod init_containers registry_endpoint
      ++ (collect_container_patches pod containers registry_endpoint
          ++ collect_container_patches pod ephemeral_containers registry_endpoint)

  abbrev pub refused : Text → Text → AdmissionResponse
  refused uid message = record {
    uid = uid;
    allowed = false;
    patch = none;
    patch_type = none;
    status = some (record { message = message });
  }

  abbrev pub allowed : Text → Option Text → Option Text → AdmissionResponse
  allowed uid patch patch_type = record {
    uid = uid;
    allowed = true;
    patch = patch;
    patch_type = patch_type;
    status = none;
  }

  module _ (E : PatchEncoder) where
    -- The answer to a request with these patches.
    unfoldable pub respond : Text → List JsonPatchOperation → AdmissionResponse
    respond uid [] = allowed uid none none
    respond uid (patch ∷ patches) = elim (E.to_vec (patch ∷ patches)) [
      | bytes data_bytes ↦ allowed uid (some (E.encode data_bytes)) (some (text "JSONPatch"))
      | failed error ↦ refused uid (text "failed to encode image rewrite patch: " ++ error)
    ]

    -- `review.request.take()` leaves no request behind.
    unfoldable pub mutate_pod_review : AdmissionReview → Text → AdmissionReview
    unfolding respond build_pod_image_patches
    mutate_pod_review review registry_endpoint = elim review.request [
      | none ↦ record review {
        response = some (refused [] (text "AdmissionReview request is missing"));
      }
      | some request ↦ record review {
        request = none;
        response =
            some (respond request.uid (build_pod_image_patches request.object registry_endpoint));
      }
    ]
