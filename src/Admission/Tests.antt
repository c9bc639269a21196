-- ===== src/Admission/Tests.antt =====
-- The webhook at concrete pods.
use mathlib.Core.List.{Memᴰ}
use pulld.Base.{◌≡◌, refl, ◌↔◌, false, ◌&&◌, not, none, some, [], ◌∷◌, is_empty, is_some}
use pulld.Json.{Json}
use pulld.Json.Sample.{sample_json, Value, str, arr, obj, nil, cons, end, field}
use pulld.Text.{Text, text, split}
use pulld.Text.Numbers.{to_text}
use pulld.Admission.{
  rewrite_image, normalize_upstream_image, JsonPatchOperation, build_pod_image_patches,
  PatchEncoder, bytes, failed, AdmissionReview, AdmissionRequest, AdmissionResponse,
  mutate_pod_review,
}
use pulld.Admission.Names.{normalize_upstream_image_idem}
use pulld.Admission.Patches.{mem-build_pod_image_patches_iff, RewritesIn}
use pulld.Admission.Reviews.{mutate_pod_review_lem}

abbrev J : Json
J = sample_json (λ b. none)

abbrev encoder : PatchEncoder
encoder = record { to_vec = λ ps. bytes []; encode = λ b. b }

abbrev container : Text → Value
container image = obj (field (text "image") (str image) end)

-- A pod with one init container and one container.
abbrev pod : Text → Text → Value
pod first second = obj (
    field (text "spec")
      (obj (
        field (text "initContainers") (arr (cons (container first) nil))
          (field (text "containers") (arr (cons (container second) nil)) end)))
      end)

abbrev fresh : Value
fresh = pod (text "nginx") (text "pulld.4lock.net/quay.io/a/b:1")

abbrev settled : Value
settled =
    pod (text "pulld.4lock.net/docker.io/library/nginx") (text "pulld.4lock.net/quay.io/a/b:1")

abbrev endpoint : Text
endpoint = text " https://pulld.4lock.net/ "

rewrites :
    (rewrite_image (text "nginx") endpoint ≡ some (text "pulld.4lock.net/docker.io/library/nginx"))
    × (rewrite_image (text "index.docker.io/a/b") endpoint
        ≡ some (text "pulld.4lock.net/docker.io/a/b"))
    × (rewrite_image (text "localhost:5000/a") endpoint
        ≡ some (text "pulld.4lock.net/localhost:5000/a"))
    × (rewrite_image (text "pulld.4lock.net/x") endpoint ≡ none)
unfolding rewrite_image
rewrites = (refl, refl, refl, refl)

abbrev patch : JsonPatchOperation
patch = record {
  op = text "replace";
  path = text "/spec/initContainers/0/image";
  value = text "pulld.4lock.net/docker.io/library/nginx";
}

patches : build_pod_image_patches J fresh endpoint ≡ patch ∷ []
unfolding build_pod_image_patches rewrite_image split to_text
patches = refl

normalize_upstream_image_idem_example :
    normalize_upstream_image (normalize_upstream_image (text "a/b"))
    ≡ normalize_upstream_image (text "a/b")
normalize_upstream_image_idem_example = normalize_upstream_image_idem (text "a/b")

mem-build_pod_image_patches_iff_example :
    Memᴰ patch (build_pod_image_patches J fresh endpoint) ↔ RewritesIn J endpoint fresh patch
mem-build_pod_image_patches_iff_example = mem-build_pod_image_patches_iff J endpoint fresh patch

abbrev asked : AdmissionRequest J
asked = record {
  uid = text "1";
  namespace = none;
  name = none;
  operation = text "CREATE";
  object = fresh;
}

abbrev review : AdmissionReview J
review = record {
  api_version = text "admission.k8s.io/v1";
  kind = text "AdmissionReview";
  request = some asked;
  response = none;
}

mutate_pod_review_lem_example :
    let result = mutate_pod_review J encoder review endpoint in
    let patches = build_pod_image_patches J fresh endpoint in
    (r : AdmissionResponse) × (result ≡ record review { request = none; response = some r })
    × (r.uid ≡ text "1")
    × (is_some r.status ≡ not r.allowed)
    × (is_some r.patch ≡ (r.allowed && not (is_empty patches)))
    × (is_some r.patch_type ≡ is_some r.patch)
    × (r.allowed ≡ false → (message : Text) × (encoder.to_vec patches ≡ failed message))
mutate_pod_review_lem_example = mutate_pod_review_lem J encoder review asked endpoint refl
