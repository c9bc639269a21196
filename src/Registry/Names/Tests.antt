-- ===== src/Registry/Names/Tests.antt =====
-- Names at concrete images.
use pulld.Base.{◌≡◌, refl, ◌↔◌, ◌⊎◌, true}
use pulld.Text.{text, contains, strip_prefix}
use pulld.Registry.Names.{parse_repository}
use pulld.Prepull.Names.{parse_image_reference, parse_repository as prepull_repository}
use pulld.Registry.Names.Repositories.{names_registry, parse_repository-agree_iff}

repositories :
    (parse_repository (text "nginx") ≡ (text "docker.io", text "library/nginx"))
    × (parse_repository (text "library/alpine") ≡ (text "docker.io", text "library/alpine"))
    × (parse_repository (text "zyclonite/zerotier") ≡ (text "docker.io", text "zyclonite/zerotier"))
    × (parse_repository (text "quay.io/cilium/cilium") ≡ (text "quay.io", text "cilium/cilium"))
    × (prepull_repository (text "pulld.internal:5050/rancher/k3s")
        ≡ (text "docker.io", text "rancher/k3s"))
    × (prepull_repository (text "pulld.internal:5050/pause")
        ≡ (text "registry.k8s.io", text "pause"))
unfolding parse_repository prepull_repository
repositories = (refl, refl, refl, refl, refl, refl)

image_references :
    (parse_image_reference (text "nginx") ≡ (text "nginx", text "latest"))
    × (parse_image_reference (text "nginx:1.25") ≡ (text "nginx", text "1.25"))
    × (parse_image_reference (text "r.io:5000/a") ≡ (text "r.io:5000/a", text "latest"))
    × (parse_image_reference (text "a@sha256:0") ≡ (text "a", text "sha256:0"))
unfolding parse_image_reference
image_references = (refl, refl, refl, refl)

parse_repository-agree_iff_example :
    ((prepull_repository (text "docker.io/library/alpine")
        ≡ parse_repository (text "docker.io/library/alpine"))
      ↔ (names_registry (text "docker.io") (text "library/alpine") ≡ true))
    × ((names_registry (text "docker.io") (text "library/alpine") ≡ true)
        ⊎ ((parse_repository (text "docker.io/library/alpine")
              ≡ (text "docker.io", text "docker.io/library/alpine"))
            × (prepull_repository (text "docker.io/library/alpine")
                ≡ (text "docker.io", text "library/alpine"))))
unfolding contains strip_prefix
parse_repository-agree_iff_example =
    parse_repository-agree_iff (text "docker.io") (text "library/alpine") refl refl
