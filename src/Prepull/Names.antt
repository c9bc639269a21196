-- ===== src/Prepull/Names.antt =====
-- `parse_image_reference` and `parse_repository` of src/prepull.rs.
use pulld.Base.{◌||◌, not, none, some, ◌++◌, if◌then◌else◌}
use pulld.Text.{Text, text, starts_with, contains, split_once, rsplit_once, strip_prefix}
use pulld.Registry.Names.{default_registry_name}

-- A name, and a tag or a digest.
unfoldable pub parse_image_reference : Text → Text × Text
unfolding split_once rsplit_once contains
parse_image_reference image_ref = elim (split_once image_ref b'@') [
  | some (name, digest) ↦ (name, digest)
  | none ↦ elim (rsplit_once image_ref b':') [
    | some (before_colon, tag) ↦
        if contains before_colon b'/' || not (contains before_colon b'.')
        then (before_colon, tag)
        else (image_ref, text "latest")
    | none ↦ (image_ref, text "latest")
  ]
]

abbrev pub proxy_prefix : Text
proxy_prefix = text "pulld.internal:5050/"

unfoldable pub parse_repository : Text → Text × Text
unfolding strip_prefix starts_with split_once
parse_repository name = elim (strip_prefix name proxy_prefix) [
  | some path ↦
      if starts_with path (text "rancher/")
      then (text "docker.io", path)
      else (text "registry.k8s.io", path)
  | none ↦ elim (split_once name b'/') [
    | some (registry, repo) ↦ (registry, repo)
    | none ↦ (default_registry_name, text "library/" ++ name)
  ]
]
