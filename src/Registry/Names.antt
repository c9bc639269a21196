-- ===== src/Registry/Names.antt =====
-- The names of repositories and images: `parse_repository` of src/registry/manifest.rs, and
-- `image_reference` of src/server.rs.
pub mod References
pub mod Repositories
mod Tests
use pulld.Base.{ℕ, Bool, ◌&&◌, not, none, some, ◌∷◌, ◌++◌, ◌==◌, if◌then◌else◌}
use pulld.Text.{Text, text, text_eq, starts_with, contains, split_once, count_char}

abbrev pub default_registry_name : Text
default_registry_name = text "docker.io"

-- A registry and a repository in it.
unfoldable pub parse_repository : Text → Text × Text
unfolding split_once contains count_char
parse_repository name = elim (split_once name b'/') [
  | none ↦ (default_registry_name, text "library/" ++ name)
  | some (first_part, rest) ↦
      if text_eq first_part (text "library")
      then (default_registry_name, name)
      else if not (contains first_part b'.') && count_char name b'/' == 1
      then (default_registry_name, name)
      else (first_part, rest)
]

unfoldable pub image_reference : Text → Text → Text
unfolding starts_with
image_reference name reference =
    if starts_with reference (text "sha256:")
    then name ++ (b'@' ∷ reference)
    else name ++ (b':' ∷ reference)
