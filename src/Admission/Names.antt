-- ===== src/Admission/Names.antt =====
-- How image names are rewritten.
use pulld.Base.{◌≡◌, refl, Bool, true, false, none, some, ◌++◌, arith, Option-cases, inl, inr}
use mathlib.Core.List.{append_assoc}
use pulld.Text.{Text, text, contains, split_once}
use pulld.Text.Laws.{
  starts_with-append, contains_right, contains_here, split_once-eq-some, split_once-none,
}
use pulld.Admission.{
  normalize_registry_endpoint, is_explicit_registry, normalize_upstream_image, rewrite_image,
}

contains_slash :
    (image first remainder : Text)
    → split_once image b'/' ≡ some (first, remainder)
    → contains image b'/' ≡ true
contains_slash image first remainder e =
    let (whole, _) = split_once-eq-some image b'/' first remainder e in
    rw whole (contains_right first _ b'/' (contains_here b'/' remainder))

hub :
    (image : Text)
    → contains image b'/' ≡ true
    → normalize_upstream_image (text "docker.io/" ++ image) ≡ text "docker.io/" ++ image
unfolding normalize_upstream_image
hub image h = rw h

library :
    (image : Text)
    → normalize_upstream_image (text "docker.io/library/" ++ image)
      ≡ text "docker.io/library/" ++ image
unfolding normalize_upstream_image
library image = refl

-- Normalising a normalised image name changes nothing.
pub normalize_upstream_image_idem :
    (image : Text)
    → normalize_upstream_image (normalize_upstream_image image) ≡ normalize_upstream_image image
unfolding normalize_upstream_image
normalize_upstream_image_idem image = elim (Option-cases (split_once image b'/')) [
  | inl e ↦ rw (e, normalize_upstream_image) (library image)
  | inr ((first, remainder), e) ↦
      ground (
        arith,
        hub remainder,
        hub image (contains_slash image first remainder e),
        library remainder,
      )
]

-- Does the name begin with the host of a registry?
abbrev pub names_registry : Text → Bool
names_registry image = elim (split_once image b'/') [
  | none ↦ false
  | some (first, remainder) ↦ is_explicit_registry first
]

-- A name with no registry's host in front, and the name behind any of the three hosts of Docker
-- Hub, are normalised to one name.
pub normalize_upstream_image_aliases :
    (image : Text)
    → names_registry image ≡ false
    → (normalize_upstream_image (text "docker.io/" ++ image) ≡ normalize_upstream_image image)
      × (normalize_upstream_image (text "index.docker.io/" ++ image)
          ≡ normalize_upstream_image image)
      × (normalize_upstream_image (text "registry-1.docker.io/" ++ image)
          ≡ normalize_upstream_image image)
unfolding normalize_upstream_image
normalize_upstream_image_aliases image h = elim (Option-cases (split_once image b'/')) [
  | inl e ↦ let no_slash = split_once-none image b'/' e in ground arith
  | inr ((first, remainder), e) ↦ let slash = contains_slash image first remainder e in ground arith
]

-- An image that was rewritten to an endpoint is left alone from then on.
pub rewrite_image_idem :
    (image endpoint value : Text)
    → rewrite_image image endpoint ≡ some value
    → rewrite_image value endpoint ≡ none
unfolding rewrite_image
rewrite_image_idem image endpoint value h = ground (
  arith,
  starts_with-append (normalize_registry_endpoint endpoint ++ text "/")
      (normalize_upstream_image image),
  append_assoc (normalize_registry_endpoint endpoint) (text "/") (normalize_upstream_image image),
)
