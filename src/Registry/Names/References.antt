-- ===== src/Registry/Names/References.antt =====
-- Image references: what the server writes, `parse_image_reference` reads.
use pulld.Base.{◌≡◌, refl, true, false, ◌||◌, not, ◌∷◌, ◌++◌, arith}
use mathlib.Core.List.{append_assoc}
use pulld.Text.{Text, text, starts_with, contains}
use pulld.Text.Laws.{
  split_once-append, split_once-eq-none, rsplit_once-append, contains-++, contains-cons,
  starts_with-lacks,
}
use pulld.Registry.Names.{image_reference}
use pulld.Prepull.Names.{parse_image_reference}

-- A reference to an image by its digest is read back, if the name has no `@`.
pub parse_image_reference-digest :
    (name digest : Text)
    → contains name b'@' ≡ false
    → starts_with digest (text "sha256:") ≡ true
    → parse_image_reference (image_reference name digest) ≡ (name, digest)
unfolding parse_image_reference image_reference
parse_image_reference-digest name digest n d =
    rw (d, image_reference) (rw (split_once-append name digest b'@' n, parse_image_reference) refl)

image_reference-tag :
    (name tag : Text) → contains tag b':' ≡ false → image_reference name tag ≡ name ++ (b':' ∷ tag)
unfolding image_reference contains
image_reference-tag name tag c =
    rw (starts_with-lacks tag (text "sha256:") b':' refl c, image_reference) refl

parse-tag :
    (name tag : Text)
    → contains name b'@' ≡ false
    → contains tag b'@' ≡ false
    → contains tag b':' ≡ false
    → (contains name b'/' || not (contains name b'.')) ≡ true
    → parse_image_reference (name ++ (b':' ∷ tag)) ≡ (name, tag)
unfolding parse_image_reference
parse-tag name tag n t c h =
    rw (split_once-eq-none (name ++ (b':' ∷ tag)) b'@' no_at, parse_image_reference)
      (rw (rsplit_once-append name tag b':' c) (rw h refl))
  where
    no_at : contains (name ++ (b':' ∷ tag)) b'@' ≡ false
    no_at = rw (contains-++ name (b':' ∷ tag) b'@', n, contains-cons b':' tag b'@', t) refl

-- A reference by a tag is read back, if neither part has an `@`, the tag has no `:`, and the name
-- has a `/` or lacks a dot.
pub parse_image_reference-tag :
    (name tag : Text)
    → contains name b'@' ≡ false
    → contains tag b'@' ≡ false
    → contains tag b':' ≡ false
    → (contains name b'/' || not (contains name b'.')) ≡ true
    → parse_image_reference (image_reference name tag) ≡ (name, tag)
parse_image_reference-tag name tag n t c h =
    rw (image_reference-tag name tag c) (parse-tag name tag n t c h)

-- A registry with a port but no dot in its host is misread: the host is taken for the name, and
-- the port with the rest for the tag.
pub parse_image_reference-port :
    (host port image : Text)
    → contains host b'@' ≡ false
    → contains host b'.' ≡ false
    → contains (port ++ (b'/' ∷ image)) b'@' ≡ false
    → contains (port ++ (b'/' ∷ image)) b':' ≡ false
    → parse_image_reference (host ++ (b':' ∷ port) ++ (b'/' ∷ image))
      ≡ (host, port ++ (b'/' ∷ image))
parse_image_reference-port host port image h d p q =
    rw (append_assoc host (b':' ∷ port) (b'/' ∷ image))
      (parse-tag host (port ++ (b'/' ∷ image)) h p q (ground arith))
