-- ===== src/Server/Routes.antt =====
-- What the paths of clients are routed to.
use pulld.Base.{
  append_nil, ℕ, suc, ◌+◌, ◌≤◌, ◌<◌, ◌≡◌, refl, ap, ◌∙◌, true, false, none, some, [], ◌∷◌, ◌++◌,
  arith, length, leb, Option-cases, inl, inr,
}
use pulld.Text.{Text, text, strip_prefix, contains, count_char}
use pulld.Text.Laws.{strip_prefix-eq-some, strip_prefix-append}
use pulld.Server.{rsplit_text, manifest, blob, panics, strip_double, route, v2_prefix}

count_char-append : (s t : Text) (c : ℕ) → count_char (s ++ t) c ≡ count_char s c + count_char t c
unfolding count_char
count_char-append [] t c = omega arith
count_char-append (d ∷ s) t c = ground (arith, count_char-append s t c)

count_char-lacks : (s : Text) (c : ℕ) → contains s c ≡ false → count_char s c ≡ 0
unfolding count_char contains
count_char-lacks [] c h = refl
count_char-lacks (d ∷ s) c h = ground (arith, count_char-lacks s c)

strip_prefix-counted :
    (s p : Text) (c : ℕ) → count_char s c < count_char p c → strip_prefix s p ≡ none
strip_prefix-counted s p c h = elim (Option-cases (strip_prefix s p)) [
  | inl e ↦ e
  | inr (r, e) ↦ absurd (
      omega
        (arith, ap (λ t. count_char t c) (strip_prefix-eq-some s p r e), count_char-append p r c))
]

count_char-cons : (d : ℕ) (s : Text) (c : ℕ) → count_char s c ≤ count_char (d ∷ s) c
unfolding count_char
count_char-cons d s c = ground arith

-- A text with fewer slashes than another does not have it inside.
rsplit_text-counted :
    (s p : Text) (c : ℕ) → count_char s c < count_char p c → rsplit_text s p ≡ none
unfolding rsplit_text
rsplit_text-counted [] p c h = rw (rsplit_text, strip_prefix-counted [] p c h) refl
rsplit_text-counted (d ∷ s) p c h =
    rw
      (
        rsplit_text,
        rsplit_text-counted s p c (ground (arith, count_char-cons d s c)),
        strip_prefix-counted (d ∷ s) p c h,
      )
      refl

rsplit_text-append :
    (a s p u v : Text) → rsplit_text s p ≡ some (u, v) → rsplit_text (a ++ s) p ≡ some (a ++ u, v)
unfolding rsplit_text
rsplit_text-append [] s p u v h = h
rsplit_text-append (d ∷ a) s p u v h = rw (rsplit_text-append a s p u v h) refl

count_char-here : (s : Text) (c : ℕ) → count_char (c ∷ s) c ≡ suc (count_char s c)
unfolding count_char
count_char-here s c = ground arith

rsplit_text-here :
    (d : ℕ) (s p rest : Text)
    → rsplit_text s p ≡ none
    → strip_prefix (d ∷ s) p ≡ some rest
    → rsplit_text (d ∷ s) p ≡ some ([], rest)
unfolding rsplit_text
rsplit_text-here d s p rest h f = rw (rsplit_text, h, f) refl

-- A separator of two slashes that begins with one, in front of a part without a slash.
rsplit_text-at :
    (a word rest : Text)
    → count_char word b'/' ≡ 1
    → contains rest b'/' ≡ false
    → rsplit_text (a ++ b'/' ∷ (word ++ rest)) (b'/' ∷ word) ≡ some (a ++ [], rest)
rsplit_text-at a word rest one h =
    rsplit_text-append a (b'/' ∷ (word ++ rest)) (b'/' ∷ word) [] rest (
      here (
        rsplit_text-counted (word ++ rest) (b'/' ∷ word) b'/'
          (fewer (count_char-append word rest b'/') (count_char-lacks rest b'/' h))))
  where
    fewer :
        count_char (word ++ rest) b'/' ≡ count_char word b'/' + count_char rest b'/'
        → count_char rest b'/' ≡ 0
        → count_char (word ++ rest) b'/' < count_char (b'/' ∷ word) b'/'
    fewer e f = omega (arith, count_char-here word b'/')

    here :
        rsplit_text (word ++ rest) (b'/' ∷ word) ≡ none
        → rsplit_text (b'/' ∷ (word ++ rest)) (b'/' ∷ word) ≡ some ([], rest)
    here e =
        rsplit_text-here b'/' (word ++ rest) (b'/' ∷ word) rest e
          (strip_prefix-append (b'/' ∷ word) rest)

abbrev pub manifest_url : Text → Text → Text
manifest_url name reference = text "/v2/" ++ (name ++ (text "/manifests/" ++ reference))

abbrev pub blob_url : Text → Text → Text
blob_url name digest = text "/v2/" ++ (name ++ (text "/blobs/" ++ digest))

manifests-rsplit_text :
    (name reference : Text)
    → contains reference b'/' ≡ false
    → rsplit_text (manifest_url name reference) (text "/manifests/")
      ≡ some (text "/v2/" ++ name, reference)
unfolding count_char
manifests-rsplit_text name reference h =
    rsplit_text-at (text "/v2/" ++ name) (text "manifests/") reference refl h
    ∙ ap (λ a. some (text "/v2/" ++ a, reference)) (append_nil name)

blobs-rsplit_text :
    (name digest : Text)
    → contains digest b'/' ≡ false
    → rsplit_text (blob_url name digest) (text "/blobs/") ≡ some (text "/v2/" ++ name, digest)
unfolding count_char
blobs-rsplit_text name digest h =
    rsplit_text-at (text "/v2/" ++ name) (text "blobs/") digest refl h
    ∙ ap (λ a. some (text "/v2/" ++ a, digest)) (append_nil name)

strip_double-none :
    (path : Text) → strip_prefix path (text "/v2/v2/") ≡ none → strip_double path ≡ path
unfolding strip_double
strip_double-none path h = rw (strip_double, h) refl

long_enough : (name : Text) → leb (length v2_prefix) (length (text "/v2/" ++ name)) ≡ true
long_enough name = ground arith

-- The path of a manifest that does not begin with `/v2/v2/` is routed to its name and its reference,
-- whatever slashes the name has, if the reference has none.
pub route-manifest_url :
    (name reference : Text)
    → contains reference b'/' ≡ false
    → strip_prefix (manifest_url name reference) (text "/v2/v2/") ≡ none
    → route (manifest_url name reference) ≡ manifest name reference
unfolding route
route-manifest_url name reference h p =
    rw
      (
        route,
        strip_double-none (manifest_url name reference) p,
        manifests-rsplit_text name reference h,
        long_enough name,
      )
      refl

-- The path of a blob that does not begin with `/v2/v2/` and has no `/manifests/` inside is routed to
-- its name and its digest, whatever slashes the name has, if the digest has none.
pub route-blob_url :
    (name digest : Text)
    → contains digest b'/' ≡ false
    → strip_prefix (blob_url name digest) (text "/v2/v2/") ≡ none
    → rsplit_text (blob_url name digest) (text "/manifests/") ≡ none
    → route (blob_url name digest) ≡ blob name digest
unfolding route
route-blob_url name digest h p n =
    rw
      (
        route,
        strip_double-none (blob_url name digest) p,
        n,
        strip_double-none (blob_url name digest) p,
        blobs-rsplit_text name digest h,
        long_enough name,
      )
      refl

rsplit_text-skip :
    (d : ℕ) (s p : Text)
    → rsplit_text s p ≡ none
    → strip_prefix (d ∷ s) p ≡ none
    → rsplit_text (d ∷ s) p ≡ none
unfolding rsplit_text
rsplit_text-skip d s p h f = rw (rsplit_text, h, f) refl

no_manifests :
    (digest : Text)
    → contains digest b'/' ≡ false
    → rsplit_text (text "/v2/blobs/" ++ digest) (text "/manifests/") ≡ none
unfolding strip_prefix count_char
no_manifests digest h =
    let rest = rsplit_text-counted (text "blobs/" ++ digest) (text "/manifests/") b'/' few in
    rsplit_text-skip b'/' (text "v2/blobs/" ++ digest) (text "/manifests/")
      (rsplit_text-skip b'v' (text "2/blobs/" ++ digest) (text "/manifests/")
        (rsplit_text-skip b'2' (text "/blobs/" ++ digest) (text "/manifests/")
          (rsplit_text-skip b'/' (text "blobs/" ++ digest) (text "/manifests/") rest refl) refl)
        refl)
      refl
  where
    few : count_char (text "blobs/" ++ digest) b'/' < count_char (text "/manifests/") b'/'
    few =
        omega (arith, count_char-append (text "blobs/") digest b'/', count_char-lacks digest b'/' h)

-- A path of manifests or of blobs without a name panics: the slice of its name ends before it begins.
pub route-unnamed :
    (reference : Text)
    → contains reference b'/' ≡ false
    → (route (text "/v2/manifests/" ++ reference) ≡ panics)
      × (route (text "/v2/blobs/" ++ reference) ≡ panics)
unfolding route count_char strip_double strip_prefix
route-unnamed reference h = (
  rw (route, rsplit_text-at (text "/v2") (text "manifests/") reference refl h) refl,
  rw (route, no_manifests reference h, rsplit_text-at (text "/v2") (text "blobs/") reference refl h)
      refl,
)
