-- ===== src/Cache/Keys/Apart.antt =====
-- The three families of manifest keys in an object store do not meet.
use pulld.Base.{
  ◌≡◌, refl, ◌≢◌, sym, ap, ◌∙◌, Bool, false, not, Option, none, some, List, [], ◌∷◌, ◌++◌, arith,
  is_empty, filter, Option-cases, inl, inr,
}
use pulld.Text.{Text, text, strip_prefix, contains, replace, join, rsplit_once, text_eq}
use pulld.Text.Laws.{strip_prefix-eq-some, contains-++, rsplit_once-append, text_eq_iff}
use pulld.Cache.{CacheStorage, bare}
use pulld.Cache.Keys.{
  prefix_segments, object_key, manifest_object_key, manifest_object_key_by_digest,
  tag_digest_mapping_object_key,
}

join-snoc :
    (sep x : Text) (xs : List Text) (y : Text)
    → join sep ((x ∷ xs) ++ y ∷ []) ≡ join sep (x ∷ xs) ++ (sep ++ y)
unfolding join
join-snoc sep x [] y = refl
join-snoc sep x (z ∷ zs) y =
    rw (join-snoc sep z zs y) (regroup x sep (join sep (z ∷ zs)) (sep ++ y))
  where
    assoc : (a b c : Text) → a ++ (b ++ c) ≡ (a ++ b) ++ c
    assoc [] b c = refl
    assoc (d ∷ a) b c = rw (assoc a b c)

    regroup : (a b c d : Text) → a ++ (b ++ (c ++ d)) ≡ (a ++ (b ++ c)) ++ d
    regroup a b c d = ap (λ t. a ++ t) (assoc b c d) ∙ assoc a (b ++ c) d

filter-append :
    (p : Text → Bool) (xs ys : List Text) → filter p (xs ++ ys) ≡ filter p xs ++ filter p ys
filter-append p [] ys = refl
filter-append p (x ∷ xs) ys = ground (arith, filter-append p xs ys)

-- The directory of a key: all its segments but the last two.
abbrev directory : CacheStorage → Text → Text → List Text
directory c registry repository =
    prefix_segments c
    ++ filter (λ part. not (is_empty part)) (text "manifests" ∷ registry ∷ repository ∷ [])

-- The two last segments of a key.
key-cut :
    (xs : List Text) (kind file : Text)
    → contains kind b'/' ≡ false
    → contains file b'/' ≡ false
    → is_empty xs ≡ false
    → let k = join (text "/") (xs ++ kind ∷ file ∷ []) in
      (dir : Text) × (rsplit_once k b'/' ≡ some (dir, file))
      × (rsplit_once dir b'/' ≡ some (join (text "/") xs, kind))
key-cut [] kind file h f e = absurd (cc)
key-cut (x ∷ xs) kind file h f e = (
  join (text "/") (x ∷ xs) ++ b'/' ∷ kind,
  ap (λ t. rsplit_once t b'/')
        (ap (join (text "/")) (snoc-snoc (x ∷ xs) kind file) ∙ whole xs kind file)
      ∙ rsplit_once-append (join (text "/") (x ∷ xs) ++ b'/' ∷ kind) file b'/' f,
  rsplit_once-append (join (text "/") (x ∷ xs)) kind b'/' h,
)
  where
    snoc-snoc : (ys : List Text) (a b : Text) → ys ++ a ∷ b ∷ [] ≡ (ys ++ a ∷ []) ++ b ∷ []
    snoc-snoc [] a b = refl
    snoc-snoc (y ∷ ys) a b = rw (snoc-snoc ys a b)

    whole :
        (ys : List Text) (a b : Text)
        → join (text "/") (((x ∷ ys) ++ a ∷ []) ++ b ∷ [])
          ≡ (join (text "/") (x ∷ ys) ++ b'/' ∷ a) ++ b'/' ∷ b
    whole ys a b =
        join-snoc (text "/") x (ys ++ a ∷ []) b
        ∙ ap (λ t. t ++ b'/' ∷ b) (join-snoc (text "/") x ys a)

abbrev cut_or : Option (Text × Text) → Text × Text
cut_or none = ([], [])
cut_or (some c) = c

of_dir : (a b c d : Text) → ◌≡◌ {A = Option (Text × Text)} (some (a, c)) (some (b, d)) → a ≡ b
of_dir a b c d p = ap (λ o. (cut_or o).0) p

of_file : (a b c d : Text) → ◌≡◌ {A = Option (Text × Text)} (some (a, c)) (some (b, d)) → c ≡ d
of_file a b c d p = ap (λ o. (cut_or o).1) p

-- Keys with the same text have the same kind and the same file.
key-injective :
    (xs ys : List Text) (kind kind' file file' : Text)
    → contains kind b'/' ≡ false
    → contains kind' b'/' ≡ false
    → contains file b'/' ≡ false
    → contains file' b'/' ≡ false
    → is_empty xs ≡ false
    → is_empty ys ≡ false
    → join (text "/") (xs ++ kind ∷ file ∷ []) ≡ join (text "/") (ys ++ kind' ∷ file' ∷ [])
    → (kind ≡ kind') × (file ≡ file') × (join (text "/") xs ≡ join (text "/") ys)
key-injective xs ys kind kind' file file' h h' f f' e e' same =
    let (dir, cut, up) = key-cut xs kind file h f e in
    let (dir', cut', up') = key-cut ys kind' file' h' f' e' in
    let whole = sym cut ∙ ap (λ t. rsplit_once t b'/') same ∙ cut' in
    let upper = sym up ∙ ap (λ t. rsplit_once t b'/') (of_dir dir dir' file file' whole) ∙ up' in
    (
      of_file (join (text "/") xs) (join (text "/") ys) kind kind' upper,
      of_file dir dir' file file' whole,
      of_dir (join (text "/") xs) (join (text "/") ys) kind kind' upper,
    )

contains-bare : (digest : Text) → contains digest b'/' ≡ false → contains (bare digest) b'/' ≡ false
unfolding bare
contains-bare digest h = elim (Option-cases (strip_prefix digest (text "sha256:"))) [
  | inl e ↦ rw e h
  | inr (r, e) ↦ rw e (
      ground (
        arith,
        contains-++ (text "sha256:") r b'/',
        strip_prefix-eq-some digest (text "sha256:") r e,
      ))
]

contains-underscored :
    (s : Text) → contains s b'/' ≡ false → contains (replace s b':' (text "_")) b'/' ≡ false
unfolding contains replace
contains-underscored [] h = refl
contains-underscored (d ∷ s) h = ground (arith, contains-underscored s)

contains-file :
    (s extension : Text)
    → contains s b'/' ≡ false
    → contains extension b'/' ≡ false
    → contains (s ++ extension) b'/' ≡ false
contains-file s extension h f = ground (arith, contains-++ s extension b'/')

abbrev under : CacheStorage → Text → Text → Text
under c registry repository = join (text "/") (directory c registry repository)

prefix-nonempty :
    (c : CacheStorage) (registry repository : Text)
    → is_empty (directory c registry repository) ≡ false
prefix-nonempty c registry repository = is_empty-++ (prefix_segments c) (text "manifests") _
  where
    is_empty-++ : (xs : List Text) (y : Text) (ys : List Text) → is_empty (xs ++ y ∷ ys) ≡ false
    is_empty-++ [] y ys = refl
    is_empty-++ (x ∷ xs) y ys = refl

object_key-directory :
    (c : CacheStorage) (registry repository kind file : Text)
    → is_empty kind ≡ false
    → is_empty file ≡ false
    → object_key c (text "manifests" ∷ registry ∷ repository ∷ kind ∷ file ∷ [])
      ≡ join (text "/") (directory c registry repository ++ kind ∷ file ∷ [])
unfolding object_key
object_key-directory c registry repository kind file h f = ap (join (text "/")) (
    ap (λ t. prefix_segments c ++ t)
      (filter-append (λ part. not (is_empty part)) (text "manifests" ∷ registry ∷ repository ∷ [])
          (kind ∷ file ∷ [])
        ∙ ap
            (λ t.
              filter (λ part. not (is_empty part)) (text "manifests" ∷ registry ∷ repository ∷ [])
              ++ t)
            (kept h f))
    ∙ list-assoc (prefix_segments c) _ (kind ∷ file ∷ []))
  where
    kept :
        is_empty kind ≡ false
        → is_empty file ≡ false
        → filter (λ part. not (is_empty part)) (kind ∷ file ∷ []) ≡ kind ∷ file ∷ []
    kept h f = rw (h, f) refl

    list-assoc : (a b d : List Text) → a ++ (b ++ d) ≡ (a ++ b) ++ d
    list-assoc [] b d = refl
    list-assoc (x ∷ a) b d = rw (list-assoc a b d)

-- Where neither the reference, the digest nor the tag has a `/`, the keys of a reference's
-- manifest, of a digest's manifest and of a tag's mapping are three different keys, in whatever
-- registries and repositories.
pub manifest_keys-apart :
    (c : CacheStorage) (g1 g2 g3 r1 r2 r3 reference digest tag : Text)
    → contains reference b'/' ≡ false
    → contains digest b'/' ≡ false
    → contains tag b'/' ≡ false
    → (manifest_object_key c g1 r1 reference ≢ manifest_object_key_by_digest c g2 r2 digest)
      × (manifest_object_key c g1 r1 reference ≢ tag_digest_mapping_object_key c g3 r3 tag)
      × (manifest_object_key_by_digest c g2 r2 digest ≢ tag_digest_mapping_object_key c g3 r3 tag)
unfolding manifest_object_key manifest_object_key_by_digest tag_digest_mapping_object_key contains
manifest_keys-apart c g1 g2 g3 r1 r2 r3 reference digest tag h1 h2 h3 =
    let f1 =
      contains-file (replace (bare reference) b':' (text "_")) (text ".json")
        (contains-underscored (bare reference) (contains-bare reference h1)) refl in
    let f2 = contains-file (bare digest) (text ".json") (contains-bare digest h2) refl in
    let f3 =
      contains-file (replace tag b':' (text "_")) (text ".digest") (contains-underscored tag h3)
        refl in
    let n1 = nonempty (replace (bare reference) b':' (text "_")) (text ".json") refl in
    let n2 = nonempty (bare digest) (text ".json") refl in
    let n3 = nonempty (replace tag b':' (text "_")) (text ".digest") refl in
    (
      apart g1 g2 r1 r2 (text "refs") (text "sha256") _ _ refl refl refl refl f1 f2 n1 n2 refl,
      apart g1 g3 r1 r3 (text "refs") (text "tags") _ _ refl refl refl refl f1 f3 n1 n3 refl,
      apart g2 g3 r2 r3 (text "sha256") (text "tags") _ _ refl refl refl refl f2 f3 n2 n3 refl,
    )
  where
    nonempty : (a b : Text) → is_empty b ≡ false → is_empty (a ++ b) ≡ false
    nonempty [] b h = h
    nonempty (x ∷ a) b h = refl

    clash : {a b : Text} → a ≡ b → text_eq a b ≡ false → ⊥
    clash {a} {b} e f = let p = (text_eq_iff a b).1 e in cc

    apart :
        (g g' r r' kind kind' file file' : Text)
        → is_empty kind ≡ false
        → is_empty kind' ≡ false
        → contains kind b'/' ≡ false
        → contains kind' b'/' ≡ false
        → contains file b'/' ≡ false
        → contains file' b'/' ≡ false
        → is_empty file ≡ false
        → is_empty file' ≡ false
        → text_eq kind kind' ≡ false
        → object_key c (text "manifests" ∷ g ∷ r ∷ kind ∷ file ∷ [])
          ≢ object_key c (text "manifests" ∷ g' ∷ r' ∷ kind' ∷ file' ∷ [])
    apart g g' r r' kind kind' file file' n n' k k' f f' e e' different same = absurd (
        clash
          (key-injective (directory c g r) (directory c g' r') kind kind' file file' k k' f f'
            (prefix-nonempty c g r) (prefix-nonempty c g' r')
            (sym (object_key-directory c g r kind file n e)
              ∙ same
              ∙ object_key-directory c g' r' kind' file' n' e')).0
          different)
