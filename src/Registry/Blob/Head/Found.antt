-- ===== src/Registry/Blob/Head/Found.antt =====
-- When `head_blob` finds a blob.
use pulld.Base.{
  ℕ, suc, ◌≡◌, refl, Bool, false, ◌||◌, Option, none, some, List, [], ◌∷◌, ◌++◌, Option-cases, inl,
  inr, is_some, not, ◌==◌,
}
use pulld.Text.{Text, text}
use pulld.Cache.{CacheStorage}
use pulld.Cache.Disk.{ObjectStore, Cached}
use pulld.Registry.Names.{parse_repository}
use pulld.Registry.Upstreams.{Registries, get_upstream_client}
use pulld.Registry.Blob.{Reply}
use pulld.Registry.Blob.Head.{HeadNetwork, successful, head_on, head_blob, cached_size, probed}

-- Some mirror, from the index `i` on, answers a HEAD of the path with success.
abbrev pub has_blob : HeadNetwork → Text → ℕ → List Text → Bool
has_blob net path i [] = false
has_blob net path i (mirror ∷ mirrors) =
    is_some (successful (net.head i (mirror ++ path))) || has_blob net path (suc i) mirrors

abbrev pub is_missing : Reply → Bool
is_missing r = r.status == 404

probed-found : (digest : Text) (size : Option ℕ) → is_missing (probed digest size) ≡ false
probed-found digest none = refl
probed-found digest (some n) = refl

head_on-missing :
    (net : HeadNetwork) (path digest : Text) (i : ℕ) (mirrors : List Text)
    → is_missing (head_on net path digest i mirrors) ≡ not (has_blob net path i mirrors)
unfolding head_on
head_on-missing net path digest i [] = refl
head_on-missing net path digest i (mirror ∷ mirrors) =
    elim (Option-cases (successful (net.head i (mirror ++ path)))) [
      | inl e ↦ rw (head_on, e) (head_on-missing net path digest (suc i) mirrors)
      | inr (r, e) ↦ rw (head_on, e) (probed-found digest _)
    ]

-- A HEAD of a blob is answered by 404 exactly if the cache has no byte of it and no mirror of its
-- registry answers a HEAD with success.
pub head_blob-missing :
    (S : ObjectStore) (c : CacheStorage) (net : HeadNetwork) (cached : Cached S)
    (registries : Registries) (name digest : Text)
    → let (registry, repository) = parse_repository name in
      let (client, registries') = get_upstream_client registries registry in
      is_missing (head_blob S c net cached registries name digest).0
      ≡ not (
          is_some (cached_size S c cached digest)
          || has_blob net (text "/v2/" ++ repository ++ text "/blobs/" ++ digest) 0 client.mirrors)
unfolding head_blob
head_blob-missing S c net cached registries name digest =
    elim (Option-cases (cached_size S c cached digest)) [
      | inl e ↦ rw (head_blob, e) (head_on-missing net _ digest 0 _)
      | inr (size, e) ↦ rw (head_blob, e) refl
    ]
