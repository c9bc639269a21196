-- ===== src/Prepull/Blobs.antt =====
-- `pull_blob` and `pull_blob_attempt` of src/prepull.rs. What an attempt meets is a parameter.
pub mod Attempts
use pulld.Base.{
  ℕ, zero, suc, Bool, Option, none, some, List, [], ◌∷◌, ◌++◌, ◌%◌, is_empty, length, if◌then◌else◌,
  DockerProxyError, Result, ok, err,
}
use pulld.Text.{Text, text}
use pulld.Text.Numbers.{u64_limit}
use pulld.Json.{Json}
use pulld.Cache.{CacheStorage}
use pulld.Cache.Disk.{Bytes, Disk, ObjectStore, Cached}
use pulld.Cache.Blobs.{read_blob, write_blob}
use pulld.Registry.Http.{Response, Request, is_success, all_bytes}
use pulld.Registry.Stats.{Float}
use pulld.Registry.Race.{Outcome, responded, failed, panicked}
use pulld.Prepull.Manifests.{Upstream, race, authorized, and_then, or_registry_error, successful}

-- A response to a single request.
abbrev answered : Outcome → Result Response
answered (responded r rtt total) = ok r
answered failed = err DockerProxyError.registry
answered panicked = err DockerProxyError.registry

module _ (X : Float) (J : Json) where
  -- With a token, the first mirror alone is asked again.
  abbrev ask_primary : Upstream → Text → Text → Result Response
  ask_primary u path token = elim u.mirrors [
    | [] ↦ err DockerProxyError.registry
    | primary ∷ mirrors ↦
        and_then
          (answered (
            u.net.send primary (record {
              url_path = path;
              auth_token = some token;
              accept_header = none;
              range_header = none;
            })))
          successful
  ]

  unfoldable pub request_blob : Upstream → Text → Text → Result Response
  unfolding authorized
  request_blob u repository digest =
      let path = text "/v2/" ++ repository ++ text "/blobs/" ++ digest in
      if is_empty u.mirrors
      then err DockerProxyError.registry
      else and_then (or_registry_error (race X J u path none none))
          (λ r. and_then (authorized X J u repository (ask_primary u path) r) successful)

module _ (X : Float) (J : Json) (S : ObjectStore) (c : CacheStorage) (d : Disk) (now : ℕ) where
  -- The size of the blob; that it cannot be cached, or not be read back, is only logged.
  abbrev pub keep_blob : Text → Cached S → Result Response → Result ℕ × Cached S
  keep_blob digest s (err e) = (err e, s)
  keep_blob digest s (ok r) = elim (all_bytes r.body) [
    | none ↦ (err DockerProxyError.http, s)
    | some content ↦ (ok (length content % u64_limit), (write_blob S c d now s digest content).0)
  ]

  unfoldable pub pull_blob_attempt : Text → Text → Upstream → Cached S → Result ℕ × Cached S
  unfolding request_blob write_blob
  pull_blob_attempt digest repository u s =
      keep_blob digest s (request_blob X J u repository digest)

  -- The attempts from `attempt` on, of which `left` are left.
  unfoldable pub attempts :
      Text → Text → (ℕ → Upstream) → ℕ → ℕ → DockerProxyError → Cached S → Result ℕ × Cached S
  unfolding pull_blob_attempt
  attempts digest repository us attempt zero last s = (err last, s)
  attempts digest repository us attempt (suc left) last s =
      let (result, s') = pull_blob_attempt digest repository (us attempt) s in
      elim result [
        | ok size ↦ (ok size, s')
        | err e ↦ attempts digest repository us (suc attempt) left e s'
      ]

  unfoldable pub pull_blob : Text → Text → (ℕ → Upstream) → Cached S → Result ℕ × Cached S
  unfolding read_blob attempts
  pull_blob digest repository us s = elim (read_blob S c d s digest) [
    | ok content ↦ (ok (length content % u64_limit), s)
    | err e ↦ attempts digest repository us 1 3 DockerProxyError.registry s
  ]
