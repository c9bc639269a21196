-- ===== src/Prepull/Blobs/Attempts.antt =====
-- The attempts of `pull_blob`, and what it stores.
use pulld.Base.{
  ℕ, zero, suc, ◌+◌, ◌≤◌, ◌<◌, ◌≡◌, refl, sym, ap, subst, false, ◌⊎◌, inl, inr, arith, ◌%◌, length,
  some, Option-cases, Result-cases, DockerProxyError, Result, ok, err,
}
use native.Mathlib.Decide.{dec_lt}
use pulld.Text.{Text}
use pulld.Text.Numbers.{u64_limit}
use pulld.Json.{Json}
use pulld.Cache.{CacheStorage, filesystem}
use pulld.Cache.Disk.{Bytes, Disk, ObjectStore, Cached}
use pulld.Cache.Keys.{blob_path}
use pulld.Cache.Blobs.{read_blob, write_blob}
use pulld.Cache.Blobs.Writes.{write_blob-read_blob}
use pulld.Registry.Http.{Response, all_bytes}
use pulld.Registry.Stats.{Float}
use pulld.Prepull.Manifests.{Upstream}
use pulld.Prepull.Blobs.{request_blob, pull_blob_attempt, attempts, pull_blob, keep_blob}

abbrev pub Fails : Result ℕ → Type 0
Fails (ok a) = ⊥
Fails (err e) = Unit

abbrev pub Succeeds : Result ℕ → Type 0
Succeeds (ok a) = Unit
Succeeds (err e) = ⊥

module _ (X : Float) (J : Json) (S : ObjectStore) (c : CacheStorage) (d : Disk) (now : ℕ)
    (digest repository : Text) where
  -- An attempt that fails changes nothing.
  attempt_unchanged :
      (u : Upstream) (s : Cached S) (e : DockerProxyError)
      → (pull_blob_attempt X J S c d now digest repository u s).0 ≡ err e
      → (pull_blob_attempt X J S c d now digest repository u s).1 ≡ s
  unfolding pull_blob_attempt
  attempt_unchanged u s e h = of_response (request_blob X J u repository digest) h
    where
      of_response :
          (r : Result Response)
          → (keep_blob X J S c d now digest s r).0 ≡ err e
          → (keep_blob X J S c d now digest s r).1 ≡ s
      of_response (err x) h = refl
      of_response (ok r) h = elim (Option-cases (all_bytes r.body)) [
        | inl n ↦ rw (keep_blob, n) refl
        | inr (content, n) ↦ absurd (ground arith)
      ]

  -- What the attempts come to, each with the state `s` of the first.
  abbrev pub IsTried : (ℕ → Upstream) → ℕ → ℕ → Cached S → Result ℕ × Cached S → Type 0
  IsTried us first left s outcome =
      ((k : ℕ) × (first ≤ k)
        × (k < first + left)
        × ((j : ℕ)
            → first ≤ j
            → j < k
            → Fails (pull_blob_attempt X J S c d now digest repository (us j) s).0)
        × Succeeds outcome.0
        × (outcome ≡ pull_blob_attempt X J S c d now digest repository (us k) s))
      ⊎ (((j : ℕ)
            → first ≤ j
            → j < first + left
            → Fails (pull_blob_attempt X J S c d now digest repository (us j) s).0)
          × Fails outcome.0
          × (outcome.1 ≡ s))

  attempts-ok :
      (us : ℕ → Upstream) (first left : ℕ) (last : DockerProxyError) (s : Cached S) (size : ℕ)
      → (pull_blob_attempt X J S c d now digest repository (us first) s).0 ≡ ok size
      → attempts X J S c d now digest repository us first (suc left) last s
        ≡ pull_blob_attempt X J S c d now digest repository (us first) s
  unfolding attempts
  attempts-ok us first left last s size e =
      let after = (pull_blob_attempt X J S c d now digest repository (us first) s).1 in
      rw (attempts, e) (ap (λ (r : Result ℕ). (r, after)) (sym e))

  attempts-err :
      (us : ℕ → Upstream) (first left : ℕ) (last x : DockerProxyError) (s : Cached S)
      → (pull_blob_attempt X J S c d now digest repository (us first) s).0 ≡ err x
      → attempts X J S c d now digest repository us first (suc left) last s
        ≡ attempts X J S c d now digest repository us (suc first) left x s
  unfolding attempts
  attempts-err us first left last x s e = rw (attempts, e, attempt_unchanged (us first) s x e) refl

  attempts-IsTried :
      (us : ℕ → Upstream) (first left : ℕ) (last : DockerProxyError) (s : Cached S)
      → IsTried us first left s (attempts X J S c d now digest repository us first left last s)
  unfolding attempts
  attempts-IsTried us first zero last s = inr (λ j a b. absurd (omega arith), tt, refl)
  attempts-IsTried us first (suc left) last s =
      elim (Result-cases (pull_blob_attempt X J S c d now digest repository (us first) s).0) [
        | inl (size, e) ↦ rw (attempts-ok us first left last s size e) (
            inl (
              first,
              omega arith,
              omega arith,
              λ j a b. absurd (omega arith),
              subst Succeeds (sym e) tt,
              refl,
            ))
        | inr (x, e) ↦ rw (attempts-err us first left last x s e) (
            later us first left s (attempts X J S c d now digest repository us (suc first) left x s)
              (subst Fails (sym e) tt) (attempts-IsTried us (suc first) left x s))
      ]
    where
      fails :
          (us : ℕ → Upstream) (first : ℕ) (s : Cached S) (j : ℕ)
          → Fails (pull_blob_attempt X J S c d now digest repository (us first) s).0
          → first ≤ j
          → (suc first ≤ j → Fails (pull_blob_attempt X J S c d now digest repository (us j) s).0)
          → Fails (pull_blob_attempt X J S c d now digest repository (us j) s).0
      fails us first s j h a k = elim (dec_lt first j) [
        | yes p ↦ k (omega arith)
        | no p ↦
            let same : first ≡ j = omega arith in
            subst (λ n. Fails (pull_blob_attempt X J S c d now digest repository (us n) s).0) same h
      ]

      later :
          (us : ℕ → Upstream) (first left : ℕ) (s : Cached S) (outcome : Result ℕ × Cached S)
          → Fails (pull_blob_attempt X J S c d now digest repository (us first) s).0
          → IsTried us (suc first) left s outcome
          → IsTried us first (suc left) s outcome
      later us first left s outcome h (inl (k, a, b, before, good, same)) = inl (
        k,
        omega arith,
        omega arith,
        λ j p q. fails us first s j h p (λ r. before j r q),
        good,
        same,
      )
      later us first left s outcome h (inr (all, bad, same)) =
          inr (λ j p q. fails us first s j h p (λ r. all j r (omega arith)), bad, same)

  -- A blob that cannot be read in the cache is asked for in at most three attempts: the outcome is
  -- that of the first which succeeds, or a failure that changes nothing if all three fail.
  pub pull_blob-IsTried :
      (us : ℕ → Upstream) (s : Cached S) (missed : DockerProxyError)
      → read_blob S c d s digest ≡ err missed
      → IsTried us 1 3 s (pull_blob X J S c d now digest repository us s)
  unfolding pull_blob
  pull_blob-IsTried us s missed e =
      rw (pull_blob, e) (attempts-IsTried us 1 3 DockerProxyError.registry s)

  -- An attempt that gets a response stores its body under the digest, whatever its hash: on disk it
  -- is read back, if it is written without an error and can be read.
  pub pull_blob_attempt-read_blob :
      (u : Upstream) (s : Cached S) (r : Response) (content : Bytes)
      → c.backend ≡ filesystem
      → d.read_fails (blob_path c digest) ≡ false
      → request_blob X J u repository digest ≡ ok r
      → all_bytes r.body ≡ some content
      → (write_blob S c d now s digest content).1 ≡ ok tt
      → ((pull_blob_attempt X J S c d now digest repository u s).0
          ≡ ok (length content % u64_limit))
        × (read_blob S c d (pull_blob_attempt X J S c d now digest repository u s).1 digest
            ≡ ok content)
  unfolding pull_blob_attempt
  pull_blob_attempt-read_blob u s r content b readable e n w =
      simp (pull_blob_attempt, keep_blob, e, n)
        (refl, write_blob-read_blob S c d now s digest content b readable w)
