-- ===== src/Config/Backend.antt =====
-- What holds of a configuration after the overrides.
use pulld.Base.{
  ◌≡◌, refl, Bool, true, Option, none, some, is_some, List, Option-cases, inl, inr, ok,
}
use pulld.Text.{Text, text}
use pulld.Cache.{CacheStorage, with_max_size, with_object_store}
use pulld.Config.{Config, CacheConfig, CacheBackendKind, filesystem, s3}
use pulld.Config.Overrides.{
  if_some, required, Overridden, env_get, and_next, override_port, override_http_port, override_tls,
  override_backend, override_scratch, override_s3, apply_env_overrides, needs, with_s3, s3_of,
}
use pulld.Server.Startup.{make_cache}

-- What the last link of a chain leaves, where there is no error.
and_next-ends :
    (P : Config → Type 0) (r : Overridden) (k : Config → Overridden)
    → ((c : Config) → (k c).0 ≡ none → P (k c).1)
    → (and_next r k).0 ≡ none
    → P (and_next r k).1
and_next-ends P (none, c) k good h = good c h
and_next-ends P (some e, c) k good h = absurd (cc)

-- The backend has what it needs.
abbrev is_backed : CacheConfig → Bool
is_backed cache = elim cache.backend [ filesystem ↦ true | s3 ↦ is_some cache.s3_config ]

module _ (to_lowercase : Text → Text) (vars : List (Text × Text)) where
  needs-ends :
      (P : Config → Type 0) (c : Config) (name : Text) (k : Text → Overridden)
      → ((value : Text) → (k value).0 ≡ none → P (k value).1)
      → (needs to_lowercase vars c name k).0 ≡ none
      → P (needs to_lowercase vars c name k).1
  needs-ends P c name k good h = of_value (env_get vars name) h
    where
      of_value :
          (x : Option Text)
          → (if_some x (some (required name), c) k).0 ≡ none
          → P (if_some x (some (required name), c) k).1
      of_value none h = absurd (cc)
      of_value (some value) h = good value h

  override_s3-is_backed :
      (c : Config)
      → (override_s3 to_lowercase vars c).0 ≡ none
      → is_backed (override_s3 to_lowercase vars c).1.cache ≡ true
  unfolding override_s3
  override_s3-is_backed c h = of_backend c.cache.backend refl h
    where
      backed : Config → Type 0
      backed c' = is_backed c'.cache ≡ true

      with_key : Text → Text → Text → Text → Overridden
      with_key endpoint bucket key secret =
          (none, with_s3 to_lowercase vars c (s3_of to_lowercase vars endpoint bucket key secret))

      of_backend :
          (kind : CacheBackendKind)
          → c.cache.backend ≡ kind
          → (override_s3 to_lowercase vars c).0 ≡ none
          → backed (override_s3 to_lowercase vars c).1
      of_backend filesystem e h = simp (override_s3, e, is_backed)
      of_backend s3 e h =
          rw (override_s3, e)
            (needs-ends backed c (text "PULLD_S3_ENDPOINT") _
              (λ endpoint. needs-ends backed c (text "PULLD_S3_BUCKET") _ (λ bucket.
                needs-ends backed c (text "PULLD_S3_ACCESS_KEY_ID") _ (λ key.
                  needs-ends backed c (text "PULLD_S3_SECRET_ACCESS_KEY")
                    (with_key endpoint bucket key) (λ secret k. simp (is_backed, e)))))
              (rw (override_s3, e) at h))

  -- After overrides without an error, the cache is made wherever its directories can be, and with S3
  -- its client.
  made_of_backed :
      (cache : CacheConfig) (cache_dir : Text)
      → is_backed cache ≡ true
      → (storage : CacheStorage) × (make_cache true true cache_dir cache ≡ ok storage)
  unfolding make_cache
  made_of_backed cache cache_dir h = of_backend cache.backend refl
    where
      of_backend :
          (kind : CacheBackendKind)
          → cache.backend ≡ kind
          → (storage : CacheStorage) × (make_cache true true cache_dir cache ≡ ok storage)
      of_backend filesystem e =
          (with_max_size cache_dir (some cache.max_size_gb), simp (make_cache, e))
      of_backend s3 e = elim (Option-cases cache.s3_config) [
        | inl f ↦ let k = rw (is_backed, e, f) at h in absurd (cc)
        | inr (config, f) ↦ (
          with_object_store cache_dir config.prefix (some cache.max_size_gb),
          simp (make_cache, e, f),
        )
      ]

  -- After overrides without an error, whatever the configuration was, the cache of its backend is
  -- made where the directories can be made and the client of S3 can be built: a configuration of S3
  -- is never missing.
  pub apply_env_overrides-make_cache :
      (c : Config) (cache_dir : Text)
      → (apply_env_overrides to_lowercase vars c).0 ≡ none
      → (storage : CacheStorage) × (make_cache true true cache_dir
            (apply_env_overrides to_lowercase vars c).1.cache
          ≡ ok storage)
  unfolding apply_env_overrides
  apply_env_overrides-make_cache c cache_dir h =
      and_next-ends made (override_port to_lowercase vars c) _
        (λ c1. and_next-ends made (override_http_port to_lowercase vars c1) _ (λ c2.
          and_next-ends made (override_tls to_lowercase vars c2) _ (λ c3.
            and_next-ends made (override_backend to_lowercase vars c3) _ (λ c4.
              and_next-ends made (override_scratch to_lowercase vars c4)
                (override_s3 to_lowercase vars)
                (λ c5 k.
                  made_of_backed (override_s3 to_lowercase vars c5).1.cache cache_dir
                    (override_s3-is_backed c5 k))))))
        h
    where
      made : Config → Type 0
      made c' = (storage : CacheStorage) × (make_cache true true cache_dir c'.cache ≡ ok storage)
