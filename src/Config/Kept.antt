-- ===== src/Config/Kept.antt =====
-- What the overrides leave as it is.
use pulld.Base.{ℕ, ◌≡◌, refl, Option, none, some, List}
use pulld.Text.{Text, text}
use pulld.Text.Numbers.{parse_below, u16_limit}
use pulld.Config.{Config, CacheBackendKind, filesystem, s3}
use pulld.Config.Overrides.{
  if_some, Overridden, invalid_backend, required, env_get, and_next, override_port,
  override_http_port, override_tls, override_backend, override_scratch, override_s3,
  apply_env_overrides, needs, with_s3, s3_of, with_port, with_http_port, with_tls, with_directory,
  with_backend, backend_of,
}

abbrev pub Keeps : Config → Config → Type 0
Keeps c c' =
    (c'.server.bind_address ≡ c.server.bind_address)
    × (c'.cache.max_size_gb ≡ c.cache.max_size_gb)
    × (c'.upstream ≡ c.upstream)
    × (c'.pre_pull ≡ c.pre_pull)
    × (c'.helm_repositories ≡ c.helm_repositories)

module _ (c : Config) where
  -- Whether a value is there or not, what is kept is kept.
  cases-keep {ℓ} :
      {A : Type ℓ} (x : Option A) (miss : Overridden) (k : A → Overridden)
      → Keeps c miss.1
      → ((a : A) → Keeps c (k a).1)
      → Keeps c (if_some x miss k).1
  cases-keep none miss k h g = h
  cases-keep (some a) miss k h g = g a

  and_next-keep :
      (r : Overridden) (k : Config → Overridden)
      → Keeps c r.1
      → ((c' : Config) → Keeps c c' → Keeps c (k c').1)
      → Keeps c (and_next r k).1
  and_next-keep (none, c') k h g = g c' h
  and_next-keep (some e, c') k h g = h

  with_port-keep : (c' : Config) (x : Option ℕ) → Keeps c c' → Keeps c (with_port c' x).1
  with_port-keep c' none h = h
  with_port-keep c' (some port) h = h

  with_http_port-keep : (c' : Config) (x : Option ℕ) → Keeps c c' → Keeps c (with_http_port c' x).1
  with_http_port-keep c' none h = h
  with_http_port-keep c' (some port) h = h

module _ (to_lowercase : Text → Text) (vars : List (Text × Text)) (c : Config) where
  override_port-keep : (c' : Config) → Keeps c c' → Keeps c (override_port to_lowercase vars c').1
  unfolding override_port
  override_port-keep c' h =
      cases-keep c (env_get vars (text "PULLD_HTTPS_PORT")) (none, c')
        (λ port. with_port c' (parse_below u16_limit port)) h
        (λ port. with_port-keep c c' (parse_below u16_limit port) h)

  override_http_port-keep :
      (c' : Config) → Keeps c c' → Keeps c (override_http_port to_lowercase vars c').1
  unfolding override_http_port
  override_http_port-keep c' h =
      cases-keep c (env_get vars (text "PULLD_HTTP_PORT")) (none, c')
        (λ port. with_http_port c' (parse_below u16_limit port)) h
        (λ port. with_http_port-keep c c' (parse_below u16_limit port) h)

  override_tls-keep : (c' : Config) → Keeps c c' → Keeps c (override_tls to_lowercase vars c').1
  unfolding override_tls
  override_tls-keep c' h =
      cases-keep c (env_get vars (text "PULLD_TLS_CERT_PATH")) (none, c')
        (λ cert_path.
          if_some (env_get vars (text "PULLD_TLS_KEY_PATH")) (none, c')
            (λ key_path. (none, with_tls c' cert_path key_path)))
        h
        (λ cert_path.
          cases-keep c (env_get vars (text "PULLD_TLS_KEY_PATH")) (none, c')
            (λ key_path. (none, with_tls c' cert_path key_path)) h (λ key_path. h))

  override_backend-keep :
      (c' : Config) → Keeps c c' → Keeps c (override_backend to_lowercase vars c').1
  unfolding override_backend
  override_backend-keep c' h =
      cases-keep c (env_get vars (text "PULLD_CACHE_BACKEND")) (none, c')
        (λ backend.
          if_some (backend_of to_lowercase vars (to_lowercase backend))
            (some (invalid_backend backend), c') (λ kind. (none, with_backend c' kind)))
        h
        (λ backend.
          cases-keep c (backend_of to_lowercase vars (to_lowercase backend))
            (some (invalid_backend backend), c') (λ kind. (none, with_backend c' kind)) h
            (λ kind. h))

  override_scratch-keep :
      (c' : Config) → Keeps c c' → Keeps c (override_scratch to_lowercase vars c').1
  unfolding override_scratch
  override_scratch-keep c' h =
      cases-keep c (env_get vars (text "PULLD_S3_SCRATCH_DIR")) (none, c')
        (λ scratch_dir. (none, with_directory c' scratch_dir)) h (λ scratch_dir. h)

  needs-keep :
      (c' : Config) (name : Text) (k : Text → Overridden)
      → Keeps c c'
      → ((value : Text) → Keeps c (k value).1)
      → Keeps c (needs to_lowercase vars c' name k).1
  needs-keep c' name k h g = cases-keep c (env_get vars name) (some (required name), c') k h g

  override_s3-keep : (c' : Config) → Keeps c c' → Keeps c (override_s3 to_lowercase vars c').1
  unfolding override_s3
  override_s3-keep c' h = of_backend c'.cache.backend refl
    where
      of_backend :
          (kind : CacheBackendKind)
          → c'.cache.backend ≡ kind
          → Keeps c (override_s3 to_lowercase vars c').1
      of_backend filesystem e = rw (override_s3, e) h
      of_backend s3 e =
          rw (override_s3, e)
            (needs-keep c' (text "PULLD_S3_ENDPOINT") _ h (λ endpoint.
              needs-keep c' (text "PULLD_S3_BUCKET") _ h (λ bucket.
                needs-keep c' (text "PULLD_S3_ACCESS_KEY_ID") _ h (λ key.
                  needs-keep c' (text "PULLD_S3_SECRET_ACCESS_KEY")
                    (λ secret. (
                      none,
                      with_s3 to_lowercase vars c'
                          (s3_of to_lowercase vars endpoint bucket key secret),
                    ))
                    h (λ secret. h)))))

  -- Whatever the variables say, and also where one of them is refused, the address, the bound on the
  -- cache, the upstream registries, the pre-pull and the Helm repositories stay as they are.
  pub apply_env_overrides-kept : Keeps c (apply_env_overrides to_lowercase vars c).1
  unfolding apply_env_overrides
  apply_env_overrides-kept =
      and_next-keep c (override_port to_lowercase vars c) _
        (override_port-keep c (refl, refl, refl, refl, refl))
        (λ c1 h1.
          and_next-keep c (override_http_port to_lowercase vars c1) _
            (override_http_port-keep c1 h1)
            (λ c2 h2.
              and_next-keep c (override_tls to_lowercase vars c2) _ (override_tls-keep c2 h2)
                (λ c3 h3.
                  and_next-keep c (override_backend to_lowercase vars c3) _
                    (override_backend-keep c3 h3)
                    (λ c4 h4.
                      and_next-keep c (override_scratch to_lowercase vars c4)
                        (override_s3 to_lowercase vars) (override_scratch-keep c4 h4)
                        override_s3-keep))))
