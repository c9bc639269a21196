-- ===== src/Config/Overrides.antt =====
-- `Config::apply_env_overrides` of src/config.rs. An error leaves what was set before it.
use pulld.Base.{
  ℕ, Bool, true, false, ◌||◌, Option, none, some, unwrap_or, List, [], ◌∷◌, if◌then◌else◌,
}
use pulld.Text.{Text, text, text_eq}
use pulld.Text.Numbers.{parse_below, u16_limit}
use pulld.Config.{Config, S3CacheConfig, CacheBackendKind, filesystem, s3}

-- Why an override is refused.
pub data Refusal : Type 0 where
  invalid_port : Refusal
  invalid_http_port : Refusal
  invalid_backend : Text → Refusal
  required : Text → Refusal

-- The variables are collected in a map: of two values for one name the last counts.
unfoldable pub env_get : List (Text × Text) → Text → Option Text
env_get [] name = none
env_get ((key, value) ∷ vars) name = elim (env_get vars name) [
  | some later ↦ some later
  | none ↦ if text_eq key name then some value else none
]

abbrev pub Overridden : Type 0
Overridden = Option Refusal × Config

abbrev pub and_next : Overridden → (Config → Overridden) → Overridden
and_next (none, c) k = k c
and_next (some e, c) k = (some e, c)

abbrev pub if_some {ℓ} : {A : Type ℓ} → Option A → Overridden → (A → Overridden) → Overridden
if_some none missing k = missing
if_some (some a) missing k = k a

abbrev pub with_port : Config → Option ℕ → Overridden
with_port c none = (some invalid_port, c)
with_port c (some port) = (none, record c { server = record (c.server) { port = port } })

abbrev pub with_http_port : Config → Option ℕ → Overridden
with_http_port c none = (some invalid_http_port, c)
with_http_port c (some port) =
    (none, record c { server = record (c.server) { http_port = some port } })

abbrev pub with_tls : Config → Text → Text → Config
with_tls c cert_path key_path = record c {
  server = record (c.server) {
    tls = some (record {
      enabled = true;
      cert_path = cert_path;
      key_path = key_path;
      client_auth = false;
      client_ca_path = none;
    });
  };
}

abbrev pub with_directory : Config → Text → Config
with_directory c directory = record c { cache = record (c.cache) { directory = directory } }

abbrev pub with_backend : Config → CacheBackendKind → Config
with_backend c backend = record c { cache = record (c.cache) { backend = backend } }

module _ (to_lowercase : Text → Text) (vars : List (Text × Text)) where
  unfoldable pub override_port : Config → Overridden
  unfolding env_get parse_below
  override_port c =
      if_some (env_get vars (text "PULLD_HTTPS_PORT")) (none, c)
        (λ port. with_port c (parse_below u16_limit port))

  unfoldable pub override_http_port : Config → Overridden
  unfolding env_get parse_below
  override_http_port c =
      if_some (env_get vars (text "PULLD_HTTP_PORT")) (none, c)
        (λ port. with_http_port c (parse_below u16_limit port))

  unfoldable pub override_tls : Config → Overridden
  unfolding env_get
  override_tls c =
      if_some (env_get vars (text "PULLD_TLS_CERT_PATH")) (none, c)
        (λ cert_path.
          if_some (env_get vars (text "PULLD_TLS_KEY_PATH")) (none, c)
            (λ key_path. (none, with_tls c cert_path key_path)))

  abbrev pub backend_of : Text → Option CacheBackendKind
  backend_of name =
      if text_eq name (text "filesystem") || text_eq name (text "fs")
      then some filesystem
      else if text_eq name (text "s3") || text_eq name (text "minio")
      then some s3
      else none

  unfoldable pub override_backend : Config → Overridden
  unfolding env_get
  override_backend c =
      if_some (env_get vars (text "PULLD_CACHE_BACKEND")) (none, c)
        (λ backend.
          if_some (backend_of (to_lowercase backend)) (some (invalid_backend backend), c)
            (λ kind. (none, with_backend c kind)))

  unfoldable pub override_scratch : Config → Overridden
  unfolding env_get
  override_scratch c =
      if_some (env_get vars (text "PULLD_S3_SCRATCH_DIR")) (none, c)
        (λ scratch_dir. (none, with_directory c scratch_dir))

  abbrev is_yes : Text → Bool
  is_yes value =
      text_eq value (text "1")
      || text_eq value (text "true")
      || text_eq value (text "TRUE")
      || text_eq value (text "yes")
      || text_eq value (text "YES")

  abbrev pub s3_of : Text → Text → Text → Text → S3CacheConfig
  s3_of endpoint bucket access_key_id secret_access_key = record {
    endpoint = endpoint;
    bucket = bucket;
    region = unwrap_or (env_get vars (text "PULLD_S3_REGION")) (text "us-east-1");
    access_key_id = access_key_id;
    secret_access_key = secret_access_key;
    force_path_style = elim (env_get vars (text "PULLD_S3_FORCE_PATH_STYLE")) [
      | none ↦ true
      | some value ↦ is_yes value
    ];
    prefix = unwrap_or (env_get vars (text "PULLD_S3_PREFIX")) [];
  }

  abbrev pub with_s3 : Config → S3CacheConfig → Config
  with_s3 c config = record c { cache = record (c.cache) { s3_config = some config } }

  -- A variable that has to be set.
  abbrev pub needs : Config → Text → (Text → Overridden) → Overridden
  needs c name k = if_some (env_get vars name) (some (required name), c) k

  unfoldable pub override_s3 : Config → Overridden
  unfolding env_get
  override_s3 c = elim c.cache.backend [
    | filesystem ↦ (none, c)
    | s3 ↦ needs c (text "PULLD_S3_ENDPOINT") (λ endpoint.
        needs c (text "PULLD_S3_BUCKET") (λ bucket.
          needs c (text "PULLD_S3_ACCESS_KEY_ID") (λ access_key_id.
            needs c (text "PULLD_S3_SECRET_ACCESS_KEY") (λ secret_access_key.
              (none, with_s3 c (s3_of endpoint bucket access_key_id secret_access_key))))))
  ]

  unfoldable pub apply_env_overrides : Config → Overridden
  unfolding override_port override_http_port override_tls override_backend override_scratch
      override_s3
  apply_env_overrides c = and_next (override_port c) (λ c1. and_next (override_http_port c1) (λ c2.
      and_next (override_tls c2)
        (λ c3. and_next (override_backend c3) (λ c4. and_next (override_scratch c4) override_s3))))
