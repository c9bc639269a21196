-- ===== src/Config/Tests.antt =====
-- Examples of the overrides, among them those of tests/config_test.rs.
use pulld.Base.{◌≡◌, refl, true, none, some, List, [], ◌∷◌, ok}
use pulld.Text.{Text, text}
use pulld.Cache.{CacheStorage}
use pulld.Registry.Stats.{hedged}
use pulld.Config.{S3CacheConfig, build_default, strategy_from_str}
use pulld.Config.Overrides.{invalid_http_port, required, apply_env_overrides}
use pulld.Config.Backend.{apply_env_overrides-make_cache}
use pulld.Config.Kept.{Keeps, apply_env_overrides-kept}
use pulld.Server.Startup.{make_cache}

abbrev same_case : Text → Text
same_case s = s

abbrev s3_vars : List (Text × Text)
s3_vars =
    (text "PULLD_CACHE_BACKEND", text "s3")
    ∷ (text "PULLD_S3_ENDPOINT", text "http://minio.pulld.svc.cluster.local:9000")
    ∷ (text "PULLD_S3_BUCKET", text "pulld-cache")
    ∷ (text "PULLD_S3_REGION", text "us-east-1")
    ∷ (text "PULLD_S3_FORCE_PATH_STYLE", text "true")
    ∷ (text "PULLD_S3_ACCESS_KEY_ID", text "pulld")
    ∷ (text "PULLD_S3_SECRET_ACCESS_KEY", text "secret")
    ∷ (text "PULLD_S3_PREFIX", text "registry-cache")
    ∷ (text "PULLD_S3_SCRATCH_DIR", text "/tmp/pulld-cache")
    ∷ []

abbrev s3_config : S3CacheConfig
s3_config = record {
  endpoint = text "http://minio.pulld.svc.cluster.local:9000";
  bucket = text "pulld-cache";
  region = text "us-east-1";
  access_key_id = text "pulld";
  secret_access_key = text "secret";
  force_path_style = true;
  prefix = text "registry-cache";
}

configured :
    let (refusal, c) = apply_env_overrides same_case s3_vars build_default in
    (refusal ≡ none)
    × (c.cache.directory ≡ text "/tmp/pulld-cache")
    × (c.cache.s3_config ≡ some s3_config)
unfolding apply_env_overrides build_default
configured = (refl, refl, refl)

-- A port that is refused leaves the one that was set before it.
half_done :
    let (refusal, c) =
      apply_env_overrides same_case
        ((text "PULLD_HTTPS_PORT", text "443") ∷ (text "PULLD_HTTP_PORT", text "65536") ∷ [])
        build_default in
    (refusal ≡ some invalid_http_port) × (c.server.port ≡ 443)
unfolding apply_env_overrides build_default
half_done = (refl, refl)

no_endpoint :
    (apply_env_overrides same_case
      ((text "PULLD_CACHE_BACKEND", text "minio") ∷ [])
      build_default).0
    ≡ some (required (text "PULLD_S3_ENDPOINT"))
unfolding apply_env_overrides build_default
no_endpoint = refl

hedged_strategy : strategy_from_str same_case (text "hedged") ≡ some hedged
unfolding strategy_from_str
hedged_strategy = refl

apply_env_overrides-make_cache_example :
    (storage : CacheStorage) × (make_cache true true
        (text "/cache")
        (apply_env_overrides same_case s3_vars build_default).1.cache
      ≡ ok storage)
unfolding apply_env_overrides build_default
apply_env_overrides-make_cache_example =
    apply_env_overrides-make_cache same_case s3_vars build_default (text "/cache") refl

apply_env_overrides-kept_example :
    Keeps build_default (apply_env_overrides same_case s3_vars build_default).1
apply_env_overrides-kept_example = apply_env_overrides-kept same_case s3_vars build_default
