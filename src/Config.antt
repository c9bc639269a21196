-- ===== src/Config.antt =====
-- The configuration of src/config.rs, and its default.
pub mod Overrides
pub mod Backend
pub mod Kept
mod Tests
use pulld.Base.{ℕ, Bool, true, false, Option, none, some, List, [], ◌∷◌, if◌then◌else◌}
use pulld.Text.{Text, text, text_eq}
use pulld.Registry.Stats.{MirrorStrategy, failover, hedged, striped, adaptive}
use pulld.Registry.Upstreams.{RegistryConfig}

pub record TlsConfig : Type 0 where
  pub enabled : Bool
  pub cert_path : Text
  pub key_path : Text
  pub client_auth : Bool
  pub client_ca_path : Option Text

pub record ServerConfig : Type 0 where
  pub bind_address : Text
  pub port : ℕ
  pub tls : Option TlsConfig
  pub http_port : Option ℕ

pub data CacheBackendKind : Type 0 where
  filesystem : CacheBackendKind
  s3 : CacheBackendKind

pub record S3CacheConfig : Type 0 where
  pub endpoint : Text
  pub bucket : Text
  pub region : Text
  pub access_key_id : Text
  pub secret_access_key : Text
  pub force_path_style : Bool
  pub prefix : Text

pub record CacheConfig : Type 0 where
  pub directory : Text
  pub max_size_gb : ℕ
  pub backend : CacheBackendKind
  pub s3_config : Option S3CacheConfig

pub record UpstreamTlsConfig : Type 0 where
  pub ca_bundle_path : Option Text
  pub use_system_ca : Bool
  pub insecure_skip_verify : Bool

pub record UpstreamConfig : Type 0 where
  pub tls : Option UpstreamTlsConfig
  pub registries : List (Text × RegistryConfig)

pub record PrePullConfig : Type 0 where
  pub enabled : Bool
  pub image_concurrency : ℕ
  pub layer_concurrency : ℕ
  pub chunk_concurrency : ℕ
  pub chunk_size : ℕ
  pub mirror_strategy : MirrorStrategy
  pub images : List Text
  pub charts : List Text

-- The Helm repositories by name are all that `HelmConfig` has.
pub record Config : Type 0 where
  pub server : ServerConfig
  pub cache : CacheConfig
  pub upstream : UpstreamConfig
  pub pre_pull : PrePullConfig
  pub helm_repositories : List (Text × Text)

-- `MirrorStrategy::from_str`, with the lower case of Unicode as a parameter.
unfoldable pub strategy_from_str : (Text → Text) → Text → Option MirrorStrategy
strategy_from_str to_lowercase s =
    let lower = to_lowercase s in
    if text_eq lower (text "failover")
    then some failover
    else if text_eq lower (text "hedged")
    then some hedged
    else if text_eq lower (text "striped")
    then some striped
    else if text_eq lower (text "adaptive")
    then some adaptive
    else none

abbrev registry_config : List Text → MirrorStrategy → ℕ → ℕ → RegistryConfig
registry_config mirrors strategy max_parallel timeout_secs = record {
  mirrors = mirrors;
  strategy = strategy;
  max_parallel = max_parallel;
  chunk_size = 16777216;
  hedge_delay_ms = 100;
  timeout_secs = timeout_secs;
  auth = none;
  ca_cert_path = none;
  insecure = false;
}

abbrev docker_mirrors : List Text
docker_mirrors =
    text "https://registry-1.docker.io"
    ∷ text "https://registry.hub.docker.com"
    ∷ text "https://docker.1ms.run"
    ∷ text "https://dockerproxy.com"
    ∷ text "https://docker.m.daocloud.io"
    ∷ []

abbrev ghcr_mirrors : List Text
ghcr_mirrors =
    text "https://ghcr.io"
    ∷ text "https://ghcr.dockerproxy.com"
    ∷ text "https://ghcr.m.daocloud.io"
    ∷ []

abbrev default_registries : List (Text × RegistryConfig)
default_registries =
    (text "docker.io", registry_config docker_mirrors failover 4 30)
    ∷ (text "ghcr.io", registry_config ghcr_mirrors hedged 3 600)
    ∷ (text "quay.io", registry_config (text "https://quay.io" ∷ []) failover 4 600)
    ∷ []

abbrev get_platform_images : List Text
get_platform_images =
    text "docker.io/library/alpine:latest"
    ∷ text "docker.io/zerotier/zerotier:latest"
    ∷ text "docker.io/coredns/coredns:1.12.1"
    ∷ []

unfoldable pub build_default : Config
build_default = record {
  server = record { bind_address = text "0.0.0.0"; port = 5050; tls = none; http_port = none };
  cache = record {
    directory = text "cache/pulld";
    max_size_gb = 20;
    backend = filesystem;
    s3_config = none;
  };
  upstream = record {
    tls =
        some (record { ca_bundle_path = none; use_system_ca = true; insecure_skip_verify = false });
    registries = default_registries;
  };
  pre_pull = record {
    enabled = true;
    image_concurrency = 16;
    layer_concurrency = 6;
    chunk_concurrency = 4;
    chunk_size = 16777216;
    mirror_strategy = adaptive;
    images = get_platform_images;
    charts = [];
  };
  helm_repositories = [];
}
