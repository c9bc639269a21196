-- ===== src/Registry/Upstreams.antt =====
-- The upstream registries: `UpstreamClient` of src/registry/upstream.rs, and how `AppState` of
-- src/registry/manifest.rs finds the client and the configuration of a registry.
pub mod Lookup
pub mod Configured
mod Tests
use pulld.Base.{
  ℕ, Bool, true, false, ◌&&◌, ◌||◌, not, is_empty, Option, none, some, List, [], ◌∷◌, ◌++◌,
  if◌then◌else◌,
}
use pulld.Text.{Text, text, text_eq, contains}
use pulld.Registry.Stats.{MirrorStrategy, adaptive}

pub record RegistryConfig : Type 0 where
  pub mirrors : List Text
  pub strategy : MirrorStrategy
  pub max_parallel : ℕ
  pub chunk_size : ℕ
  pub hedge_delay_ms : ℕ
  pub timeout_secs : ℕ
  pub auth : Option (Text × Text)
  pub ca_cert_path : Option Text
  pub insecure : Bool

-- A client for each mirror is built with the timeout, and without a check of certificates if so
-- configured; the clients themselves are not modelled.
pub record UpstreamClient : Type 0 where
  pub mirrors : List Text
  pub timeout_secs : ℕ
  pub accepts_invalid_certs : Bool
  pub auth : Option (Text × Text)

-- What `AppState` keeps of registries; `builds` says whether `reqwest` can build a client.
pub record Registries : Type 0 where
  pub registry_clients : List (Text × UpstreamClient)
  pub registry_configs : List (Text × RegistryConfig)
  pub default_registry_client : UpstreamClient
  pub insecure_skip_verify : Bool
  pub builds : Bool

abbrev pub default_registry_name : Text
default_registry_name = text "docker.io"

unfoldable pub lookup {ℓ} : {A : Type ℓ} → List (Text × A) → Text → Option A
lookup [] key = none
lookup ((k, a) ∷ rest) key = if text_eq k key then some a else lookup rest key

abbrev pub default_config : List Text → RegistryConfig
default_config mirrors = record {
  mirrors = mirrors;
  strategy = adaptive;
  max_parallel = 4;
  chunk_size = 16777216;
  hedge_delay_ms = 100;
  timeout_secs = 30;
  auth = none;
  ca_cert_path = none;
  insecure = false;
}

-- A registry that is a domain's name, but not Docker Hub's.
abbrev pub is_domain : Text → Bool
is_domain registry = contains registry b'.' && not (text_eq registry default_registry_name)

unfoldable pub get_registry_config : Registries → Text → RegistryConfig
unfolding lookup contains
get_registry_config s registry = elim (lookup s.registry_configs registry) [
  | some config ↦ config
  | none ↦
      if is_domain registry
      then default_config ((text "https://" ++ registry) ∷ [])
      else default_config (text "https://registry-1.docker.io" ∷ [])
]

-- `UpstreamClient::new` with a configuration.
unfoldable pub new_client : Registries → List Text → RegistryConfig → Option UpstreamClient
new_client s mirrors config =
    if s.builds || is_empty mirrors
    then some (record {
      mirrors = mirrors;
      timeout_secs = config.timeout_secs;
      accepts_invalid_certs = if s.insecure_skip_verify then true else config.insecure;
      auth = config.auth;
    })
    else none

-- The client, and the state in which a client that was made on the fly is kept.
unfoldable pub get_upstream_client : Registries → Text → UpstreamClient × Registries
unfolding lookup contains get_registry_config new_client
get_upstream_client s registry = elim (lookup s.registry_clients registry) [
  | some client ↦ (client, s)
  | none ↦
      let made =
        (if is_domain registry
          then new_client s ((text "https://" ++ registry) ∷ []) (get_registry_config s registry)
          else none) in
      elim made [
        | none ↦ (s.default_registry_client, s)
        | some client ↦
            (client, record s { registry_clients = (registry, client) ∷ s.registry_clients })
      ]
]
