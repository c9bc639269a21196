-- ===== src/Registry/Upstreams/Configured.antt =====
-- The clients that `start_server` of src/server.rs and `run_pre_pull` of src/prepull.rs make of the
-- configured registries.
use pulld.Base.{◌>>=◌, Option, some, is_none, List, [], ◌∷◌, if◌then◌else◌}
use pulld.Text.{Text, text}
use pulld.Registry.Upstreams.{
  RegistryConfig, UpstreamClient, Registries, default_registry_name, default_config, lookup,
  new_client,
}

-- The settings of a client without a configuration are those of a default one.
abbrev pub default_client : Registries → Option UpstreamClient
default_client s =
    let mirrors = text "https://registry-1.docker.io" ∷ [] in
    new_client s mirrors (default_config mirrors)

-- A client for each of the registries, or none if one of them is not built.
unfoldable pub configured_clients :
    Registries → List (Text × RegistryConfig) → Option (List (Text × UpstreamClient))
unfolding new_client
configured_clients s [] = some []
configured_clients s ((registry, config) ∷ configs) = do
  client ← new_client s config.mirrors config
  clients ← configured_clients s configs
  some ((registry, client) ∷ clients)

-- Docker Hub gets the default client, if it is not configured.
abbrev pub with_default : Registries → List (Text × UpstreamClient) → UpstreamClient → Registries
with_default s clients default = record s {
  registry_clients =
      if is_none (lookup clients default_registry_name)
      then (default_registry_name, default) ∷ clients
      else clients;
  default_registry_client = default;
}

-- All clients for the configurations of `s`.
unfoldable pub make_clients : Registries → Option Registries
unfolding configured_clients lookup new_client
make_clients s = do
  clients ← configured_clients s s.registry_configs
  default ← default_client s
  some (with_default s clients default)
