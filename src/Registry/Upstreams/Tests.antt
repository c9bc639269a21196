-- ===== src/Registry/Upstreams/Tests.antt =====
-- Examples of the clients of registries.
use pulld.Base.{◌≡◌, refl, true, false, none, [], ◌∷◌}
use pulld.Text.{text}
use pulld.Registry.Upstreams.{Registries, UpstreamClient, get_upstream_client}

abbrev hub_client : UpstreamClient
hub_client = record {
  mirrors = text "https://registry-1.docker.io" ∷ [];
  timeout_secs = 30;
  accepts_invalid_certs = false;
  auth = none;
}

abbrev no_registries : Registries
no_registries = record {
  registry_clients = [];
  registry_configs = [];
  default_registry_client = hub_client;
  insecure_skip_verify = false;
  builds = true;
}

quay_example :
    ((get_upstream_client no_registries (text "quay.io")).0).mirrors ≡ text "https://quay.io" ∷ []
unfolding get_upstream_client
quay_example = refl
