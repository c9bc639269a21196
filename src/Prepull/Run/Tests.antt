-- ===== src/Prepull/Run/Tests.antt =====
-- Examples of runs of the pre-pull.
use pulld.Base.{◌≡◌, refl, true, false, none, [], ◌∷◌, ◌++◌, ok}
use pulld.Text.{Text, text, contains}
use pulld.Registry.Stats.{failover}
use pulld.Registry.Stats.Sample.{nat_float}
use pulld.Config.{PrePullConfig}
use pulld.Json.Sample.{sample_json}
use pulld.Cache.Sample.{good_disk, no_store, no_files}
use pulld.Registry.Race.{failed}
use pulld.Registry.Blob.Handler.Sample.{offline}
use pulld.Registry.Upstreams.{UpstreamClient, Registries, lookup, get_upstream_client}
use pulld.Registry.Upstreams.Configured.{make_clients}
use pulld.Prepull.Names.{parse_image_reference, parse_repository}
use pulld.Prepull.Charts.{Yaml}
use pulld.Prepull.Run.{Outside, image_registry, image_client, run_pre_pull}
use pulld.Prepull.Run.Clients.{image_client-unconfigured, image_client-agree}

abbrev hub : UpstreamClient
hub = record {
  mirrors = text "https://registry-1.docker.io" ∷ [];
  timeout_secs = 30;
  accepts_invalid_certs = false;
  auth = none;
}

abbrev settings : Registries
settings = record {
  registry_clients = [];
  registry_configs = [];
  default_registry_client = hub;
  insecure_skip_verify = false;
  builds = true;
}

abbrev made : Registries
made = record settings { registry_clients = (text "docker.io", hub) ∷ [] }

abbrev config : PrePullConfig
config = record {
  enabled = true;
  image_concurrency = 16;
  layer_concurrency = 6;
  chunk_concurrency = 4;
  chunk_size = 16777216;
  mirror_strategy = failover;
  images = text "alpine:3" ∷ text "quay.io/etcd:3" ∷ [];
  charts = [];
}

abbrev outage : Text → Outside
outage image = record {
  net = record {
    race = λ mirrors req. [];
    hedge = λ a b delay req. record { primary_first = true; primary = failed; secondary = failed };
    send = λ mirror req. failed;
  };
  blob_net = λ digest attempt. record {
    race = λ mirrors req. [];
    hedge = λ a b delay req. record { primary_first = true; primary = failed; secondary = failed };
    send = λ mirror req. failed;
  };
  server = offline.server;
  iterate = λ l. l;
}

image_client-unconfigured_example :
    ((image_client made (text "quay.io/etcd:3")).mirrors ≡ text "https://registry-1.docker.io" ∷ [])
    × ((get_upstream_client made (image_registry (text "quay.io/etcd:3"))).0.mirrors
        ≡ (text "https://" ++ image_registry (text "quay.io/etcd:3")) ∷ [])
unfolding make_clients parse_image_reference parse_repository lookup contains
image_client-unconfigured_example =
    image_client-unconfigured settings made (text "quay.io/etcd:3") refl refl refl

image_client-agree_example :
    image_client made (text "alpine:3")
    ≡ (get_upstream_client made (image_registry (text "alpine:3"))).0
unfolding make_clients parse_image_reference parse_repository lookup contains
image_client-agree_example = image_client-agree settings made (text "alpine:3") refl refl

abbrev no_yaml : Yaml
no_yaml = record {
  Value = Unit;
  Mapping = Unit;
  get = λ value name. none;
  as_mapping = λ value. none;
  values = λ mapping. [];
  entry = λ mapping name. none;
  as_sequence = λ value. none;
  as_str = λ value. none;
  parse = λ content. none;
}

-- A pre-pull without a network succeeds.
all_fail :
    (run_pre_pull nat_float
      (sample_json (λ content. none))
      no_yaml
      no_store
      (λ content. text "ab")
      (text "x86_64")
      good_disk
      7
      outage
      (record { builds = true; get = λ url n. failed })
      true
      (text "/cache")
      settings
      (record config { charts = text "bitnami/redis:1.2" ∷ [] })
      []
      no_files).0
    ≡ ok (record { success_count = 0; fail_count = 2 })
unfolding run_pre_pull
all_fail = refl

-- Charts alone are not pulled.
charts_alone :
    run_pre_pull nat_float
      (sample_json (λ content. none))
      no_yaml
      no_store
      (λ content. text "ab")
      (text "x86_64")
      good_disk
      7
      outage
      (record { builds = true; get = λ url n. failed })
      true
      (text "/cache")
      settings
      (record config { images = []; charts = text "bitnami/redis:1.2" ∷ [] })
      []
      no_files
    ≡ (ok (record { success_count = 0; fail_count = 0 }), no_files)
unfolding run_pre_pull
charts_alone = refl
