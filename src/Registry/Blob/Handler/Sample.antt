-- ===== src/Registry/Blob/Handler/Sample.antt =====
-- A network on which nothing answers, and a proxy that has made no request, for the tests.
use pulld.Base.{true, false, none, [], ◌∷◌}
use pulld.Text.{text}
use pulld.Cache.Disk.{Cached}
use pulld.Cache.Sample.{good_disk, no_store}
use pulld.Registry.Stats.Sample.{nat_float}
use pulld.Registry.Race.{failed}
use pulld.Registry.Blob.Handler.{World, Proxy}

abbrev pub offline : World nat_float
offline = record {
  net = record {
    race = λ mirrors req. [];
    hedge = λ a b delay req. record { primary_first = true; primary = failed; secondary = failed };
    send = λ mirror req. failed;
  };
  server = record { answer = λ url. none; looked_up = 0; stored = 0; cleaned = 0 };
  disk = good_disk;
  now = 9;
  write_fails = λ i. false;
  client_gone = λ i. false;
  selector = none;
  printed = record {
    status_text = λ status. text "status";
    error_text = λ e. text "error";
    stream_error_text = text "broken";
  };
}

abbrev pub with_cache : Cached no_store → Proxy no_store
with_cache cached = record {
  cached = cached;
  registries = record {
    registry_clients = [];
    registry_configs = [];
    default_registry_client = record {
      mirrors = text "https://registry-1.docker.io" ∷ [];
      timeout_secs = 30;
      accepts_invalid_certs = false;
      auth = none;
    };
    insecure_skip_verify = false;
    builds = true;
  };
  tokens = [];
  updates = [];
  events = [];
}
