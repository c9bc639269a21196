-- ===== src/Service/Tests.antt =====
-- Examples of the service.
use pulld.Base.{ℕ, ◌+◌, ◌*◌, ◌≡◌, refl, true, false, ltb, none, some, [], ◌∷◌, arith}
use pulld.Text.{text}
use pulld.Config.{build_default}
use pulld.Registry.Upstreams.{UpstreamClient, Registries}
use pulld.Server.Startup.{Host, serves_http}
use pulld.Service.{Outcome, healthy, timed_out, PulldService, Polls, wait_for_healthy, start, stop}
use pulld.Service.Health.{IsWaited, wait_for_healthy-returns}
use pulld.Service.Stops.{serving, EndsAlone, starts, perform_all, new_service, stop-serving}

-- The server is healthy at the third request.
abbrev polls : Polls
polls = record { clock = λ i. 1000 + 200 * i; health_check = λ i. ltb 2 i }

wait_for_healthy-returns_example :
    (outcome : Outcome) × (wait_for_healthy 77 polls 15000 ≡ some outcome)
    × IsWaited polls (polls.clock 0 + 15000) 1 outcome
wait_for_healthy-returns_example =
    wait_for_healthy-returns polls 15000 77 (omega arith, λ i h. omega arith) (omega arith)

third_round : wait_for_healthy 77 polls 15000 ≡ some healthy
unfolding wait_for_healthy
third_round = refl

too_short : wait_for_healthy 77 polls 300 ≡ some timed_out
unfolding wait_for_healthy
too_short = refl

abbrev hub : UpstreamClient
hub = record {
  mirrors = text "https://registry-1.docker.io" ∷ [];
  timeout_secs = 30;
  accepts_invalid_certs = false;
  auth = none;
}

abbrev settings : Registries
settings = record {
  registry_clients = [];
  registry_configs = [];
  default_registry_client = hub;
  insecure_skip_verify = false;
  builds = true;
}

abbrev host : Host
host = record {
  binds = λ tasks address. true;
  accepts_pem = λ cert key. true;
  accepts_files = λ tls. true;
}

abbrev started : PulldService
started =
    perform_all new_service
      (starts host true true (text "/cache") settings build_default polls ∷ [])

stop-serving_example :
    ((stop started).server_handle ≡ none)
    × (started.server_handle ≡ none → stop started ≡ started)
    × ((handle : ℕ)
        → started.server_handle ≡ some handle
        → EndsAlone handle started.tasks (stop started).tasks)
    × (serving (stop started).tasks ≡ serving started.tasks)
stop-serving_example =
    stop-serving (starts host true true (text "/cache") settings build_default polls ∷ [])

-- The server of a stopped service still runs.
still_serving :
    serving (stop started).tasks
    ≡ record { work = serves_http (text "0.0.0.0:5050"); running = true } ∷ []
unfolding start stop build_default
still_serving = refl
