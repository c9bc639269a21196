-- ===== src/Registry/Blob/Tests.antt =====
-- Examples of the parts of the handler of blobs.
use pulld.Base.{◌≡◌, refl, none, some, List, [], ◌∷◌, ok, true, false, if◌then◌else◌}
use pulld.Text.{Text, text, text_eq}
use pulld.Json.Sample.{sample_json}
use pulld.Registry.Http.{Response, Request}
use pulld.Registry.Race.{Network, responded, failed}
use pulld.Registry.Tokens.{TokenServer}
use pulld.Registry.Blob.{parse_range_header}
use pulld.Registry.Blob.Retry.{try_mirror, retry_on}
use pulld.Registry.Http.{visible}
use pulld.Registry.Upstreams.{Registries}
use pulld.Registry.Blob.Head.{HeadNetwork, probe_size}
use pulld.Base.{◌==◌}
use pulld.Registry.Blob.Retry.Tries.{retry_on-first_good}

range_examples :
    (parse_range_header (text " bytes=1-3") ≡ some (record { start = 1; end = some 3 }))
    × (parse_range_header (text "bytes=7-") ≡ some (record { start = 7; end = none }))
    × (parse_range_header (text "bytes=-7") ≡ none)
unfolding parse_range_header
range_examples = (refl, refl, refl)

abbrev hub_mirrors : List Text
hub_mirrors = text "https://m.example" ∷ text "https://registry-1.docker.io" ∷ []

abbrev hub_response : Response
hub_response = record { status = 200; headers = []; body = record { chunks = []; broken = false } }

-- The first mirror does not answer.
abbrev hub_network : Network
hub_network = record {
  race = λ mirrors req. [];
  hedge = λ a b delay req. record { primary_first = true; primary = failed; secondary = failed };
  send = λ mirror req.
      if text_eq mirror (text "https://m.example") then failed else responded hub_response 1 1;
}

abbrev silent_server : TokenServer
silent_server = record { answer = λ url. none; looked_up = 0; stored = 0; cleaned = 0 }

abbrev blob_request : Request
blob_request = record {
  url_path = text "/v2/a/blobs/d";
  auth_token = none;
  accept_header = none;
  range_header = none;
}

retry_on-first_good_example :
    (retry_on
      (sample_json (λ bytes. none))
      hub_network
      silent_server
      hub_mirrors
      blob_request
      (text "a")
      (text "t")
      (0 ∷ 1 ∷ [])
      none
      none).0
    ≡ some (ok hub_response)
unfolding try_mirror
retry_on-first_good_example =
    retry_on-first_good (sample_json (λ bytes. none)) hub_network silent_server hub_mirrors
      blob_request (text "a") (text "t") (0 ∷ 1 ∷ []) none none

-- The second mirror has the blob, and tells its size for the first byte alone.
abbrev sized_response : Response
sized_response = record {
  status = 206;
  headers = (text "content-range", visible (text "bytes 0-0/12345")) ∷ [];
  body = record { chunks = []; broken = false };
}

abbrev head_network : HeadNetwork
head_network = record {
  head = λ i url. if i == 1 then some hub_response else none;
  get_first_byte = λ i url. some sized_response;
  get = λ i url. none;
}

abbrev hub_registries : Registries
hub_registries = record {
  registry_clients = [];
  registry_configs = [];
  default_registry_client = record {
    mirrors = hub_mirrors;
    timeout_secs = 30;
    accepts_invalid_certs = false;
    auth = none;
  };
  insecure_skip_verify = false;
  builds = true;
}

probe_example : probe_size head_network 1 [] hub_response ≡ some 12345
unfolding probe_size
probe_example = refl
