-- ===== src/Helm/Tests.antt =====
-- Examples of charts that are served.
use pulld.Base.{◌≡◌, refl, false, none, [], ◌∷◌, List, if◌then◌else◌}
use pulld.Text.{Text, text, text_eq}
use pulld.Cache.Manifests.{chart_exists, write_chart}
use pulld.Cache.Sample.{sample_cache, good_disk, no_store, no_files}
use pulld.Registry.Http.{Response}
use pulld.Registry.Race.{Outcome, responded, failed}
use pulld.Registry.Upstreams.{lookup}
use pulld.Prepull.Charts.{Yaml}
use pulld.Helm.{filename_of, upstream_url, get_chart, served}
use pulld.Helm.Again.{IsServedChart, get_chart-again}

abbrev no_yaml : Yaml
no_yaml = record {
  Value = Unit;
  Mapping = Unit;
  get = λ value name. none;
  as_mapping = λ value. none;
  values = λ mapping. [];
  entry = λ mapping name. none;
  as_sequence = λ value. none;
  as_str = λ value. none;
  parse = λ content. none;
}

abbrev response : Response
response = record {
  status = 200;
  headers = [];
  body = record { chunks = (7 ∷ []) ∷ []; broken = false };
}

abbrev repos : List (Text × Text)
repos = (text "bitnami", text "https://charts.bitnami.com") ∷ []

-- The index is not answered, the chart is.
abbrev answers : Text → Outcome
answers url =
    if text_eq url (text "https://charts.bitnami.com/redis-1.2.tgz")
    then responded response 1 2
    else failed

fetched :
    (get_chart no_yaml no_store sample_cache good_disk 7 repos answers
      (text "bitnami")
      (text "redis-1.2")
      no_files).0
    ≡ served (text "attachment; filename=\"redis-1.2.tgz\"") (7 ∷ [])
unfolding get_chart
fetched = refl

get_chart-again_example :
    let (reply, s') =
      get_chart no_yaml no_store sample_cache good_disk 7 repos answers
        (text "bitnami")
        (text "redis-1.2")
        no_files in
    IsServedChart (filename_of (text "redis-1.2")) (7 ∷ []) reply
    × ((helm_repos' : List (Text × Text)) (get' : Text → Outcome)
        → get_chart no_yaml no_store sample_cache good_disk 7 helm_repos' get'
            (text "bitnami")
            (text "redis-1.2")
            s'
          ≡ (reply, s'))
unfolding chart_exists lookup upstream_url write_chart
get_chart-again_example =
    get_chart-again no_yaml no_store sample_cache good_disk 7 repos answers (text "bitnami")
      (text "redis-1.2") (text "https://charts.bitnami.com") no_files response 1 2 (7 ∷ []) refl
      refl refl refl refl refl refl refl
