-- ===== src/Helm.antt =====
-- `get_chart` and `fetch_and_cache_chart` of src/helm/chart.rs. How the requests end is a parameter.
pub mod Again
mod Tests
use pulld.Base.{
  ℕ, Bool, true, false, Option, none, some, unwrap_or, ◌>>=◌, List, [], ◌∷◌, ◌++◌, if◌then◌else◌,
  Result, ok, err,
}
use pulld.Text.{Text, text, text_eq, rsplit_once, starts_with, ends_with}
use pulld.Cache.{CacheStorage}
use pulld.Cache.Disk.{Bytes, Disk, ObjectStore, Cached}
use pulld.Cache.Manifests.{chart_exists, read_chart, write_chart}
use pulld.Registry.Http.{Response, is_success, all_bytes, bad_gateway}
use pulld.Registry.Race.{Outcome, responded, failed, panicked}
use pulld.Registry.Upstreams.{lookup}
use pulld.Registry.Manifest.{parse_value}
use pulld.Prepull.Charts.{Yaml, below, is_absolute}

pub data ChartReply : Type 0 where
  served : Text → Bytes → ChartReply
  refused : ℕ → ChartReply
  panics : ChartReply

-- A reply with a chart: its name becomes a part of a header.
unfoldable pub serve_chart : Text → Bytes → ChartReply
unfolding parse_value
serve_chart filename content =
    elim (parse_value (text "attachment; filename=\"" ++ filename ++ text "\"")) [
      | none ↦ panics
      | some disposition ↦ served disposition content
    ]

abbrev pub filename_of : Text → Text
filename_of chart = if ends_with chart (text ".tgz") then chart else chart ++ text ".tgz"

abbrev last_part : Text → Text
last_part url = elim (rsplit_once url b'/') [ none ↦ url | some (dir, name) ↦ name ]

-- The first of some addresses that ends with the name of a file.
unfoldable pub matching_url : Text → List Text → Option Text
unfolding rsplit_once
matching_url filename [] = none
matching_url filename (url ∷ urls) =
    let rest = matching_url filename urls in
    if text_eq (last_part url) filename then some url else rest

module _ (Y : Yaml) where
  abbrev texts : List Y.Value → List Text
  texts [] = []
  texts (value ∷ values) = elim (Y.as_str value) [ none ↦ texts values | some t ↦ t ∷ texts values ]

  abbrev urls_of : Y.Value → List Text
  urls_of entry = elim (do Y.as_sequence (← Y.get entry (text "urls"))) [
    | none ↦ []
    | some urls ↦ texts urls
  ]

  abbrev version_urls : List Y.Value → List Text
  version_urls [] = []
  version_urls (entry ∷ entries) = urls_of entry ++ version_urls entries

  abbrev chart_urls : List Y.Value → List Text
  chart_urls [] = []
  chart_urls (versions ∷ charts) = elim (Y.as_sequence versions) [
    | none ↦ chart_urls charts
    | some entries ↦ version_urls entries ++ chart_urls charts
  ]

  -- All addresses in the index, in its order.
  unfoldable pub index_urls : Y.Value → List Text
  index_urls index = elim (do Y.as_mapping (← Y.get index (text "entries"))) [
    | none ↦ []
    | some mapping ↦ chart_urls (Y.values mapping)
  ]

  abbrev body_url : Text → Bytes → Option Text
  body_url filename content = do index ← Y.parse content; matching_url filename (index_urls index)

  abbrev indexed : Text → Outcome → Option Text
  indexed filename (responded r rtt total) =
      if is_success r.status then (do body_url filename (← all_bytes r.body)) else none
  indexed filename failed = none
  indexed filename panicked = none

  -- Where the index does not help, the chart is looked for below the address of the repository.
  unfoldable pub upstream_url : Text → Text → Outcome → Text
  unfolding matching_url index_urls ends_with starts_with
  upstream_url repo_url filename outcome = elim (indexed filename outcome) [
    | none ↦ below repo_url filename
    | some url ↦ if is_absolute url then url else below repo_url url
  ]

module _ (Y : Yaml) (S : ObjectStore) (c : CacheStorage) (d : Disk) (now : ℕ) where
  abbrev kept : Text → Text → Cached S → Option Bytes → ChartReply × Cached S
  kept repo filename s none = (refused bad_gateway, s)
  kept repo filename s (some content) =
      (serve_chart filename content, (write_chart S c d now s repo filename content).0)

  unfoldable pub fetch_and_cache_chart : Outcome → Text → Text → Cached S → ChartReply × Cached S
  unfolding write_chart serve_chart
  fetch_and_cache_chart (responded r rtt total) repo filename s =
      if is_success r.status then kept repo filename s (all_bytes r.body) else (refused r.status, s)
  fetch_and_cache_chart failed repo filename s = (refused bad_gateway, s)
  fetch_and_cache_chart panicked repo filename s = (refused bad_gateway, s)

  abbrev pub cached_chart : Text → Text → Cached S → Option Bytes
  cached_chart repo filename s =
      if chart_exists S c s repo filename
      then (elim (read_chart S c d s repo filename) [ ok content ↦ some content | err e ↦ none ])
      else none

  -- `get` says how a request for an address ends.
  unfoldable pub get_chart :
      List (Text × Text) → (Text → Outcome) → Text → Text → Cached S → ChartReply × Cached S
  unfolding chart_exists read_chart lookup upstream_url fetch_and_cache_chart
  get_chart helm_repos get repo chart s =
      let filename = filename_of chart in
      elim (cached_chart repo filename s) [
        | some content ↦ (serve_chart filename content, s)
        | none ↦ elim (lookup helm_repos repo) [
          | none ↦ (refused 404, s)
          | some repo_url ↦
              let index = get (below repo_url (text "index.yaml")) in
              fetch_and_cache_chart (get (upstream_url Y repo_url filename index)) repo filename s
        ]
      ]
