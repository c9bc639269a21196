-- ===== src/Prepull/Charts.antt =====
-- `prepull_charts` of src/prepull.rs, one chart after another. What `serde_yaml` gives, and how the
-- requests end, are parameters.
pub mod Specifiers
pub mod Tries
mod Tests
use pulld.Base.{
  ℕ, zero, suc, Bool, true, false, ◌||◌, ◌&&◌, not, ltb, leb, Option, none, some, is_none,
  unwrap_or, ◌>>=◌, List, [], ◌∷◌, ◌++◌, first, if◌then◌else◌, DockerProxyError, Result, ok, err,
}
use pulld.Text.{
  Text, text, text_eq, contains, split, split_once, rsplit_once, strip_prefix, strip_suffix,
  starts_with, ends_with,
}
use pulld.Cache.{CacheStorage}
use pulld.Cache.Disk.{Bytes, Disk, ObjectStore, Cached}
use pulld.Cache.Manifests.{chart_exists, write_chart}
use pulld.Registry.Http.{Response, is_success, all_bytes}
use pulld.Registry.Race.{Outcome, responded, failed, panicked}
use pulld.Registry.Upstreams.{lookup}

pub record Yaml : Type 1 where
  pub Value : Type 0
  pub Mapping : Type 0
  pub get : Value → Text → Option Value
  pub as_mapping : Value → Option Mapping
  pub values : Mapping → List Value
  pub entry : Mapping → Text → Option Value
  pub as_sequence : Value → Option (List Value)
  pub as_str : Value → Option Text
  pub parse : Bytes → Option Value

-- A chart's name, its version, and the name of its file.
pub record Chart : Type 0 where
  pub name : Text
  pub version : Option Text
  pub filename : Text

-- `name:version`, or the name of a file, which is cut at its first dash.
unfoldable pub parse_specifier : Text → Option Chart
unfolding split_once strip_suffix ends_with contains
parse_specifier specifier = elim (split_once specifier b':') [
  | some (name, version) ↦ some (record {
    name = name;
    version = some version;
    filename = name ++ b'-' ∷ version ++ text ".tgz";
  })
  | none ↦ elim (strip_suffix specifier (text ".tgz")) [
    | none ↦ none
    | some stem ↦ elim (split_once stem b'-') [
      | none ↦ some (record { name = stem; version = none; filename = specifier })
      | some (name, version) ↦
          some (record { name = name; version = some version; filename = specifier })
    ]
  ]
]

-- The repository and the rest of `repo/chart`.
unfoldable pub parse_chart_spec : Text → Option (Text × Text)
unfolding split
parse_chart_spec spec = elim (split spec b'/') [
  | repo ∷ specifier ∷ [] ↦ some (repo, specifier)
  | _ ↦ none
]

unfoldable pub normalize_version : Text → Text
unfolding strip_prefix
normalize_version version = unwrap_or (strip_prefix version (text "v")) version

-- A path below the address of a repository.
abbrev pub below : Text → Text → Text
below repo_url path =
    if ends_with repo_url (text "/") then repo_url ++ path else repo_url ++ b'/' ∷ path

abbrev pub is_absolute : Text → Bool
is_absolute url = starts_with url (text "http://") || starts_with url (text "https://")

module _ (Y : Yaml) where
  abbrev has_version : Text → Y.Value → Bool
  has_version version entry = elim (do Y.as_str (← Y.get entry (text "version"))) [
    | none ↦ false
    | some v ↦ text_eq (normalize_version v) (normalize_version version)
  ]

  unfoldable pub find_version : Text → List Y.Value → Option Y.Value
  unfolding normalize_version
  find_version version [] = none
  find_version version (entry ∷ entries) =
      let rest = find_version version entries in
      if has_version version entry then some entry else rest

  -- The address of a chart in the index: the first of the entry of its version, or without a version
  -- of the first entry.
  unfoldable pub indexed_url : Chart → Y.Value → Option Text
  unfolding find_version
  indexed_url chart index = do
    entries ← Y.get index (text "entries")
    mapping ← Y.as_mapping entries
    named ← Y.entry mapping chart.name
    sequence ← Y.as_sequence named
    entry ← elim chart.version [ none ↦ first sequence | some v ↦ find_version v sequence ]
    urls ← Y.get entry (text "urls")
    addresses ← Y.as_sequence urls
    address ← first addresses
    Y.as_str address

  abbrev absolute_url : Text → Text → Text
  absolute_url repo_url url = if is_absolute url then url else below repo_url url

  unfoldable pub chart_url : Text → Chart → Outcome → Result Text
  unfolding indexed_url ends_with starts_with
  chart_url repo_url chart (responded r rtt total) =
      if is_success r.status
      then (elim (do indexed_url chart (← Y.parse (← all_bytes r.body))) [
        | none ↦ err DockerProxyError.config
        | some url ↦ ok (absolute_url repo_url url)
      ])
      else err DockerProxyError.config
  chart_url repo_url chart failed = err DockerProxyError.config
  chart_url repo_url chart panicked = err DockerProxyError.config

-- What an attempt at a chart comes to.
pub data Attempt : Type 0 where
  fetched : Bytes → Attempt
  again : Attempt
  given_up : Attempt

abbrev pub attempt_of : Outcome → Attempt
attempt_of (responded r rtt total) =
    if is_success r.status
    then (elim (all_bytes r.body) [ none ↦ again | some content ↦ fetched content ])
    else if leb 500 r.status
    then again
    else given_up
attempt_of failed = again
attempt_of panicked = again

-- The attempts from `attempt` on, of which `left` are left.
unfoldable pub chart_attempts : (ℕ → Outcome) → ℕ → ℕ → Option Bytes
chart_attempts get attempt zero = none
chart_attempts get attempt (suc left) =
    let rest = chart_attempts get (suc attempt) left in
    elim (attempt_of (get attempt)) [
      | fetched content ↦ some content
      | again ↦ rest
      | given_up ↦ none
    ]

module _ (Y : Yaml) (S : ObjectStore) (c : CacheStorage) (d : Disk) (now : ℕ) where
  -- A chart that cannot be cached is a success too.
  abbrev keep_chart : Text → Text → Cached S → Option Bytes → Result {0} Unit × Cached S
  keep_chart repo filename s none = (err DockerProxyError.registry, s)
  keep_chart repo filename s (some content) =
      (ok tt, (write_chart S c d now s repo filename content).0)

  abbrev filename_of : Chart → Text → Text
  filename_of chart url = elim (rsplit_once url b'/') [
    | none ↦ chart.filename
    | some (dir, name) ↦ name
  ]

  abbrev fetch_chart :
      Text → Chart → (Text → ℕ → Outcome) → Cached S → Result Text → Result {0} Unit × Cached S
  fetch_chart repo chart get s (err e) = (err e, s)
  fetch_chart repo chart get s (ok url) =
      if chart_exists S c s repo (filename_of chart url)
      then (ok tt, s)
      else keep_chart repo (filename_of chart url) s (chart_attempts (get url) 1 3)

  abbrev found_chart :
      Bool
      → Text
      → Text
      → (Text → ℕ → Outcome)
      → Cached S
      → Option Chart
      → Result {0} Unit × Cached S
  found_chart builds repo repo_url get s none = (err DockerProxyError.config, s)
  found_chart builds repo repo_url get s (some chart) =
      if chart_exists S c s repo chart.filename
      then (ok tt, s)
      else if not builds
      then (err DockerProxyError.config, s)
      else fetch_chart repo chart get s
          (chart_url Y repo_url chart (get (below repo_url (text "index.yaml")) 0))

  -- `get` says how each request ends, by its address and the number of the attempt; `builds` whether
  -- the client for it can be built.
  unfoldable pub pull_chart :
      Bool
      → List (Text × Text)
      → (Text → ℕ → Outcome)
      → Text
      → Cached S
      → Result {0} Unit × Cached S
  unfolding parse_chart_spec parse_specifier lookup chart_exists write_chart chart_url
      chart_attempts rsplit_once
  pull_chart builds helm_repos get spec s = elim (parse_chart_spec spec) [
    | none ↦ (err DockerProxyError.config, s)
    | some (repo, specifier) ↦ elim (lookup helm_repos repo) [
      | none ↦ (err DockerProxyError.config, s)
      | some repo_url ↦ found_chart builds repo repo_url get s (parse_specifier specifier)
    ]
  ]

  abbrev succeeded : ℕ → Result {0} Unit → ℕ
  succeeded n (ok u) = suc n
  succeeded n (err e) = n

  -- How many of the charts were pulled, after `n`.
  unfoldable pub pull_charts :
      Bool → List (Text × Text) → (Text → ℕ → Outcome) → List Text → ℕ → Cached S → ℕ × Cached S
  unfolding pull_chart
  pull_charts builds helm_repos get [] n s = (n, s)
  pull_charts builds helm_repos get (spec ∷ specs) n s =
      let (result, s') = pull_chart builds helm_repos get spec s in
      pull_charts builds helm_repos get specs (succeeded n result) s'
