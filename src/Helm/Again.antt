-- ===== src/Helm/Again.antt =====
-- That a chart is fetched once.
use pulld.Base.{
  ℕ, ◌≡◌, refl, ◌⊎◌, inl, inr, true, false, some, none, List, ok, ◌++◌, Bool-cases, all, leb, ltb,
  ◌==◌, ◌&&◌, ◌||◌,
}
use pulld.Text.{Text, text}
use pulld.Cache.{CacheStorage, filesystem}
use pulld.Cache.Disk.{Bytes, Disk, ObjectStore, Cached, find_file, read_file}
use pulld.Cache.Keys.{chart_path}
use pulld.Cache.Manifests.{chart_exists, read_chart, write_chart}
use pulld.Cache.Manifests.RoundTrip.{write_atomically-found}
use pulld.Registry.Http.{Response, is_success, all_bytes}
use pulld.Registry.Race.{Outcome, responded}
use pulld.Registry.Upstreams.{lookup}
use pulld.Prepull.Charts.{Yaml, below}
use pulld.Registry.Manifest.{parse_value}
use pulld.Helm.{
  ChartReply, served, panics, serve_chart, filename_of, upstream_url, fetch_and_cache_chart,
  cached_chart, get_chart, kept,
}

-- The header that names the file of a chart.
abbrev pub disposition : Text → Text
disposition filename = text "attachment; filename=\"" ++ filename ++ text "\""

-- An answer with a chart, or a panic, where the name has a character that no header can have.
abbrev pub IsServedChart : Text → Bytes → ChartReply → Type 0
IsServedChart filename content reply =
    ((parse_value (disposition filename) ≡ none) × (reply ≡ panics))
    ⊎ ((parse_value (disposition filename) ≡ some (disposition filename))
        × (reply ≡ served (disposition filename) content))

serve_chart-IsServedChart :
    (filename : Text) (content : Bytes)
    → IsServedChart filename content (serve_chart filename content)
unfolding serve_chart parse_value
serve_chart-IsServedChart filename content =
    elim (Bool-cases (all (λ c. (leb 32 c && ltb c 127) || c == 9) (disposition filename))) [
      | inl e ↦ inr (rw (parse_value, e) refl, rw (serve_chart, parse_value, e) refl)
      | inr e ↦ inl (rw (parse_value, e) refl, rw (serve_chart, parse_value, e) refl)
    ]

module _ (Y : Yaml) (S : ObjectStore) (c : CacheStorage) (d : Disk) (now : ℕ) where
  -- A chart that was written to disk is there.
  write_chart-found :
      (s : Cached S) (repo filename : Text) (content : Bytes)
      → c.backend ≡ filesystem
      → (write_chart S c d now s repo filename content).1 ≡ ok tt
      → find_file
          ((write_chart S c d now s repo filename content).0).files
          (chart_path c repo filename)
        ≡ some (record { bytes = content; modified = now })
  unfolding write_chart
  write_chart-found s repo filename content b w =
      simp (write_chart, b)
        (write_atomically-found S d now s (chart_path c repo filename) content
          (rw (write_chart, b) at w))

  cached_chart-found :
      (s : Cached S) (repo filename : Text) (content : Bytes)
      → c.backend ≡ filesystem
      → d.read_fails (chart_path c repo filename) ≡ false
      → find_file s.files (chart_path c repo filename)
        ≡ some (record { bytes = content; modified = now })
      → cached_chart Y S c d now repo filename s ≡ some content
  unfolding chart_exists read_chart read_file
  cached_chart-found s repo filename content b readable there =
      simp (cached_chart, chart_exists, read_chart, read_file, b, readable, there)

  -- What the repository gives with success for a chart that the cache has not, under the address that
  -- is found for it, where it is stored on disk without an error and can be read: the request is
  -- answered with it under the name of its file, and so is each later request for the chart, whatever
  -- the network and the configuration of repositories then are, which changes nothing. In place of the
  -- answer there is a panic where the name has a character that no header can have.
  pub get_chart-again :
      (helm_repos : List (Text × Text)) (get : Text → Outcome) (repo chart repo_url : Text)
      (s : Cached S) (r : Response) (rtt total : ℕ) (content : Bytes)
      → let filename = filename_of chart in
        let (reply, s') = get_chart Y S c d now helm_repos get repo chart s in
        c.backend ≡ filesystem
        → cached_chart Y S c d now repo filename s ≡ none
        → lookup helm_repos repo ≡ some repo_url
        → get (upstream_url Y repo_url filename (get (below repo_url (text "index.yaml"))))
          ≡ responded r rtt total
        → is_success r.status ≡ true
        → all_bytes r.body ≡ some content
        → d.read_fails (chart_path c repo filename) ≡ false
        → (write_chart S c d now s repo filename content).1 ≡ ok tt
        → IsServedChart filename content reply
          × ((helm_repos' : List (Text × Text)) (get' : Text → Outcome)
              → get_chart Y S c d now helm_repos' get' repo chart s' ≡ (reply, s'))
  unfolding get_chart fetch_and_cache_chart
  get_chart-again helm_repos get repo chart repo_url s r rtt total content b missing found answer
        good body readable w =
      let filename = filename_of chart in
      let s1 = (write_chart S c d now s repo filename content).0 in
      let same : get_chart Y S c d now helm_repos get repo chart s
          ≡ (serve_chart filename content, s1) =
        simp (get_chart, missing, found, answer, fetch_and_cache_chart, good, kept, body) in
      let cached : cached_chart Y S c d now repo filename s1 ≡ some content =
        cached_chart-found s1 repo filename content b readable
          (write_chart-found s repo filename content b w) in
      rw same
        (serve_chart-IsServedChart filename content, λ helm_repos' get'. simp (get_chart, cached))
