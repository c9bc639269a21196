-- ===== src/Prepull/Run.antt =====
-- `run_pre_pull` of src/prepull.rs. The charts are pulled after the images, and what becomes of them is
-- only logged.
pub mod Clients
pub mod Counted
mod Tests
use pulld.Base.{
  ℕ, suc, Bool, true, false, not, ◌||◌, Option, none, some, List, [], ◌∷◌, is_empty, unwrap_or,
  if◌then◌else◌, DockerProxyError, Result, ok, err,
}
use pulld.Text.{Text, contains_text}
use pulld.Json.{Json}
use pulld.Config.{PrePullConfig}
use pulld.Cache.{CacheStorage, with_max_size}
use pulld.Cache.Disk.{Bytes, Disk, ObjectStore, Cached}
use pulld.Registry.Stats.{Float, MirrorStrategy}
use pulld.Registry.Race.{Network, Outcome}
use pulld.Registry.Tokens.{TokenServer}
use pulld.Registry.Upstreams.{UpstreamClient, Registries, lookup}
use pulld.Registry.Upstreams.Configured.{make_clients}
use pulld.Prepull.Names.{parse_image_reference, parse_repository}
use pulld.Prepull.Manifests.{Upstream}
use pulld.Prepull.Images.{pull_image}
use pulld.Prepull.Charts.{Yaml, pull_charts}

-- What is met outside while an image is pulled: the network of the manifests, and that of each
-- attempt at a blob, the server of tokens, and the order of a set.
pub record Outside : Type 0 where
  pub net : Network
  pub blob_net : Text → ℕ → Network
  pub server : TokenServer
  pub iterate : List Text → List Text

abbrev pub image_registry : Text → Text
image_registry image = (parse_repository (parse_image_reference image).0).0

unfoldable pub image_client : Registries → Text → UpstreamClient
unfolding parse_image_reference parse_repository lookup
image_client s image =
    unwrap_or (lookup s.registry_clients (image_registry image)) s.default_registry_client

abbrev hedge_delay : Registries → Text → ℕ
hedge_delay s image = elim (lookup s.registry_configs (image_registry image)) [
  | none ↦ 100
  | some config ↦ config.hedge_delay_ms
]

abbrev upstream_of : Registries → PrePullConfig → TokenServer → Text → Network → Upstream
upstream_of s config server image net = record {
  net = net;
  server = server;
  mirrors = (image_client s image).mirrors;
  strategy = config.mirror_strategy;
  hedge_delay_ms = hedge_delay s image;
}

-- How many images were pulled, and how many not.
pub record Counts : Type 0 where
  pub success_count : ℕ
  pub fail_count : ℕ

abbrev pub tallied : Counts → Result ℕ → Counts
tallied n (ok size) = record n { success_count = suc n.success_count }
tallied n (err e) = record n { fail_count = suc n.fail_count }

module _ (X : Float) (J : Json) (S : ObjectStore) (sha256_hex : Bytes → Text) (host_arch : Text)
    (c : CacheStorage) (d : Disk) (now : ℕ) (outside : Text → Outside) where
  abbrev pub pull_one : Registries → PrePullConfig → Text → Cached S → Result ℕ × Cached S
  pull_one s config image cached =
      let o = outside image in
      let u = upstream_of s config o.server image in
      pull_image X J S sha256_hex host_arch c d now o.iterate (u o.net)
        (λ digest attempt. u (o.blob_net digest attempt)) image cached

  unfoldable pub pull_images :
      Registries → PrePullConfig → List Text → Counts → Cached S → Counts × Cached S
  unfolding pull_image image_client
  pull_images s config [] n cached = (n, cached)
  pull_images s config (image ∷ images) n cached =
      let (result, cached') = pull_one s config image cached in
      pull_images s config images (tallied n result) cached'

-- What is met outside while the charts are pulled.
pub record ChartsOutside : Type 0 where
  pub builds : Bool
  pub get : Text → ℕ → Outcome

-- The pre-pull has a store of its own on the directory of the cache: on disk, and without a bound.
-- `dirs` says whether its directories can be made, and `settings` has the configurations of the
-- registries, and no clients yet.
module _ (X : Float) (J : Json) (Y : Yaml) (S : ObjectStore) (sha256_hex : Bytes → Text)
    (host_arch : Text) (d : Disk) (now : ℕ) (outside : Text → Outside) (o : ChartsOutside) where
  abbrev pub with_charts :
      CacheStorage → List (Text × Text) → List Text → Counts × Cached S → Result Counts × Cached S
  with_charts c helm_repos charts (n, cached) =
      if is_empty charts
      then (ok n, cached)
      else (ok n, (pull_charts Y S c d now o.builds helm_repos o.get charts 0 cached).1)

  unfoldable pub run_pre_pull :
      Bool
      → Text
      → Registries
      → PrePullConfig
      → List (Text × Text)
      → Cached S
      → Result Counts × Cached S
  unfolding with_max_size make_clients pull_images pull_charts
  run_pre_pull dirs cache_dir settings config helm_repos cached =
      let none_pulled : Counts = record { success_count = 0; fail_count = 0 } in
      if not config.enabled || is_empty config.images
      then (ok none_pulled, cached)
      else if not dirs
      then (err DockerProxyError.cache, cached)
      else elim (make_clients settings) [
        | none ↦ (err DockerProxyError.http, cached)
        | some s ↦
            let c = with_max_size cache_dir none in
            with_charts c helm_repos config.charts (
              pull_images X J S sha256_hex host_arch c d now outside s config config.images
                none_pulled cached)
      ]
