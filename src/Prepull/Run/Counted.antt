-- ===== src/Prepull/Run/Counted.antt =====
-- What `run_pre_pull` returns.
use pulld.Base.{
  ℕ, ◌+◌, ◌≡◌, refl, true, none, some, List, [], ◌∷◌, is_empty, length, arith, Bool-cases, inl, inr,
  Result, ok, err,
}
use pulld.Text.{Text}
use pulld.Config.{PrePullConfig}
use pulld.Prepull.Charts.{Yaml}
use pulld.Json.{Json}
use pulld.Cache.{CacheStorage, with_max_size}
use pulld.Cache.Disk.{Bytes, Disk, ObjectStore, Cached}
use pulld.Registry.Stats.{Float}
use pulld.Registry.Upstreams.{Registries}
use pulld.Registry.Upstreams.Configured.{make_clients}
use pulld.Prepull.Run.{
  Outside, Counts, tallied, pull_one, pull_images, run_pre_pull, ChartsOutside, with_charts,
}

module _ (X : Float) (J : Json) (S : ObjectStore) (sha256_hex : Bytes → Text) (host_arch : Text)
    (d : Disk) (now : ℕ) (outside : Text → Outside) where
  tallied-one :
      (n : Counts) (r : Result ℕ)
      → (tallied n r).success_count + (tallied n r).fail_count ≡ n.success_count + n.fail_count + 1
  tallied-one n (ok size) = omega arith
  tallied-one n (err e) = omega arith

  pull_images-counts :
      (c : CacheStorage) (s : Registries) (config : PrePullConfig) (images : List Text) (n : Counts)
      (cached : Cached S)
      → let m =
          (pull_images X J S sha256_hex host_arch c d now outside s config images n cached).0 in
        m.success_count + m.fail_count ≡ n.success_count + n.fail_count + length images
  unfolding pull_images
  pull_images-counts c s config [] n cached = omega arith
  pull_images-counts c s config (image ∷ images) n cached =
      let (result, cached') =
        pull_one X J S sha256_hex host_arch c d now outside s config image cached in
      let one = tallied-one n result in
      let rest = pull_images-counts c s config images (tallied n result) cached' in omega arith

none_left : (images : List Text) → is_empty images ≡ true → 0 ≡ length images
none_left [] e = refl
none_left (image ∷ images) e = absurd (ground arith)

module _ (X : Float) (J : Json) (Y : Yaml) (S : ObjectStore) (sha256_hex : Bytes → Text)
    (host_arch : Text) (d : Disk) (now : ℕ) (outside : Text → Outside) (o : ChartsOutside) where
  with_charts-counts :
      (c : CacheStorage) (helm_repos : List (Text × Text)) (charts : List Text)
      (r : Counts × Cached S)
      → (with_charts X J Y S sha256_hex host_arch d now outside o c helm_repos charts r).0 ≡ ok r.0
  with_charts-counts c helm_repos [] r = refl
  with_charts-counts c helm_repos (chart ∷ charts) r = refl

  -- Where the directories of the cache and the clients can be made, an enabled pre-pull succeeds,
  -- however many of its images and charts fail, and counts each of the images once.
  pub run_pre_pull-counts :
      (cache_dir : Text) (settings s : Registries) (config : PrePullConfig)
      (helm_repos : List (Text × Text)) (cached : Cached S)
      → config.enabled ≡ true
      → make_clients settings ≡ some s
      → (n : Counts) × ((run_pre_pull X J Y S sha256_hex host_arch d now outside o true cache_dir
            settings config helm_repos cached).0
          ≡ ok n)
        × (n.success_count + n.fail_count ≡ length config.images)
  unfolding run_pre_pull
  run_pre_pull-counts cache_dir settings s config helm_repos cached enabled m =
      let start : Counts = record { success_count = 0; fail_count = 0 } in
      let c = with_max_size cache_dir none in
      let r =
        pull_images X J S sha256_hex host_arch c d now outside s config config.images start
          cached in
      elim (Bool-cases (is_empty config.images)) [
        | inl e ↦ (start, simp (run_pre_pull, enabled, e), none_left config.images e)
        | inr e ↦ (
          r.0,
          simp (run_pre_pull, enabled, e, m) (with_charts-counts c helm_repos config.charts r),
          (let all =
                pull_images-counts X J S sha256_hex host_arch d now outside c s config config.images
                  start cached in
              omega (arith, all)),
        )
      ]
