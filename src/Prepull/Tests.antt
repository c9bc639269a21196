-- ===== src/Prepull/Tests.antt =====
-- Examples of the pre-pull.
use pulld.Base.{
  ℕ, zero, suc, ◌%◌, ◌≡◌, refl, true, false, none, some, [], ◌∷◌, Option, ok, DockerProxyError,
}
use pulld.Text.{Text, text, trim, starts_with}
use pulld.Text.Numbers.{u64_limit}
use pulld.Json.{Json}
use pulld.Json.Sample.{sample_json, Value, str, arr, obj, Items, Fields}
use pulld.Cache.Disk.{Bytes}
use pulld.Cache.Keys.{manifest_path, manifest_path_by_digest}
use pulld.Cache.Blobs.{read_blob, write_blob}
use pulld.Cache.Sample.{sample_cache, good_disk, no_store, no_files}
use pulld.Cache.Manifests.{write_manifest_by_digest, write_tag_digest_mapping}
use pulld.Cache.Manifests.RoundTrip.{IsStore}
use pulld.Registry.Http.{Response}
use pulld.Registry.Stats.{failover}
use pulld.Registry.Stats.Sample.{nat_float}
use pulld.Registry.Race.{responded, failed, race_mirrors}
use pulld.Registry.Names.{parse_repository}
use pulld.Registry.Blob.Handler.Sample.{offline, with_cache}
use pulld.Registry.Manifest.{manifest_v2, media_type_of, is_schema_1, is_manifest_list}
use pulld.Registry.Manifest.Handler.{get_manifest}
use pulld.Registry.Manifest.Handler.Stored.{IsServed}
use pulld.Prepull.Manifests.{Upstream, fetch_manifest, pulled_manifest, request_manifest}
use pulld.Prepull.Manifests.Served.{fetch_manifest-get_manifest}
use pulld.Prepull.Blobs.{request_blob, pull_blob_attempt, pull_blob}
use pulld.Prepull.Blobs.Attempts.{IsTried, pull_blob-IsTried, pull_blob_attempt-read_blob}

abbrev bytes : Bytes
bytes = 1 ∷ 2 ∷ 3 ∷ []

abbrev response : Response
response = record {
  status = 200;
  headers = [];
  body = record { chunks = bytes ∷ []; broken = false };
}

-- A registry with one mirror, which answers all requests, or none.
abbrev with_race : Option Response → Upstream
with_race answer = record {
  net = record {
    race = λ mirrors req. elim answer [ none ↦ [] | some r ↦ (0, responded r 5 9) ∷ [] ];
    hedge = λ a b delay req. record { primary_first = true; primary = failed; secondary = failed };
    send = λ mirror req. failed;
  };
  server = offline.server;
  mirrors = text "https://registry-1.docker.io" ∷ [];
  strategy = failover;
  hedge_delay_ms = 100;
}

-- The first attempt fails.
abbrev flaky : ℕ → Upstream
flaky zero = with_race none
flaky (suc zero) = with_race none
flaky (suc (suc n)) = with_race (some response)

abbrev manifest : Value
manifest = obj (
    Fields.field (text "mediaType") (str manifest_v2) (
      Fields.field (text "layers")
        (arr (
          Items.cons (obj (Fields.field (text "digest") (str (text "sha256:cd")) Fields.end)) (
            Items.cons (obj (Fields.field (text "digest") (str (text "sha256:ef")) Fields.end))
              Items.nil)))
        Fields.end))

abbrev json : Json
json = sample_json (λ content. some manifest)

abbrev hash : Bytes → Text
hash content = text "ab"

pull_blob-IsTried_example :
    IsTried nat_float json no_store sample_cache good_disk 7
      (text "sha256:cd")
      (text "library/alpine")
      flaky
      1
      3
      no_files
      (pull_blob nat_float json no_store sample_cache good_disk 7
        (text "sha256:cd")
        (text "library/alpine")
        flaky
        no_files)
unfolding read_blob
pull_blob-IsTried_example =
    pull_blob-IsTried nat_float json no_store sample_cache good_disk 7 (text "sha256:cd")
      (text "library/alpine") flaky no_files DockerProxyError.cache refl

second_attempt :
    (pull_blob nat_float json no_store sample_cache good_disk 7
      (text "sha256:cd")
      (text "library/alpine")
      flaky
      no_files).0
    ≡ ok 3
unfolding pull_blob race_mirrors
second_attempt = refl

pull_blob_attempt-read_blob_example :
    ((pull_blob_attempt nat_float json no_store sample_cache good_disk 7
        (text "sha256:cd")
        (text "library/alpine")
        (with_race (some response))
        no_files).0
      ≡ ok (3 % u64_limit))
    × (read_blob no_store sample_cache good_disk
          (pull_blob_attempt nat_float json no_store sample_cache good_disk 7
            (text "sha256:cd")
            (text "library/alpine")
            (with_race (some response))
            no_files).1
          (text "sha256:cd")
        ≡ ok bytes)
unfolding request_blob write_blob race_mirrors
pull_blob_attempt-read_blob_example =
    pull_blob_attempt-read_blob nat_float json no_store sample_cache good_disk 7 (text "sha256:cd")
      (text "library/alpine") (with_race (some response)) no_files response bytes refl refl refl
      refl refl

no_store-IsStore : IsStore no_store
no_store-IsStore = record { get-put = λ s s' key content h. absurd (cc) }

fetch_manifest-get_manifest_example :
    let (fetched, s) =
      fetch_manifest no_store hash sample_cache good_disk nat_float json
        (with_race (some response))
        7
        (text "docker.io")
        (text "library/alpine")
        (text "3")
        no_files in
    let (served, after) =
      get_manifest nat_float no_store json hash sample_cache offline
        (text "x86_64")
        (text "alpine")
        (text "3")
        (with_cache s) in
    (fetched ≡ ok bytes)
    × IsServed manifest_v2 (text "sha256:ab") bytes served
    × (after ≡ with_cache s)
unfolding parse_repository starts_with trim manifest_path manifest_path_by_digest pulled_manifest
    request_manifest is_schema_1 is_manifest_list media_type_of write_manifest_by_digest
    write_tag_digest_mapping
fetch_manifest-get_manifest_example =
    fetch_manifest-get_manifest nat_float no_store json hash sample_cache offline (text "x86_64")
      (text "alpine") (text "3") (text "docker.io") (text "library/alpine")
      (with_race (some response)) 7 no_files (with_cache no_files) response bytes
      DockerProxyError.cache refl no_store-IsStore refl refl refl refl refl refl refl refl refl refl
      refl refl refl
