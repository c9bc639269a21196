-- ===== src/Registry/Manifest/Tests.antt =====
-- Examples of the handlers of manifests.
use pulld.Base.{◌≡◌, refl, ◌⊎◌, true, false, some, [], ◌∷◌, Option, DockerProxyError}
use pulld.Text.{Text, text, starts_with, trim}
use pulld.Json.{Json}
use pulld.Json.Sample.{sample_json, Value, num, str, arr, obj, Items, Fields}
use pulld.Cache.Disk.{Bytes, Cached}
use pulld.Cache.Sample.{sample_cache, good_disk, no_store, no_files}
use pulld.Cache.Manifests.{write_manifest_by_digest, write_tag_digest_mapping}
use pulld.Cache.Manifests.RoundTrip.{IsStore}
use pulld.Registry.Http.{Response}
use pulld.Registry.Stats.Sample.{nat_float}
use pulld.Registry.Race.{responded, failed}
use pulld.Registry.Names.{parse_repository}
use pulld.Registry.Blob.{content}
use pulld.Registry.Blob.Handler.{World, Proxy}
use pulld.Registry.Blob.Handler.Sample.{offline, with_cache}
use pulld.Registry.Manifest.{
  manifest_v2, media_type_of, is_schema_1, is_manifest_list, cached_manifest,
  resolve_platform_manifest,
}
use pulld.Registry.Manifest.Handler.{get_manifest, fetch_upstream}
use pulld.Registry.Manifest.Handler.Hit.{IsResolved, get_manifest-Serves}
use pulld.Registry.Manifest.Handler.Stored.{IsServed, get_manifest-again}
use pulld.Registry.Manifest.Head.{head_manifest}
use pulld.Registry.Manifest.Head.Agreement.{IsHeadOf, head_manifest-get}
use pulld.Registry.Manifest.Platform.{Resolves, resolve_platform_manifest-Resolves}

abbrev plain : Value
plain = obj (
    Fields.field (text "schemaVersion") (num 2)
      (Fields.field (text "mediaType") (str manifest_v2) Fields.end))

abbrev plain_json : Json
plain_json = sample_json (λ bytes. some plain)

abbrev hash : Bytes → Text
hash bytes = text "ab"

abbrev four_bytes : Bytes
four_bytes = 1 ∷ 2 ∷ 3 ∷ 4 ∷ []

abbrev one_manifest : Cached no_store
one_manifest = record {
  files =
      (
        text "/c/manifests/docker.io/library/alpine/sha256/ab.json",
        record { bytes = four_bytes; modified = 1 },
      )
      ∷ (
        text "/c/manifests/docker.io/library/alpine/tags/3.digest",
        record { bytes = text "sha256:ab"; modified = 1 },
      )
      ∷ [];
  objects = tt;
}

get_manifest-Serves_example :
    (is_schema_1 plain_json four_bytes ≡ false)
    ⊎ IsResolved nat_float no_store plain_json hash sample_cache offline
        (text "x86_64")
        one_manifest
        (text "docker.io")
        (text "library/alpine")
        (text "3")
        four_bytes
unfolding get_manifest
get_manifest-Serves_example =
    get_manifest-Serves nat_float no_store plain_json hash sample_cache offline (text "x86_64")
      (text "alpine") (text "3") (with_cache one_manifest) four_bytes
      (
        record {
          status = 200;
          headers =
              (text "Content-Type", manifest_v2)
              ∷ (text "Docker-Content-Digest", text "sha256:ab")
              ∷ [];
          body = content four_bytes;
        },
        refl,
        refl,
        refl,
      )

abbrev answer : Response
answer = record {
  status = 200;
  headers = [];
  body = record { chunks = four_bytes ∷ []; broken = false };
}

abbrev online : World nat_float
online = record offline {
  net = record {
    race = λ mirrors req. (0, responded answer 5 9) ∷ [];
    hedge = λ a b delay req. record { primary_first = true; primary = failed; secondary = failed };
    send = λ mirror req. failed;
  };
}

abbrev fetched : Option Response × Proxy no_store
fetched =
    fetch_upstream nat_float no_store plain_json hash sample_cache online (text "docker.io")
      (text "library/alpine") (text "3") (with_cache no_files)

no_store-IsStore : IsStore no_store
no_store-IsStore = record { get-put = λ s s' key content h. absurd (cc) }

get_manifest-again_example :
    let (served, p2) =
      get_manifest nat_float no_store plain_json hash sample_cache online
        (text "x86_64")
        (text "alpine")
        (text "3")
        (with_cache no_files) in
    let (again, p3) =
      get_manifest nat_float no_store plain_json hash sample_cache
        (record online { net = offline.net; server = offline.server })
        (text "aarch64")
        (text "alpine")
        (text "3")
        p2 in
    IsServed manifest_v2 (text "sha256:ab") four_bytes served
    × IsServed manifest_v2 (text "sha256:ab") four_bytes again
    × (p3 ≡ p2)
unfolding fetch_upstream cached_manifest is_schema_1 is_manifest_list write_manifest_by_digest
    write_tag_digest_mapping trim parse_repository media_type_of starts_with
get_manifest-again_example =
    get_manifest-again nat_float no_store plain_json hash sample_cache online (text "x86_64")
      (text "aarch64") (text "alpine") (text "3") (with_cache no_files) fetched.1 answer four_bytes
      DockerProxyError.cache offline.net offline.server no_store-IsStore refl refl refl refl refl
      refl refl refl refl refl refl refl refl

head_manifest-get_example :
    let (got, p1) =
      get_manifest nat_float no_store plain_json hash sample_cache offline
        (text "x86_64")
        (text "alpine")
        (text "3")
        (with_cache one_manifest) in
    let (head, p2) =
      head_manifest nat_float no_store plain_json hash sample_cache offline
        (text "alpine")
        (text "3")
        (with_cache one_manifest) in
    IsHeadOf head got × (p1 ≡ with_cache one_manifest) × (p2 ≡ with_cache one_manifest)
unfolding cached_manifest parse_repository is_schema_1 is_manifest_list media_type_of
head_manifest-get_example =
    head_manifest-get nat_float no_store plain_json hash sample_cache offline (text "x86_64")
      (text "alpine") (text "3") (with_cache one_manifest) four_bytes refl refl refl refl

-- A list with one entry, whose digest is the list's own in this cache.
abbrev entry : Value
entry = obj (
    Fields.field (text "digest") (str (text "sha256:ab")) (
      Fields.field (text "platform")
        (obj (
          Fields.field (text "architecture") (str (text "arm64"))
            (Fields.field (text "os") (str (text "linux")) Fields.end)))
        Fields.end))

abbrev list : Value
list = obj (
    Fields.field (text "mediaType") (str (text "application/vnd.oci.image.index.v1+json"))
      (Fields.field (text "manifests") (arr (Items.cons entry Items.nil)) Fields.end))

abbrev list_json : Json
list_json = sample_json (λ bytes. some list)

resolve_platform_manifest-Resolves_example :
    (value : Value) × (◌≡◌ {A = Option Value} (some list) (some value))
    × Resolves no_store list_json sample_cache good_disk
        (text "aarch64")
        one_manifest
        (text "docker.io")
        (text "library/alpine")
        value
        four_bytes
        manifest_v2
unfolding resolve_platform_manifest
resolve_platform_manifest-Resolves_example =
    resolve_platform_manifest-Resolves no_store list_json sample_cache good_disk (text "aarch64")
      one_manifest (text "docker.io") (text "library/alpine") four_bytes four_bytes manifest_v2 refl
