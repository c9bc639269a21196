-- ===== src/Registry/Blob/Handler/Tests.antt =====
-- Examples of the handler of blobs, with a network on which nothing answers.
use pulld.Base.{◌≡◌, refl, none, [], ◌∷◌}
use pulld.Text.{text}
use pulld.Json.Sample.{sample_json}
use pulld.Cache.Disk.{Bytes, Cached, find_file}
use pulld.Cache.Keys.{blob_path}
use pulld.Cache.Sample.{sample_cache, no_store}
use pulld.Registry.Http.{Headers, visible, header_text}
use pulld.Registry.Stats.Sample.{nat_float}
use pulld.Registry.Events.{PullEvent}
use pulld.Registry.Blob.{parse_range_header}
use pulld.Registry.Blob.Handler.{recorded, get_blob}
use pulld.Registry.Blob.Handler.Sample.{offline, with_cache}
use pulld.Registry.Blob.Handler.Hit.{range_asked, HitReply, IsHitEvent, get_blob-hit}

abbrev four_bytes : Bytes
four_bytes = 1 ∷ 2 ∷ 3 ∷ 4 ∷ []

abbrev one_blob : Cached no_store
one_blob = record {
  files = (text "/c/blobs/sha256/ab", record { bytes = four_bytes; modified = 1 }) ∷ [];
  objects = tt;
}

abbrev from_two : Headers
from_two = (text "range", visible (text "bytes=2-")) ∷ []

get_blob-hit_example :
    let (reply, after) =
      get_blob nat_float no_store
        (sample_json (λ bytes. none))
        (λ bytes. [])
        (λ s. s)
        sample_cache
        offline
        (text "alpine")
        (text "sha256:ab")
        from_two
        (with_cache one_blob) in
    HitReply four_bytes (range_asked from_two) reply
    × ((event : PullEvent) × IsHitEvent
          (text "alpine@sha256:ab")
          (text "sha256:ab")
          (offline.printed.status_text reply.status)
          event
        × (after ≡ recorded (event ∷ []) (with_cache one_blob)))
unfolding find_file blob_path header_text parse_range_header
get_blob-hit_example =
    get_blob-hit nat_float no_store (sample_json (λ bytes. none)) (λ bytes. []) (λ s. s)
      sample_cache offline (text "alpine") (text "sha256:ab") from_two (with_cache one_blob)
      four_bytes 1 refl refl refl refl
