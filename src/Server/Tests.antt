-- ===== src/Server/Tests.antt =====
-- Examples of paths.
use pulld.Base.{◌≡◌, refl}
use pulld.Text.{text}
use pulld.Server.{route, manifest, blob, invalid}

paths :
    (route (text "/v2/v2/quay.io/a/manifests/1") ≡ manifest (text "quay.io/a") (text "1"))
    × (route (text "/v2/a/blobs//etc/passwd") ≡ blob (text "a") (text "/etc/passwd"))
    × (route (text "/v2/a/tags/list") ≡ invalid)
unfolding route
paths = (refl, refl, refl)
