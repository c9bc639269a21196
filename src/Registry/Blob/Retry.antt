-- ===== src/Registry/Blob/Retry.antt =====
-- The loop of `get_blob` in src/registry/blob.rs that retries the mirrors after a 401.
pub mod Tries
use pulld.Base.{
  ℕ, ◌+◌, Bool, true, false, ◌&&◌, ◌||◌, not, Option, none, some, ◌>>=◌, List, [], ◌∷◌, ◌++◌,
  filter, range, length, get_elem?, ◌==◌, unwrap_or, if◌then◌else◌, Result, ok, err,
  DockerProxyError,
}
use pulld.Text.{Text, text, trim_end_by}
use pulld.Json.{Json}
use pulld.Registry.Http.{Response, Request, is_success, unauthorized, partial_content, header_text}
use pulld.Registry.Race.{Network, Outcome, responded, failed, panicked}
use pulld.Registry.Tokens.{TokenServer, TokenCache, fetch_registry_token_with_cache}

-- `request_single_mirror`, of src/registry/mirror_racer.rs.
unfoldable pub request_single_mirror : Network → List Text → ℕ → Request → Result Response
unfolding trim_end_by
request_single_mirror net mirrors mirror_index req = elim (get_elem? mirrors mirror_index) [
  | none ↦ err DockerProxyError.registry
  | some mirror ↦ elim (net.send (trim_end_by (λ c. c == b'/') mirror) req) [
    | responded r rtt total ↦ ok r
    | failed ↦ err DockerProxyError.http
    | panicked ↦ err DockerProxyError.http
  ]
]

-- The mirror that the realm names is tried first.
unfoldable pub retry_order : Option ℕ → ℕ → List ℕ
retry_order none count = range 0 count
retry_order (some first) count = first ∷ filter (λ i. not (i == first)) (range 0 count)

abbrev pub is_good : Result Response → Bool
is_good (err e) = false
is_good (ok r) = is_success r.status || r.status == partial_content

module _ (J : Json) where
  -- What a mirror is asked for: the path and the range, with a token.
  abbrev with_token : Request → Text → Request
  with_token req token = record req { auth_token = some token; accept_header = none }

  -- A second try with a token of the mirror's own, where it answers 401 with a challenge.
  abbrev own_token :
      Network
      → TokenServer
      → List Text
      → Request
      → Text
      → ℕ
      → Response
      → Option TokenCache
      → Result Response × Option TokenCache
  own_token net server mirrors req repository i r tokens =
      elim (header_text r.headers (text "www-authenticate")) [
        | none ↦ (ok r, tokens)
        | some challenge ↦
            let (token, tokens') =
              fetch_registry_token_with_cache J server challenge repository tokens in
            elim token [
              | none ↦ (ok r, tokens')
              | some t ↦ (request_single_mirror net mirrors i (with_token req t), tokens')
            ]
      ]

  -- The turn of one mirror: its last answer, and the cache of tokens after it.
  unfoldable pub try_mirror :
      Network
      → TokenServer
      → List Text
      → Request
      → Text
      → Text
      → ℕ
      → Option TokenCache
      → Result Response × Option TokenCache
  unfolding request_single_mirror fetch_registry_token_with_cache header_text
  try_mirror net server mirrors req repository token i tokens =
      elim (request_single_mirror net mirrors i (with_token req token)) [
        | err e ↦ (err e, tokens)
        | ok r ↦
            if r.status == unauthorized
            then own_token net server mirrors req repository i r tokens
            else (ok r, tokens)
      ]

  -- The mirrors in turn, until one gives a good answer; the last answer is kept.
  unfoldable pub retry_on :
      Network
      → TokenServer
      → List Text
      → Request
      → Text
      → Text
      → List ℕ
      → Option (Result Response)
      → Option TokenCache
      → Option (Result Response) × Option TokenCache
  unfolding try_mirror
  retry_on net server mirrors req repository token [] last tokens = (last, tokens)
  retry_on net server mirrors req repository token (i ∷ indices) last tokens =
      let (answer, tokens') = try_mirror net server mirrors req repository token i tokens in
      let rest = retry_on net server mirrors req repository token indices (some answer) tokens' in
      if is_good answer then (some answer, tokens') else rest

  unfoldable pub retry_mirrors :
      Network
      → TokenServer
      → List Text
      → Request
      → Text
      → Text
      → Option ℕ
      → Option TokenCache
      → Result Response × Option TokenCache
  unfolding retry_order retry_on
  retry_mirrors net server mirrors req repository token mirror_ix tokens =
      let (last, tokens') =
        retry_on net server mirrors req repository token (retry_order mirror_ix (length mirrors))
          none tokens in
      (unwrap_or last (err DockerProxyError.registry), tokens')
