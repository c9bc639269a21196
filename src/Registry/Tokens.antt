-- ===== src/Registry/Tokens.antt =====
-- The tokens of registries: `TokenCache`, `fetch_registry_token_with_cache` and the matching of a
-- challenge to a mirror, of src/registry/manifest.rs. The server of tokens, the clock and Unicode's
-- lower case are parameters.
pub mod Expiry
pub mod Challenge
mod Tests
use pulld.Base.{
  ℕ, suc, ◌+◌, ◌-◌, ◌*◌, Bool, true, false, Option, none, some, ◌>>=◌, List, [], ◌∷◌, ◌++◌, ltb,
  unwrap_or, is_some, ◌==◌, ◌&&◌, ◌||◌, if◌then◌else◌,
}
use pulld.Text.{
  Text, text, text_eq, strip_prefix, starts_with, strip_suffix, ends_with, contains_text, split,
  split_once, trim, trim_end_by,
}
use pulld.Json.{Json}
use pulld.Registry.Http.{Response, is_success, all_bytes}

pub record CachedToken : Type 0 where
  pub token : Text
  pub expires_at : ℕ

-- The times are in nanoseconds.
abbrev pub TokenCache : Type 0
TokenCache = List (Text × CachedToken)

unfoldable pub find_token : TokenCache → Text → Option CachedToken
find_token [] key = none
find_token ((k, t) ∷ rest) key = if text_eq k key then some t else find_token rest key

unfoldable pub put_token : TokenCache → Text → CachedToken → TokenCache
put_token [] key t = (key, t) ∷ []
put_token ((k, old) ∷ rest) key t =
    if text_eq k key then (k, t) ∷ rest else (k, old) ∷ put_token rest key t

-- `retain`: the tokens that are not expired.
unfoldable pub retain : ℕ → TokenCache → TokenCache
retain now [] = []
retain now ((k, t) ∷ rest) =
    let kept = retain now rest in if ltb now t.expires_at then (k, t) ∷ kept else kept

unfoldable pub get_token : ℕ → TokenCache → Text → Option Text
unfolding find_token
get_token now tokens key = do
  cached ← find_token tokens key
  if ltb now cached.expires_at then some cached.token else none

abbrev pub seconds : ℕ → ℕ
seconds n = n * 1000000000

-- `DEFAULT_TOKEN_EXPIRY_SECS` is 300, `TOKEN_EXPIRY_SAFETY_MARGIN_SECS` 30. The clock is read
-- twice, and then again to clean up.
unfoldable pub insert_token : ℕ → ℕ → TokenCache → Text → Text → Option ℕ → TokenCache
unfolding put_token retain
insert_token now later tokens key token expires_in_seconds =
    let expires_in = unwrap_or expires_in_seconds 300 in
    retain later (
      put_token tokens key (record { token = token; expires_at = now + seconds (expires_in - 30) }))

-- The parameters of a challenge.
pub record Challenged : Type 0 where
  pub realm : Option Text
  pub service : Option Text
  pub scope : Option Text

-- What stands between the quotes after `name=`.
unfoldable pub quoted : Text → Text → Option Text
unfolding strip_prefix strip_suffix
quoted part name = do
  value ← strip_prefix part name
  rest ← strip_prefix value (text "\"")
  strip_suffix rest (text "\"")

unfoldable pub read_part : Challenged → Text → Challenged
unfolding quoted starts_with
read_part c part =
    if starts_with part (text "realm=")
    then record c { realm = quoted part (text "realm=") }
    else if starts_with part (text "service=")
    then record c { service = quoted part (text "service=") }
    else if starts_with part (text "scope=")
    then record c { scope = quoted part (text "scope=") }
    else c

unfoldable pub read_parts : Challenged → List Text → Challenged
unfolding read_part trim
read_parts c [] = c
read_parts c (part ∷ parts) = read_parts (read_part c (trim part)) parts

unfoldable pub challenge_of : Text → Challenged
unfolding read_parts strip_prefix split
challenge_of www_auth =
    read_parts (record { realm = none; service = none; scope = none })
      (split (unwrap_or (strip_prefix www_auth (text "Bearer ")) www_auth) b',')

abbrev add_scope : Text → Text → Text
add_scope url scope =
    if ends_with url (text "?")
    then url ++ text "scope=" ++ scope
    else url ++ text "&scope=" ++ scope

unfoldable pub token_url : Text → Text → Option Text
unfolding challenge_of ends_with
token_url www_auth repository =
    let c = challenge_of www_auth in
    elim c.realm [
      | none ↦ none
      | some realm ↦
          let url : Text = (elim c.service [
            | some service ↦ realm ++ text "?service=" ++ service
            | none ↦ realm ++ text "?"
          ]) in
          some
            (add_scope url (unwrap_or c.scope (text "repository:" ++ repository ++ text ":pull")))
    ]

-- The server of tokens: what it answers to a request, if it answers; and the clock's readings
-- while a token is asked for, the first for the cache's look-up.
pub record TokenServer : Type 0 where
  pub answer : Text → Option Response
  pub looked_up : ℕ
  pub stored : ℕ
  pub cleaned : ℕ

module _ (J : Json) where
  abbrev str_field : J.Value → Text → Option Text
  str_field json name = do value ← J.get json name; J.as_str value

  abbrev or_else {ℓ} : {A : Type ℓ} → Option A → Option A → Option A
  or_else (some a) other = some a
  or_else none other = other

  -- The token of an answer, with the time after which it expires.
  unfoldable pub token_of : Response → Option (Text × Option ℕ)
  token_of r =
      if is_success r.status
      then (do
        body ← all_bytes r.body
        json ← J.from_slice body
        token ← or_else (str_field json (text "token")) (str_field json (text "access_token"))
        some (token, (do J.as_u64 (← J.get json (text "expires_in")))))
      else none

  -- The token, and the cache after it. Without a cache nothing is looked up and nothing is kept.
  unfoldable pub fetch_registry_token_with_cache :
      TokenServer → Text → Text → Option TokenCache → Option Text × Option TokenCache
  unfolding token_url get_token token_of insert_token
  fetch_registry_token_with_cache server www_auth repository tokens =
      elim (token_url www_auth repository) [
        | none ↦ (none, tokens)
        | some url ↦ elim (do get_token server.looked_up (← tokens) url) [
          | some token ↦ (some token, tokens)
          | none ↦ elim (do token_of (← server.answer url)) [
            | none ↦ (none, tokens)
            | some (token, expires_in) ↦ (
              some token,
              (do
                old ← tokens
                some (insert_token server.stored server.cleaned old url token expires_in)),
            )
          ]
        ]
      ]

  unfoldable pub fetch_registry_token : TokenServer → Text → Text → Option Text
  unfolding fetch_registry_token_with_cache
  fetch_registry_token server www_auth repository =
      (fetch_registry_token_with_cache server www_auth repository none).0

-- The first `realm=` of the parts.
unfoldable pub realm_in : List Text → Option Text
unfolding starts_with trim quoted
realm_in [] = none
realm_in (part ∷ parts) =
    if starts_with (trim part) (text "realm=")
    then quoted (trim part) (text "realm=")
    else realm_in parts

unfoldable pub realm_from_www_authenticate : Text → Option Text
unfolding realm_in strip_prefix split
realm_from_www_authenticate www_auth =
    realm_in (split (unwrap_or (strip_prefix www_auth (text "Bearer ")) www_auth) b',')

-- What is before the first `/` of a text: `s.split('/').next()`.
abbrev before_slash : Text → Text
before_slash s = elim (split_once s b'/') [ none ↦ s | some (a, b) ↦ a ]

unfoldable pub host_of : Text → Text
unfolding strip_prefix split_once
host_of url = elim (strip_prefix url (text "https://")) [
  | some s ↦ before_slash s
  | none ↦ elim (strip_prefix url (text "http://")) [ some s ↦ before_slash s | none ↦ url ]
]

abbrev pub matches_mirror : Text → Text → Bool
matches_mirror realm_host mirror =
    let mirror_host = host_of (trim_end_by (λ c. c == b'/') mirror) in
    text_eq realm_host mirror_host
    || (text_eq realm_host (text "auth.docker.io")
        && contains_text mirror_host (text "registry-1.docker.io"))

unfoldable pub first_match : Text → ℕ → List Text → Option ℕ
unfolding host_of trim_end_by contains_text
first_match realm_host i [] = none
first_match realm_host i (mirror ∷ mirrors) =
    if matches_mirror realm_host mirror then some i else first_match realm_host (suc i) mirrors

unfoldable pub mirror_index_from_realm : (Text → Text) → Text → List Text → Option ℕ
unfolding host_of first_match
mirror_index_from_realm to_lowercase realm_url mirrors =
    first_match (host_of (to_lowercase realm_url)) 0 mirrors
