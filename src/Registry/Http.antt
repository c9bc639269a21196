-- ===== src/Registry/Http.antt =====
-- The HTTP messages of `reqwest`, as the handlers of src/registry read them. What the network
-- answers is a parameter of every definition that asks it.
use pulld.Base.{
  ℕ, Bool, ◌&&◌, Option, none, some, ◌>>=◌, List, [], ◌∷◌, ◌++◌, leb, ltb, if◌then◌else◌,
}
use pulld.Text.{Text, text_eq}
use pulld.Text.Numbers.{parse_below, u64_limit}

-- A header's value: visible ASCII, which `to_str` gives, or other bytes, at which it fails.
pub data HeaderValue : Type 0 where
  visible : Text → HeaderValue
  opaque : HeaderValue

-- The names are in lower case.
abbrev pub Headers : Type 0
Headers = List (Text × HeaderValue)

unfoldable pub get_header : Headers → Text → Option HeaderValue
get_header [] name = none
get_header ((n, v) ∷ rest) name = if text_eq n name then some v else get_header rest name

abbrev pub to_str : HeaderValue → Option Text
to_str (visible s) = some s
to_str opaque = none

-- `.headers().get(name).and_then(|v| v.to_str().ok())`.
unfoldable pub header_text : Headers → Text → Option Text
unfolding get_header
header_text headers name = do to_str (← get_header headers name)

-- A body comes in chunks, and may break off with an error after them.
pub record Body : Type 0 where
  pub chunks : List (List ℕ)
  pub broken : Bool

abbrev pub concat : List (List ℕ) → List ℕ
concat [] = []
concat (c ∷ cs) = c ++ concat cs

-- `response.bytes()`: all of the body, or nothing where it breaks off.
abbrev pub all_bytes : Body → Option (List ℕ)
all_bytes body = if body.broken then none else some (concat body.chunks)

pub record Response : Type 0 where
  pub status : ℕ
  pub headers : Headers
  pub body : Body

-- `StatusCode::is_success`.
abbrev pub is_success : ℕ → Bool
is_success status = leb 200 status && ltb status 300

abbrev pub unauthorized : ℕ
unauthorized = 401

abbrev pub partial_content : ℕ
partial_content = 206

abbrev pub bad_gateway : ℕ
bad_gateway = 502

-- `.and_then(|s| s.parse::<u64>().ok())` of a header.
unfoldable pub header_u64 : Headers → Text → Option ℕ
unfolding header_text parse_below
header_u64 headers name = do parse_below u64_limit (← header_text headers name)

-- What the proxy asks of a mirror.
pub record Request : Type 0 where
  pub url_path : Text
  pub auth_token : Option Text
  pub accept_header : Option Text
  pub range_header : Option Text
