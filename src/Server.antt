-- ===== src/Server.antt =====
-- The paths of the registry's API, as `get_v2_wrapper` and `head_v2_wrapper` of src/server.rs read
-- them.
pub mod Routes
pub mod Startup
mod Tests
use pulld.Base.{Bool, Option, none, some, [], ◌∷◌, ◌++◌, length, drop, leb, if◌then◌else◌}
use pulld.Text.{Text, text, strip_prefix, starts_with}

-- `rfind` of a text: the parts before and after its last occurrence.
unfoldable pub rsplit_text : Text → Text → Option (Text × Text)
unfolding strip_prefix
rsplit_text [] p = elim (strip_prefix [] p) [ none ↦ none | some rest ↦ some ([], rest) ]
rsplit_text (d ∷ s) p = elim (rsplit_text s p) [
  | some (a, b) ↦ some (d ∷ a, b)
  | none ↦ elim (strip_prefix (d ∷ s) p) [ none ↦ none | some rest ↦ some ([], rest) ]
]

-- What a path asks for. The slice of a name that would end before it begins panics.
pub data V2Request : Type 0 where
  manifest : Text → Text → V2Request
  blob : Text → Text → V2Request
  invalid : V2Request
  panics : V2Request

abbrev pub v2_prefix : Text
v2_prefix = text "/v2/"

-- A second `/v2` is taken off.
unfoldable pub strip_double : Text → Text
unfolding strip_prefix
strip_double path = elim (strip_prefix path (text "/v2/v2/")) [
  | none ↦ path
  | some rest ↦ v2_prefix ++ rest
]

-- `path[V2_PREFIX.len()..idx]`, of what is before `idx`.
abbrev sliced : (Text → V2Request) → Text → V2Request
sliced request before =
    if leb (length v2_prefix) (length before)
    then request (drop (length v2_prefix) before)
    else panics

unfoldable pub route : Text → V2Request
unfolding strip_double rsplit_text
route path = elim (rsplit_text (strip_double path) (text "/manifests/")) [
  | some (before, reference) ↦ sliced (λ name. manifest name reference) before
  | none ↦ elim (rsplit_text (strip_double path) (text "/blobs/")) [
    | some (before, digest) ↦ sliced (λ name. blob name digest) before
    | none ↦ invalid
  ]
]
