-- ===== src/Base/Results.antt =====
-- Results: `DockerProxyError` of src/error.rs, and the `?` operator on `Result` and `Option`.
use mathlib.Core.Option.{Option, none, some}
use mathlib.Core.Path.{◌≡◌, refl}
use mathlib.Core.Logic.{◌⊎◌, inl, inr}

-- A failure, by the variant that the code builds. The text of a message is not modelled, but for
-- the two that the code itself reads: a missing object and a plain cache miss are errors of their own.
pub data DockerProxyError : Type 0 where
  io config tls http serialization cache registry : DockerProxyError

-- `clone_error`: what can not be cloned becomes a cache error.
unfoldable pub clone_error : DockerProxyError → DockerProxyError
clone_error DockerProxyError.config = DockerProxyError.config
clone_error DockerProxyError.tls = DockerProxyError.tls
clone_error DockerProxyError.cache = DockerProxyError.cache
clone_error DockerProxyError.registry = DockerProxyError.registry
clone_error other = DockerProxyError.cache

pub data Result {ℓ} (A : Type ℓ) : Type ℓ where
  ok : A → Result A
  err : DockerProxyError → Result A

pub Result-cases {ℓ} :
    {A : Type ℓ} (r : Result A) → ((a : A) × (r ≡ ok a)) ⊎ ((e : DockerProxyError) × (r ≡ err e))
Result-cases (ok a) = inl (a, refl)
Result-cases (err e) = inr (e, refl)

infixl 5 ◌>>=◌
abbrev pub ◌>>=◌ {ℓ κ} : {A : Type ℓ} {B : Type κ} → Option A → (A → Option B) → Option B
none >>= k = none
some a >>= k = k a
