-- ===== src/Prepull/Images/Complete.antt =====
-- When `pull_image` succeeds.
use pulld.Base.{ℕ, ◌+◌, ◌%◌, ◌≡◌, List, [], ◌∷◌, ok}
use pulld.Text.{Text}
use pulld.Text.Numbers.{u64_limit}
use pulld.Json.{Json}
use pulld.Cache.{CacheStorage}
use pulld.Cache.Disk.{Bytes, Disk, ObjectStore, Cached}
use pulld.Registry.Stats.{Float}
use pulld.Prepull.Manifests.{Upstream}
use pulld.Prepull.Blobs.{pull_blob}
use pulld.Prepull.Images.{Pulled}

abbrev pub sum : List ℕ → ℕ
sum [] = 0
sum (n ∷ ns) = n + sum ns

module _ (X : Float) (J : Json) (S : ObjectStore) (sha256_hex : Bytes → Text) (host_arch : Text)
    (c : CacheStorage) (d : Disk) (now : ℕ) (repository : Text) (tries : Text → ℕ → Upstream) where
  -- The blobs are pulled with success one after the other, each in the cache that those before it
  -- leave, and have these sizes; the last leaves the cache of the end.
  abbrev pub AllPulled : List Text → Cached S → List ℕ → Cached S → Type 0
  AllPulled [] s sizes end = (sizes ≡ []) × (end ≡ s)
  AllPulled (digest ∷ digests) s sizes end =
      (size : ℕ) × (others : List ℕ) × (next : Cached S) × (sizes ≡ size ∷ others)
      × (pull_blob X J S c d now digest repository (tries digest) s ≡ (ok size, next))
      × AllPulled digests next others end

  abbrev IsSummed : List Text → Pulled → Cached S → Pulled × Cached S → Type 0
  IsSummed digests p s (p', end) =
      (sizes : List ℕ) × AllPulled digests s sizes end
      × (p'.total_size ≡ (p.total_size + sum sizes) % u64_limit)
