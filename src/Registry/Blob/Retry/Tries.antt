-- ===== src/Registry/Blob/Retry/Tries.antt =====
-- Which mirrors are retried, and which answer is taken.
use mathlib.Core.List.{Perm}
use mathlib.Core.List.Perm
use pulld.Base.{
  ℕ, zero, suc, ◌+◌, ◌≤◌, ◌<◌, ◌≡◌, refl, Bool, true, false, not, Option, none, some, ◌>>=◌, ◌⊎◌,
  List, [], ◌∷◌, arith, filter, range, length, ◌==◌, ==_iff, Bool-cases, inl, inr, if◌then◌else◌,
  Result,
}
use pulld.Text.{Text}
use pulld.Json.{Json}
use pulld.Registry.Http.{Response, Request}
use pulld.Registry.Race.{Network}
use pulld.Registry.Tokens.{
  TokenServer, TokenCache, first_match, matches_mirror, host_of, mirror_index_from_realm,
}
use pulld.Registry.Blob.Retry.{retry_order, is_good, try_mirror, retry_on}

others_kept : (first i n : ℕ) → first < i → filter (λ k. not (k == first)) (range i n) ≡ range i n
others_kept first i zero h = refl
others_kept first i (suc n) h = ground (arith, others_kept first (suc i) n)

moved_front :
    (first i n : ℕ)
    → i ≤ first
    → first < i + n
    → Perm (first ∷ filter (λ k. not (k == first)) (range i n)) (range i n)
moved_front first i zero h f = absurd (omega arith)
moved_front first i (suc n) h f = elim (Bool-cases (i == first)) [
  | inl e ↦
      let same : i ≡ first = (==_iff i first).0 e in
      rw (e, others_kept first (suc i) n (omega arith), same) (Perm.refl _)
  | inr e ↦ rw e (
      Perm.trans (Perm.swap i first _)
        (Perm.cons i (moved_front first (suc i) n (ground (arith, ==_iff i first)) (omega arith))))
]

picked :
    (b : Bool) (i k : ℕ) (rest : Option ℕ)
    → (if b then some i else rest) ≡ some k
    → (i ≡ k) ⊎ (rest ≡ some k)
picked true i k rest h = inl (ground arith)
picked false i k rest h = inr h

first_match-bound :
    (host : Text) (i : ℕ) (mirrors : List Text) (k : ℕ)
    → first_match host i mirrors ≡ some k
    → (i ≤ k) × (k < i + length mirrors)
unfolding first_match
first_match-bound host i [] k h = cc
first_match-bound host i (m ∷ mirrors) k h =
    elim (picked (matches_mirror host m) i k (first_match host (suc i) mirrors) h) [
      | inl e ↦ (omega arith, omega arith)
      | inr e ↦
          let (low, high) = first_match-bound host (suc i) mirrors k e in (omega arith, omega arith)
    ]

-- After a 401 every mirror is in the order of the retries exactly once, whatever the realm.
pub retry_order-perm :
    (to_lowercase : Text → Text) (realm : Option Text) (mirrors : List Text)
    → let ix = (do mirror_index_from_realm to_lowercase (← realm) mirrors) in
      Perm (retry_order ix (length mirrors)) (range 0 (length mirrors))
unfolding retry_order mirror_index_from_realm
retry_order-perm to_lowercase none mirrors = Perm.refl _
retry_order-perm to_lowercase (some realm) mirrors =
    in_order (first_match (host_of (to_lowercase realm)) 0 mirrors)
      (λ k e. (first_match-bound (host_of (to_lowercase realm)) 0 mirrors k e).1)
  where
    in_order :
        (o : Option ℕ)
        → ((k : ℕ) → o ≡ some k → k < 0 + length mirrors)
        → Perm (retry_order o (length mirrors)) (range 0 (length mirrors))
    in_order none h = Perm.refl _
    in_order (some k) h = moved_front k 0 (length mirrors) (omega arith) (h k refl)

-- The answers of all the mirrors in their order, as if none were good.
abbrev pub answers :
    Json
    → Network
    → TokenServer
    → List Text
    → Request
    → Text
    → Text
    → List ℕ
    → Option TokenCache
    → List (Result Response)
answers J net server mirrors req repository token [] tokens = []
answers J net server mirrors req repository token (i ∷ indices) tokens =
    let (answer, tokens') = try_mirror J net server mirrors req repository token i tokens in
    answer ∷ answers J net server mirrors req repository token indices tokens'

-- The first good answer, or else the last one.
abbrev pub first_good : List (Result Response) → Option (Result Response) → Option (Result Response)
first_good [] last = last
first_good (a ∷ rest) last = if is_good a then some a else first_good rest (some a)

-- The retries take the first good answer of the mirrors in their order, and the last one where none
-- is good.
pub retry_on-first_good :
    (J : Json) (net : Network) (server : TokenServer) (mirrors : List Text) (req : Request)
    (repository token : Text) (indices : List ℕ) (last : Option (Result Response))
    (tokens : Option TokenCache)
    → (retry_on J net server mirrors req repository token indices last tokens).0
      ≡ first_good (answers J net server mirrors req repository token indices tokens) last
unfolding retry_on
retry_on-first_good J net server mirrors req repository token [] last tokens = refl
retry_on-first_good J net server mirrors req repository token (i ∷ indices) last tokens =
    let (answer, tokens') = try_mirror J net server mirrors req repository token i tokens in
    elim (Bool-cases (is_good answer)) [
      | inl e ↦ rw e refl
      | inr e ↦ rw e (
          retry_on-first_good J net server mirrors req repository token indices (some answer)
            tokens')
    ]
