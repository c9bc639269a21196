-- ===== src/Prepull/Charts/Tries.antt =====
-- The attempts at a chart.
use pulld.Base.{ℕ, zero, suc, ◌+◌, ◌≤◌, ◌<◌, ◌≡◌, refl, Option, none, some, ◌⊎◌, inl, inr, arith}
use native.Mathlib.Decide.{dec_lt}
use pulld.Cache.Disk.{Bytes}
use pulld.Registry.Race.{Outcome}
use pulld.Prepull.Charts.{Attempt, fetched, again, given_up, attempt_of, chart_attempts}

-- All attempts from `start` to before `k` are to be made again.
abbrev AllAgain : (ℕ → Outcome) → ℕ → ℕ → Type 0
AllAgain get start k = (j : ℕ) → start ≤ j → j < k → attempt_of (get j) ≡ again

-- The first attempt that is not to be made again decides, if it is one of `left`.
abbrev pub IsDecided : (ℕ → Outcome) → ℕ → ℕ → Option Bytes → Type 0
IsDecided get start left result =
    ((k : ℕ) × (start ≤ k)
      × (k < start + left)
      × AllAgain get start k
      × (((content : Bytes) × (attempt_of (get k) ≡ fetched content) × (result ≡ some content))
          ⊎ ((attempt_of (get k) ≡ given_up) × (result ≡ none))))
    ⊎ (AllAgain get start (start + left) × (result ≡ none))

further :
    (get : ℕ → Outcome) (start k : ℕ)
    → attempt_of (get start) ≡ again
    → AllAgain get (suc start) k
    → AllAgain get start k
further get start k e all j le lt = elim (dec_lt start j) [
  | yes more ↦ all j (omega arith) lt
  | no least ↦ let same : j ≡ start = omega arith in rw same e
]

-- The attempts at a chart come to what the first of them comes to that is not to be made again, and to
-- nothing if all are.
pub chart_attempts-IsDecided :
    (get : ℕ → Outcome) (start left : ℕ) → IsDecided get start left (chart_attempts get start left)
unfolding chart_attempts
chart_attempts-IsDecided get start zero = inr (λ j le lt. absurd (omega arith), refl)
chart_attempts-IsDecided get start (suc left) =
    of_attempt (attempt_of (get start)) refl (chart_attempts-IsDecided get (suc start) left)
  where
    of_attempt :
        (a : Attempt)
        → attempt_of (get start) ≡ a
        → IsDecided get (suc start) left (chart_attempts get (suc start) left)
        → IsDecided get start (suc left) (chart_attempts get start (suc left))
    of_attempt (fetched content) e later = inl (
      start,
      omega arith,
      omega arith,
      λ j le lt. absurd (omega arith),
      inl (content, e, simp (chart_attempts, e)),
    )
    of_attempt given_up e later = inl (
      start,
      omega arith,
      omega arith,
      λ j le lt. absurd (omega arith),
      inr (e, simp (chart_attempts, e)),
    )
    of_attempt again e (inl (k, le, lt, all, decided)) =
        inl (k, omega arith, omega arith, further get start k e all, rw (chart_attempts, e) decided)
    of_attempt again e (inr (all, nothing)) = inr (
      λ j le lt. further get start (suc start + left) e all j le (omega arith),
      rw (chart_attempts, e) nothing,
    )
