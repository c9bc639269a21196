-- ===== src/Service/Health.antt =====
-- `wait_for_healthy` of src/lib.rs: that it returns, and with what.
use pulld.Base.{
  ℕ, zero, suc, ◌+◌, ◌*◌, ◌/◌, ◌≤◌, ◌<◌, ◌≡◌, refl, true, false, ◌⊎◌, inl, inr, some, arith, ltb,
  Bool-cases,
}
use native.Mathlib.Decide.{dec_lt}
use pulld.Service.{Outcome, healthy, timed_out, Polls, poll, wait_for_healthy}

-- None of the requests of the rounds from `first` to before `i` finds the server healthy.
abbrev pub Unhealthy : Polls → ℕ → ℕ → Type 0
Unhealthy p first i = (j : ℕ) → first ≤ j → j < i → p.health_check j ≡ false

-- The first round that finds the server healthy comes before the deadline, or the first that comes
-- after it has none before it that does.
abbrev pub IsWaited : Polls → ℕ → ℕ → Outcome → Type 0
IsWaited p deadline first outcome =
    (i : ℕ) × (first ≤ i)
    × Unhealthy p first i
    × (((p.clock i < deadline) × (p.health_check i ≡ true) × (outcome ≡ healthy))
        ⊎ ((deadline ≤ p.clock i) × (outcome ≡ timed_out)))

-- The rounds are 200 milliseconds apart at least, and the first comes after the deadline was set.
abbrev pub Sleeps : Polls → Type 0
Sleeps p = (p.clock 0 ≤ p.clock 1) × ((i : ℕ) → 1 ≤ i → p.clock i + 200 ≤ p.clock (suc i))

module _ (p : Polls) (deadline : ℕ) where
  later :
      (i : ℕ) (outcome : Outcome)
      → p.health_check i ≡ false
      → IsWaited p deadline (suc i) outcome
      → IsWaited p deadline i outcome
  later i outcome ill (j, le, bad, ends) = (j, omega arith, first_or, ends)
    where
      first_or : Unhealthy p i j
      first_or k l m = elim (dec_lt i k) [
        | yes more ↦ bad k (omega arith) m
        | no stop ↦ let same : k ≡ i = omega arith in rw same ill
      ]

  -- A round that ends the wait.
  ends_at :
      (i : ℕ) (outcome : Outcome)
      → ((p.clock i < deadline) × (p.health_check i ≡ true) × (outcome ≡ healthy))
        ⊎ ((deadline ≤ p.clock i) × (outcome ≡ timed_out))
      → IsWaited p deadline i outcome
  ends_at i outcome ends = (i, omega arith, λ j l m. absurd (omega arith), ends)

  poll-IsWaited :
      (fuel i : ℕ)
      → ((k : ℕ) → i ≤ k → p.clock k + 200 ≤ p.clock (suc k))
      → deadline ≤ p.clock i + 200 * fuel
      → (outcome : Outcome) × (poll (suc fuel) p deadline i ≡ some outcome)
        × IsWaited p deadline i outcome
  unfolding poll
  poll-IsWaited zero i step enough = elim (Bool-cases (ltb (p.clock i) deadline)) [
    | inr e ↦ (timed_out, simp (poll, e), ends_at i timed_out (inr (ground arith, refl)))
    | inl e ↦ absurd (ground arith)
  ]
  poll-IsWaited (suc fuel) i step enough = elim (Bool-cases (ltb (p.clock i) deadline)) [
    | inr e ↦ (timed_out, simp (poll, e), ends_at i timed_out (inr (ground arith, refl)))
    | inl e ↦ elim (Bool-cases (p.health_check i)) [
      | inl h ↦ (healthy, simp (poll, e, h), ends_at i healthy (inl (ground arith, h, refl)))
      | inr h ↦
          let now = step i (omega arith) in
          let (outcome, same, waited) =
            poll-IsWaited fuel (suc i) (λ k l. step k (omega arith)) (omega (arith, now)) in
          (outcome, simp (poll, e, h) same, later i outcome h waited)
    ]
  ]

-- With rounds that are 200 milliseconds apart at least, and begin after the deadline was set,
-- `wait_for_healthy` returns, at the latest in the round that is numbered two above the whole pauses
-- in the timeout: at a round before the deadline that finds the server healthy, or at one after the
-- deadline with a timeout; no round before that one has found the server healthy.
pub wait_for_healthy-returns :
    (p : Polls) (timeout fuel : ℕ)
    → Sleeps p
    → timeout / 200 + 2 ≤ fuel
    → (outcome : Outcome) × (wait_for_healthy fuel p timeout ≡ some outcome)
      × IsWaited p (p.clock 0 + timeout) 1 outcome
unfolding wait_for_healthy
wait_for_healthy-returns p timeout zero (starts, step) enough = absurd (omega arith)
wait_for_healthy-returns p timeout (suc fuel) (starts, step) enough =
    poll-IsWaited p (p.clock 0 + timeout) fuel 1 step (omega arith)
