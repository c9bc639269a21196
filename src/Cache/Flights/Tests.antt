-- ===== src/Cache/Flights/Tests.antt =====
-- Calls for one digest, in orders that show what they promise and what they lose.
use pulld.Base.{ℕ, ◌≡◌, refl, ◌≢◌, ◌⊎◌, inl, none, [], ◌∷◌, if◌then◌else◌, Result, ok}
use pulld.Text.{Text, text, text_eq}
use pulld.Cache.Disk.{Bytes}
use pulld.Cache.Flights.{
  idle, waiting, panicked, running, System, Taken, channel_error, join, lead, spawn, subscribe,
  send, crash, remove, follow, start, Reach, here, later,
}
use pulld.Cache.Flights.Invariant.{Fetched}
use pulld.Cache.Flights.Once.{one_download, returned-Fetched, LockStep, Step-LockStep}
use pulld.Cache.Flights.Lost.{IsLate, Hangs, lost_follower, lost_leader, blocked_digest}

abbrev same : ℕ → Text
same i = text "sha256:ab"

abbrev result : Result Bytes
result = ok (7 ∷ [])

abbrev Run : System → Type 0
Run s = (t : System) × Reach same s t

abbrev from_start : Run (start same)
from_start = (_, later (later here (lead 0 refl refl)) (spawn 0 0 refl refl))

-- A second call joins in time, and both have the result.
abbrev shared : Run (start same)
shared = (
  _,
  later (later (later from_start.1 (join 1 0 refl refl)) (subscribe 0 0 refl))
      (send 0 0 result refl),
)

abbrev followed : Run (start same)
followed = (_, later shared.1 (follow 1 result result refl (inl refl)))

one_download_example :
    ((i j l m : ℕ)
      → same i ≡ same j
      → shared.0.task i ≡ running l
      → shared.0.task j ≡ running m
      → i ≡ j)
    × ((i : ℕ) → shared.0.call i ≢ panicked)
one_download_example = one_download same shared.1

returned-Fetched_example :
    (result ≡ channel_error)
    ⊎ ((r : Result Bytes) × Fetched same followed.0.task 1 r × Taken r result)
returned-Fetched_example = returned-Fetched same 1 result followed.1 refl

Step-LockStep_example :
    LockStep same shared.0.in_flight
      (λ d. if text_eq d (text "sha256:ab") then none else shared.0.in_flight d)
Step-LockStep_example = Step-LockStep same shared.1 (remove 0 0 result refl)

-- The task sends the result before its leader subscribes, and a second call joins after that.
abbrev hasty : Run (start same)
hasty = (_, later (later from_start.1 (send 0 0 result refl)) (join 1 0 refl refl))

abbrev hasty_after : Run hasty.0
hasty_after = (_, later (later here (subscribe 0 0 refl)) (remove 0 0 result refl))

lost_follower_example : IsLate 0 (hasty_after.0.call 1)
lost_follower_example = lost_follower same 1 0 hasty.1 tt refl hasty_after.1

lost_leader_example : Hangs 0 (hasty_after.0.call 0)
lost_leader_example = lost_leader same 0 hasty.1 tt (inl refl) hasty_after.1

abbrev broken : Run (start same)
broken = (_, later from_start.1 (crash 0 0 refl))

abbrev broken_after : Run broken.0
broken_after = (_, later here (join 1 0 refl refl))

blocked_digest_example : (broken_after.0.call 1 ≡ idle) ⊎ (broken_after.0.call 1 ≡ waiting 0)
blocked_digest_example = blocked_digest same 0 1 broken.1 refl refl refl broken_after.1
