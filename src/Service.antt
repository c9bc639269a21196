-- ===== src/Service.antt =====
-- `PulldService` of src/lib.rs.
pub mod Health
pub mod Stops
mod Tests
use pulld.Base.{
  ℕ, zero, suc, ◌+◌, Bool, true, false, Option, none, some, List, [], ◌∷◌, ltb, if◌then◌else◌,
  DockerProxyError, Result, ok, err,
}
use pulld.Text.{Text}
use pulld.Config.{Config}
use pulld.Registry.Upstreams.{Registries}
use pulld.Server.Startup.{Host, Task, start_server, abort}

-- How a start ends.
pub data Outcome : Type 0 where
  healthy : Outcome
  timed_out : Outcome
  not_started : DockerProxyError → Outcome

-- The handle of the server, and the tasks of the runtime.
pub record PulldService : Type 0 where
  pub server_handle : Option ℕ
  pub tasks : List Task

-- What `wait_for_healthy` meets: the readings of the clock in milliseconds, and what each of the
-- requests for the server's health says.
pub record Polls : Type 0 where
  pub clock : ℕ → ℕ
  pub health_check : ℕ → Bool

-- The rounds from `i` on.
unfoldable pub poll : ℕ → Polls → ℕ → ℕ → Option Outcome
poll zero p deadline i = none
poll (suc fuel) p deadline i =
    let rest = poll fuel p deadline (suc i) in
    if ltb (p.clock i) deadline
    then (if p.health_check i then some healthy else rest)
    else some timed_out

unfoldable pub wait_for_healthy : ℕ → Polls → ℕ → Option Outcome
unfolding poll
wait_for_healthy fuel p timeout = poll fuel p (p.clock 0 + timeout) 1

-- 15 seconds are 75 rounds of 200 milliseconds at most.
abbrev pub start_fuel : ℕ
start_fuel = 77

module _ (host : Host) (dirs store_made : Bool) (cache_dir : Text) (settings : Registries)
    (config : Config) where
  unfoldable pub start : Polls → PulldService → Option Outcome × PulldService
  unfolding start_server wait_for_healthy
  start p s =
      let (started, tasks) =
        start_server host dirs store_made cache_dir settings config none none s.tasks in
      elim started [
        | err e ↦ (some (not_started e), record s { tasks = tasks })
        | ok handle ↦ (
          wait_for_healthy start_fuel p 15000,
          record { server_handle = some handle; tasks = tasks },
        )
      ]

unfoldable pub stop : PulldService → PulldService
unfolding abort
stop s = elim s.server_handle [
  | none ↦ s
  | some handle ↦ record { server_handle = none; tasks = abort handle s.tasks }
]
