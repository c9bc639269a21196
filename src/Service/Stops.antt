-- ===== src/Service/Stops.antt =====
-- What stopping the service leaves running.
use pulld.Base.{
  ℕ, zero, suc, ◌≡◌, refl, Bool, true, false, ◌&&◌, not, Option, none, some, List, [], ◌∷◌, ◌++◌,
  filter, length, get_elem?, ap, subst, ◌≢◌, arith, Option-cases, Result-cases, inl, inr, is_empty,
  all,
}
use pulld.Text.{Text}
use pulld.Config.{Config, ServerConfig}
use pulld.Registry.Upstreams.{Registries}
use pulld.Registry.Upstreams.Configured.{make_clients}
use pulld.Server.Startup.{
  make_cache, spawn_https, spawn_http, runs_at, Host, Task, Work, serves_http, serves_https, waits,
  abort, start_server, spawn_servers,
}
use pulld.Service.{PulldService, Polls, start, stop}

abbrev is_server : Work → Bool
is_server (serves_https address) = true
is_server (serves_http address) = true
is_server (waits handles) = false

-- The servers that run.
abbrev pub serving : List Task → List Task
serving tasks = filter (λ task. is_server task.work && task.running) tasks

abbrev waits_at : ℕ → List Task → Bool
waits_at i [] = false
waits_at zero (task ∷ tasks) = not (is_server task.work)
waits_at (suc i) (task ∷ tasks) = waits_at i tasks

-- The handle, where there is one, is that of a task that waits for the servers.
abbrev IsService : PulldService → Type 0
IsService s = elim s.server_handle [ none ↦ Unit | some handle ↦ waits_at handle s.tasks ≡ true ]

serving-abort :
    (i : ℕ) (tasks : List Task) → waits_at i tasks ≡ true → serving (abort i tasks) ≡ serving tasks
unfolding abort
serving-abort i [] h = refl
serving-abort zero (task ∷ tasks) h = ground arith
serving-abort (suc i) (task ∷ tasks) h = ground (arith, serving-abort i tasks h)

abbrev pub waiting : List ℕ → Bool → Option Task
waiting handles running = some (record { work = waits handles; running = running })

-- Of two lists of tasks, the task at one place waits for others in both, and has ended in the second;
-- all other tasks are the same.
abbrev pub EndsAlone : ℕ → List Task → List Task → Type 0
EndsAlone i tasks tasks' =
    (handles : List ℕ) × (running : Bool) × (get_elem? tasks i ≡ waiting handles running)
    × (get_elem? tasks' i ≡ waiting handles false)
    × ((j : ℕ) → j ≢ i → get_elem? tasks' j ≡ get_elem? tasks j)

abort-EndsAlone :
    (i : ℕ) (tasks : List Task) → waits_at i tasks ≡ true → EndsAlone i tasks (abort i tasks)
unfolding abort
abort-EndsAlone i [] h = absurd (cc)
abort-EndsAlone zero (task ∷ tasks) h = first_waits task.work refl h
  where
    others :
        (task' : Task) (j : ℕ) → j ≢ 0 → get_elem? (task' ∷ tasks) j ≡ get_elem? (task ∷ tasks) j
    others task' zero n = absurd (n refl)
    others task' (suc j) n = refl

    first_waits :
        (work : Work)
        → task.work ≡ work
        → not (is_server work) ≡ true
        → EndsAlone 0 (task ∷ tasks) (record task { running = false } ∷ tasks)
    first_waits (serves_https address) e k = absurd (cc)
    first_waits (serves_http address) e k = absurd (cc)
    first_waits (waits handles) e k = (
      handles,
      task.running,
      ap (λ (w : Work). some (record { work = w; running = task.running })) e,
      ap (λ (w : Work). some (record { work = w; running = false })) e,
      others (record task { running = false }),
    )
abort-EndsAlone (suc i) (task ∷ tasks) h =
    let (handles, running, before, after, same) = abort-EndsAlone i tasks h in
    (handles, running, before, after, others same)
  where
    others :
        ((j : ℕ) → j ≢ i → get_elem? (abort i tasks) j ≡ get_elem? tasks j)
        → (j : ℕ) → j ≢ suc i
        → get_elem? (task ∷ abort i tasks) j ≡ get_elem? (task ∷ tasks) j
    others same zero n = refl
    others same (suc j) n = same j (λ e. n (ap suc e))

waits_at-spawned :
    (tasks : List Task) (handles : List ℕ) (running : Bool)
    → waits_at (length tasks) (tasks ++ record { work = waits handles; running = running } ∷ [])
      ≡ true
waits_at-spawned [] handles running = refl
waits_at-spawned (task ∷ tasks) handles running = waits_at-spawned tasks handles running

spawn_servers-waits :
    (host : Host) (config : ServerConfig) (cert_pem key_pem : Option Text) (tasks : List Task)
    → let (handle, tasks') = spawn_servers host config cert_pem key_pem tasks in
      waits_at handle tasks' ≡ true
unfolding spawn_servers
spawn_servers-waits host config cert_pem key_pem tasks =
    let (https, tasks1) = spawn_https host config cert_pem key_pem tasks in
    let (http, tasks2) = spawn_http host config cert_pem tasks1 in
    let handles = https ++ http in
    waits_at-spawned tasks2 handles (not (is_empty handles) && all (runs_at tasks2) handles)

-- What a client of the service does.
pub data Operation : Type 0 where
  starts : Host → Bool → Bool → Text → Registries → Config → Polls → Operation
  stops : Operation

abbrev pub perform : PulldService → Operation → PulldService
perform s (starts host dirs store_made cache_dir settings config p) =
    (start host dirs store_made cache_dir settings config p s).1
perform s stops = stop s

abbrev pub perform_all : PulldService → List Operation → PulldService
perform_all s [] = s
perform_all s (operation ∷ operations) = perform_all (perform s operation) operations

start-IsService :
    (host : Host) (dirs store_made : Bool) (cache_dir : Text) (settings : Registries)
    (config : Config) (p : Polls) (s : PulldService)
    → IsService s
    → IsService (start host dirs store_made cache_dir settings config p s).1
unfolding start start_server
start-IsService host dirs store_made cache_dir settings config p s h =
    let s' = (start host dirs store_made cache_dir settings config p s).1 in
    elim (Result-cases (make_cache dirs store_made cache_dir config.cache)) [
      | inr (failed, e) ↦ let same : s' ≡ s = simp (start, start_server, e) in rw same h
      | inl (cache, e) ↦ elim (Option-cases (make_clients settings)) [
        | inl m ↦ let same : s' ≡ s = simp (start, start_server, e, m) in rw same h
        | inr (clients, m) ↦
            let (handle, tasks) = spawn_servers host config.server none none s.tasks in
            let same : s' ≡ record { server_handle = some handle; tasks = tasks } =
              simp (start, start_server, e, m) in
            rw same (spawn_servers-waits host config.server none none s.tasks)
      ]
    ]

stop-IsService : (s : PulldService) → IsService s → IsService (stop s)
unfolding stop
stop-IsService s h = elim (Option-cases s.server_handle) [
  | inl e ↦ let same : stop s ≡ s = simp (stop, e) in rw same h
  | inr (handle, e) ↦
      let same : stop s ≡ record { server_handle = none; tasks = abort handle s.tasks } =
        simp (stop, e) in
      rw same tt
]

perform-IsService : (s : PulldService) (o : Operation) → IsService s → IsService (perform s o)
perform-IsService s (starts host dirs store_made cache_dir settings config p) h =
    start-IsService host dirs store_made cache_dir settings config p s h
perform-IsService s stops h = stop-IsService s h

perform_all-IsService :
    (s : PulldService) (operations : List Operation)
    → IsService s
    → IsService (perform_all s operations)
perform_all-IsService s [] h = h
perform_all-IsService s (o ∷ operations) h =
    perform_all-IsService (perform s o) operations (perform-IsService s o h)

abbrev pub new_service : PulldService
new_service = record { server_handle = none; tasks = [] }

-- After any starts and stops, a stop forgets the handle. If there is none it does nothing; otherwise
-- it ends the task of the handle, which only waits for others, and leaves all other tasks as they are:
-- every server that runs goes on running.
pub stop-serving :
    (operations : List Operation)
    → let s = perform_all new_service operations in
      ((stop s).server_handle ≡ none)
      × (s.server_handle ≡ none → stop s ≡ s)
      × ((handle : ℕ) → s.server_handle ≡ some handle → EndsAlone handle s.tasks (stop s).tasks)
      × (serving (stop s).tasks ≡ serving s.tasks)
unfolding stop
stop-serving operations =
    let s = perform_all new_service operations in
    let h = perform_all-IsService new_service operations tt in
    elim (Option-cases s.server_handle) [
      | inl e ↦
          let same : stop s ≡ s = simp (stop, e) in
          rw same (e, λ g. refl, λ handle g. absurd (cc), refl)
      | inr (handle, e) ↦
          let k : waits_at handle s.tasks ≡ true = rw (IsService, e) at h in
          let ended : stop s ≡ record { server_handle = none; tasks = abort handle s.tasks } =
            simp (stop, e) in
          rw ended (
            refl,
            λ g. absurd (cc),
            λ other g.
                let same : handle ≡ other = cc in
                subst (λ i. EndsAlone i s.tasks (abort handle s.tasks)) same
                  (abort-EndsAlone handle s.tasks k),
            serving-abort handle s.tasks k,
          )
    ]
