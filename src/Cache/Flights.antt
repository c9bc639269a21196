-- ===== src/Cache/Flights.antt =====
-- `download_with_dedupe` of src/cache/storage.rs: calls that run at the same time, and the tasks that
-- they spawn, as interleaved steps. A call is named by a number, and the channel that it makes by the
-- same number. A step is what happens under one lock, or one operation on a channel; a call that has
-- begun is not cancelled.
mod Invariant
mod Steps
mod Moves
pub mod Once
pub mod Lost
mod Tests
use pulld.Base.{
  ℕ, ◌≡◌, ◌≢◌, ◌⊎◌, Bool, true, false, Option, none, some, ◌==◌, if◌then◌else◌, Result, ok, err,
  DockerProxyError, clone_error,
}
use pulld.Text.{Text, text_eq}
use pulld.Cache.Disk.{Bytes}

-- Where a call stands. The leader keeps a sender of its channel from `spawned` to its return.
pub data Call : Type 0 where
  idle : Call  -- before the first lock
  waiting : ℕ → Call  -- `existing_rx.recv()` of a download under way
  leading : Call  -- between the two locks
  spawned : ℕ → Call  -- before `tx.subscribe()`
  receiving : ℕ → Call  -- `rx.recv()`
  answered : Result Bytes → Call  -- a result came to `existing_rx`
  received : ℕ → Result Bytes → Call  -- a result came to `rx`
  returned : Result Bytes → Call
  panicked : Call  -- at `unwrap`

-- Where the task that a call spawned stands. `crashed` is a download that panics.
pub data Task : Type 0 where
  absent : Task
  running : ℕ → Task
  sent : ℕ → Result Bytes → Task  -- before the entry is removed
  finished : ℕ → Result Bytes → Task
  crashed : ℕ → Task

-- The table of downloads under way has the channel of each digest.
pub record System : Type 0 where
  pub in_flight : Text → Option ℕ
  pub call : ℕ → Call
  pub task : ℕ → Task

abbrev pub at {ℓ} : {A : Type ℓ} → ℕ → A → (ℕ → A) → ℕ → A
at i a f j = if j == i then a else f j

abbrev pub entry : Text → Option ℕ → (Text → Option ℕ) → Text → Option ℕ
entry d l f k = if text_eq k d then l else f k

-- `send` gives the result to all who are subscribed.
abbrev pub broadcast : ℕ → Result Bytes → Call → Call
broadcast l r (waiting m) = if m == l then answered r else waiting m
broadcast l r (receiving m) = if m == l then received m r else receiving m
broadcast l r c = c

abbrev pub copy : Result Bytes → Result Bytes
copy (ok content) = ok content
copy (err e) = err (clone_error e)

-- The last receiver takes the result itself, the others take a copy.
abbrev pub Taken : Result Bytes → Result Bytes → Type 0
Taken r r' = (r' ≡ r) ⊎ (r' ≡ copy r)

abbrev pub holds : ℕ → Call → Bool
holds l (spawned m) = m == l
holds l (receiving m) = m == l
holds l (received m r) = m == l
holds l c = false

abbrev pub sends : ℕ → Task → Bool
sends l (running m) = m == l
sends l (sent m r) = m == l
sends l t = false

-- No sender of a channel is left: none in the table, no leader's and no task's.
abbrev pub IsClosed : System → ℕ → Type 0
IsClosed s l =
    ((d : Text) → s.in_flight d ≢ some l)
    × ((j : ℕ) → holds l (s.call j) ≡ false)
    × ((j : ℕ) → sends l (s.task j) ≡ false)

abbrev pub channel_error : Result Bytes
channel_error = err DockerProxyError.cache

-- Each call has the digest that it asks for.
module _ (digest : ℕ → Text) where
  pub data Step (s : System) : System → Type 0 where
    join :
        (i l : ℕ)
        → s.call i ≡ idle
        → s.in_flight (digest i) ≡ some l
        → Step s (record s { call = at i (waiting l) s.call })
    lead :
        (i : ℕ)
        → s.call i ≡ idle
        → s.in_flight (digest i) ≡ none
        → Step s (record s {
          in_flight = entry (digest i) (some i) s.in_flight;
          call = at i leading s.call;
        })
    spawn :
        (i l : ℕ)
        → s.call i ≡ leading
        → s.in_flight (digest i) ≡ some l
        → Step s (record s { call = at i (spawned l) s.call; task = at i (running l) s.task })
    unwrap :
        (i : ℕ)
        → s.call i ≡ leading
        → s.in_flight (digest i) ≡ none
        → Step s (record s { call = at i panicked s.call })
    subscribe :
        (i l : ℕ) → s.call i ≡ spawned l → Step s (record s { call = at i (receiving l) s.call })
    send :
        (i l : ℕ) (r : Result Bytes)
        → s.task i ≡ running l
        → Step s (record s { call = λ j. broadcast l r (s.call j); task = at i (sent l r) s.task })
    crash : (i l : ℕ) → s.task i ≡ running l → Step s (record s { task = at i (crashed l) s.task })
    remove :
        (i l : ℕ) (r : Result Bytes)
        → s.task i ≡ sent l r
        → Step s (record s {
          in_flight = entry (digest i) none s.in_flight;
          task = at i (finished l r) s.task;
        })
    follow :
        (i : ℕ) (r r' : Result Bytes)
        → s.call i ≡ answered r
        → Taken r r'
        → Step s (record s { call = at i (returned r') s.call })
    finish :
        (i l : ℕ) (r r' : Result Bytes)
        → s.call i ≡ received l r
        → Taken r r'
        → Step s (record s { call = at i (returned r') s.call })
    close :
        (i l : ℕ)
        → s.call i ≡ waiting l
        → IsClosed s l
        → Step s (record s { call = at i (returned channel_error) s.call })

  abbrev pub start : System
  start = record { in_flight = λ d. none; call = λ i. idle; task = λ i. absent }

  pub data Reach : System → System → Type 0 where
    here : {s : System} → Reach s s
    later : {s t u : System} → Reach s t → Step t u → Reach s u
