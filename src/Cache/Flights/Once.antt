-- ===== src/Cache/Flights/Once.antt =====
-- What `download_with_dedupe` promises: one download of a digest at a time, and its result to all.
use pulld.Base.{
  ℕ, ◌≡◌, refl, sym, ap, ◌∙◌, ◌≢◌, ◌⊎◌, Option, none, some, arith, if◌then◌else◌, Result,
}
use pulld.Text.{Text, text_eq}
use pulld.Cache.Disk.{Bytes}
use pulld.Cache.Flights.{
  returned, panicked, running, sent, System, Taken, channel_error, Step, join, lead, spawn, unwrap,
  subscribe, send, crash, remove, follow, finish, close, start, Reach,
}
use pulld.Cache.Flights.Invariant.{Fetched, Inv, start-Inv, call_at, task_at}
use pulld.Cache.Flights.Steps.{Reach-Inv}

module _ (digest : ℕ → Text) where
  -- Of the calls for one digest, one at most has a download that runs, and no call panics at the
  -- entry that it expects in the table.
  pub one_download :
      {s : System}
      → Reach digest (start digest) s
      → ((i j l m : ℕ) → digest i ≡ digest j → s.task i ≡ running l → s.task j ≡ running m → i ≡ j)
        × ((i : ℕ) → s.call i ≢ panicked)
  one_download {s} r = (
    λ i j l m d e h.
        let mine = (task_at digest s i (running l) v e).1 in
        let other = (task_at digest s j (running m) v h).1 in
        let same : some i ≡ some j = sym mine ∙ ap s.in_flight d ∙ other in ground arith,
    λ i e. call_at digest s i panicked v e,
  )
    where
      v : Inv digest s
      v = Reach-Inv digest r (start-Inv digest)

  -- What a call returns is the error of a closed channel, or the result that the task of a call for
  -- the same digest has fetched, or a copy of it.
  pub returned-Fetched :
      {s : System} (i : ℕ) (r : Result Bytes)
      → Reach digest (start digest) s
      → s.call i ≡ returned r
      → (r ≡ channel_error) ⊎ ((r' : Result Bytes) × Fetched digest s.task i r' × Taken r' r)
  returned-Fetched {s} i r reach e =
      call_at digest s i (returned r) (Reach-Inv digest reach (start-Inv digest)) e

-- The abstract view: a lock for each digest, which a call takes when it is free and its holder gives
-- back. All else changes nothing.
abbrev pub Locks : Type 0
Locks = Text → Option ℕ

pub data LockStep (digest : ℕ → Text) (a b : Locks) : Type 0 where
  stutter : ((d : Text) → b d ≡ a d) → LockStep digest a b
  acquire :
      (i : ℕ)
      → a (digest i) ≡ none
      → ((d : Text) → b d ≡ (if text_eq d (digest i) then some i else a d))
      → LockStep digest a b
  release :
      (i : ℕ)
      → a (digest i) ≡ some i
      → ((d : Text) → b d ≡ (if text_eq d (digest i) then none else a d))
      → LockStep digest a b

-- From a reachable state, each step takes a free lock, gives back the lock of its own digest, or
-- leaves the locks alone: the table of downloads implements a lock for each digest.
pub Step-LockStep :
    (digest : ℕ → Text) {s t : System}
    → Reach digest (start digest) s
    → Step digest s t
    → LockStep digest s.in_flight t.in_flight
Step-LockStep digest reach (join i l e h) = stutter (λ d. refl)
Step-LockStep digest reach (lead i e n) = acquire i n (λ d. refl)
Step-LockStep digest reach (spawn i l e h) = stutter (λ d. refl)
Step-LockStep digest reach (unwrap i e n) = stutter (λ d. refl)
Step-LockStep digest reach (subscribe i l e) = stutter (λ d. refl)
Step-LockStep digest reach (send i l r e) = stutter (λ d. refl)
Step-LockStep digest reach (crash i l e) = stutter (λ d. refl)
Step-LockStep digest {s} reach (remove i l r e) =
    release i (task_at digest s i (sent l r) (Reach-Inv digest reach (start-Inv digest)) e).1
      (λ d. refl)
Step-LockStep digest reach (follow i r r' e h) = stutter (λ d. refl)
Step-LockStep digest reach (finish i l r r' e h) = stutter (λ d. refl)
Step-LockStep digest reach (close i l e h) = stutter (λ d. refl)
