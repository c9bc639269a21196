-- ===== src/Cache/Flights/Moves.antt =====
-- What a step does to one call, and that a task which has sent its result or panicked stays so.
use pulld.Base.{
  ℕ, ◌≡◌, refl, ap, subst, ◌∙◌, ◌⊎◌, inl, inr, false, none, some, arith, Bool-cases, ◌==◌, Result,
}
use pulld.Text.{Text}
use pulld.Cache.Disk.{Bytes}
use pulld.Cache.Flights.{
  Call, idle, waiting, leading, spawned, receiving, answered, received, returned, panicked,
  IsClosed, Task, running, sent, finished, crashed, System, at, broadcast, channel_error, Step,
  join, lead, spawn, unwrap, subscribe, send, crash, remove, follow, finish, close, Reach, here,
  later,
}
use pulld.Cache.Flights.Invariant.{Inv, call_at, task_at}
use pulld.Cache.Flights.Steps.{Reach-Inv}

-- A task that will send no more.
abbrev pub IsSilent : Task → Type 0
IsSilent (sent l r) = Unit
IsSilent (finished l r) = Unit
IsSilent (crashed l) = Unit
IsSilent t = ⊥

-- What a step does to a call that it moves.
pub data Moves (digest : ℕ → Text) (s : System) (i : ℕ) : Call → Type 0 where
  joins : (l : ℕ) → s.call i ≡ idle → s.in_flight (digest i) ≡ some l → Moves digest s i (waiting l)
  leads : s.call i ≡ idle → s.in_flight (digest i) ≡ none → Moves digest s i leading
  spawns : (c : Call) → s.call i ≡ leading → Moves digest s i c
  subscribes : (l : ℕ) → s.call i ≡ spawned l → Moves digest s i (receiving l)
  delivers :
      (j l : ℕ) (r : Result Bytes)
      → s.task j ≡ running l
      → Moves digest s i (broadcast l r (s.call i))
  follows : (c : Call) (r : Result Bytes) → s.call i ≡ answered r → Moves digest s i c
  finishes : (c : Call) (l : ℕ) (r : Result Bytes) → s.call i ≡ received l r → Moves digest s i c
  closes : (l : ℕ) → s.call i ≡ waiting l → IsClosed s l → Moves digest s i (returned channel_error)

module _ (digest : ℕ → Text) where
  at_moved :
      (s : System) (i j : ℕ) (c : Call)
      → Moves digest s j c
      → (at j c s.call i ≡ s.call i) ⊎ Moves digest s i (at j c s.call i)
  at_moved s i j c m = elim (Bool-cases (i == j)) [
    | inl e ↦ let same : j ≡ i = ground arith in inr (rw e (subst (λ k. Moves digest s k c) same m))
    | inr e ↦ inl (rw e refl)
  ]

  pub Step-Moves :
      {s t : System} (i : ℕ) → Step digest s t → (t.call i ≡ s.call i) ⊎ Moves digest s i (t.call i)
  Step-Moves {s} i (join j l e h) = at_moved s i j (waiting l) (joins l e h)
  Step-Moves {s} i (lead j e n) = at_moved s i j leading (leads e n)
  Step-Moves {s} i (spawn j l e h) = at_moved s i j (spawned l) (spawns (spawned l) e)
  Step-Moves {s} i (unwrap j e n) = at_moved s i j panicked (spawns panicked e)
  Step-Moves {s} i (subscribe j l e) = at_moved s i j (receiving l) (subscribes l e)
  Step-Moves {s} i (send j l r e) = inr (delivers j l r e)
  Step-Moves {s} i (crash j l e) = inl refl
  Step-Moves {s} i (remove j l r e) = inl refl
  Step-Moves {s} i (follow j r r' e t) = at_moved s i j (returned r') (follows (returned r') r e)
  Step-Moves {s} i (finish j l r r' e t) =
      at_moved s i j (returned r') (finishes (returned r') l r e)
  Step-Moves {s} i (close j l e h) = at_moved s i j (returned channel_error) (closes l e h)

  -- A silent task stays silent.
  at_task_kept :
      (s : System) (l j : ℕ) (t : Task)
      → IsSilent (s.task l)
      → (IsSilent (s.task j) → IsSilent t)
      → IsSilent (at j t s.task l)
  at_task_kept s l j t h k = elim (Bool-cases (l == j)) [
    | inl e ↦ let same : l ≡ j = ground arith in rw e (k (subst (λ n. IsSilent (s.task n)) same h))
    | inr e ↦ rw e h
  ]

  pub Step-IsSilent :
      {s t : System} (l : ℕ)
      → Step digest s t
      → Inv digest s
      → IsSilent (s.task l)
      → IsSilent (t.task l)
  Step-IsSilent l (join j m e h) v k = k
  Step-IsSilent l (lead j e n) v k = k
  Step-IsSilent {s} l (spawn j m e h) v k =
      at_task_kept s l j (running m) k (λ q. subst IsSilent (call_at digest s j leading v e).0 q)
  Step-IsSilent l (unwrap j e n) v k = k
  Step-IsSilent l (subscribe j m e) v k = k
  Step-IsSilent {s} l (send j m r e) v k = at_task_kept s l j (sent m r) k (λ q. tt)
  Step-IsSilent {s} l (crash j m e) v k = at_task_kept s l j (crashed m) k (λ q. tt)
  Step-IsSilent {s} l (remove j m r e) v k = at_task_kept s l j (finished m r) k (λ q. tt)
  Step-IsSilent l (follow j r r' e t) v k = k
  Step-IsSilent l (finish j m r r' e t) v k = k
  Step-IsSilent l (close j m e h) v k = k

  -- What is sent does not come from a silent task.
  pub not_its :
      (s : System) (l j m : ℕ)
      → Inv digest s
      → IsSilent (s.task l)
      → s.task j ≡ running m
      → (l == m) ≡ false
  not_its s l j m v k e = elim (Bool-cases (l == m)) [
    | inr n ↦ n
    | inl n ↦
        let same : l ≡ j = ground (arith, task_at digest s j (running m) v e) in
        absurd (subst IsSilent (ap s.task same ∙ e) k)
  ]

  -- What each step keeps holds in all states that follow.
  pub Reach-kept :
      (P : System → Type 0)
      → ((s t : System) → Step digest s t → Inv digest s → P s → P t)
      → {s t : System} → Reach digest s t
      → Inv digest s
      → P s
      → P t
  Reach-kept P step here v h = h
  Reach-kept P step (later {t} {u} r st) v h =
      step t u st (Reach-Inv digest r v) (Reach-kept P step r v h)

  at_crashed :
      (s : System) (i j : ℕ) (t : Task)
      → s.task i ≡ crashed i
      → (s.task j ≡ crashed i → ⊥)
      → at j t s.task i ≡ crashed i
  at_crashed s i j t h k = elim (Bool-cases (i == j)) [
    | inl e ↦ let same : j ≡ i = ground arith in absurd (k (ap s.task same ∙ h))
    | inr e ↦ rw e h
  ]

  -- What has panicked stays so.
  pub Step-crashed :
      {s t : System} (i : ℕ)
      → Step digest s t
      → Inv digest s
      → s.task i ≡ crashed i
      → t.task i ≡ crashed i
  Step-crashed i (join j m e f) v h = h
  Step-crashed i (lead j e f) v h = h
  Step-crashed {s} i (spawn j m e f) v h =
      at_crashed s i j (running m) h (λ q. absurd (ground (arith, call_at digest s j leading v e)))
  Step-crashed i (unwrap j e f) v h = h
  Step-crashed i (subscribe j m e) v h = h
  Step-crashed {s} i (send j m r e) v h = at_crashed s i j (sent m r) h (λ q. absurd (ground arith))
  Step-crashed {s} i (crash j m e) v h = at_crashed s i j (crashed m) h (λ q. absurd (ground arith))
  Step-crashed {s} i (remove j m r e) v h =
      at_crashed s i j (finished m r) h (λ q. absurd (ground arith))
  Step-crashed i (follow j r r' e t) v h = h
  Step-crashed i (finish j m r r' e t) v h = h
  Step-crashed i (close j m e f) v h = h
