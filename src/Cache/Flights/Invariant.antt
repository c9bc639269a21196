-- ===== src/Cache/Flights/Invariant.antt =====
-- What holds of the calls, the tasks and the table in every reachable state.
use pulld.Base.{
  ℕ, ◌≡◌, refl, sym, ap, subst, ◌∙◌, ◌≢◌, ◌⊎◌, inl, inr, false, Option, some, arith, ◌==◌,
  Bool-cases, Result,
}
use pulld.Text.{Text}
use pulld.Cache.Disk.{Bytes}
use pulld.Cache.Flights.{
  Call, idle, waiting, leading, spawned, receiving, answered, received, returned, panicked, Task,
  absent, running, sent, finished, crashed, System, at, broadcast, Taken, channel_error, start,
}

-- A task has fetched a result.
abbrev pub HasFetched : Task → Result Bytes → Type 0
HasFetched (sent l r) r' = r ≡ r'
HasFetched (finished l r) r' = r ≡ r'
HasFetched t r' = ⊥

module _ (digest : ℕ → Text) where
  -- Some call of the same digest has fetched a result.
  abbrev pub Fetched : (ℕ → Task) → ℕ → Result Bytes → Type 0
  Fetched task i r = (l : ℕ) × (digest l ≡ digest i) × HasFetched (task l) r

  abbrev pub IsCallOk : (ℕ → Task) → (Text → Option ℕ) → ℕ → Call → Type 0
  IsCallOk task in_flight i idle = task i ≡ absent
  IsCallOk task in_flight i leading = (task i ≡ absent) × (in_flight (digest i) ≡ some i)
  IsCallOk task in_flight i (waiting l) = digest l ≡ digest i
  IsCallOk task in_flight i (spawned l) = l ≡ i
  IsCallOk task in_flight i (receiving l) = l ≡ i
  IsCallOk task in_flight i (answered r) = Fetched task i r
  IsCallOk task in_flight i (received l r) = (l ≡ i) × Fetched task i r
  IsCallOk task in_flight i (returned r) =
      (r ≡ channel_error) ⊎ ((r' : Result Bytes) × Fetched task i r' × Taken r' r)
  IsCallOk task in_flight i panicked = ⊥

  -- A task that has not ended has the entry of its digest.
  abbrev pub IsTaskOk : (Text → Option ℕ) → ℕ → Task → Type 0
  IsTaskOk in_flight i absent = Unit
  IsTaskOk in_flight i (running l) = (l ≡ i) × (in_flight (digest i) ≡ some i)
  IsTaskOk in_flight i (sent l r) = (l ≡ i) × (in_flight (digest i) ≡ some i)
  IsTaskOk in_flight i (finished l r) = l ≡ i
  IsTaskOk in_flight i (crashed l) = (l ≡ i) × (in_flight (digest i) ≡ some i)

  pub record Inv (s : System) : Type 0 where
    pub calls : (i : ℕ) → IsCallOk s.task s.in_flight i (s.call i)
    pub tasks : (i : ℕ) → IsTaskOk s.in_flight i (s.task i)
    pub entries : (d : Text) (l : ℕ) → s.in_flight d ≡ some l → digest l ≡ d

  pub start-Inv : Inv (start digest)
  start-Inv = record { calls = λ i. refl; tasks = λ i. tt; entries = λ d l h. absurd (cc) }

  -- A call that stands where it stood, while other calls and tasks move.
  pub call_kept :
      (task task' : ℕ → Task) (f f' : Text → Option ℕ) (i : ℕ) (c : Call)
      → ((l : ℕ) (r : Result Bytes) → HasFetched (task l) r → HasFetched (task' l) r)
      → (task i ≡ absent → task' i ≡ absent)
      → (task i ≡ absent → f (digest i) ≡ some i → f' (digest i) ≡ some i)
      → IsCallOk task f i c
      → IsCallOk task' f' i c
  call_kept task task' f f' i idle k a m h = a h
  call_kept task task' f f' i leading k a m (h, e) = (a h, m h e)
  call_kept task task' f f' i (waiting l) k a m h = h
  call_kept task task' f f' i (spawned l) k a m h = h
  call_kept task task' f f' i (receiving l) k a m h = h
  call_kept task task' f f' i (answered r) k a m (l, e, h) = (l, e, k l r h)
  call_kept task task' f f' i (received n r) k a m (same, (l, e, h)) = (same, (l, e, k l r h))
  call_kept task task' f f' i (returned r) k a m (inl h) = inl h
  call_kept task task' f f' i (returned r) k a m (inr (r', (l, e, h), t)) =
      inr (r', (l, e, k l r' h), t)
  call_kept task task' f f' i panicked k a m h = h

  pub task_kept :
      (f f' : Text → Option ℕ) (i : ℕ) (t : Task)
      → (f (digest i) ≡ some i → f' (digest i) ≡ some i)
      → IsTaskOk f i t
      → IsTaskOk f' i t
  task_kept f f' i absent m h = tt
  task_kept f f' i (running l) m (e, h) = (e, m h)
  task_kept f f' i (sent l r) m (e, h) = (e, m h)
  task_kept f f' i (finished l r) m h = h
  task_kept f f' i (crashed l) m (e, h) = (e, m h)

  -- A call that moves, while the tasks and the table stay.
  pub moved :
      (s : System) (i : ℕ) (c : Call)
      → Inv s
      → IsCallOk s.task s.in_flight i c
      → Inv (record s { call = at i c s.call })
  moved s i c v h = record { calls = calls; tasks = v.tasks; entries = v.entries }
    where
      calls : (j : ℕ) → IsCallOk s.task s.in_flight j (at i c s.call j)
      calls j = elim (Bool-cases (j == i)) [
        | inl e ↦
            let same : j ≡ i = ground arith in
            rw e (subst (λ k. IsCallOk s.task s.in_flight k c) (sym same) h)
        | inr e ↦ rw e (v.calls j)
      ]

  -- A task that moves, and the table with it, while the calls stay.
  pub task_moved :
      (s : System) (i : ℕ) (t : Task) (f : Text → Option ℕ)
      → Inv s
      → IsTaskOk f i t
      → (s.task i ≢ absent)
      → ((r : Result Bytes) → HasFetched (s.task i) r → HasFetched t r)
      → ((j : ℕ) → (j == i) ≡ false → s.in_flight (digest j) ≡ some j → f (digest j) ≡ some j)
      → ((d : Text) (l : ℕ) → f d ≡ some l → digest l ≡ d)
      → Inv (record s { in_flight = f; task = at i t s.task })
  task_moved s i t f v h there k m entries = record {
    calls = calls;
    tasks = tasks;
    entries = entries;
  }
    where
      fetches :
          (l : ℕ) (r : Result Bytes) → HasFetched (s.task l) r → HasFetched (at i t s.task l) r
      fetches l r g = elim (Bool-cases (l == i)) [
        | inl e ↦
            let same : l ≡ i = ground arith in
            rw e (k r (subst (λ n. HasFetched (s.task n) r) same g))
        | inr e ↦ rw e g
      ]

      stays : (j : ℕ) → s.task j ≡ absent → (j == i) ≡ false
      stays j a = elim (Bool-cases (j == i)) [
        | inl e ↦ let same : j ≡ i = ground arith in absurd (there (ap s.task (sym same) ∙ a))
        | inr e ↦ e
      ]

      calls : (j : ℕ) → IsCallOk (at i t s.task) f j (s.call j)
      calls j =
          call_kept s.task (at i t s.task) s.in_flight f j (s.call j) fetches
            (λ a. rw (stays j a) a) (λ a e. m j (stays j a) e) (v.calls j)

      tasks : (j : ℕ) → IsTaskOk f j (at i t s.task j)
      tasks j = elim (Bool-cases (j == i)) [
        | inl e ↦ let same : j ≡ i = ground arith in rw e (subst (λ n. IsTaskOk f n t) (sym same) h)
        | inr e ↦ rw e (task_kept s.in_flight f j (s.task j) (m j e) (v.tasks j))
      ]

  -- What a result does to the calls that wait for it.
  broadcast-ok :
      (task : ℕ → Task) (f : Text → Option ℕ) (l : ℕ) (r : Result Bytes)
      → HasFetched (task l) r
      → (i : ℕ) (c : Call) → IsCallOk task f i c
      → IsCallOk task f i (broadcast l r c)
  broadcast-ok task f l r g i idle h = h
  broadcast-ok task f l r g i leading h = h
  broadcast-ok task f l r g i (waiting m) h = elim (Bool-cases (m == l)) [
    | inl e ↦
        let same : m ≡ l = ground arith in rw e (l, subst (λ n. digest n ≡ digest i) same h, g)
    | inr e ↦ rw e h
  ]
  broadcast-ok task f l r g i (spawned m) h = h
  broadcast-ok task f l r g i (receiving m) h = elim (Bool-cases (m == l)) [
    | inl e ↦ let same : m ≡ l = ground arith in rw e (h, (l, ap digest (sym same ∙ h), g))
    | inr e ↦ rw e h
  ]
  broadcast-ok task f l r g i (answered r') h = h
  broadcast-ok task f l r g i (received m r') h = h
  broadcast-ok task f l r g i (returned r') h = h
  broadcast-ok task f l r g i panicked h = h

  pub delivered :
      (s : System) (l : ℕ) (r : Result Bytes)
      → Inv s
      → HasFetched (s.task l) r
      → Inv (record s { call = λ j. broadcast l r (s.call j) })
  delivered s l r v g = record {
    calls = λ j. broadcast-ok s.task s.in_flight l r g j (s.call j) (v.calls j);
    tasks = v.tasks;
    entries = v.entries;
  }

  pub call_at :
      (s : System) (i : ℕ) (c : Call) → Inv s → s.call i ≡ c → IsCallOk s.task s.in_flight i c
  call_at s i c v e = subst (λ k. IsCallOk s.task s.in_flight i k) e (v.calls i)

  pub task_at : (s : System) (i : ℕ) (t : Task) → Inv s → s.task i ≡ t → IsTaskOk s.in_flight i t
  task_at s i t v e = subst (λ k. IsTaskOk s.in_flight i k) e (v.tasks i)
