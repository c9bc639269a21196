-- ===== src/Cache/Flights/Steps.antt =====
-- Every step of the calls keeps the invariant.
use pulld.Base.{
  ℕ, ◌≡◌, refl, sym, ap, subst, ◌∙◌, inl, inr, false, Option, none, some, arith, ◌==◌, ==_refl,
  Bool-cases, Result,
}
use pulld.Text.{Text, text_eq}
use pulld.Text.Laws.{text_eq_sound, text_eq_refl}
use pulld.Cache.Disk.{Bytes}
use pulld.Cache.Flights.{
  idle, waiting, leading, spawned, receiving, answered, received, returned, absent, running, sent,
  finished, crashed, System, at, entry, broadcast, channel_error, Step, join, lead, spawn, unwrap,
  subscribe, send, crash, remove, follow, finish, close, Reach, here, later,
}
use pulld.Cache.Flights.Invariant.{
  HasFetched, IsCallOk, IsTaskOk, Inv, call_kept, task_kept, moved, task_moved, delivered, call_at,
  task_at,
}

module _ (digest : ℕ → Text) where
  -- A call that finds no entry makes one.
  lead-Inv :
      (s : System) (i : ℕ)
      → Inv digest s
      → s.call i ≡ idle
      → s.in_flight (digest i) ≡ none
      → Inv digest (record s {
        in_flight = entry (digest i) (some i) s.in_flight;
        call = at i leading s.call;
      })
  lead-Inv s i v e n = record { calls = calls; tasks = tasks; entries = entries }
    where
      f : Text → Option ℕ
      f = entry (digest i) (some i) s.in_flight

      mine : (d : Text) (j : ℕ) → s.in_flight d ≡ some j → f d ≡ some j
      mine d j h = elim (Bool-cases (text_eq d (digest i))) [
        | inr e1 ↦ rw e1 h
        | inl e1 ↦
            let same : none ≡ some j =
              sym n ∙ ap s.in_flight (sym (text_eq_sound d (digest i) e1)) ∙ h in
            absurd (cc)
      ]

      calls : (j : ℕ) → IsCallOk digest s.task f j (at i leading s.call j)
      calls j = elim (Bool-cases (j == i)) [
        | inl e1 ↦
            let same : i ≡ j = ground arith in
            rw e1 (
              subst (λ k. (s.task k ≡ absent) × (f (digest k) ≡ some k)) same
                (call_at digest s i idle v e, rw (text_eq_refl (digest i)) refl))
        | inr e1 ↦ rw e1 (
            call_kept digest s.task s.task s.in_flight f j (s.call j) (λ l r h. h) (λ a. a)
              (λ a h. mine (digest j) j h) (v.calls j))
      ]

      tasks : (j : ℕ) → IsTaskOk digest f j (s.task j)
      tasks j = task_kept digest s.in_flight f j (s.task j) (mine (digest j) j) (v.tasks j)

      entries : (d : Text) (l : ℕ) → f d ≡ some l → digest l ≡ d
      entries d l h = elim (Bool-cases (text_eq d (digest i))) [
        | inl e1 ↦ ground (arith, text_eq_sound d (digest i))
        | inr e1 ↦ v.entries d l (ground arith)
      ]

  -- The leader spawns its task.
  spawn-Inv :
      (s : System) (i : ℕ)
      → Inv digest s
      → s.call i ≡ leading
      → Inv digest (record s { call = at i (spawned i) s.call; task = at i (running i) s.task })
  spawn-Inv s i v e = record { calls = calls; tasks = tasks; entries = v.entries }
    where
      led : (s.task i ≡ absent) × (s.in_flight (digest i) ≡ some i)
      led = call_at digest s i leading v e

      fetches :
          (l : ℕ) (r : Result Bytes)
          → HasFetched (s.task l) r
          → HasFetched (at i (running i) s.task l) r
      fetches l r g = elim (Bool-cases (l == i)) [
        | inl e1 ↦
            let same : l ≡ i = ground arith in
            absurd (subst (λ t. HasFetched t r) (ap s.task same ∙ led.0) g)
        | inr e1 ↦ rw e1 g
      ]

      calls :
          (j : ℕ)
          → IsCallOk digest (at i (running i) s.task) s.in_flight j (at i (spawned i) s.call j)
      calls j = elim (Bool-cases (j == i)) [
        | inl e1 ↦ rw e1 (ground arith)
        | inr e1 ↦ rw e1 (
            call_kept digest s.task (at i (running i) s.task) s.in_flight s.in_flight j (s.call j)
              fetches (λ a. rw e1 a) (λ a h. h) (v.calls j))
      ]

      tasks : (j : ℕ) → IsTaskOk digest s.in_flight j (at i (running i) s.task j)
      tasks j = elim (Bool-cases (j == i)) [
        | inl e1 ↦
            let same : i ≡ j = ground arith in
            rw e1 (same, subst (λ k. s.in_flight (digest k) ≡ some k) same led.1)
        | inr e1 ↦ rw e1 (v.tasks j)
      ]

  -- A task that has sent its result removes the entry, which is its own.
  remove-Inv :
      (s : System) (i l : ℕ) (r : Result Bytes)
      → Inv digest s
      → s.task i ≡ sent l r
      → Inv digest (record s {
        in_flight = entry (digest i) none s.in_flight;
        task = at i (finished l r) s.task;
      })
  remove-Inv s i l r v e =
      task_moved digest s i (finished l r) f v mine.0 (λ a. absurd (ground arith))
        (λ r' g. subst (λ t. HasFetched t r') e g) others entries
    where
      f : Text → Option ℕ
      f = entry (digest i) none s.in_flight

      mine : (l ≡ i) × (s.in_flight (digest i) ≡ some i)
      mine = task_at digest s i (sent l r) v e

      others : (j : ℕ) → (j == i) ≡ false → s.in_flight (digest j) ≡ some j → f (digest j) ≡ some j
      others j n h = elim (Bool-cases (text_eq (digest j) (digest i))) [
        | inr e1 ↦ rw e1 h
        | inl e1 ↦
            let same : some j ≡ some i =
              sym h ∙ ap s.in_flight (text_eq_sound (digest j) (digest i) e1) ∙ mine.1 in
            absurd (ground arith)
      ]

      entries : (d : Text) (m : ℕ) → f d ≡ some m → digest m ≡ d
      entries d m h = elim (Bool-cases (text_eq d (digest i))) [
        | inl e1 ↦ absurd (ground arith)
        | inr e1 ↦ v.entries d m (ground arith)
      ]

  send-Inv :
      (s : System) (i l : ℕ) (r : Result Bytes)
      → Inv digest s
      → s.task i ≡ running l
      → Inv digest
          (record s { call = λ j. broadcast l r (s.call j); task = at i (sent l r) s.task })
  send-Inv s i l r v e =
      let (same, mine) = task_at digest s i (running l) v e in
      delivered digest (record s { task = at i (sent l r) s.task }) l r
        (task_moved digest s i (sent l r) s.in_flight v (same, mine) (λ a. absurd (ground arith))
          (λ r' g. absurd (subst (λ t. HasFetched t r') e g)) (λ j n h. h) v.entries)
        (subst (λ k. HasFetched (at i (sent l r) s.task k) r) (sym same) (fetched i))
    where
      fetched : (k : ℕ) → HasFetched (at k (sent l r) s.task k) r
      fetched k = rw (==_refl k) refl

  -- Every step keeps the invariant.
  pub Step-Inv : {s t : System} → Step digest s t → Inv digest s → Inv digest t
  Step-Inv {s} (join i l e h) v = moved digest s i (waiting l) v (v.entries (digest i) l h)
  Step-Inv {s} (lead i e n) v = lead-Inv s i v e n
  Step-Inv {s} (spawn i l e h) v =
      let same : l ≡ i = ground (arith, call_at digest s i leading v e) in
      rw same (spawn-Inv s i v e)
  Step-Inv {s} (unwrap i e n) v = absurd (ground (arith, call_at digest s i leading v e))
  Step-Inv {s} (subscribe i l e) v =
      moved digest s i (receiving l) v (call_at digest s i (spawned l) v e)
  Step-Inv {s} (send i l r e) v = send-Inv s i l r v e
  Step-Inv {s} (crash i l e) v =
      task_moved digest s i (crashed l) s.in_flight v (task_at digest s i (running l) v e)
        (λ a. absurd (ground arith)) (λ r' g. absurd (subst (λ t. HasFetched t r') e g))
        (λ j n h. h) v.entries
  Step-Inv {s} (remove i l r e) v = remove-Inv s i l r v e
  Step-Inv {s} (follow i r r' e t) v =
      moved digest s i (returned r') v (inr (r, call_at digest s i (answered r) v e, t))
  Step-Inv {s} (finish i l r r' e t) v =
      moved digest s i (returned r') v (inr (r, (call_at digest s i (received l r) v e).1, t))
  Step-Inv {s} (close i l e h) v = moved digest s i (returned channel_error) v (inl refl)

  pub Reach-Inv : {s t : System} → Reach digest s t → Inv digest s → Inv digest t
  Reach-Inv here v = v
  Reach-Inv (later r st) v = Step-Inv st (Reach-Inv r v)
