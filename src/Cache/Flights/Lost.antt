-- ===== src/Cache/Flights/Lost.antt =====
-- What `download_with_dedupe` loses: a call that subscribes after the result was sent.
use pulld.Base.{ℕ, ◌≡◌, refl, sym, ap, subst, ◌⊎◌, inl, inr, arith}
use pulld.Text.{Text}
use pulld.Cache.Flights.{
  Call, idle, waiting, spawned, receiving, returned, crashed, System, channel_error, Step, start,
  Reach,
}
use pulld.Cache.Flights.Invariant.{Inv, start-Inv, call_at, task_at}
use pulld.Cache.Flights.Steps.{Reach-Inv}
use pulld.Cache.Flights.Moves.{
  IsSilent, Moves, joins, leads, spawns, subscribes, delivers, follows, finishes, closes,
  Step-Moves, Step-IsSilent, not_its, Reach-kept, Step-crashed,
}

-- A call that waits for a channel, or has found it closed.
abbrev pub IsLate : ℕ → Call → Type 0
IsLate l c = (c ≡ waiting l) ⊎ (c ≡ returned channel_error)

-- A leader that waits for its own channel.
abbrev pub Hangs : ℕ → Call → Type 0
Hangs i c = (c ≡ spawned i) ⊎ (c ≡ receiving i)

module _ (digest : ℕ → Text) where
  follower_moved :
      (s : System) (i l : ℕ) (c : Call)
      → Inv digest s
      → IsSilent (s.task l)
      → IsLate l (s.call i)
      → Moves digest s i c
      → IsLate l c
  follower_moved s i l c v k h (joins m e f) = absurd (ground arith)
  follower_moved s i l c v k h (leads e f) = absurd (ground arith)
  follower_moved s i l c v k h (spawns d e) = absurd (ground arith)
  follower_moved s i l c v k h (subscribes m e) = absurd (ground arith)
  follower_moved s i l c v k (inl w) (delivers j m r e) =
      inl (rw (w, not_its digest s l j m v k e) refl)
  follower_moved s i l c v k (inr w) (delivers j m r e) = inr (rw w refl)
  follower_moved s i l c v k h (follows d r e) = absurd (ground arith)
  follower_moved s i l c v k h (finishes d m r e) = absurd (ground arith)
  follower_moved s i l c v k h (closes m e f) = inr refl

  -- The leader keeps a sender of its own channel, which is therefore never closed.
  leader_moved :
      (s : System) (i : ℕ) (c : Call)
      → Inv digest s
      → IsSilent (s.task i)
      → Hangs i (s.call i)
      → Moves digest s i c
      → Hangs i c
  leader_moved s i c v k h (joins m e f) = absurd (ground arith)
  leader_moved s i c v k h (leads e f) = absurd (ground arith)
  leader_moved s i c v k h (spawns d e) = absurd (ground arith)
  leader_moved s i c v k h (subscribes m e) =
      inr (ground (arith, call_at digest s i (spawned m) v e))
  leader_moved s i c v k (inl w) (delivers j m r e) = inl (rw w refl)
  leader_moved s i c v k (inr w) (delivers j m r e) =
      inr (rw (w, not_its digest s i j m v k e) refl)
  leader_moved s i c v k h (follows d r e) = absurd (ground arith)
  leader_moved s i c v k h (finishes d m r e) = absurd (ground arith)
  leader_moved s i c v k h (closes m e f) = absurd (ground arith)

  -- A call that waits for a channel whose result was sent before it subscribed, or whose download
  -- panicked, never gets the result: it waits for ever, or returns the error of a closed channel.
  pub lost_follower :
      {s t : System} (i l : ℕ)
      → Reach digest (start digest) s
      → IsSilent (s.task l)
      → s.call i ≡ waiting l
      → Reach digest s t
      → IsLate l (t.call i)
  lost_follower i l before k w after =
      (Reach-kept digest (λ s. IsSilent (s.task l) × IsLate l (s.call i)) step after
        (Reach-Inv digest before (start-Inv digest)) (k, inl w)).1
    where
      step :
          (s t : System)
          → Step digest s t
          → Inv digest s
          → IsSilent (s.task l) × IsLate l (s.call i)
          → IsSilent (t.task l) × IsLate l (t.call i)
      step s t st v (q, h) = (
        Step-IsSilent digest l st v q,
        elim (Step-Moves digest i st) [
          | inl e ↦ subst (IsLate l) (sym e) h
          | inr m ↦ follower_moved s i l (t.call i) v q h m
        ],
      )

  -- A leader whose task has sent the result, or has panicked, while the leader has none yet, never
  -- returns.
  pub lost_leader :
      {s t : System} (i : ℕ)
      → Reach digest (start digest) s
      → IsSilent (s.task i)
      → Hangs i (s.call i)
      → Reach digest s t
      → Hangs i (t.call i)
  lost_leader i before k w after =
      (Reach-kept digest (λ s. IsSilent (s.task i) × Hangs i (s.call i)) step after
        (Reach-Inv digest before (start-Inv digest)) (k, w)).1
    where
      step :
          (s t : System)
          → Step digest s t
          → Inv digest s
          → IsSilent (s.task i) × Hangs i (s.call i)
          → IsSilent (t.task i) × Hangs i (t.call i)
      step s t st v (q, h) = (
        Step-IsSilent digest i st v q,
        elim (Step-Moves digest i st) [
          | inl e ↦ subst (Hangs i) (sym e) h
          | inr m ↦ leader_moved s i (t.call i) v q h m
        ],
      )

  blocked_moved :
      (s : System) (i j : ℕ) (c : Call)
      → Inv digest s
      → s.task i ≡ crashed i
      → digest j ≡ digest i
      → (s.call j ≡ idle) ⊎ (s.call j ≡ waiting i)
      → Moves digest s j c
      → (c ≡ idle) ⊎ (c ≡ waiting i)
  blocked_moved s i j c v k d h (joins m e f) =
      inr (ground (arith, task_at digest s i (crashed i) v k, ap s.in_flight d))
  blocked_moved s i j c v k d h (leads e f) =
      absurd (ground (arith, task_at digest s i (crashed i) v k, ap s.in_flight d))
  blocked_moved s i j c v k d h (spawns b e) = absurd (ground arith)
  blocked_moved s i j c v k d h (subscribes m e) = absurd (ground arith)
  blocked_moved s i j c v k d (inl w) (delivers n m r e) = inl (rw w refl)
  blocked_moved s i j c v k d (inr w) (delivers n m r e) =
      inr (rw (w, not_its digest s i n m v (subst IsSilent (sym k) tt) e) refl)
  blocked_moved s i j c v k d h (follows b r e) = absurd (ground arith)
  blocked_moved s i j c v k d h (finishes b m r e) = absurd (ground arith)
  blocked_moved s i j c v k d h (closes m e f) =
      absurd (f.0 (digest i) (ground (arith, task_at digest s i (crashed i) v k)))

  -- When a download has panicked, no later call for its digest ever returns: its entry stays in the
  -- table, and each call waits for it.
  pub blocked_digest :
      {s t : System} (i j : ℕ)
      → Reach digest (start digest) s
      → s.task i ≡ crashed i
      → digest j ≡ digest i
      → s.call j ≡ idle
      → Reach digest s t
      → (t.call j ≡ idle) ⊎ (t.call j ≡ waiting i)
  blocked_digest i j before k d w after =
      (Reach-kept digest
        (λ s. (s.task i ≡ crashed i) × ((s.call j ≡ idle) ⊎ (s.call j ≡ waiting i))) step after
        (Reach-Inv digest before (start-Inv digest)) (k, inl w)).1
    where
      step :
          (s t : System)
          → Step digest s t
          → Inv digest s
          → (s.task i ≡ crashed i) × ((s.call j ≡ idle) ⊎ (s.call j ≡ waiting i))
          → (t.task i ≡ crashed i) × ((t.call j ≡ idle) ⊎ (t.call j ≡ waiting i))
      step s t st v (q, h) = (
        Step-crashed digest i st v q,
        elim (Step-Moves digest j st) [
          | inl e ↦ subst (λ c. (c ≡ idle) ⊎ (c ≡ waiting i)) (sym e) h
          | inr m ↦ blocked_moved s i j (t.call j) v q d h m
        ],
      )
