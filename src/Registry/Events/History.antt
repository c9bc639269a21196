-- ===== src/Registry/Events/History.antt =====
-- What the log of events holds after a run.
use pulld.Base.{
  ℕ, zero, suc, ◌+◌, ◌-◌, ◌%◌, ◌≤◌, ◌<◌, ◌≡◌, refl, sym, ap, ◌∙◌, min, max, List, [], ◌∷◌, ◌++◌,
  map, length, range, pop_front, leb, arith, length-append, length-pop_front, leb_iff, Bool-cases,
  inl, inr,
}
use pulld.Text.{Text}
use pulld.Text.Numbers.{u64_limit}
use pulld.Registry.Events.{PullEvent, PullEventLog, new_log, record_event, latest_sequence}

-- The events in turn, each at its time.
abbrev pub run : List (Text × PullEvent) → PullEventLog → PullEventLog
run [] log = log
run ((now, event) ∷ rest) log = run rest (record_event now log event)

abbrev pub sequences : List PullEvent → List ℕ
sequences events = map (λ (event : PullEvent). event.sequence) events

-- The events hold the last numbers that were given, and no more of them than the capacity.
abbrev pub IsLog : PullEventLog → Type 0
IsLog log =
    (length log.events ≡ min log.capacity (log.next_sequence - 1))
    × (1 ≤ log.capacity)
    × (1 ≤ log.next_sequence)
    × (sequences log.events ≡ range (log.next_sequence - length log.events) (length log.events))

range-snoc : (i n : ℕ) → range i n ++ ((i + n) ∷ []) ≡ range i (suc n)
range-snoc i zero = ap (λ k. k ∷ []) {x = i + 0} {y = i} (omega arith)
range-snoc i (suc n) =
    ap (λ t. i ∷ t)
      (ap (λ k. range (suc i) n ++ (k ∷ [])) {x = i + suc n} {y = suc i + n} (omega arith)
        ∙ range-snoc (suc i) n)

sequences-append : (xs ys : List PullEvent) → sequences (xs ++ ys) ≡ sequences xs ++ sequences ys
sequences-append [] ys = refl
sequences-append (x ∷ xs) ys = rw (sequences-append xs ys)

sequences-pop_front : (xs : List PullEvent) → sequences (pop_front xs) ≡ pop_front (sequences xs)
sequences-pop_front [] = refl
sequences-pop_front (x ∷ xs) = refl

range-cong : (i j n m : ℕ) → i ≡ j → n ≡ m → range i n ≡ range j m
range-cong i j n m p q = cc

pop_front-range : (i n : ℕ) → pop_front (range i n) ≡ range (i + 1) (n - 1)
pop_front-range i zero = refl
pop_front-range i (suc n) = range-cong (suc i) (i + 1) n (suc n - 1) (omega arith) (omega arith)

-- One more event with the next number.
sequences-snoc :
    (next : ℕ) (kept : List PullEvent) (event : PullEvent)
    → event.sequence ≡ next
    → length kept ≤ next
    → sequences kept ≡ range (next - length kept) (length kept)
    → let now = kept ++ (event ∷ []) in sequences now ≡ range (next + 1 - length now) (length now)
sequences-snoc next kept event e h seqs =
    sequences-append kept (event ∷ [])
    ∙ ap (λ t. t ++ (event.sequence ∷ [])) seqs
    ∙ ap (λ k. range (next - length kept) (length kept) ++ (k ∷ [])) {x = event.sequence}
        {y = next - length kept + length kept} (omega arith)
    ∙ range-snoc (next - length kept) (length kept)
    ∙ range-cong (next - length kept) (next + 1 - length (kept ++ (event ∷ []))) (suc (length kept))
        (length (kept ++ (event ∷ []))) (omega (arith, length-append kept (event ∷ [])))
        (omega (arith, length-append kept (event ∷ [])))

record_event-IsLog :
    (now : Text) (log : PullEventLog) (event : PullEvent)
    → log.next_sequence + 1 < u64_limit
    → IsLog log
    → IsLog (record_event now log event)
unfolding record_event
record_event-IsLog now log event h (len, room, one, seqs) =
    elim (Bool-cases (leb log.capacity (length log.events))) [
      | inl e ↦
          let full = (leb_iff log.capacity (length log.events)).0 e in
          let shorter = length-pop_front log.events in
          let popped =
            sequences-pop_front log.events
            ∙ ap pop_front seqs
            ∙ pop_front-range (log.next_sequence - length log.events) (length log.events)
            ∙ range-cong (log.next_sequence - length log.events + 1)
                (log.next_sequence - length (pop_front log.events)) (length log.events - 1)
                (length (pop_front log.events)) (omega arith) (omega arith) in
          rw (record_event, e) (with_room (pop_front log.events) (omega arith) (omega arith) popped)
      | inr e ↦ rw (record_event, e) (with_room log.events (ground arith) (ground arith) seqs)
    ]
  where
    next : ℕ
    next = log.next_sequence

    numbered : PullEvent
    numbered = record event { sequence = next; timestamp = now }

    with_room :
        (kept : List PullEvent)
        → (length kept + 1 ≡ min log.capacity next)
        → (length kept ≤ next)
        → sequences kept ≡ range (next - length kept) (length kept)
        → IsLog (record log {
          next_sequence = (next + 1) % u64_limit;
          events = kept ++ (numbered ∷ []);
        })
    with_room kept l b seqs =
        let wrapped : (next + 1) % u64_limit ≡ next + 1 = omega arith in
        let longer = length-append kept (numbered ∷ []) in
        (
          omega arith,
          room,
          omega arith,
          sequences-snoc next kept numbered refl b seqs
              ∙ ap
                  (λ n.
                    range (n - length (kept ++ (numbered ∷ []))) (length (kept ++ (numbered ∷ []))))
                  (sym wrapped),
        )

record_event-next :
    (now : Text) (log : PullEventLog) (event : PullEvent)
    → log.next_sequence + 1 < u64_limit
    → (record_event now log event).next_sequence ≡ log.next_sequence + 1
unfolding record_event
record_event-next now log event h = omega arith

record_event-capacity :
    (now : Text) (log : PullEventLog) (event : PullEvent)
    → (record_event now log event).capacity ≡ log.capacity
unfolding record_event
record_event-capacity now log event = refl

run-IsLog :
    (events : List (Text × PullEvent)) (log : PullEventLog)
    → log.next_sequence + length events < u64_limit
    → IsLog log
    → IsLog (run events log)
      × ((run events log).next_sequence ≡ log.next_sequence + length events)
      × ((run events log).capacity ≡ log.capacity)
run-IsLog [] log h i = (i, omega arith, refl)
run-IsLog ((now, event) ∷ rest) log h i =
    let next : (record_event now log event).next_sequence ≡ log.next_sequence + 1 =
      record_event-next now log event (omega arith) in
    let (i', n, c) =
      run-IsLog rest (record_event now log event) (omega arith)
        (record_event-IsLog now log event (omega arith) i) in
    (i', omega arith, c ∙ record_event-capacity now log event)

-- After a run of `n` events from a new log, which keeps at least one event, the log holds as many
-- of them as its capacity allows, they bear the last numbers up to `n` in their order, and
-- `latest_sequence` is `n`, if the counter does not reach its end.
pub run-sequences :
    (capacity : ℕ) (events : List (Text × PullEvent))
    → length events + 1 < u64_limit
    → let log = run events (new_log capacity) in
      let kept = min (max capacity 1) (length events) in
      (latest_sequence log ≡ length events)
      × (length log.events ≡ kept)
      × (sequences log.events ≡ range (length events + 1 - kept) kept)
unfolding new_log
run-sequences capacity events h =
    let ((len, room, one, seqs), next, c) =
      run-IsLog events (new_log capacity) (omega arith)
        (omega arith, omega arith, omega arith, refl) in
    let kept : length (run events (new_log capacity)).events
        ≡ min (max capacity 1) (length events) =
      ground arith in
    (
      omega arith,
      kept,
      seqs
          ∙ range-cong
              ((run events (new_log capacity)).next_sequence
                - length (run events (new_log capacity)).events)
              (length events + 1 - min (max capacity 1) (length events))
              (length (run events (new_log capacity)).events) (min (max capacity 1) (length events))
              (omega arith) kept,
    )
