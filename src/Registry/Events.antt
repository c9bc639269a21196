-- ===== src/Registry/Events.antt =====
-- The events of pulls and their counters: `PullEvent`, `PullEventLog` and `PullMetrics` of
-- src/registry/manifest.rs. The time of an event is a parameter.
pub mod History
mod Tests
use pulld.Base.{
  ℕ, ◌+◌, ◌-◌, ◌%◌, max, Bool, true, false, Option, none, some, List, [], ◌∷◌, ◌++◌, length, filter,
  is_empty, pop_front, unwrap_or, ltb, leb, ◌==◌, ◌&&◌, ◌||◌, if◌then◌else◌,
}
use pulld.Text.{Text, text, text_eq, replace}
use pulld.Text.Numbers.{u64_limit, to_text}

pub record PullEvent : Type 0 where
  pub sequence : ℕ
  pub timestamp : Text
  pub event : Text
  pub image : Text
  pub method : Option Text
  pub status : Option Text
  pub cache : Option Text
  pub digest : Option Text
  pub elapsed_ms : Option ℕ
  pub message : Text

unfoldable pub new_event : Text → Text → Text → PullEvent
new_event event image message = record {
  sequence = 0;
  timestamp = [];
  event = event;
  image = image;
  method = none;
  status = none;
  cache = none;
  digest = none;
  elapsed_ms = none;
  message = message;
}

pub record PullEventLog : Type 0 where
  pub capacity : ℕ
  pub next_sequence : ℕ
  pub events : List PullEvent

unfoldable pub new_log : ℕ → PullEventLog
new_log capacity = record { capacity = max capacity 1; next_sequence = 1; events = [] }

-- `PullEventLog::record`: the number that is given is the one before the counter grows, and the
-- oldest event makes room.
unfoldable pub record_event : Text → PullEventLog → PullEvent → PullEventLog
record_event now log event =
    let numbered : PullEvent = record event { sequence = log.next_sequence; timestamp = now } in
    record log {
      next_sequence = (log.next_sequence + 1) % u64_limit;
      events =
          (if leb log.capacity (length log.events) then pop_front log.events else log.events)
          ++ (numbered ∷ []);
    }

unfoldable pub after : PullEventLog → ℕ → List PullEvent
after log sequence = filter (λ (event : PullEvent). ltb sequence event.sequence) log.events

abbrev pub latest_sequence : PullEventLog → ℕ
latest_sequence log = log.next_sequence - 1

pub record PullMetricKey : Type 0 where
  pub event : Text
  pub method : Text
  pub status : Text
  pub cache : Text

-- The derived order of keys: field by field, each by its characters.
abbrev pub text_lt : Text → Text → Bool
text_lt [] [] = false
text_lt [] (_ ∷ _) = true
text_lt (_ ∷ _) [] = false
text_lt (c ∷ s) (d ∷ t) = ltb c d || (c == d && text_lt s t)

abbrev then_lt : Text → Text → Bool → Bool
then_lt s t later = text_lt s t || (text_eq s t && later)

unfoldable pub key_lt : PullMetricKey → PullMetricKey → Bool
key_lt k l =
    then_lt k.event l.event
      (then_lt k.method l.method (then_lt k.status l.status (text_lt k.cache l.cache)))

unfoldable pub key_eq : PullMetricKey → PullMetricKey → Bool
key_eq k l =
    text_eq k.event l.event
    && text_eq k.method l.method
    && text_eq k.status l.status
    && text_eq k.cache l.cache

-- The map, its entries in the order of their keys.
abbrev pub PullMetrics : Type 0
PullMetrics = List (PullMetricKey × ℕ)

unfoldable pub key_of : PullEvent → PullMetricKey
unfolding replace
key_of event = record {
  event = event.event;
  method = unwrap_or event.method (text "-");
  status = elim event.status [ none ↦ text "-" | some status ↦ replace status b' ' (text "_") ];
  cache = unwrap_or event.cache (text "-");
}

-- `*entry(key).or_insert(0) += 1`, which wraps as release builds do.
unfoldable pub count_key : PullMetrics → PullMetricKey → PullMetrics
unfolding key_lt key_eq
count_key [] key = (key, 1) ∷ []
count_key ((k, n) ∷ rest) key =
    if key_eq k key
    then (k, (n + 1) % u64_limit) ∷ rest
    else if key_lt key k
    then (key, 1) ∷ (k, n) ∷ rest
    else (k, n) ∷ count_key rest key

unfoldable pub record_metric : PullMetrics → PullEvent → PullMetrics
unfolding count_key key_of
record_metric metrics event = count_key metrics (key_of event)

-- `AppState::record_pull_event`.
unfoldable pub record_pull_event :
    Text → PullMetrics × PullEventLog → PullEvent → PullMetrics × PullEventLog
unfolding record_metric record_event
record_pull_event now (metrics, log) event =
    (record_metric metrics event, record_event now log event)

unfoldable pub prometheus_label_value : Text → Text
unfolding replace
prometheus_label_value value =
    replace (replace (replace value b'\\' (text "\\\\")) b'"' (text "\\\"")) 10 (text " ")

-- A line of the counters.
abbrev line : PullMetricKey × ℕ → Text
line (key, total) =
    text "pulld_pull_events_total{event=\""
    ++ prometheus_label_value key.event
    ++ text "\",method=\""
    ++ prometheus_label_value key.method
    ++ text "\",status=\""
    ++ prometheus_label_value key.status
    ++ text "\",cache=\""
    ++ prometheus_label_value key.cache
    ++ text "\"} "
    ++ to_text total
    ++ (10 ∷ [])

abbrev lines : PullMetrics → Text
lines [] = []
lines (m ∷ metrics) = line m ++ lines metrics

unfoldable pub render_prometheus : PullMetrics → PullEventLog → Text
unfolding prometheus_label_value to_text
render_prometheus metrics log =
    text "# HELP pulld_pull_events_total Pull events recorded by pulld.\n"
    ++ text "# TYPE pulld_pull_events_total counter\n"
    ++ lines metrics
    ++ text
        "# HELP pulld_pull_event_buffer_size Pull events retained in the in-memory event buffer.\n"
    ++ text "# TYPE pulld_pull_event_buffer_size gauge\n"
    ++ text "pulld_pull_event_buffer_size "
    ++ to_text (length log.events)
    ++ text "\n"
    ++ text
        "# HELP pulld_pull_event_latest_sequence Latest pull event sequence number recorded by pulld.\n"
    ++ text "# TYPE pulld_pull_event_latest_sequence gauge\n"
    ++ text "pulld_pull_event_latest_sequence "
    ++ to_text (latest_sequence log)
    ++ text "\n"
