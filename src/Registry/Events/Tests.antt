-- ===== src/Registry/Events/Tests.antt =====
-- Examples of the log of events and of the counters.
use pulld.Base.{◌≡◌, refl, List, [], ◌∷◌}
use pulld.Text.{Text, text}
use pulld.Registry.Events.{PullEvent, new_event, prometheus_label_value}

abbrev first_event : PullEvent
first_event = new_event (text "first") (text "alpine") (text "m")

abbrev three_events : List (Text × PullEvent)
three_events = (text "1", first_event) ∷ (text "2", first_event) ∷ (text "3", first_event) ∷ []

label_example : prometheus_label_value (text "a\"b") ≡ text "a\\\"b"
unfolding prometheus_label_value
label_example = refl
