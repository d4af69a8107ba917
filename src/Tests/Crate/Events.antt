-- ===== src/Tests/Crate/Events.antt =====
-- The test of src/event_map.rs. Its keys are taken 100 higher, so that the negative ones are natural
-- numbers, and its values `"a"`, `"b"`, `"d"` and `"e"` are numbers.
use rtsc.Prelude.{ℕ, Bool, true, ◌&&◌, ◌≡◌, refl, ◌==◌, length}
use rtsc.EventMap
use rtsc.EventMap.{EventMap, EventValue}
use rtsc.Tests.Crate.{unwraps, is_nothing}

abbrev is_event : ℕ → ℕ → ℕ → EventValue ℕ → Bool
is_event key value delta event = event.key == key && event.value == value && event.delta == delta

abbrev value_a : ℕ
value_a = 1

abbrev value_b : ℕ
value_b = 2

abbrev value_d : ℕ
value_d = 4

abbrev value_e : ℕ
value_e = 5

abbrev inserted : EventMap ℕ
inserted =
    EventMap.insert
      (EventMap.insert (EventMap.insert (EventMap.insert EventMap.new 101 value_a) 103 value_b) 107
        value_d)
      109 value_e

abbrev finds : EventMap ℕ → ℕ → (EventValue ℕ → Bool) → Bool
finds m key expected = unwraps expected (EventMap.get_closest_to m key)

unfoldable test_event_map : Bool
test_event_map =
    let wide = EventMap.with_max_delta inserted 91 in
    let narrow = EventMap.with_max_delta wide 90 in
    let cleaned = EventMap.cleanup narrow 107 in
    finds inserted 104 (is_event 103 value_b 1)
    && finds inserted 105 (is_event 103 value_b 2)
    && finds inserted 106 (is_event 107 value_d 1)
    && finds inserted 110 (is_event 109 value_e 1)
    && finds inserted 200 (is_event 109 value_e 91)
    && finds wide 200 (λ event. event.key == 109)
    && finds wide 10 (is_event 101 value_a 91)
    && is_nothing (EventMap.get_closest_to wide 0)
    && is_nothing (EventMap.get_closest_to narrow 10)
    && is_nothing (EventMap.get_closest_to narrow 200)
    && length (EventMap.entries_of narrow) == 4
    && length (EventMap.entries_of cleaned) == 2

test_event_map-passes : test_event_map ≡ true
unfolding test_event_map EventMap.new EventMap.insert EventMap.map_insert EventMap.with_max_delta
    EventMap.cleanup EventMap.split_off EventMap.entries_of EventMap.get_closest_to EventMap.lower
    EventMap.upper EventMap.map_get
test_event_map-passes = refl
