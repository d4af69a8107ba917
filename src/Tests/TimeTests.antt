-- ===== src/Tests/TimeTests.antt =====
-- The theorems on time and on event maps, with small numbers.
use rtsc.Prelude.{ℕ, ◌≡◌, ◌⊎◌, refl, true, false, List, none, some, [], ◌∷◌, arith}
use rtsc.Time.{Interval, skip, Tick, tick, skip_missed}
use rtsc.Time.Ticks.{Ticks, tick_lem, skip_zero}
use rtsc.EventMap.{EventValue, get_closest_to}
use rtsc.EventMap.Closest.{distance, allows, Beats}
use rtsc.EventMap.History.{
  Change, limits, inserts, edits_insert, after, recorded, closest_of_history,
}

abbrev interval : Interval
interval = record { next_tick = some 20; period = 10; missing_tick_behavior = skip; ticks = 4 }

tick_lem_example :
    (t : Tick) × (tick 64 47 interval ≡ some t) × Ticks 47 interval 20 t × (t.interval.ticks ≡ 5)
tick_lem_example = tick_lem 64 47 20 interval (omega arith) refl

skip_zero_example : skip_missed 100 47 0 20 ≡ none
skip_zero_example = skip_zero 100 47 20 (omega arith)

-- The map of the source's own test, with numbers for the texts, and an edit of its tree.
abbrev calls : List (Change ℕ)
calls = limits 2 ∷ edits_insert 7 30 ∷ inserts 9 40 ∷ inserts 3 20 ∷ inserts 1 10 ∷ []

closest_of_history_example :
    let found = get_closest_to (after calls) 5 in
    ((e : EventValue ℕ) × (found ≡ some e)
      × (recorded calls e.key ≡ some e.value)
      × (allows (some 2) e.delta ≡ true)
      × Beats 5 7 e.key e.delta)
    ⊎ ((found ≡ none) × (allows (some 2) (distance 7 5) ≡ false))
closest_of_history_example = closest_of_history calls 5 7 30 refl
