-- ===== src/Time.antt =====
-- src/time.rs: intervals and durations; src/ops.rs: operations with a time limit.
-- Instants and durations are natural numbers, in the unit of the clock; a method takes `now`, the
-- instant at which it reads the clock.
pub mod Ticks
pub mod Limits
use rtsc.Prelude.{
  ℕ, zero, suc, ◌+◌, ◌-◌, ◌%◌, ◌^◌, Bool, true, false, Option, none, some, List, [], ◌∷◌, ltb, leb,
  if◌then◌else◌,
}
use rtsc.Error.{Error, timeout, Result, ok, err}

pub data MissedTickBehavior : Type 0 where
  burst delay skip : MissedTickBehavior

pub record Interval : Type 0 where
  pub next_tick : Option ℕ
  pub period : ℕ
  pub missing_tick_behavior : MissedTickBehavior
  pub ticks : ℕ

unfoldable pub new : ℕ → Interval
new period = record { next_tick = none; period = period; missing_tick_behavior = burst; ticks = 0 }

unfoldable pub set_missing_tick_behavior : Interval → MissedTickBehavior → Interval
set_missing_tick_behavior i behavior = record i { missing_tick_behavior = behavior }

-- The loop of `tick` that skips the missed ticks; `none` is that the fuel runs out.
unfoldable pub skip_missed : (fuel now period next_tick : ℕ) → Option ℕ
skip_missed zero now period next_tick = none
skip_missed (suc fuel) now period next_tick =
    let rest = skip_missed fuel now period (next_tick + period) in
    if leb next_tick now then rest else some next_tick

-- What `tick` answers, how long it sleeps before that, and the interval it leaves.
pub record Tick : Type 0 where
  pub fired : Bool
  pub slept : ℕ
  pub interval : Interval

-- The match on the behavior, for a tick that is missed.
unfoldable pub missed : ℕ → Interval → ℕ → MissedTickBehavior → Option ℕ
missed now i next_tick burst = some (next_tick + i.period)
missed now i next_tick delay = some (now + i.period)
missed now i next_tick skip = skip_missed (now - next_tick + 2) now i.period next_tick

-- The `match` of the clock with the next tick.
unfoldable pub tick_at : ℕ → Interval → ℕ → Option Tick
tick_at now i next_tick =
    if ltb now next_tick
    then some (record {
      fired = true;
      slept = next_tick - now;
      interval = record i { next_tick = some (next_tick + i.period) };
    })
    else if ltb next_tick now
    then elim (missed now i next_tick i.missing_tick_behavior) [
      | some next ↦
          some (record { fired = false; slept = 0; interval = record i { next_tick = some next } })
      | none ↦ none
    ]
    else some (record { fired = true; slept = 0; interval = i })

-- `w` is the width of `usize`; `none` is that the method does not return.
unfoldable pub tick : (w now : ℕ) → Interval → Option Tick
tick w now i =
    let counted : Interval = record i { ticks = (i.ticks + 1) % 2 ^ w } in
    elim i.next_tick [
      | some next_tick ↦ tick_at now counted next_tick
      | none ↦ some (record {
        fired = true;
        slept = 0;
        interval = record counted { next_tick = some (now + i.period) };
      })
    ]

unfoldable pub elapsed_ticks : Interval → ℕ
elapsed_ticks i = i.ticks

-- `DurationRT` for `Duration`; `minimum` and `maximum` are those of the iterator `first ∷ t`.
unfoldable pub minimum : ℕ → List ℕ → ℕ
minimum first [] = first
minimum first (x ∷ t) = minimum (if leb first x then first else x) t

unfoldable pub maximum : ℕ → List ℕ → ℕ
maximum first [] = first
maximum first (x ∷ t) = maximum (if leb first x then x else first) t

unfoldable pub fits : ℕ → List ℕ → Bool
fits d [] = true
fits d (x ∷ t) = leb (maximum x t - minimum x t) d

unfoldable pub diff_abs : ℕ → ℕ → ℕ
diff_abs d other = if ltb other d then d - other else other - d

-- src/ops.rs.
pub record Operation : Type 0 where
  pub t : ℕ
  pub limit : ℕ

unfoldable pub remaining : ℕ → Operation → Result ℕ
remaining now o = if ltb o.limit (now - o.t) then err timeout else ok (o.limit - (now - o.t))

unfoldable pub remaining_for : ℕ → Operation → ℕ → Result ℕ
remaining_for now o limit = if ltb limit (now - o.t) then err timeout else ok (limit - (now - o.t))

unfoldable pub enough : ℕ → Operation → ℕ → Result (Unit {0})
enough now o expected = if leb (now - o.t + expected) o.limit then ok tt else err timeout
