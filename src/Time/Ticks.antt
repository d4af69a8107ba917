-- ===== src/Time/Ticks.antt =====
-- src/time.rs: when an interval ticks.
use native.Mathlib.Nat.{suc-mul}
use rtsc.Prelude.{
  ℕ, zero, suc, ◌+◌, ◌-◌, ◌*◌, ◌%◌, ◌^◌, ◌≤◌, ◌<◌, ◌≡◌, ◌⊎◌, refl, ◌∙◌, true, false, inl, inr, none,
  some, arith, ltb, leb, Bool-cases,
}
use rtsc.Time.{
  Interval, MissedTickBehavior, burst, delay, skip, Tick, skip_missed, missed, tick_at, tick,
}

-- The first tick after `now` of those that follow `next` by whole periods.
abbrev pub IsFirstAfter : (now period next n : ℕ) → Type 0
IsFirstAfter now period next n =
    (now < n) × (n ≤ now + period) × ((k : ℕ) × (n ≡ next + k * period))

skip_missed_lem :
    (fuel now period next : ℕ)
    → 0 < period
    → 0 < fuel
    → now + 2 ≤ next + fuel
    → next ≤ now + period
    → (n : ℕ) × (skip_missed fuel now period next ≡ some n) × IsFirstAfter now period next n
unfolding skip_missed
skip_missed_lem zero now period next h more enough near = absurd (omega arith)
skip_missed_lem (suc fuel) now period next h more enough near = elim (Bool-cases (leb next now)) [
  | inl e ↦
      let (n, r, (after, bound, (k, eq))) =
        skip_missed_lem fuel now period (next + period) h (ground arith) (omega arith)
          (ground arith) in
      (n, rw e r, (after, bound, (suc k, omega (arith, eq, suc-mul k period))))
  | inr e ↦ (next, rw e refl, (ground arith, near, (0, omega arith)))
]

-- What `tick` does with a tick that is missed.
abbrev pub Reschedules : ℕ → Interval → ℕ → MissedTickBehavior → ℕ → Type 0
Reschedules now i next burst n = n ≡ next + i.period
Reschedules now i next delay n = n ≡ now + i.period
Reschedules now i next skip n = IsFirstAfter now i.period next n

missed_lem :
    (now : ℕ) (i : Interval) (next : ℕ) (b : MissedTickBehavior)
    → 0 < i.period
    → next < now
    → (n : ℕ) × (missed now i next b ≡ some n) × Reschedules now i next b n
unfolding missed
missed_lem now i next burst h late = (_, refl, refl)
missed_lem now i next delay h late = (_, refl, refl)
missed_lem now i next skip h late =
    skip_missed_lem (now - next + 2) now i.period next h (omega arith) (omega arith) (omega arith)

-- How a call at `now` relates to the tick that is due at `next`.
abbrev pub Ticks : ℕ → Interval → ℕ → Tick → Type 0
Ticks now i next t =
    ((now < next)
      × (t.fired ≡ true)
      × (now + t.slept ≡ next)
      × (t.interval.next_tick ≡ some (next + i.period)))
    ⊎ ((now ≡ next) × (t.fired ≡ true) × (t.slept ≡ 0) × (t.interval.next_tick ≡ some next))
    ⊎ ((next < now)
        × (t.fired ≡ false)
        × (t.slept ≡ 0)
        × ((n : ℕ) × (t.interval.next_tick ≡ some n)
            × Reschedules now i next i.missing_tick_behavior n))

tick_at_lem :
    (now next : ℕ) (i : Interval)
    → 0 < i.period
    → i.next_tick ≡ some next
    → (t : Tick) × (tick_at now i next ≡ some t) × Ticks now i next t × (t.interval.ticks ≡ i.ticks)
unfolding tick_at
tick_at_lem now next i h due = elim (Bool-cases (ltb now next)) [
  | inl early ↦ (
    record {
      fired = true;
      slept = next - now;
      interval = record i { next_tick = some (next + i.period) };
    },
    rw early refl,
    inl (ground arith, refl, ground arith, refl),
    refl,
  )
  | inr e ↦ elim (Bool-cases (ltb next now)) [
    | inl late ↦
        let (n, r, good) = missed_lem now i next i.missing_tick_behavior h (ground arith) in
        (
          record { fired = false; slept = 0; interval = record i { next_tick = some n } },
          rw (e, late, r) refl,
          inr (inr (ground arith, refl, refl, (n, refl, good))),
          refl,
        )
    | inr same ↦ (
      record { fired = true; slept = 0; interval = i },
      rw (e, same) refl,
      inr (inl (ground arith, refl, refl, due)),
      refl,
    )
  ]
]

abbrev counted : ℕ → Interval → Interval
counted w i = record i { ticks = (i.ticks + 1) % 2 ^ w }

tick-due :
    (w now next : ℕ) (i : Interval)
    → i.next_tick ≡ some next
    → tick w now i ≡ tick_at now (counted w i) next
unfolding tick
tick-due w now next i due = ground arith

tick_at-due :
    (now : ℕ) (i : Interval)
    → tick_at now i now ≡ some (record { fired = true; slept = 0; interval = i })
unfolding tick_at
tick_at-due now i = ground arith

-- With a positive period and a due time, a tick always returns, and counts itself, whether it is on
-- time or not. Before the due time it sleeps until then and moves this by a period; at the due time
-- it returns at once and leaves this; later it answers that a tick is missed, without a sleep, and
-- moves the due time as the behavior says: by one period, to a period from now, or by whole periods
-- to the first instant after now.
pub tick_lem :
    (w now next : ℕ) (i : Interval)
    → 0 < i.period
    → i.next_tick ≡ some next
    → (t : Tick) × (tick w now i ≡ some t)
      × Ticks now i next t
      × (t.interval.ticks ≡ (i.ticks + 1) % 2 ^ w)
tick_lem w now next i h due =
    let (t, r, spec, count) = tick_at_lem now next (counted w i) h due in
    (t, tick-due w now next i due ∙ r, spec, count)

-- A tick at its due time fires at once, and so does another call at the same instant, so one period
-- then has two ticks.
pub tick_twice :
    (w now : ℕ) (i : Interval)
    → i.next_tick ≡ some now
    → (t u : Tick) × (tick w now i ≡ some t)
      × (tick w now t.interval ≡ some u)
      × ((t.fired ≡ true) × (t.slept ≡ 0))
      × ((u.fired ≡ true) × (u.slept ≡ 0))
tick_twice w now i due =
    let once : Tick = record { fired = true; slept = 0; interval = counted w i } in
    let again : Tick = record { fired = true; slept = 0; interval = counted w (counted w i) } in
    (
      once,
      again,
      tick-due w now now i due ∙ tick_at-due now (counted w i),
      tick-due w now now (counted w i) due ∙ tick_at-due now (counted w (counted w i)),
      (refl, refl),
      (refl, refl),
    )

-- With a period of zero, the loop by which the behavior `Skip` catches up with a tick that is due
-- by now never ends, whatever the fuel.
pub skip_zero : (fuel now next : ℕ) → next ≤ now → skip_missed fuel now 0 next ≡ none
unfolding skip_missed
skip_zero zero now next late = refl
skip_zero (suc fuel) now next late = ground (arith, skip_zero fuel now (next + 0))
