-- ===== src/TtlCell.antt =====
-- src/cell/ttlcell.rs: a cell whose value expires.
-- Instants and durations are natural numbers, in the unit of the clock; a method takes `now`, the
-- instant at which it reads the clock. `elapsed` of an instant to come is zero.
pub mod Pairs
use rtsc.Prelude.{ℕ, ◌+◌, ◌-◌, Bool, true, false, ◌||◌, Option, none, some, ltb, leb, if◌then◌else◌}

pub record TtlCell (T : Type 0) : Type 0 where
  pub value : Option T
  pub ttl : ℕ
  pub set_at : ℕ

abbrev pub elapsed : ℕ → ℕ → ℕ
elapsed now t = now - t

abbrev pub abs_diff : ℕ → ℕ → ℕ
abs_diff a b = if leb a b then b - a else a - b

abbrev pub is_none : {T : Type 0} → Option T → Bool
is_none none = true
is_none (some _) = false

module _ {T : Type 0} where
  unfoldable pub new : ℕ → ℕ → TtlCell T
  new now ttl = record { value = none; ttl = ttl; set_at = now }

  unfoldable pub new_with_value : ℕ → ℕ → T → TtlCell T
  new_with_value now ttl value = record { value = some value; ttl = ttl; set_at = now }

  unfoldable pub is_expired : ℕ → TtlCell T → Bool
  is_expired now c = ltb c.ttl (elapsed now c.set_at) || is_none c.value

  unfoldable pub touch : ℕ → TtlCell T → TtlCell T
  touch now c = record c { set_at = now }

  unfoldable pub replace : ℕ → TtlCell T → T → Option T × TtlCell T
  replace now c value =
      let replaced : TtlCell T = record c { value = some value } in
      (if is_expired now replaced then none else c.value, touch now replaced)

  unfoldable pub set : ℕ → TtlCell T → T → TtlCell T
  set now c value = touch now (record c { value = some value })

  unfoldable pub clear : TtlCell T → TtlCell T
  clear c = record c { value = none }

  unfoldable pub as_ref : ℕ → TtlCell T → Option T
  as_ref now c = if is_expired now c then none else c.value

  unfoldable pub take : ℕ → TtlCell T → Option T × TtlCell T
  take now c = if is_expired now c then (none, c) else (c.value, record c { value = none })

-- What `as_ref_with` and `take_with` make of what the two cells give.
abbrev pub couple : {T O : Type 0} → Bool → Option T → Option O → Option (T × O)
couple fits (some first) (some second) = if fits then some (first, second) else none
couple fits (some first) none = none
couple fits none second = none

module _ {T O : Type 0} where
  unfoldable pub as_ref_with : ℕ → TtlCell T → TtlCell O → ℕ → Option (T × O)
  as_ref_with now c other max_time_delta =
      couple (leb (abs_diff c.set_at other.set_at) max_time_delta) (as_ref now c) (as_ref now other)

  unfoldable pub take_with : ℕ → TtlCell T → TtlCell O → ℕ → Option (T × O) × TtlCell T × TtlCell O
  take_with now c other max_time_delta =
      let (maybe_first, c') = take now c in
      let (maybe_second, other') = take now other in
      (
        couple (leb (abs_diff c'.set_at other'.set_at) max_time_delta) maybe_first maybe_second,
        c',
        other',
      )
