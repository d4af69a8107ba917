-- ===== src/TripleCoupler.antt =====
-- src/cell/triplecoupler.rs: a coupler with a third value.
-- As in DataCell, whose notifications are used here, a method is modelled by its rounds: the first
-- round of a `get` looks whether the cell is closed, the rounds after a wait do not.
pub mod Refines
use rtsc.Prelude.{Bool, true, false, Option, none, some, if◌then◌else◌}
use rtsc.Error.{Error, channel_closed, channel_empty, Result, ok, err}
use rtsc.DataCell.{Notify, notify_one, notify_all, Next, returns, waits}

pub record CellValue (P S T : Type 0) : Type 0 where
  pub primary : Option P
  pub second : Option S
  pub third : Option T
  pub closed : Bool

module _ {P S T : Type 0} where
  unfoldable pub new : CellValue P S T
  new = record { primary = none; second = none; third = none; closed = false }

  unfoldable pub close : CellValue P S T → CellValue P S T × Notify
  close value = (record value { closed = true }, notify_all)

  unfoldable pub is_closed : CellValue P S T → Bool
  is_closed value = value.closed

  unfoldable pub set : CellValue P S T → P → CellValue P S T × Notify
  set value content = (record value { primary = some content }, notify_one)

  unfoldable pub replace : CellValue P S T → P → Option P × CellValue P S T × Notify
  replace value content = (value.primary, record value { primary = some content }, notify_one)

  unfoldable pub set_second : CellValue P S T → S → CellValue P S T
  set_second value content = record value { second = some content }

  unfoldable pub replace_second : CellValue P S T → S → Option S × CellValue P S T
  replace_second value content = (value.second, record value { second = some content })

  unfoldable pub set_third : CellValue P S T → T → CellValue P S T
  set_third value content = record value { third = some content }

  unfoldable pub replace_third : CellValue P S T → T → Option T × CellValue P S T
  replace_third value content = (value.third, record value { third = some content })

  -- A round of the loop of `get` and `get_timeout`.
  unfoldable pub get_again : CellValue P S T → Next (P × Option S × Option T) × CellValue P S T
  get_again value = elim value.primary [
    | some primary ↦ (
      returns (ok (primary, value.second, value.third)),
      record value { primary = none; second = none; third = none },
    )
    | none ↦ (waits, value)
  ]

  -- The first round, with the test before the loop.
  unfoldable pub get_first : CellValue P S T → Next (P × Option S × Option T) × CellValue P S T
  get_first value = if value.closed then (returns (err channel_closed), value) else get_again value

  unfoldable pub try_get : CellValue P S T → Result (P × Option S × Option T) × CellValue P S T
  try_get value = if value.closed then (err channel_closed, value) else elim value.primary [
    | some primary ↦ (
      ok (primary, value.second, value.third),
      record value { primary = none; second = none; third = none },
    )
    | none ↦ (err channel_empty, value)
  ]
