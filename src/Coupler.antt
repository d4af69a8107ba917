-- ===== src/Coupler.antt =====
-- src/cell/coupler.rs: a cell whose value is passed on with a second one, if there is any.
-- As in DataCell, whose notifications are used here, a method is modelled by its rounds: the first
-- round of a `get` looks whether the cell is closed, the rounds after a wait do not.
pub mod Refines
use rtsc.Prelude.{Bool, true, false, Option, none, some, if◌then◌else◌}
use rtsc.Error.{Error, channel_closed, channel_empty, Result, ok, err}
use rtsc.DataCell.{Notify, notify_one, notify_all, Next, returns, waits}

pub record CellValue (P S : Type 0) : Type 0 where
  pub primary : Option P
  pub second : Option S
  pub closed : Bool

module _ {P S : Type 0} where
  unfoldable pub new : CellValue P S
  new = record { primary = none; second = none; closed = false }

  unfoldable pub close : CellValue P S → CellValue P S × Notify
  close value = (record value { closed = true }, notify_all)

  unfoldable pub is_closed : CellValue P S → Bool
  is_closed value = value.closed

  unfoldable pub set : CellValue P S → P → CellValue P S × Notify
  set value content = (record value { primary = some content }, notify_one)

  unfoldable pub replace : CellValue P S → P → Option P × CellValue P S × Notify
  replace value content = (value.primary, record value { primary = some content }, notify_one)

  unfoldable pub set_second : CellValue P S → S → CellValue P S
  set_second value content = record value { second = some content }

  unfoldable pub replace_second : CellValue P S → S → Option S × CellValue P S
  replace_second value content = (value.second, record value { second = some content })

  -- A round of the loop of `get` and `get_timeout`.
  unfoldable pub get_again : CellValue P S → Next (P × Option S) × CellValue P S
  get_again value = elim value.primary [
    | some primary ↦
        (returns (ok (primary, value.second)), record value { primary = none; second = none })
    | none ↦ (waits, value)
  ]

  -- The first round, with the test before the loop.
  unfoldable pub get_first : CellValue P S → Next (P × Option S) × CellValue P S
  get_first value = if value.closed then (returns (err channel_closed), value) else get_again value

  unfoldable pub try_get : CellValue P S → Result (P × Option S) × CellValue P S
  try_get value = if value.closed then (err channel_closed, value) else elim value.primary [
    | some primary ↦ (ok (primary, value.second), record value { primary = none; second = none })
    | none ↦ (err channel_empty, value)
  ]
