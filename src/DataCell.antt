-- ===== src/DataCell.antt =====
-- src/cell/datacell.rs: a cell that passes data between threads.
-- As in BaseChannel, a method is modelled by its rounds. The first round of a `get` looks whether
-- the cell is closed; the rounds after a wait do not.
pub mod System
pub mod Safety
use rtsc.Prelude.{Bool, true, false, Option, none, some, if◌then◌else◌}
use rtsc.Error.{Error, channel_closed, channel_empty, Result, ok, err}

pub record CellValue (P : Type 0) : Type 0 where
  pub current : Option P
  pub closed : Bool

-- Whom a method notifies that waits on `data_available`.
pub data Notify : Type 0 where
  silent notify_one notify_all : Notify

-- How a round of `get` ends.
pub data Next (P : Type 0) : Type 0 where
  returns : Result P → Next P
  waits : Next P

module _ {P : Type 0} where
  unfoldable pub new : CellValue P
  new = record { current = none; closed = false }

  unfoldable pub close : CellValue P → CellValue P × Notify
  close value = (record value { closed = true }, notify_all)

  unfoldable pub is_closed : CellValue P → Bool
  is_closed value = value.closed

  unfoldable pub set : CellValue P → P → CellValue P × Notify
  set value content = (record value { current = some content }, notify_one)

  unfoldable pub replace : CellValue P → P → Option P × CellValue P × Notify
  replace value content = (value.current, record value { current = some content }, notify_one)

  -- A round of the loop of `get` and `get_timeout`.
  unfoldable pub get_again : CellValue P → Next P × CellValue P
  get_again value = elim value.current [
    | some current ↦ (returns (ok current), record value { current = none })
    | none ↦ (waits, value)
  ]

  -- The first round, with the test before the loop.
  unfoldable pub get_first : CellValue P → Next P × CellValue P
  get_first value = if value.closed then (returns (err channel_closed), value) else get_again value

  unfoldable pub try_get : CellValue P → Result P × CellValue P
  try_get value = if value.closed then (err channel_closed, value) else elim value.current [
    | some current ↦ (ok current, record value { current = none })
    | none ↦ (err channel_empty, value)
  ]
