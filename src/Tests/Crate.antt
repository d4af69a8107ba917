-- ===== src/Tests/Crate.antt =====
-- The tests of the crate itself, the `mod test` of its files: each is a function that tells whether
-- the test passes, with the same calls and assertions. What a test leaves to the machine, such as
-- the moments of its calls and the order of its threads, is an argument. An `unwrap` that panics
-- fails the test.
mod Queues
mod Cells
mod Locks
mod Events
mod DataCells
mod Couplers
mod TripleCouplers
mod Runs
mod Channels
mod PolicyChannels
mod Futures
mod AsyncChannels
mod AsyncPolicyChannels
use rtsc.Prelude.{
  ℕ, take, drop, Bool, true, false, ◌&&◌, Option, none, some, List, [], ◌∷◌, ◌==◌, if◌then◌else◌,
}
use rtsc.DataCell.{Next, returns, waits}
use rtsc.Error.{channel_closed, channel_empty, Result, ok, err}

-- `assert_eq!(x.unwrap(), ...)`, and `assert!(x.is_nothing())`.
abbrev pub unwraps : {A : Type 0} → (A → Bool) → Option A → Bool
unwraps expected (some a) = expected a
unwraps expected none = false

abbrev pub is_nothing : {A : Type 0} → Option A → Bool
is_nothing (some a) = false
is_nothing none = true

abbrev pub gives : {A : Type 0} → (A → Bool) → Result A → Bool
gives expected (ok a) = expected a
gives expected (err e) = false

-- `matches!(x.unwrap_err(), Error::ChannelClosed)`, and the same with `Error::ChannelEmpty`.
abbrev fails_closed : {A : Type 0} → Result A → Bool
fails_closed (err channel_closed) = true
fails_closed _ = false

abbrev pub fails_empty : {A : Type 0} → Result A → Bool
fails_empty (err channel_empty) = true
fails_empty _ = false

-- The `PartialEq` of `Vec<usize>`.
abbrev pub eq_list : List ℕ → List ℕ → Bool
eq_list [] [] = true
eq_list (x ∷ xs) (y ∷ ys) = x == y && eq_list xs ys
eq_list _ _ = false

-- What the thread of a test does while another one closes a cell and then gets from it: its call is
-- the first, between the two, or the last.
pub data Turn : Type 0 where
  earlier between later : Turn

module _ {P : Type 0} where
  abbrev pub returned : (P → Bool) → Next P → Bool
  returned expected (returns r) = gives expected r
  returned expected waits = false

  abbrev pub closed_out : Next P → Bool
  closed_out (returns r) = fails_closed r
  closed_out waits = false

module _ {C : Type 0} where
  abbrev pub after : List (C → C) → C → C
  after [] cell = cell
  after (call ∷ calls) cell = after calls (call cell)

  -- Nobody waits for the cell that is closed.
  abbrev pub set_amid : (set close : C → C) → Turn → C → C
  set_amid set close earlier cell = close (set cell)
  set_amid set close between cell = set (close cell)
  set_amid set close later cell = close cell

-- A spawned thread makes some calls while the test gets from a cell: `done` is how many of them take
-- place before the first round of the `get`. If that waits, the others take place, of which the last
-- one notifies, and the `get` goes on.
module _ {C P : Type 0} where
  abbrev goes_on : (C → Next P × C) → List (C → C) → Next P × C → Next P
  goes_on again calls (returns r, cell) = returns r
  goes_on again calls (waits, cell) = (again (after calls cell)).0

  abbrev pub get_amid : (first again : C → Next P × C) → ℕ → List (C → C) → C → Next P
  get_amid first again done calls cell =
      goes_on again (drop done calls) (first (after (take done calls) cell))
