-- ===== src/Tests/CellTests.antt =====
-- The theorems on cells and buffers, on small ones.
use rtsc.Prelude.{ℕ, ◌+◌, ◌≤◌, ◌≡◌, ◌↔◌, refl, true, none, some, [], ◌∷◌, arith}
use rtsc.DataBuffer
use rtsc.DataBuffer.{DataBuffer}
use rtsc.DataBuffer.Newest.{force_all, force_all_lem}
use rtsc.TtlCell.{TtlCell, as_ref, as_ref_with, take_with}
use rtsc.TtlCell.Pairs.{as_ref_with_iff}
use rtsc.DataCell
use rtsc.DataCell.{CellValue, Next, returns, waits}
use rtsc.DataCell.System.{
  System, run_first, run_close, Reach, start, later, call_get, runs_get, initial,
}
use rtsc.DataCell.Safety.{past_test, no_stuck_get, close_keeps_gets}

abbrev buffer : DataBuffer ℕ
buffer = record { content = 1 ∷ 2 ∷ 3 ∷ []; capacity = 3; preallocated = true }

force_all_lem_example : (force_all buffer (4 ∷ 5 ∷ [])).content ≡ 3 ∷ 4 ∷ 5 ∷ []
unfolding DataBuffer.len
force_all_lem_example = force_all_lem buffer (4 ∷ 5 ∷ []) (omega arith) (omega arith)

abbrev first : TtlCell ℕ
first = record { value = some 7; ttl = 10; set_at = 5 }

abbrev second : TtlCell ℕ
second = record { value = some 8; ttl = 10; set_at = 12 }

as_ref_with_iff_example :
    ((as_ref_with 14 first second 7 ≡ some (7, 8))
      ↔ ((as_ref 14 first ≡ some 7) × (as_ref 14 second ≡ some 8) × (5 ≤ 12 + 7) × (12 ≤ 5 + 7)))
    × ((take_with 14 first second 7).0 ≡ as_ref_with 14 first second 7)
as_ref_with_iff_example = as_ref_with_iff 14 first second 7 7 8

-- One `get` on a new cell, which waits.
abbrev one_get : System ℕ
one_get = record initial { plain = record { called = 0; woken = 0; waiting = 1 } }

one_get-Reach : Reach initial one_get
unfolding run_first DataCell.get_first DataCell.get_again DataCell.new
one_get-Reach = later (later start call_get) (runs_get (omega arith))

no_stuck_get_example : one_get.value.current ≡ none
no_stuck_get_example = no_stuck_get one_get one_get-Reach (omega arith) refl

close_keeps_gets_example :
    past_test one_get + one_get.sets
    ≤ past_test (run_close true one_get) + (run_close true one_get).sets
unfolding DataCell.new
close_keeps_gets_example = close_keeps_gets true one_get (run_close true one_get) refl start
