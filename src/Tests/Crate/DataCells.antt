-- ===== src/Tests/Crate/DataCells.antt =====
-- The tests of src/cell/datacell.rs.
use rtsc.Prelude.{ℕ, zero, suc, Bool, true, ◌&&◌, ◌≡◌, refl, [], ◌∷◌, ◌==◌}
use rtsc.DataCell
use rtsc.Tests.Crate.{
  gives, closed_out, fails_empty, Turn, earlier, between, later, after, get_amid, returned,
  set_amid,
}

abbrev close : DataCell.CellValue ℕ → DataCell.CellValue ℕ
close c = (DataCell.close c).0

abbrev set : ℕ → DataCell.CellValue ℕ → DataCell.CellValue ℕ
set content c = (DataCell.set c content).0

unfoldable test_datacell : (done : ℕ) → Bool
test_datacell done =
    returned (λ v. v == 42)
      (get_amid DataCell.get_first DataCell.get_again done (set 42 ∷ []) DataCell.new)

test_datacell-passes : (done : ℕ) → test_datacell done ≡ true
unfolding test_datacell DataCell.new DataCell.set DataCell.get_first DataCell.get_again
test_datacell-passes zero = refl
test_datacell-passes (suc zero) = refl
test_datacell-passes (suc (suc n)) = refl

unfoldable test_datacell_close : Turn → Bool
test_datacell_close turn =
    closed_out (DataCell.get_first (set_amid (set 42) close turn DataCell.new)).0

test_datacell_close-passes : (turn : Turn) → test_datacell_close turn ≡ true
unfolding test_datacell_close DataCell.new DataCell.set DataCell.close DataCell.get_first
test_datacell_close-passes earlier = refl
test_datacell_close-passes between = refl
test_datacell_close-passes later = refl

-- The thread has ended when the test tries to get its value.
unfoldable test_datacell_try_get : Bool
test_datacell_try_get =
    let (empty, cell) = DataCell.try_get DataCell.new in
    fails_empty empty && gives (λ v. v == 42) (DataCell.try_get (after (set 42 ∷ []) cell)).0

test_datacell_try_get-passes : test_datacell_try_get ≡ true
unfolding test_datacell_try_get DataCell.new DataCell.set DataCell.try_get
test_datacell_try_get-passes = refl

unfoldable test_datacell_other_mutex : Bool
test_datacell_other_mutex =
    returned (λ v. v == 42) (DataCell.get_first (after (set 42 ∷ []) DataCell.new)).0

test_datacell_other_mutex-passes : test_datacell_other_mutex ≡ true
unfolding test_datacell_other_mutex DataCell.new DataCell.set DataCell.get_first DataCell.get_again
test_datacell_other_mutex-passes = refl
