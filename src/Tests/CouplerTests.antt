-- ===== src/Tests/CouplerTests.antt =====
-- The theorems on couplers, on couplers of numbers.
use rtsc.Prelude.{ℕ, ◌≡◌, false, some}
use rtsc.DataCell
use rtsc.DataCell.{Next, returns, waits}
use rtsc.Coupler
use rtsc.Coupler.Refines.{data_cell, primary_result, primary_next, coupler-data_cell}
use rtsc.TripleCoupler
use rtsc.TripleCoupler.Refines.{coupler, two_result, two_next, triple_coupler-coupler}

abbrev pair : Coupler.CellValue ℕ ℕ
pair = record { primary = some 1; second = some 2; closed = false }

coupler-data_cell_example :
    (data_cell {P = ℕ} {S = ℕ} Coupler.new ≡ DataCell.new)
    × ((data_cell (Coupler.close pair).0, (Coupler.close pair).1) ≡ DataCell.close (data_cell pair))
    × ((data_cell (Coupler.set pair 4).0, (Coupler.set pair 4).1) ≡ DataCell.set (data_cell pair) 4)
    × ((
      (Coupler.replace pair 4).0,
      data_cell (Coupler.replace pair 4).1,
      (Coupler.replace pair 4).2,
    )
        ≡ DataCell.replace (data_cell pair) 4)
    × (data_cell (Coupler.set_second pair 5) ≡ data_cell pair)
    × (data_cell (Coupler.replace_second pair 5).1 ≡ data_cell pair)
    × ((primary_next (Coupler.get_first pair).0, data_cell (Coupler.get_first pair).1)
        ≡ DataCell.get_first (data_cell pair))
    × ((primary_next (Coupler.get_again pair).0, data_cell (Coupler.get_again pair).1)
        ≡ DataCell.get_again (data_cell pair))
    × ((primary_result (Coupler.try_get pair).0, data_cell (Coupler.try_get pair).1)
        ≡ DataCell.try_get (data_cell pair))
coupler-data_cell_example = coupler-data_cell pair 4 5

abbrev triple : TripleCoupler.CellValue ℕ ℕ ℕ
triple = record { primary = some 1; second = some 2; third = some 3; closed = false }

triple_coupler-coupler_example :
    (coupler {P = ℕ} {S = ℕ} {T = ℕ} TripleCoupler.new ≡ Coupler.new)
    × ((coupler (TripleCoupler.close triple).0, (TripleCoupler.close triple).1)
        ≡ Coupler.close (coupler triple))
    × ((coupler (TripleCoupler.set triple 4).0, (TripleCoupler.set triple 4).1)
        ≡ Coupler.set (coupler triple) 4)
    × ((
      (TripleCoupler.replace triple 4).0,
      coupler (TripleCoupler.replace triple 4).1,
      (TripleCoupler.replace triple 4).2,
    )
        ≡ Coupler.replace (coupler triple) 4)
    × (coupler (TripleCoupler.set_second triple 5) ≡ Coupler.set_second (coupler triple) 5)
    × ((
      (TripleCoupler.replace_second triple 5).0,
      coupler (TripleCoupler.replace_second triple 5).1,
    )
        ≡ Coupler.replace_second (coupler triple) 5)
    × (coupler (TripleCoupler.set_third triple 6) ≡ coupler triple)
    × (coupler (TripleCoupler.replace_third triple 6).1 ≡ coupler triple)
    × ((two_next (TripleCoupler.get_first triple).0, coupler (TripleCoupler.get_first triple).1)
        ≡ Coupler.get_first (coupler triple))
    × ((two_next (TripleCoupler.get_again triple).0, coupler (TripleCoupler.get_again triple).1)
        ≡ Coupler.get_again (coupler triple))
    × ((two_result (TripleCoupler.try_get triple).0, coupler (TripleCoupler.try_get triple).1)
        ≡ Coupler.try_get (coupler triple))
triple_coupler-coupler_example = triple_coupler-coupler triple 4 5 6
