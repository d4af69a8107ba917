-- ===== src/Coupler/Refines.antt =====
-- src/cell/coupler.rs: a coupler without its second value, and with it.
use rtsc.Prelude.{◌≡◌, false, Option, none, some, arith}
use rtsc.Error.{Result, ok, err}
use rtsc.DataCell
use rtsc.DataCell.{Notify, Next, returns, waits}
use rtsc.Coupler.{
  CellValue, new, close, set, replace, set_second, replace_second, get_again, get_first, try_get,
}

module _ {P S : Type 0} where
  abbrev pub data_cell : CellValue P S → DataCell.CellValue P
  data_cell value = record { current = value.primary; closed = value.closed }

  abbrev pub primary_result : Result (P × Option S) → Result P
  primary_result (ok (primary, _)) = ok primary
  primary_result (err e) = err e

  abbrev pub primary_next : Next (P × Option S) → Next P
  primary_next (returns result) = returns (primary_result result)
  primary_next waits = waits

-- Without the second value, a coupler is a data cell: it begins as one, each method on the primary
-- value does what that of the data cell does, notifications included, and those on the second value
-- do nothing.
pub coupler-data_cell :
    {P S : Type 0} (value : CellValue P S) (p : P) (s : S)
    → (data_cell {P = P} {S = S} new ≡ DataCell.new)
      × ((data_cell (close value).0, (close value).1) ≡ DataCell.close (data_cell value))
      × ((data_cell (set value p).0, (set value p).1) ≡ DataCell.set (data_cell value) p)
      × (((replace value p).0, data_cell (replace value p).1, (replace value p).2)
          ≡ DataCell.replace (data_cell value) p)
      × (data_cell (set_second value s) ≡ data_cell value)
      × (data_cell (replace_second value s).1 ≡ data_cell value)
      × ((primary_next (get_first value).0, data_cell (get_first value).1)
          ≡ DataCell.get_first (data_cell value))
      × ((primary_next (get_again value).0, data_cell (get_again value).1)
          ≡ DataCell.get_again (data_cell value))
      × ((primary_result (try_get value).0, data_cell (try_get value).1)
          ≡ DataCell.try_get (data_cell value))
unfolding new close set replace set_second replace_second get_first get_again try_get DataCell.new
    DataCell.close DataCell.set DataCell.replace DataCell.get_first DataCell.get_again
    DataCell.try_get
coupler-data_cell value p s = ground arith

-- On an open coupler, after a second and then a primary value are set, a `get` gives both and
-- leaves neither: the next one waits, or gives no second value once a primary one is set again.
pub get-set_second :
    {P S : Type 0} (value : CellValue P S) (p q : P) (s : S)
    → value.closed ≡ false
    → let (first, after) = get_first (set (set_second value s) p).0 in
      (first ≡ returns (ok (p, some s)))
      × ((get_first after).0 ≡ waits)
      × ((get_first (set after q).0).0 ≡ returns (ok (q, none)))
unfolding set set_second get_first get_again
get-set_second value p q s is_open = ground arith
