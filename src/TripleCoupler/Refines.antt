-- ===== src/TripleCoupler/Refines.antt =====
-- src/cell/triplecoupler.rs: a triple coupler without its third value.
use rtsc.Prelude.{◌≡◌, Option, arith}
use rtsc.Error.{Result, ok, err}
use rtsc.Coupler
use rtsc.DataCell.{Next, returns, waits}
use rtsc.TripleCoupler.{
  CellValue, new, close, set, replace, set_second, replace_second, set_third, replace_third,
  get_again, get_first, try_get,
}

module _ {P S T : Type 0} where
  abbrev pub coupler : CellValue P S T → Coupler.CellValue P S
  coupler value = record { primary = value.primary; second = value.second; closed = value.closed }

  abbrev pub two_result : Result (P × Option S × Option T) → Result (P × Option S)
  two_result (ok (primary, second, _)) = ok (primary, second)
  two_result (err e) = err e

  abbrev pub two_next : Next (P × Option S × Option T) → Next (P × Option S)
  two_next (returns result) = returns (two_result result)
  two_next waits = waits

-- Without the third value, a triple coupler is a coupler: it begins as one, each method on the
-- other values does what that of the coupler does, notifications included, and those on the third
-- value do nothing.
pub triple_coupler-coupler :
    {P S T : Type 0} (value : CellValue P S T) (p : P) (s : S) (t : T)
    → (coupler {P = P} {S = S} {T = T} new ≡ Coupler.new)
      × ((coupler (close value).0, (close value).1) ≡ Coupler.close (coupler value))
      × ((coupler (set value p).0, (set value p).1) ≡ Coupler.set (coupler value) p)
      × (((replace value p).0, coupler (replace value p).1, (replace value p).2)
          ≡ Coupler.replace (coupler value) p)
      × (coupler (set_second value s) ≡ Coupler.set_second (coupler value) s)
      × (((replace_second value s).0, coupler (replace_second value s).1)
          ≡ Coupler.replace_second (coupler value) s)
      × (coupler (set_third value t) ≡ coupler value)
      × (coupler (replace_third value t).1 ≡ coupler value)
      × ((two_next (get_first value).0, coupler (get_first value).1)
          ≡ Coupler.get_first (coupler value))
      × ((two_next (get_again value).0, coupler (get_again value).1)
          ≡ Coupler.get_again (coupler value))
      × ((two_result (try_get value).0, coupler (try_get value).1)
          ≡ Coupler.try_get (coupler value))
unfolding new close set replace set_second replace_second set_third replace_third get_first
    get_again try_get Coupler.new Coupler.close Coupler.set Coupler.replace Coupler.set_second
    Coupler.replace_second Coupler.get_first Coupler.get_again Coupler.try_get
triple_coupler-coupler value p s t = ground arith
