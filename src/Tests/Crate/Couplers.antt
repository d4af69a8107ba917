-- ===== src/Tests/Crate/Couplers.antt =====
-- The tests of src/cell/coupler.rs.
use rtsc.Prelude.{ℕ, zero, suc, Bool, true, ◌&&◌, ◌≡◌, refl, Option, [], ◌∷◌, ◌==◌}
use rtsc.Coupler
use rtsc.Tests.Crate.{
  unwraps, gives, closed_out, fails_empty, Turn, earlier, between, later, after, get_amid, returned,
  set_amid,
}

abbrev close : Coupler.CellValue ℕ ℕ → Coupler.CellValue ℕ ℕ
close c = (Coupler.close c).0

abbrev set : ℕ → Coupler.CellValue ℕ ℕ → Coupler.CellValue ℕ ℕ
set content c = (Coupler.set c content).0

abbrev puts_second : ℕ → Coupler.CellValue ℕ ℕ → Coupler.CellValue ℕ ℕ
puts_second content c = Coupler.set_second c content

abbrev is_expected : ℕ × Option ℕ → Bool
is_expected (p, s) = p == 42 && unwraps (λ v. v == 33) s

unfoldable test_coupler : (done : ℕ) → Bool
test_coupler done =
    returned is_expected
      (get_amid Coupler.get_first Coupler.get_again done (puts_second 33 ∷ set 42 ∷ []) Coupler.new)

test_coupler-passes : (done : ℕ) → test_coupler done ≡ true
unfolding test_coupler Coupler.new Coupler.set Coupler.set_second Coupler.get_first
    Coupler.get_again
test_coupler-passes zero = refl
test_coupler-passes (suc zero) = refl
test_coupler-passes (suc (suc zero)) = refl
test_coupler-passes (suc (suc (suc n))) = refl

unfoldable test_coupler_close : Turn → Bool
test_coupler_close turn =
    closed_out (Coupler.get_first (set_amid (set 42) close turn Coupler.new)).0

test_coupler_close-passes : (turn : Turn) → test_coupler_close turn ≡ true
unfolding test_coupler_close Coupler.new Coupler.set Coupler.close Coupler.get_first
test_coupler_close-passes earlier = refl
test_coupler_close-passes between = refl
test_coupler_close-passes later = refl

-- The thread has ended when the test tries to get its value.
unfoldable test_coupler_try_get : Bool
test_coupler_try_get =
    let (empty, cell) = Coupler.try_get Coupler.new in
    fails_empty empty
    && gives is_expected (Coupler.try_get (after (puts_second 33 ∷ set 42 ∷ []) cell)).0

test_coupler_try_get-passes : test_coupler_try_get ≡ true
unfolding test_coupler_try_get Coupler.new Coupler.set Coupler.set_second Coupler.try_get
test_coupler_try_get-passes = refl

unfoldable test_coupler_other_mutex : Bool
test_coupler_other_mutex =
    returned is_expected (Coupler.get_first (after (puts_second 33 ∷ set 42 ∷ []) Coupler.new)).0

test_coupler_other_mutex-passes : test_coupler_other_mutex ≡ true
unfolding test_coupler_other_mutex Coupler.new Coupler.set Coupler.set_second Coupler.get_first
    Coupler.get_again
test_coupler_other_mutex-passes = refl
