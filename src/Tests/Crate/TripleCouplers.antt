-- ===== src/Tests/Crate/TripleCouplers.antt =====
-- The tests of src/cell/triplecoupler.rs.
use rtsc.Prelude.{ℕ, zero, suc, Bool, true, ◌&&◌, ◌≡◌, refl, Option, [], ◌∷◌, ◌==◌}
use rtsc.TripleCoupler
use rtsc.Tests.Crate.{
  unwraps, gives, closed_out, fails_empty, Turn, earlier, between, later, after, get_amid, returned,
  set_amid,
}

abbrev close : TripleCoupler.CellValue ℕ ℕ ℕ → TripleCoupler.CellValue ℕ ℕ ℕ
close c = (TripleCoupler.close c).0

abbrev set : ℕ → TripleCoupler.CellValue ℕ ℕ ℕ → TripleCoupler.CellValue ℕ ℕ ℕ
set content c = (TripleCoupler.set c content).0

abbrev puts_second : ℕ → TripleCoupler.CellValue ℕ ℕ ℕ → TripleCoupler.CellValue ℕ ℕ ℕ
puts_second content c = TripleCoupler.set_second c content

abbrev puts_third : ℕ → TripleCoupler.CellValue ℕ ℕ ℕ → TripleCoupler.CellValue ℕ ℕ ℕ
puts_third content c = TripleCoupler.set_third c content

abbrev is_expected : ℕ × Option ℕ × Option ℕ → Bool
is_expected (p, s, t) = p == 42 && unwraps (λ v. v == 33) s && unwraps (λ v. v == 45) t

unfoldable test_coupler : (done : ℕ) → Bool
test_coupler done = returned is_expected (
    get_amid TripleCoupler.get_first TripleCoupler.get_again done
      (puts_second 33 ∷ puts_third 45 ∷ set 42 ∷ []) TripleCoupler.new)

test_coupler-passes : (done : ℕ) → test_coupler done ≡ true
unfolding test_coupler TripleCoupler.new TripleCoupler.set TripleCoupler.set_second
    TripleCoupler.set_third TripleCoupler.get_first TripleCoupler.get_again
test_coupler-passes zero = refl
test_coupler-passes (suc zero) = refl
test_coupler-passes (suc (suc zero)) = refl
test_coupler-passes (suc (suc (suc zero))) = refl
test_coupler-passes (suc (suc (suc (suc n)))) = refl

unfoldable test_coupler_close : Turn → Bool
test_coupler_close turn =
    closed_out (TripleCoupler.get_first (set_amid (set 42) close turn TripleCoupler.new)).0

test_coupler_close-passes : (turn : Turn) → test_coupler_close turn ≡ true
unfolding test_coupler_close TripleCoupler.new TripleCoupler.set TripleCoupler.close
    TripleCoupler.get_first
test_coupler_close-passes earlier = refl
test_coupler_close-passes between = refl
test_coupler_close-passes later = refl

-- The thread has ended when the test tries to get its value.
unfoldable test_coupler_try_get : Bool
test_coupler_try_get =
    let (empty, cell) = TripleCoupler.try_get TripleCoupler.new in
    fails_empty empty
    && gives is_expected
        (TripleCoupler.try_get (after (puts_second 33 ∷ puts_third 45 ∷ set 42 ∷ []) cell)).0

test_coupler_try_get-passes : test_coupler_try_get ≡ true
unfolding test_coupler_try_get TripleCoupler.new TripleCoupler.set TripleCoupler.set_second
    TripleCoupler.set_third TripleCoupler.try_get
test_coupler_try_get-passes = refl

-- The mutex and the condition variable are other ones, which the model does not tell apart.
unfoldable test_coupler_other_mutex : (done : ℕ) → Bool
test_coupler_other_mutex done = returned is_expected (
    get_amid TripleCoupler.get_first TripleCoupler.get_again done
      (puts_second 33 ∷ puts_third 45 ∷ set 42 ∷ []) TripleCoupler.new)

test_coupler_other_mutex-passes : (done : ℕ) → test_coupler_other_mutex done ≡ true
unfolding test_coupler_other_mutex test_coupler
test_coupler_other_mutex-passes done = test_coupler-passes done
