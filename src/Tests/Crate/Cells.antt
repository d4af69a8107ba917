-- ===== src/Tests/Crate/Cells.antt =====
-- The tests of src/cell/ttlcell.rs and src/time.rs.
-- A test that sleeps begins at the instant `start`, in milliseconds; its sleeps are longer than asked
-- for by `late 0`, `late 1` and so on. Calls take no time.
use rtsc.Prelude.{ℕ, ◌+◌, ◌≤◌, ◌<◌, Bool, true, ◌&&◌, ◌≡◌, [], ◌∷◌, ◌==◌, arith}
use rtsc.TtlCell
use rtsc.Time
use rtsc.Tests.Crate.{unwraps, is_nothing}

unfoldable test_get_set : (start : ℕ) (late : ℕ → ℕ) → Bool
test_get_set start late =
    let opt = TtlCell.new_with_value start 10 25 in
    let t1 = start + 5 + late 0 in
    let t2 = t1 + 10 + late 1 in
    let opt' = TtlCell.set t2 opt 30 in
    let t3 = t2 + 5 + late 2 in
    let t4 = t3 + 10 + late 3 in
    unwraps (λ v. v == 25) (TtlCell.as_ref t1 opt)
    && is_nothing (TtlCell.as_ref t2 opt)
    && unwraps (λ v. v == 30) (TtlCell.as_ref t3 opt')
    && is_nothing (TtlCell.as_ref t4 opt')

test_get_set-passes :
    (start : ℕ) (late : ℕ → ℕ) → late 0 ≤ 5 → late 2 ≤ 5 → test_get_set start late ≡ true
unfolding test_get_set TtlCell.new_with_value TtlCell.set TtlCell.touch TtlCell.as_ref
    TtlCell.is_expired
test_get_set-passes start late h0 h2 = ground arith

unfoldable test_take_replace : (start : ℕ) (late : ℕ → ℕ) → Bool
test_take_replace start late =
    let opt = TtlCell.new_with_value start 10 25 in
    let t1 = start + 5 + late 0 in
    let (taken, opt1) = TtlCell.take t1 opt in
    let opt2 = TtlCell.set t1 opt1 30 in
    let t2 = t1 + 5 + late 1 in
    let (replaced, opt3) = TtlCell.replace t2 opt2 29 in
    let t3 = t2 + 10 + late 2 in
    unwraps (λ v. v == 25) taken
    && is_nothing (TtlCell.as_ref t1 opt1)
    && unwraps (λ v. v == 30) replaced
    && is_nothing (TtlCell.as_ref t3 opt3)

-- A value that is as old as its time to live has not expired, so the last sleep has to be longer.
test_take_replace-passes :
    (start : ℕ) (late : ℕ → ℕ)
    → late 0 ≤ 5
    → late 1 ≤ 5
    → 0 < late 2
    → test_take_replace start late ≡ true
unfolding test_take_replace TtlCell.new_with_value TtlCell.set TtlCell.touch TtlCell.as_ref
    TtlCell.is_expired TtlCell.take TtlCell.replace
test_take_replace-passes start late h0 h1 h2 = ground arith

unfoldable test_take_with : (start : ℕ) (late : ℕ → ℕ) → Bool
test_take_with start late =
    let first = TtlCell.new_with_value {T = ℕ} start 1000 25 in
    let t1 = start + 10 + late 0 in
    let second = TtlCell.new_with_value {T = ℕ} t1 1000 25 in
    let (taken, _, _) = TtlCell.take_with t1 first second 100 in
    let first' = TtlCell.new_with_value {T = ℕ} t1 1000 25 in
    let t2 = t1 + 100 + late 1 in
    let second' = TtlCell.new_with_value {T = ℕ} t2 1000 25 in
    let (apart, _, _) = TtlCell.take_with t2 first' second' 50 in
    unwraps (λ (v, w). v == 25 && w == 25) taken && is_nothing apart

test_take_with-passes : (start : ℕ) (late : ℕ → ℕ) → late 0 ≤ 90 → test_take_with start late ≡ true
unfolding test_take_with TtlCell.new_with_value TtlCell.take_with TtlCell.take TtlCell.is_expired
test_take_with-passes start late h = ground arith

unfoldable test_fits : (start : ℕ) (late : ℕ → ℕ) → Bool
test_fits start late =
    let second = start + 10 + late 0 in
    let third = second + 10 + late 1 in
    let instants = start ∷ second ∷ third ∷ [] in Time.fits 100 instants && Time.fits 55 instants

test_fits-passes : (start : ℕ) (late : ℕ → ℕ) → late 0 + late 1 ≤ 35 → test_fits start late ≡ true
unfolding test_fits Time.fits Time.maximum Time.minimum
test_fits-passes start late h = ground arith

-- `now k` is the instant at which the tick `k` reads the clock, in milliseconds.
unfoldable test_ticks : (now : ℕ → ℕ) → Bool
test_ticks now =
    unwraps
      (λ t1.
        unwraps
          (λ t2.
            unwraps (λ t3. Time.elapsed_ticks t3.interval == 3) (Time.tick 64 (now 2) t2.interval))
          (Time.tick 64 (now 1) t1.interval))
      (Time.tick 64 (now 0) (Time.new 10))

test_ticks-passes : (now : ℕ → ℕ) → test_ticks now ≡ true
unfolding test_ticks Time.tick Time.tick_at Time.missed Time.new Time.elapsed_ticks
test_ticks-passes now = ground arith
