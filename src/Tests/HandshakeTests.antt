-- ===== src/Tests/HandshakeTests.antt =====
-- The theorem on threads that wait for a flag, on a short run.
use rtsc.Prelude.{◌≡◌, refl, true, false, [], ◌∷◌, count, arith}
use rtsc.BaseChannel.Tasks.{here}
use rtsc.Pi.{lock, begin, race, compare_exchange, init, unlock_to_wait, perform_unlock, is_locked}
use rtsc.Pi.System
use rtsc.Pi.System.{System, goes}
use rtsc.Pi.Handshake
use rtsc.Pi.Handshake.{
  Handshake, waits, notifies, deciding, registered, releasing, asleep, awake, Wakes, nobody,
  one_more, load, after_wake, lock_goes, tests, registers, releases, sleeps, raises, loads, wakes,
  nobody_waits,
}
use rtsc.Pi.Handshake.Woken.{may_sleep}
use rtsc.Pi.Handshake.Safety.{nobody_sleeps_on}
use rtsc.Tests.PiTests.{kernel, kernel-laws, begun, held}

-- Thread 5 finds the flag down, unlocks the mutex and sleeps.
abbrev unlocked : System
unlocked = goes 5 (unlock_to_wait 5 held.lock) held

-- Then thread 6 locks it, and raises the flag.
abbrev attempts : System
attempts = goes 6 (begin lock unlocked.lock, unlocked.lock) unlocked

abbrev taken_over : System
taken_over = goes 6 (race lock 6 attempts.lock) attempts

abbrev notified : Handshake
notified = record { sys = taken_over; waiters = 1; calls = waits 5 awake ∷ []; started = true }

sleeps_then :
    Handshake.Reach kernel nobody_waits
      (record { sys = unlocked; waiters = 1; calls = waits 5 asleep ∷ []; started = false })
unfolding race compare_exchange begin init System.initial unlock_to_wait perform_unlock is_locked
    nobody_waits
sleeps_then =
    let first =
      Handshake.later Handshake.start
        (lock_goes begun (System.begins 5 lock (omega arith, omega arith) refl) refl) in
    let second =
      Handshake.later first
        (lock_goes held (System.races 5 lock (omega arith, omega arith) refl) refl) in
    let decides = Handshake.later second (tests 5 refl refl refl) in
    let counted = Handshake.later decides (registers 5 [] here (omega arith)) in
    let leaves = Handshake.later counted (releases 5 [] (omega arith, omega arith) here) in
    Handshake.later leaves (sleeps 5 [] here refl)

notified-Reach : Handshake.Reach kernel nobody_waits notified
unfolding race compare_exchange begin init System.initial unlock_to_wait perform_unlock is_locked
    nobody_waits load after_wake
notified-Reach =
    let first =
      Handshake.later sleeps_then
        (lock_goes attempts (System.begins 6 lock (omega arith, omega arith) refl) refl) in
    let second =
      Handshake.later first
        (lock_goes taken_over (System.races 6 lock (omega arith, omega arith) refl) refl) in
    let up = Handshake.later second (raises 6 refl refl) in
    let loaded = Handshake.later up (loads 6 (waits 5 asleep ∷ []) here) in
    Handshake.later loaded (
      wakes 6 1 1 (waits 5 asleep ∷ []) (waits 5 awake ∷ []) here
        (one_more 0 5 (nobody (waits 5 asleep ∷ [])) here) (omega arith))

nobody_sleeps_on_example : count may_sleep notified.calls ≡ 0
nobody_sleeps_on_example = nobody_sleeps_on kernel kernel-laws notified notified-Reach refl refl
