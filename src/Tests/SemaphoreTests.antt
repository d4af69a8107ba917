-- ===== src/Tests/SemaphoreTests.antt =====
-- The theorems on the semaphore, on a run with one permission and two acquisitions.
use rtsc.Prelude.{◌+◌, ◌≤◌, ◌≡◌, refl, false, arith}
use rtsc.Semaphore.{new, acquire_round, available, used, is_poisoned}
use rtsc.Semaphore.System.{
  System, run_acquire, call_acquire, runs_acquire, Reach, start, later, initial,
}
use rtsc.Semaphore.Safety.{never_exceeded, no_stuck_acquire}

abbrev one_held : System
one_held = record {
  inner = record { permissions = 1; capacity = 1 };
  guards = 1;
  acquiring = 0;
  waiting = 1;
  overflowed = 0;
}

one_held-Reach : Reach (initial 1) one_held
unfolding run_acquire acquire_round new
one_held-Reach =
    later (later (later (later start call_acquire) (runs_acquire (omega arith))) call_acquire)
      (runs_acquire (omega arith))

never_exceeded_example :
    (used one_held.inner ≡ 1)
    × (1 ≤ 1)
    × (used one_held.inner + available one_held.inner ≡ 1)
    × (is_poisoned one_held.inner ≡ false)
    × (one_held.overflowed ≡ 0)
never_exceeded_example = never_exceeded 1 one_held one_held-Reach

no_stuck_acquire_example : one_held.guards ≡ 1
no_stuck_acquire_example = no_stuck_acquire 1 one_held one_held-Reach (omega arith) refl
