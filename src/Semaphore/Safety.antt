-- ===== src/Semaphore/Safety.antt =====
-- src/semaphore.rs: permissions, guards and waiting acquisitions.
use rtsc.Prelude.{ℕ, ◌+◌, ◌≤◌, ◌<◌, ◌≡◌, ◌≢◌, refl, false, none, arith}
use rtsc.Semaphore.{new, try_acquire, acquire_round, release, available, used, is_poisoned}
use rtsc.Semaphore.System.{
  System, run_acquire, run_try_acquire, drop_guard, Step, call_acquire, runs_acquire,
  call_try_acquire, drops_guard, Reach, start, later, initial,
}

-- Each guard has its permission; and while an acquisition waits, each free permission has an
-- acquisition that is about to run.
record Sound (capacity : ℕ) (s : System) : Type 0 where
  same : s.inner.capacity ≡ capacity
  held : s.inner.permissions ≡ s.guards
  fits : s.inner.permissions ≤ capacity
  covered : 0 < s.waiting → capacity ≤ s.inner.permissions + s.acquiring
  clean : s.overflowed ≡ 0

Step-Sound : (c : ℕ) {s u : System} → Step s u → Sound c s → Sound c u
unfolding run_acquire run_try_acquire drop_guard try_acquire acquire_round release
Step-Sound c {s} call_acquire h = ground arith
Step-Sound c {s} (runs_acquire busy) h = ground arith
Step-Sound c {s} call_try_acquire h = ground arith
Step-Sound c {s} (drops_guard held) h = ground arith

Reach-Sound : (c : ℕ) {u : System} → Reach (initial c) u → Sound c u
unfolding new
Reach-Sound c start = record {
  same = refl;
  held = refl;
  fits = omega arith;
  covered = λ w. absurd (omega arith);
  clean = refl;
}
Reach-Sound c (later r step) = Step-Sound c step (Reach-Sound c r)

-- However acquisitions and drops of guards interleave on a new semaphore: the permissions in use
-- are the guards that are held, never more than the capacity; with the available ones they make up
-- the capacity; the semaphore is not poisoned, and no release has overflowed.
pub never_exceeded :
    (capacity : ℕ) (u : System)
    → Reach (initial capacity) u
    → (used u.inner ≡ u.guards)
      × (u.guards ≤ capacity)
      × (used u.inner + available u.inner ≡ capacity)
      × (is_poisoned u.inner ≡ false)
      × (u.overflowed ≡ 0)
unfolding used available is_poisoned
never_exceeded c u r = ground (arith, Reach-Sound c r)

-- However acquisitions and drops of guards interleave on a new semaphore: if an acquisition waits
-- and none is about to run, then as many guards are held as the capacity allows.
pub no_stuck_acquire :
    (capacity : ℕ) (u : System)
    → Reach (initial capacity) u
    → 0 < u.waiting
    → u.acquiring ≡ 0
    → u.guards ≡ capacity
no_stuck_acquire c u r asleep idle = ground (arith, Reach-Sound c r)

-- On a semaphore in use, once a guard is dropped a permission can be acquired, at once.
pub drop_then_acquire :
    (capacity : ℕ) (u : System)
    → Reach (initial capacity) u
    → 0 < u.guards
    → (try_acquire (drop_guard u).inner).0 ≢ none
unfolding drop_guard try_acquire release
drop_then_acquire c u r held = ground (arith, Reach-Sound c r)
