-- ===== src/Pi/Condvar.antt =====
-- src/pi.rs: the condition variable, which counts its waiters beside a futex.
-- The futex word stays 0, so that a thread that waits for it always sleeps.
use rtsc.Prelude.{
  ℕ, zero, suc, ◌⊎◌, ◌+◌, ◌-◌, ◌*◌, ◌^◌, ◌≤◌, ◌<◌, ◌≡◌, ◌==◌, Bool, true, ◌||◌, Option, none, some,
  ltb, if◌then◌else◌, refl, arith,
}

pub record Backoff : Type 0 where
  pub n : ℕ

unfoldable pub new : Backoff
new = record { n = 50 }

-- It sleeps for `n` microseconds before.
unfoldable pub backoff : Backoff → Backoff
backoff b = if ltb b.n 200 then record { n = b.n + 25 } else b

-- The threads that wait on a condition variable: those that have been counted and are not in the
-- futex, those that sleep there, and those that have left it and are still counted.
pub record Condvar : Type 0 where
  pub waiters : ℕ
  pub entering : ℕ
  pub asleep : ℕ
  pub awake : ℕ

-- `fetch_add` as a wait begins; `none` is the panic for too many waiters.
unfoldable pub register : Condvar → Option Condvar
register c =
    if ltb c.waiters (2 ^ 31 - 1)
    then some (record c { waiters = c.waiters + 1; entering = c.entering + 1 })
    else none

-- `fetch_sub` as a wait ends.
unfoldable pub unregister : Condvar → Condvar
unregister c = record c { waiters = c.waiters - 1; awake = c.awake - 1 }

-- What the futex does: a thread falls asleep; `k` threads are woken; one is interrupted; or the time
-- of one is over, in the futex or before it.
abbrev pub falls_asleep : Condvar → Condvar
falls_asleep c = record c { entering = c.entering - 1; asleep = c.asleep + 1 }

abbrev pub woken : ℕ → Condvar → Condvar
woken k c = record c { asleep = c.asleep - k; awake = c.awake + k }

abbrev pub interrupted : Condvar → Condvar
interrupted c = record c { entering = c.entering + 1; asleep = c.asleep - 1 }

abbrev pub late : Condvar → Condvar
late c = record c { entering = c.entering - 1; awake = c.awake + 1 }

-- A turn of the loop of `notify_one`, where `wake(1)` has woken `woken` threads: whether it returns.
unfoldable pub notify_one : Condvar → (woken : ℕ) → Bool
notify_one c woken = if ltb 0 c.waiters then ltb 0 woken else true

-- The same for `notify_all` and `wake(to_wake)`.
unfoldable pub notify_all : Condvar → (woken : ℕ) → Bool
notify_all c woken = c.waiters == 0 || woken == c.waiters

pub data Step (c : Condvar) : Condvar → Type 0 where
  registers : (d : Condvar) → register c ≡ some d → Step c d
  sleeps : 0 < c.entering → Step c (falls_asleep c)
  wakes : (k : ℕ) → k ≤ c.asleep → Step c (woken k c)
  is_interrupted : 0 < c.asleep → Step c (interrupted c)
  times_out : 0 < c.asleep → Step c (woken 1 c)
  is_late : 0 < c.entering → Step c (late c)
  leaves : 0 < c.awake → Step c (unregister c)

pub data Reach (c : Condvar) : Condvar → Type 0 where
  start : Reach c c
  later : {d e : Condvar} → Reach c d → Step d e → Reach c e

unfoldable pub idle : Condvar
idle = record { waiters = 0; entering = 0; asleep = 0; awake = 0 }

-- Each thread that waits is counted once.
abbrev pub IsCounted : Condvar → Type 0
IsCounted c = c.waiters ≡ c.entering + c.asleep + c.awake

register-IsCounted : (c d : Condvar) → register c ≡ some d → IsCounted c → IsCounted d
unfolding register
register-IsCounted c d e h = ground arith

Step-IsCounted : {c d : Condvar} → Step c d → IsCounted c → IsCounted d
unfolding unregister
Step-IsCounted {c} (registers d e) h = register-IsCounted c d e h
Step-IsCounted {c} (sleeps some_enter) h = omega (arith, h)
Step-IsCounted {c} (wakes k le) h = omega (arith, h)
Step-IsCounted {c} (is_interrupted some_sleep) h = omega (arith, h)
Step-IsCounted {c} (times_out some_sleep) h = omega (arith, h)
Step-IsCounted {c} (is_late some_enter) h = omega (arith, h)
Step-IsCounted {c} (leaves some_awake) h = omega (arith, h)

Reach-IsCounted : {c d : Condvar} → IsCounted c → Reach c d → IsCounted d
Reach-IsCounted h start = h
Reach-IsCounted h (later r step) = Step-IsCounted step (Reach-IsCounted h r)

-- However threads wait on a condition variable: if a turn of `notify_one` returns, then it has woken
-- a thread, or no thread waited, not even one that was counted and did not sleep yet; and if a turn
-- of `notify_all` returns that has woken no more than sleep, then all that waited slept, and it has
-- woken them.
pub notify_lem :
    (c : Condvar) (k : ℕ)
    → Reach idle c
    → (notify_one c k ≡ true → (0 < k) ⊎ (c.entering + c.asleep ≡ 0))
      × (notify_all c k ≡ true → k ≤ c.asleep → (k ≡ c.asleep) × (c.entering ≡ 0))
unfolding notify_one notify_all idle
notify_lem c k r =
    let h = Reach-IsCounted refl r in ((λ e. ground (arith, h)), λ e le. ground (arith, h))

-- A loop that has slept `k` times.
abbrev pub backoff_times : ℕ → Backoff
backoff_times zero = new
backoff_times (suc k) = backoff (backoff_times k)

-- The times for which a loop of `notify_one` or `notify_all` sleeps grow by 25 microseconds from 50
-- to 200, where they stay.
pub backoff_lem : (k : ℕ) → (backoff_times k).n ≡ (if ltb k 6 then 50 + 25 * k else 200)
unfolding new backoff
backoff_lem zero = refl
backoff_lem (suc k) = ground (arith, backoff_lem k)
