-- ===== src/AsyncChannel/Tasks.antt =====
-- src/base_channel_async.rs: the receives in progress on an async channel, and whom a wake-up
-- reaches.
use rtsc.Prelude.{
  ℕ, ◌+◌, ◌-◌, ◌≤◌, ◌<◌, ◌≡◌, Bool, true, false, List, [], ◌∷◌, map, count, arith, ◌==◌,
  if◌then◌else◌,
}
use rtsc.AsyncWakers.{Woken, nobody, one_thread, one_future, everybody}

-- A receive is new; or it waits, its waker being in the queue; or it was woken.
pub data Phase : Type 0 where
  fresh waiting woken : Phase

-- A future with its id, or a thread in a blocking call.
pub data Task : Type 0 where
  future : ℕ → Phase → Task
  thread : Phase → Task

abbrev pub phase : Task → Phase
phase (future _ p) = p
phase (thread p) = p

abbrev pub is_waiting : Task → Bool
is_waiting t = elim (phase t) [ waiting ↦ true | _ ↦ false ]

abbrev pub is_woken : Task → Bool
is_woken t = elim (phase t) [ woken ↦ true | _ ↦ false ]

abbrev pub has_future : ℕ → Task → Bool
has_future id (future i _) = i == id
has_future id (thread _) = false

abbrev pub future_waits : ℕ → Task → Bool
future_waits id (future i waiting) = i == id
future_waits id _ = false

abbrev pub future_woken : ℕ → Task → Bool
future_woken id (future i woken) = i == id
future_woken id _ = false

abbrev pub thread_waits : Task → Bool
thread_waits (thread waiting) = true
thread_waits _ = false

abbrev pub wake : Task → Task
wake (future i waiting) = future i woken
wake (thread waiting) = thread woken
wake t = t

-- Wakes the first task that the test finds.
unfoldable pub wake_first : (Task → Bool) → List Task → List Task
wake_first test [] = []
wake_first test (t ∷ ts) = let rest = wake_first test ts in if test t then wake t ∷ ts else t ∷ rest

unfoldable pub wake_tasks : List Task → List Task
wake_tasks = map wake

-- A waker wakes the future that has stored it; `notify_one` wakes a thread that waits, and all of
-- these are alike.
unfoldable pub deliver : {W : Type 0} → Woken W → List Task → List Task
deliver nobody ts = ts
deliver one_thread ts = wake_first thread_waits ts
deliver (one_future _ id) ts = wake_first (future_waits id) ts
deliver (everybody _) ts = wake_tasks ts

-- What it changes in the counts if a task is woken.
pub record OneWoken (ts us : List Task) : Type 0 where
  pub fewer : count is_waiting ts ≡ count is_waiting us + 1
  pub more : count is_woken us ≡ count is_woken ts + 1

pub wake_thread :
    (ts : List Task)
    → 0 < count thread_waits ts
    → OneWoken ts (wake_first thread_waits ts)
      × (count thread_waits ts ≡ count thread_waits (wake_first thread_waits ts) + 1)
unfolding wake_first
wake_thread [] h = absurd (omega arith)
wake_thread (t ∷ ts) h = ground (arith, wake_thread ts)

pub wake_thread-futures :
    (id : ℕ) (ts : List Task)
    → let us = wake_first thread_waits ts in
      (count (has_future id) us ≡ count (has_future id) ts)
      × (count (future_waits id) us ≡ count (future_waits id) ts)
      × (count (future_woken id) us ≡ count (future_woken id) ts)
unfolding wake_first
wake_thread-futures id [] = ground arith
wake_thread-futures id (t ∷ ts) = ground (arith, wake_thread-futures id ts)

pub wake_future :
    (id : ℕ) (ts : List Task)
    → 0 < count (future_waits id) ts
    → OneWoken ts (wake_first (future_waits id) ts)
      × (count thread_waits (wake_first (future_waits id) ts) ≡ count thread_waits ts)
unfolding wake_first
wake_future id [] h = absurd (omega arith)
wake_future id (t ∷ ts) h = ground (arith, wake_future id ts)

pub wake_future-futures :
    (id i : ℕ) (ts : List Task)
    → 0 < count (future_waits id) ts
    → let us = wake_first (future_waits id) ts in
      (count (has_future i) us ≡ count (has_future i) ts)
      × (count (future_waits i) us
          ≡ (if i == id then count (future_waits i) ts - 1 else count (future_waits i) ts))
      × (count (future_woken i) us
          ≡ (if i == id then count (future_woken i) ts + 1 else count (future_woken i) ts))
unfolding wake_first
wake_future-futures id i [] h = absurd (omega arith)
wake_future-futures id i (t ∷ ts) h = ground (arith, wake_future-futures id i ts)

pub wake_tasks_lem :
    (id : ℕ) (ts : List Task)
    → let us = wake_tasks ts in
      (count is_waiting us ≡ 0)
      × (count thread_waits us ≡ 0)
      × (count (future_waits id) us ≡ 0)
      × (count (future_woken id) ts ≤ count (future_woken id) us)
      × (count (has_future id) us ≡ count (has_future id) ts)
unfolding wake_tasks
wake_tasks_lem id [] = ground arith
wake_tasks_lem id (t ∷ ts) = ground (arith, wake_tasks_lem id ts)

-- What a single task counts for its future is counted for the tests on its phase.
pub future-counts :
    (id : ℕ) (ts : List Task)
    → count (future_waits id) ts + count (future_woken id) ts ≤ count (has_future id) ts
future-counts id [] = omega arith
future-counts id (t ∷ ts) = ground (arith, future-counts id ts)
