-- ===== src/Tests/AsyncSends.antt =====
-- The theorem on the sends that wait on an async channel, on a short run.
use rtsc.Prelude.{ℕ, ◌+◌, ◌≤◌, ◌<◌, refl, [], ◌∷◌, length, count, arith}
use rtsc.Storage.{VecDeque, vec_storage, vec_get, vec_try_push}
use rtsc.BaseChannel.Tasks.{here}
use rtsc.AsyncWakers
use rtsc.AsyncWakers.{Wakers, append_fut_waker, wake_next}
use rtsc.AsyncChannel.{AsyncData, send_poll, send_runs, send_tries, send_pushes, send_waits}
use rtsc.AsyncChannel.Calls.{try_recv, try_got, data_received}
use rtsc.AsyncChannel.Tasks.{is_woken, fresh, waiting, woken, future, deliver, wake_first}
use rtsc.AsyncChannel.SendSystem.{
  SendSystem, run_send, call_send, run, calls_try_recv, Reach, start, later, send_initial,
}
use rtsc.AsyncChannel.Space.{no_lost_space}
use rtsc.Tests.Data.{later_on}

abbrev exactly : ℕ → ℕ
exactly n = n

-- The only place is taken.
abbrev full_channel : AsyncData (VecDeque ℕ) ℕ
full_channel = record {
  queue = record { items = 7 ∷ []; capacity = 1 };
  senders = 1;
  receivers = 1;
  sends = AsyncWakers.new;
  recvs = AsyncWakers.new;
}

abbrev both_queued : Wakers ℕ
both_queued = append_fut_waker 71 1 (append_fut_waker 70 0 AsyncWakers.new)

-- Two futures send and wait, and then the value is received, which wakes the first.
abbrev one_woken : SendSystem (VecDeque ℕ) ℕ
one_woken = record {
  inner = record full_channel {
    queue = record { items = []; capacity = 1 };
    sends = (wake_next both_queued).1;
  };
  tasks = future 1 waiting ∷ future 0 woken ∷ [];
  next_id = 2;
}

one_woken-Reach : Reach (vec_storage exactly) (send_initial full_channel) one_woken
unfolding run_send send_poll send_runs send_tries send_pushes send_waits try_recv try_got
    data_received append_fut_waker AsyncWakers.wake_next AsyncWakers.wake_next_of AsyncWakers.new
    vec_get vec_try_push deliver wake_first
one_woken-Reach =
    let first = later start (call_send (omega arith)) in
    let waits = later first (run later_on 70 8 (future 0 fresh) [] here) in
    let second = later waits (call_send (omega arith)) in
    let both_wait =
      later second (run later_on 71 9 (future 1 fresh) (future 0 waiting ∷ []) here) in
    later both_wait (calls_try_recv later_on (omega arith))

no_lost_space_example :
    (one_woken.inner.queue.capacity
      ≤ length one_woken.inner.queue.items + count is_woken one_woken.tasks)
    × (0 < one_woken.inner.receivers)
no_lost_space_example =
    no_lost_space exactly full_channel one_woken (omega arith) refl one_woken-Reach (omega arith)
