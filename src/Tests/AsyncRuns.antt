-- ===== src/Tests/AsyncRuns.antt =====
-- The theorems on the tasks that share an async channel, on short runs.
use rtsc.Prelude.{ℕ, ◌<◌, ◌≤◌, ◌≡◌, refl, some, [], ◌∷◌, ◌++◌, arith, count, length, true, false}
use rtsc.Error.{ok}
use rtsc.Storage.{VecDeque, vec_storage, vec_with_capacity, vec_get, vec_try_push}
use rtsc.Storage.Laws.{VecFits, vec_storage-laws}
use rtsc.BaseChannel.Tasks.{here}
use rtsc.AsyncWakers
use rtsc.AsyncWakers.{Wakers, nobody, one_thread, append_fut_waker, confirm_fut_waked, has_id}
use rtsc.AsyncChannel.{AsyncData, pending, recv_poll, recv_runs, recv_gets, recv_waits, sender_drop}
use rtsc.AsyncChannel.Calls.{try_send, try_pushed, data_sent, try_recv, try_got, data_received}
use rtsc.AsyncChannel.Tasks.{
  is_waiting, fresh, waiting, future, is_woken, woken, has_future, wake_first, deliver,
}
use rtsc.AsyncChannel.System.{
  System, run_task, run_try_send, run_send_blocking_timeout, call_recv, run, calls_try_send, Reach,
  start, later, initial,
}
use rtsc.AsyncChannel.Anytime
use rtsc.AsyncChannel.Drained
use rtsc.AsyncChannel.Waiting.{no_lost_wake, no_future_left}
use rtsc.AsyncChannel.Calls
use rtsc.ChannelAsync
use rtsc.AsyncChannel.Stale.{after_timeout, timeout_takes_wake}
use rtsc.Tests.Data.{later_on}

abbrev exactly : ℕ → ℕ
exactly n = n

abbrev new_channel : AsyncData (VecDeque ℕ) ℕ
new_channel = record {
  queue = record { items = []; capacity = 2 };
  senders = 1;
  receivers = 1;
  sends = AsyncWakers.new;
  recvs = AsyncWakers.new;
}

-- A future receives and waits; its waker is 70.
abbrev one_waits : System ℕ (VecDeque ℕ) ℕ
one_waits = record {
  inner = record new_channel { recvs = append_fut_waker 70 0 AsyncWakers.new };
  tasks = future 0 waiting ∷ [];
  next_id = 1;
  sent = [];
  received = [];
}

one_waits-Reach : Reach (vec_storage exactly) (initial new_channel) one_waits
unfolding run_task recv_poll recv_runs recv_gets recv_waits AsyncWakers.new vec_get
one_waits-Reach =
    later (later start (call_recv (omega arith))) (run later_on 70 (future 0 fresh) [] here)

no_lost_wake_example :
    (vec_storage exactly).len one_waits.inner.queue ≤ count is_woken one_waits.tasks
    × (0 < one_waits.inner.senders)
no_lost_wake_example =
    no_lost_wake (vec_storage exactly) VecFits (vec_storage-laws exactly) new_channel one_waits
      (omega arith) refl one_waits-Reach (omega arith)

-- A value is sent, a future that was queued is polled too early and gets it, and another is sent
-- with a timeout.
abbrev polled_early : System ℕ (VecDeque ℕ) ℕ
polled_early = record {
  inner = record new_channel {
    queue = record { items = 8 ∷ []; capacity = 2 };
    recvs = confirm_fut_waked 5 AsyncWakers.new;
  };
  tasks = [];
  next_id = 0;
  sent = 7 ∷ 8 ∷ [];
  received = 7 ∷ [];
}

polled_early-Reach : Anytime.Reach (vec_storage exactly) (initial new_channel) polled_early
unfolding run_try_send try_send try_pushed data_sent Anytime.run_recv_poll recv_poll recv_runs
    recv_gets run_send_blocking_timeout Calls.send_blocking_timeout Calls.timeout_pushed
    data_received AsyncWakers.wake_next AsyncWakers.wake_next_of AsyncWakers.new confirm_fut_waked
    vec_get vec_try_push deliver
polled_early-Reach =
    let value : ℕ = 7 in
    let waker : ℕ = 70 in
    let first = Anytime.later Anytime.start (Anytime.calls_try_send later_on value) in
    let second =
      Anytime.later first (Anytime.polls_recv later_on waker (record { id = 5; queued = true })) in
    Anytime.later second (Anytime.runs_send_timed later_on 8)

in_order_anytime_example :
    polled_early.sent ≡ polled_early.received ++ polled_early.inner.queue.items
unfolding ChannelAsync.bounded vec_with_capacity Calls.new
in_order_anytime_example =
    ChannelAsync.in_order_anytime exactly 2 new_channel polled_early refl polled_early-Reach

-- A value is sent to the future that waits, which polls again and returns it.
abbrev returned : System ℕ (VecDeque ℕ) ℕ
returned = record {
  inner = record new_channel {
    recvs = confirm_fut_waked 0 (AsyncWakers.wake_next (append_fut_waker 70 0 AsyncWakers.new)).1;
  };
  tasks = [];
  next_id = 1;
  sent = 7 ∷ [];
  received = 7 ∷ [];
}

returned-Reach : Reach (vec_storage exactly) (initial new_channel) returned
unfolding run_try_send try_send try_pushed data_sent run_task recv_poll recv_runs recv_gets
    AsyncWakers.wake_next AsyncWakers.wake_next_of AsyncWakers.new append_fut_waker
    confirm_fut_waked vec_get vec_try_push deliver wake_first
returned-Reach =
    let sent = later one_waits-Reach (calls_try_send later_on 7 (omega arith)) in
    later sent (run later_on 70 (future 0 woken) [] here)

no_future_left_example :
    let w = returned.inner.recvs in
    (length w.wakers ≡ count is_waiting returned.tasks)
    × (count (has_future 0) returned.tasks ≡ 0
        → (count (has_id 0) w.wakers ≡ 0) × (w.waker_ids 0 ≡ false) × (w.pending 0 ≡ false))
no_future_left_example =
    no_future_left (vec_storage exactly) VecFits (vec_storage-laws exactly) new_channel returned 0
      (omega arith) refl returned-Reach

timeout_takes_wake_example :
    let (poll, sent) = after_timeout exactly later_on 70 0 7 new_channel in
    (poll.answer ≡ pending)
    × (sent.result ≡ ok tt)
    × (sent.woken ≡ one_thread)
    × (sent.inner.queue.items ≡ 7 ∷ [])
    × (sent.inner.recvs.wakers ≡ some (70, 0) ∷ [])
timeout_takes_wake_example =
    timeout_takes_wake exactly later_on 70 0 7 new_channel refl (omega arith) (omega arith)
      (omega arith) refl

-- A value is sent, the only sender is dropped, and a future receives the value. Then another future
-- finds the channel closed.
abbrev drained : System ℕ (VecDeque ℕ) ℕ
drained = record {
  inner = record new_channel { senders = 0 };
  tasks = [];
  next_id = 0;
  sent = 7 ∷ [];
  received = 7 ∷ [];
}

drained-Run : Drained.Run (vec_storage exactly) (initial new_channel) drained
unfolding run_try_send try_send try_pushed data_sent sender_drop Anytime.run_recv_poll recv_poll
    recv_runs recv_gets AsyncWakers.wake_next AsyncWakers.wake_next_of AsyncWakers.wake_all
    AsyncWakers.new vec_get vec_try_push deliver
drained-Run =
    let value : ℕ = 7 in
    let waker : ℕ = 70 in
    let stored =
      Drained.goes_on Drained.begins (Anytime.calls_try_send later_on value) (λ _. omega arith) in
    let left = Drained.goes_on stored Anytime.drops_sender (λ _. omega arith) in
    Drained.goes_on left (Anytime.polls_recv later_on waker (record { id = 5; queued = false }))
      (λ e. absurd (ground arith))

async_closed_when_drained_example :
    ((7 ∷ []) ≡ drained.sent) × ((7 ∷ []) ≡ drained.sent) × (◌≡◌ {A = ℕ} 0 0)
unfolding recv_poll recv_runs recv_gets AsyncWakers.new vec_get
async_closed_when_drained_example =
    Drained.async_closed_when_drained exactly new_channel drained drained later_on 71
      (record { id = 6; queued = false }) refl drained-Run refl Drained.begins
