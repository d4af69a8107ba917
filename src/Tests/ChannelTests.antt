-- ===== src/Tests/ChannelTests.antt =====
-- The theorems on the channels, on runs of channels with one or two calls.
use rtsc.Prelude.{◌+◌, true, ℕ, ◌<◌, ◌≤◌, ◌≡◌, refl, false, [], ◌∷◌, ◌++◌, arith, count, length}
use rtsc.Error.{err, channel_closed}
use rtsc.DataPolicy.{always}
use rtsc.Deque.{Deque}
use rtsc.Storage.{VecDeque, vec_storage, deque_storage, vec_get, vec_try_push}
use rtsc.Storage.Laws.{VecFits, vec_storage-laws}
use rtsc.BaseChannel.{
  InnerData, data_available, space_available, returns, send_round, recv_round, drop_receiver,
  try_send, try_recv, drop_sender,
}
use rtsc.BaseChannel.Tasks.{
  sending, waiting_space, receiving, waiting_data, waits_on, here, deliver, wake_one, wake_all,
}
use rtsc.BaseChannel.System.{
  System, run_task, after_drop, run_try_send, run_try_recv, call_send, call_recv, call_try_send,
  call_try_recv, drops_sender, run, Reach, start, later, initial,
}
use rtsc.BaseChannel.Receivers.{no_stuck_receiver}
use rtsc.BaseChannel.Senders.{no_stuck_sender}
use rtsc.BaseChannel.Fifo.{first_in_first_out}
use rtsc.BaseChannel.Drained.{closed_when_drained}
use rtsc.BaseChannel.Orphans.{is_waiting_send, drop_receiver_strands_sends, closed_for_good}
use rtsc.PolicyChannel.Expired.{expired_deadlock}
use rtsc.Tests.Data.{Message, messages, message, stale, later_on}

abbrev exactly : ℕ → ℕ
exactly n = n

abbrev fresh : InnerData (VecDeque ℕ)
fresh = record { queue = record { items = []; capacity = 1 }; senders = 1; receivers = 1 }

-- A receive on the new channel waits for data.
abbrev one_waits : System ℕ (VecDeque ℕ)
one_waits = record { inner = fresh; tasks = waiting_data false ∷ []; sent = []; received = [] }

one_waits-Reach : Reach (vec_storage exactly) (initial fresh) one_waits
unfolding run_task recv_round deliver vec_get
one_waits-Reach =
    later (later start (call_recv false (omega arith))) (run later_on 0 (receiving false) [] here)

no_stuck_receiver_example : (length one_waits.inner.queue.items ≡ 0) × (0 < one_waits.inner.senders)
no_stuck_receiver_example =
    no_stuck_receiver (vec_storage exactly) VecFits (vec_storage-laws exactly) fresh one_waits
      (omega arith) one_waits-Reach (omega arith) refl

-- A second send waits for space.
abbrev two_sends : System ℕ (VecDeque ℕ)
two_sends = record {
  inner = record fresh { queue = record { items = 7 ∷ []; capacity = 1 } };
  tasks = waiting_space false 8 ∷ [];
  sent = 7 ∷ [];
  received = [];
}

two_sends-Reach : Reach (vec_storage exactly) (initial fresh) two_sends
unfolding run_task send_round deliver vec_try_push wake_one
two_sends-Reach =
    later
      (later
        (later (later start (call_send false 7 (omega arith)))
          (run later_on 0 (sending false 7) [] here))
        (call_send false 8 (omega arith)))
      (run later_on 0 (sending false 8) [] here)

no_stuck_sender_example : length two_sends.inner.queue.items ≡ two_sends.inner.queue.capacity
no_stuck_sender_example =
    no_stuck_sender exactly fresh two_sends (omega arith) two_sends-Reach (omega arith)
      (omega arith) refl

first_in_first_out_example : two_sends.sent ≡ two_sends.received ++ two_sends.inner.queue.items
first_in_first_out_example = first_in_first_out exactly fresh two_sends refl two_sends-Reach

-- A value is sent, the sender is dropped, and the value is received. Then a receive is called.
abbrev drained : System ℕ (VecDeque ℕ)
drained = record {
  inner = record fresh { senders = 0 };
  tasks = [];
  sent = 7 ∷ [];
  received = 7 ∷ [];
}

drained-Reach : Reach (vec_storage exactly) (initial fresh) drained
unfolding run_try_send try_send run_try_recv try_recv drop_sender deliver wake_one wake_all
    vec_try_push vec_get
drained-Reach =
    let value : ℕ = 7 in
    let stored = later start (call_try_send later_on 0 value (omega arith)) in
    let left = later stored (drops_sender 0 (omega arith) (λ e. refl)) in
    later left (call_try_recv later_on 0 (omega arith))

called : Reach (vec_storage exactly) drained (record drained { tasks = receiving false ∷ [] })
called = later start (call_recv false (omega arith))

closed_when_drained_example :
    ((7 ∷ []) ≡ drained.sent) × ((7 ∷ []) ≡ drained.sent) × (◌≡◌ {A = ℕ} 0 0)
unfolding recv_round vec_get
closed_when_drained_example =
    closed_when_drained exactly fresh drained (record drained { tasks = receiving false ∷ [] })
      later_on refl drained-Reach refl called

drop_receiver_strands_sends_example :
    count is_waiting_send two_sends.tasks
    ≤ count is_waiting_send (after_drop 0 (drop_receiver two_sends.inner) two_sends).tasks
drop_receiver_strands_sends_example =
    drop_receiver_strands_sends (vec_storage exactly) 0 two_sends
      (after_drop 0 (drop_receiver two_sends.inner) two_sends) refl refl start

-- A value is left in the channel, and a send waits, when the last receiver has gone.
abbrev orphaned : System ℕ (VecDeque ℕ)
orphaned = record two_sends { inner = record two_sends.inner { receivers = 0 } }

abbrev orphaned_later : System ℕ (VecDeque ℕ)
orphaned_later = record orphaned { tasks = sending true 9 ∷ orphaned.tasks }

orphaned-Reach : Reach (vec_storage exactly) orphaned orphaned_later
orphaned-Reach = later start (call_send true 9 (omega arith))

closed_for_good_example :
    (orphaned_later.inner.receivers ≡ 0)
    × (orphaned_later.sent ≡ 7 ∷ [])
    × (orphaned_later.received ≡ [])
    × (orphaned_later.inner.queue ≡ orphaned.inner.queue)
    × ((send_round (vec_storage exactly) later_on orphaned_later.inner 9).next
        ≡ returns (err channel_closed))
closed_for_good_example =
    closed_for_good (vec_storage exactly) orphaned orphaned_later later_on 9 refl refl
      orphaned-Reach

-- A full queue with an expired value in it; a send waits for its space, and a receive is to run.
abbrev stale_system : System Message (Deque Message)
stale_system = record {
  inner = record {
    queue = record { items = stale ∷ []; capacity = 1; ordered = false };
    senders = 1;
    receivers = 1;
  };
  tasks = receiving false ∷ waiting_space false (message 1 always) ∷ [];
  sent = stale ∷ [];
  received = [];
}

expired_deadlock_example :
    let others = waiting_space false (message 1 always) ∷ [] in
    let u = run_task (deque_storage messages) later_on 0 (receiving false) others stale_system in
    (u.inner.queue.items ≡ [])
    × (u.tasks ≡ waiting_data false ∷ others)
    × (count (waits_on space_available) u.tasks + count (waits_on data_available) u.tasks
        ≡ length u.tasks)
    × (count (waits_on space_available) u.tasks ≡ 1)
expired_deadlock_example =
    expired_deadlock messages later_on 0 false stale_system
      (waiting_space false (message 1 always) ∷ []) (refl, tt) (omega arith) refl
