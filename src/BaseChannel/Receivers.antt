-- ===== src/BaseChannel/Receivers.antt =====
-- src/base_channel.rs: receives that wait for data.
use rtsc.Prelude.{ℕ, ◌≤◌, ◌<◌, ◌≡◌, refl, Bool, List, arith, count}
use rtsc.Deque.{Moment}
use rtsc.Storage.{ChannelStorage}
use rtsc.Storage.Laws.{StorageLaws}
use rtsc.BaseChannel.Tasks.{
  Task, sending, waiting_space, receiving, waiting_data, runs, waits_on, deliver, Picks,
  Picks-count, waits-wake_data, wake_data-Woken, wake_space-Woken, wake_all_data,
}
use rtsc.BaseChannel.{
  InnerData, data_available, send_round, recv_round, try_send, try_recv, clone_sender, drop_sender,
  clone_receiver, drop_receiver,
}
use rtsc.BaseChannel.System.{
  System, run_task, run_try_send, run_try_recv, Step, call_send, call_recv, run, time_out_send,
  time_out_recv, call_try_send, call_try_recv, clones_sender, clones_receiver, drops_sender,
  drops_receiver, Reach, start, later, initial,
}

module _ {T S : Type 0} (q : ChannelStorage T S) (IsValid : S → Type 0)
    (laws : StorageLaws q IsValid) where
  abbrev pub receiving_now : System T S → ℕ
  receiving_now s = count (runs data_available) s.tasks

  abbrev pub waiting_for_data : System T S → ℕ
  waiting_for_data s = count (waits_on data_available) s.tasks

  -- While a receive waits, each stored value has a receive that is about to run; and nobody waits
  -- for data that no sender can send.
  pub record Served (s : System T S) : Type 0 where
    pub valid : IsValid s.inner.queue
    pub covered : 0 < waiting_for_data s → q.len s.inner.queue ≤ receiving_now s
    pub closed : s.inner.senders ≡ 0 → waiting_for_data s ≡ 0

  send-Served :
      (m : Moment) (w : ℕ) (timed : Bool) (v : T) (others : List (Task T)) (s : System T S)
      → Picks (sending timed v) s.tasks others
      → Served s
      → Served (run_task q m w (sending timed v) others s)
  unfolding run_task send_round deliver
  send-Served m w timed v others s pick h = ground (
    arith,
    laws.push-IsValid m s.inner.queue v h.valid,
    laws.len-push m s.inner.queue v h.valid,
    laws.len-push_refused m s.inner.queue v h.valid,
    Picks-count (runs data_available) pick,
    Picks-count (waits_on data_available) pick,
    waits-wake_data w others,
    wake_data-Woken w others,
  )

  recv-Served :
      (m : Moment) (w : ℕ) (timed : Bool) (others : List (Task T)) (s : System T S)
      → Picks (receiving timed) s.tasks others
      → Served s
      → Served (run_task q m w (receiving timed) others s)
  unfolding run_task recv_round deliver
  recv-Served m w timed others s pick h = ground (
    arith,
    laws.get-IsValid m s.inner.queue h.valid,
    laws.len-get m s.inner.queue,
    Picks-count (runs data_available) pick,
    Picks-count (waits_on data_available) pick,
    wake_space-Woken w others,
  )

  try_send-Served :
      (m : Moment) (w : ℕ) (v : T) (s : System T S) → Served s → Served (run_try_send q m w v s)
  unfolding run_try_send try_send deliver
  try_send-Served m w v s h = ground (
    arith,
    laws.push-IsValid m s.inner.queue v h.valid,
    laws.len-push m s.inner.queue v h.valid,
    laws.len-push_refused m s.inner.queue v h.valid,
    waits-wake_data w s.tasks,
    wake_data-Woken w s.tasks,
  )

  try_recv-Served : (m : Moment) (w : ℕ) (s : System T S) → Served s → Served (run_try_recv q m w s)
  unfolding run_try_recv try_recv deliver
  try_recv-Served m w s h = ground (
    arith,
    laws.get-IsValid m s.inner.queue h.valid,
    laws.len-get m s.inner.queue,
    wake_space-Woken w s.tasks,
  )

  run-Served :
      (m : Moment) (w : ℕ) (t : Task T) (others : List (Task T)) (s : System T S)
      → Picks t s.tasks others
      → Served s
      → Served (run_task q m w t others s)
  unfolding run_task
  run-Served m w (sending timed v) others s pick h = send-Served m w timed v others s pick h
  run-Served m w (receiving timed) others s pick h = recv-Served m w timed others s pick h
  run-Served m w (waiting_space timed v) others s pick h = h
  run-Served m w (waiting_data timed) others s pick h = h

  pub Step-Served : {s u : System T S} → Step q s u → Served s → Served u
  unfolding clone_sender clone_receiver drop_sender drop_receiver deliver
  Step-Served {s} (call_send timed v alive) h = ground arith
  Step-Served {s} (call_recv timed alive) h = ground arith
  Step-Served {s} (run m w t others pick) h = run-Served m w t others s pick h
  Step-Served {s} (time_out_send v others pick) h =
      ground
        (arith, Picks-count (runs data_available) pick, Picks-count (waits_on data_available) pick)
  Step-Served {s} (time_out_recv others pick) h =
      ground
        (arith, Picks-count (runs data_available) pick, Picks-count (waits_on data_available) pick)
  Step-Served {s} (call_try_send m w v alive) h = try_send-Served m w v s h
  Step-Served {s} (call_try_recv m w alive) h = try_recv-Served m w s h
  Step-Served {s} (clones_sender alive) h = ground arith
  Step-Served {s} (clones_receiver alive) h = ground arith
  Step-Served {s} (drops_sender w alive last) h = ground (arith, wake_all_data s.tasks)
  Step-Served {s} (drops_receiver w alive last) h = ground (arith, wake_all_data s.tasks)

  Reach-Served : {s u : System T S} → Served s → Reach q s u → Served u
  Reach-Served h start = h
  Reach-Served h (later r step) = Step-Served step (Reach-Served h r)

-- However the calls on a channel interleave that starts with a valid storage and no calls, over any
-- storage with the laws: if some receive waits for data while no receive is about to run, then the
-- storage is empty and a sender is left. So no value lies in the channel while all its receives
-- sleep, and none sleeps on a channel without senders.
pub no_stuck_receiver :
    {T S : Type 0} (q : ChannelStorage T S) (IsValid : S → Type 0) (laws : StorageLaws q IsValid)
    → (d : InnerData S) (u : System T S) → IsValid d.queue
    → Reach q (initial d) u
    → 0 < count (waits_on data_available) u.tasks
    → count (runs data_available) u.tasks ≡ 0
    → (q.len u.inner.queue ≡ 0) × (0 < u.inner.senders)
no_stuck_receiver q IsValid laws d u valid r asleep idle =
    let served =
      Reach-Served q IsValid laws {s = initial d}
        (record { valid = valid; covered = λ w. absurd (omega arith); closed = λ e. refl }) r in
    ground (arith, served.covered asleep, served.closed)
