-- ===== src/BaseChannel/Senders.antt =====
-- src/base_channel.rs over `VecDeque`: sends that wait for space.
use rtsc.Prelude.{
  ℕ, suc, ◌-◌, ◌≤◌, ◌<◌, ◌≡◌, ◌≢◌, ◌⊎◌, refl, Bool, inl, inr, Option, none, List, [], ◌∷◌, ap,
  arith, count, length, length-append,
}
use rtsc.DataPolicy.{StorageTryPushOutput, pushed, full}
use rtsc.Deque.{Moment}
use rtsc.Storage.{ChannelStorage, VecDeque, vec_storage, vec_try_push, vec_get}
use rtsc.Storage.Laws.{VecFits, VecPushes, VecGets, vec_push-VecPushes, vec_get-VecGets}
use rtsc.BaseChannel.Tasks.{
  Task, sending, waiting_space, receiving, waiting_data, runs, waits_on, deliver, Picks,
  Picks-count, waits-wake_space, wake_data-Woken, wake_space-Woken, wake_all_data,
}
use rtsc.BaseChannel.{
  InnerData, space_available, send_round, recv_round, try_send, try_recv, clone_sender, drop_sender,
  clone_receiver, drop_receiver,
}
use rtsc.BaseChannel.System.{
  System, run_task, run_try_send, run_try_recv, Step, call_send, call_recv, run, time_out_send,
  time_out_recv, call_try_send, call_try_recv, clones_sender, clones_receiver, drops_sender,
  drops_receiver, Reach, start, later, initial,
}

module _ {T : Type 0} (allocated : ℕ → ℕ) where
  abbrev q : ChannelStorage T (VecDeque T)
  q = vec_storage allocated

  -- The places that are free.
  abbrev pub space : VecDeque T → ℕ
  space v = v.capacity - length v.items

  -- A push takes one place or finds none; a value got frees one.
  abbrev PushSpace : VecDeque T → T → StorageTryPushOutput T × VecDeque T → Type 0
  PushSpace v x r =
      VecFits r.1
      × (((r.0 ≡ pushed) × (space v ≡ suc (space r.1))) ⊎ ((r.0 ≡ full x) × (space r.1 ≡ 0)))

  abbrev GetSpace : VecDeque T → Option T × VecDeque T → Type 0
  GetSpace v r =
      VecFits r.1
      × (((r.0 ≡ none) × (space r.1 ≡ space v)) ⊎ ((r.0 ≢ none) × (space r.1 ≡ suc (space v))))

  VecPushes-space :
      (v : VecDeque T) (x : T) (r : StorageTryPushOutput T × VecDeque T)
      → VecFits v
      → VecPushes v x r
      → PushSpace v x r
  VecPushes-space v x r h (inl (out, e, ne)) =
      let size = length-append v.items (x ∷ []) in
      rw e (omega (arith, size), inl (out, omega (arith, size)))
  VecPushes-space v x r h (inr (out, e, eq)) = rw e (h, inr (out, omega arith))

  VecGets-space :
      (v : VecDeque T) (r : Option T × VecDeque T) → VecFits v → VecGets v r → GetSpace v r
  VecGets-space v r h (inl (out, empty, e)) = rw e (h, inl (out, refl))
  VecGets-space v r h (inr (x, out, split, e)) =
      (omega (arith, ap length split), inr ((λ k. cc), omega (arith, ap length split)))

  push-space : (v : VecDeque T) (x : T) → VecFits v → PushSpace v x (vec_try_push v x)
  push-space v x h = VecPushes-space v x _ h (vec_push-VecPushes v x)

  get-space : (v : VecDeque T) → VecFits v → GetSpace v (vec_get v)
  get-space v h = VecGets-space v _ h (vec_get-VecGets v)

  abbrev pub sending_now : System T (VecDeque T) → ℕ
  sending_now s = count (runs space_available) s.tasks

  abbrev pub waiting_for_space : System T (VecDeque T) → ℕ
  waiting_for_space s = count (waits_on space_available) s.tasks

  -- While a receiver is left and a send waits, each free place has a send that is about to run.
  pub record Roomy (s : System T (VecDeque T)) : Type 0 where
    pub fits : VecFits s.inner.queue
    pub covered :
        0 < s.inner.receivers → 0 < waiting_for_space s → space s.inner.queue ≤ sending_now s

  send-Roomy :
      (m : Moment) (w : ℕ) (timed : Bool) (v : T) (others : List (Task T))
      → (s : System T (VecDeque T)) → Picks (sending timed v) s.tasks others
      → Roomy s
      → Roomy (run_task q m w (sending timed v) others s)
  unfolding run_task send_round deliver
  send-Roomy m w timed v others s pick h = ground (
    arith,
    push-space s.inner.queue v h.fits,
    Picks-count (runs space_available) pick,
    Picks-count (waits_on space_available) pick,
    wake_data-Woken w others,
  )

  recv-Roomy :
      (m : Moment) (w : ℕ) (timed : Bool) (others : List (Task T)) (s : System T (VecDeque T))
      → Picks (receiving timed) s.tasks others
      → Roomy s
      → Roomy (run_task q m w (receiving timed) others s)
  unfolding run_task recv_round deliver
  recv-Roomy m w timed others s pick h = ground (
    arith,
    get-space s.inner.queue h.fits,
    Picks-count (runs space_available) pick,
    Picks-count (waits_on space_available) pick,
    waits-wake_space w others,
    wake_space-Woken w others,
  )

  try_send-Roomy :
      (m : Moment) (w : ℕ) (v : T) (s : System T (VecDeque T))
      → Roomy s
      → Roomy (run_try_send q m w v s)
  unfolding run_try_send try_send deliver
  try_send-Roomy m w v s h =
      ground (arith, push-space s.inner.queue v h.fits, wake_data-Woken w s.tasks)

  try_recv-Roomy :
      (m : Moment) (w : ℕ) (s : System T (VecDeque T)) → Roomy s → Roomy (run_try_recv q m w s)
  unfolding run_try_recv try_recv deliver
  try_recv-Roomy m w s h = ground (
    arith,
    get-space s.inner.queue h.fits,
    waits-wake_space w s.tasks,
    wake_space-Woken w s.tasks,
  )

  run-Roomy :
      (m : Moment) (w : ℕ) (t : Task T) (others : List (Task T)) (s : System T (VecDeque T))
      → Picks t s.tasks others
      → Roomy s
      → Roomy (run_task q m w t others s)
  unfolding run_task
  run-Roomy m w (sending timed v) others s pick h = send-Roomy m w timed v others s pick h
  run-Roomy m w (receiving timed) others s pick h = recv-Roomy m w timed others s pick h
  run-Roomy m w (waiting_space timed v) others s pick h = h
  run-Roomy m w (waiting_data timed) others s pick h = h

  Step-Roomy : {s u : System T (VecDeque T)} → Step q s u → Roomy s → Roomy u
  unfolding clone_sender clone_receiver drop_sender drop_receiver deliver
  Step-Roomy {s} (call_send timed v alive) h = ground arith
  Step-Roomy {s} (call_recv timed alive) h = ground arith
  Step-Roomy {s} (run m w t others pick) h = run-Roomy m w t others s pick h
  Step-Roomy {s} (time_out_send v others pick) h =
      ground (
        arith,
        Picks-count (runs space_available) pick,
        Picks-count (waits_on space_available) pick,
      )
  Step-Roomy {s} (time_out_recv others pick) h =
      ground (
        arith,
        Picks-count (runs space_available) pick,
        Picks-count (waits_on space_available) pick,
      )
  Step-Roomy {s} (call_try_send m w v alive) h = try_send-Roomy m w v s h
  Step-Roomy {s} (call_try_recv m w alive) h = try_recv-Roomy m w s h
  Step-Roomy {s} (clones_sender alive) h = ground arith
  Step-Roomy {s} (clones_receiver alive) h = ground arith
  Step-Roomy {s} (drops_sender w alive last) h = ground (arith, wake_all_data s.tasks)
  Step-Roomy {s} (drops_receiver w alive last) h = ground (arith, wake_all_data s.tasks)

  Reach-Roomy : {s u : System T (VecDeque T)} → Roomy s → Reach q s u → Roomy u
  Reach-Roomy h start = h
  Reach-Roomy h (later r step) = Step-Roomy step (Reach-Roomy h r)

-- However the calls on a channel over `VecDeque` interleave that starts with a queue within its
-- capacity and no calls: if a receiver is left, some send waits for space and no send is about to
-- run, then the queue is as long as its capacity.
pub no_stuck_sender :
    {T : Type 0} (allocated : ℕ → ℕ) (d : InnerData (VecDeque T)) (u : System T (VecDeque T))
    → VecFits d.queue
    → Reach (vec_storage allocated) (initial d) u
    → 0 < u.inner.receivers
    → 0 < count (waits_on space_available) u.tasks
    → count (runs space_available) u.tasks ≡ 0
    → length u.inner.queue.items ≡ u.inner.queue.capacity
no_stuck_sender allocated d u fits r alive asleep idle =
    let roomy =
      Reach-Roomy allocated {s = initial d}
        (record { fits = fits; covered = λ alive asleep. absurd (omega arith) }) r in
    omega (arith, roomy.fits, roomy.covered alive asleep)
