-- ===== src/BaseChannel/Fifo.antt =====
-- src/base_channel.rs over `VecDeque`: the order of the values.
use mathlib.Core.List.{append_assoc}
use rtsc.Prelude.{ℕ, ◌≡◌, sym, Bool, inl, inr, List, [], ◌∷◌, ◌++◌, arith}
use rtsc.Deque.{Moment}
use rtsc.Storage.{ChannelStorage, VecDeque, vec_storage, vec_get}
use rtsc.Storage.Laws.{vec_push-VecPushes, vec_get-VecGets}
use rtsc.BaseChannel.Tasks.{Task, sending, waiting_space, receiving, waiting_data}
use rtsc.BaseChannel.{
  InnerData, send_round, recv_round, try_send, try_recv, clone_sender, drop_sender, clone_receiver,
  drop_receiver,
}
use rtsc.BaseChannel.System.{
  System, run_task, run_try_send, run_try_recv, Step, call_send, call_recv, run, time_out_send,
  time_out_recv, call_try_send, call_try_recv, clones_sender, clones_receiver, drops_sender,
  drops_receiver, Reach, start, later, initial,
}

module _ {T : Type 0} (allocated : ℕ → ℕ) where
  abbrev q : ChannelStorage T (VecDeque T)
  q = vec_storage allocated

  -- What was stored is what was received, and then what is in the queue.
  abbrev pub InSequence : System T (VecDeque T) → Type 0
  InSequence s = s.sent ≡ s.received ++ s.inner.queue.items

  stored : (got items : List T) (x : T) → (got ++ items) ++ x ∷ [] ≡ got ++ (items ++ x ∷ [])
  stored got items x = append_assoc got items (x ∷ [])

  taken : (got items : List T) (x : T) → (got ++ x ∷ []) ++ items ≡ got ++ (x ∷ items)
  taken got items x = append_assoc got (x ∷ []) items

  send-InSequence :
      (m : Moment) (w : ℕ) (timed : Bool) (v : T) (others : List (Task T))
      → (s : System T (VecDeque T)) → InSequence s
      → InSequence (run_task q m w (sending timed v) others s)
  unfolding run_task send_round
  send-InSequence m w timed v others s h =
      ground (arith, vec_push-VecPushes s.inner.queue v, stored s.received s.inner.queue.items v)

  recv-InSequence :
      (m : Moment) (w : ℕ) (timed : Bool) (others : List (Task T)) (s : System T (VecDeque T))
      → InSequence s
      → InSequence (run_task q m w (receiving timed) others s)
  unfolding run_task recv_round
  recv-InSequence m w timed others s h = elim (vec_get-VecGets s.inner.queue) [
    | inl (out, empty, e) ↦ ground arith
    | inr (v, out, split, e) ↦ ground (arith, taken s.received (vec_get s.inner.queue).1.items v)
  ]

  try_send-InSequence :
      (m : Moment) (w : ℕ) (v : T) (s : System T (VecDeque T))
      → InSequence s
      → InSequence (run_try_send q m w v s)
  unfolding run_try_send try_send
  try_send-InSequence m w v s h =
      ground (arith, vec_push-VecPushes s.inner.queue v, stored s.received s.inner.queue.items v)

  try_recv-InSequence :
      (m : Moment) (w : ℕ) (s : System T (VecDeque T))
      → InSequence s
      → InSequence (run_try_recv q m w s)
  unfolding run_try_recv try_recv
  try_recv-InSequence m w s h = elim (vec_get-VecGets s.inner.queue) [
    | inl (out, empty, e) ↦ ground arith
    | inr (v, out, split, e) ↦ ground (arith, taken s.received (vec_get s.inner.queue).1.items v)
  ]

  run-InSequence :
      (m : Moment) (w : ℕ) (t : Task T) (others : List (Task T)) (s : System T (VecDeque T))
      → InSequence s
      → InSequence (run_task q m w t others s)
  unfolding run_task
  run-InSequence m w (sending timed v) others s h = send-InSequence m w timed v others s h
  run-InSequence m w (receiving timed) others s h = recv-InSequence m w timed others s h
  run-InSequence m w (waiting_space timed v) others s h = h
  run-InSequence m w (waiting_data timed) others s h = h

  Step-InSequence : {s u : System T (VecDeque T)} → Step q s u → InSequence s → InSequence u
  unfolding clone_sender clone_receiver drop_sender drop_receiver
  Step-InSequence {s} (call_send timed v alive) h = h
  Step-InSequence {s} (call_recv timed alive) h = h
  Step-InSequence {s} (run m w t others pick) h = run-InSequence m w t others s h
  Step-InSequence {s} (time_out_send v others pick) h = h
  Step-InSequence {s} (time_out_recv others pick) h = h
  Step-InSequence {s} (call_try_send m w v alive) h = try_send-InSequence m w v s h
  Step-InSequence {s} (call_try_recv m w alive) h = try_recv-InSequence m w s h
  Step-InSequence {s} (clones_sender alive) h = h
  Step-InSequence {s} (clones_receiver alive) h = h
  Step-InSequence {s} (drops_sender w alive last) h = h
  Step-InSequence {s} (drops_receiver w alive last) h = h

  Reach-InSequence : {s u : System T (VecDeque T)} → InSequence s → Reach q s u → InSequence u
  Reach-InSequence h start = h
  Reach-InSequence h (later r step) = Step-InSequence step (Reach-InSequence h r)

-- However the calls on a channel over `VecDeque` interleave that starts with an empty queue and no
-- calls, what its sends have stored is, in this order, what its receives have returned and then
-- what is in the queue: nothing is lost, doubled or overtaken.
pub first_in_first_out :
    {T : Type 0} (allocated : ℕ → ℕ) (d : InnerData (VecDeque T)) (u : System T (VecDeque T))
    → d.queue.items ≡ []
    → Reach (vec_storage allocated) (initial d) u
    → u.sent ≡ u.received ++ u.inner.queue.items
first_in_first_out allocated d u empty r = Reach-InSequence allocated {s = initial d} (sym empty) r
