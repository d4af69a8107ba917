-- ===== src/AsyncChannel/Anytime.antt =====
-- src/base_channel_async.rs over `VecDeque`: futures that are polled at any time, woken or not, as by
-- `select` and `join`, and threads whose waits end at any time. What a call did before does not
-- matter here, so no receive is added to `System.tasks`.
use mathlib.Core.List.{append_assoc}
use rtsc.Prelude.{ℕ, inl, inr, List, [], ◌∷◌, arith}
use rtsc.Deque.{Moment}
use rtsc.Storage.{ChannelStorage, VecDeque, vec_storage, vec_get}
use rtsc.Storage.Laws.{vec_get-VecGets}
use rtsc.AsyncChannel.{
  Poll, ready, pending, panicked, SendFuture, RecvFuture, recv_poll, recv_runs, recv_gets,
  recv_waits, send_drop, recv_drop, sender_drop, receiver_drop,
}
use rtsc.AsyncChannel.Calls.{
  data_received, clone_sender, clone_receiver, blocking_got, recv_blocking,
}
use rtsc.BaseChannel.{Next, returns, waits}
use rtsc.AsyncChannel.System.{
  System, log_got, run_send_poll, run_try_send, run_send_blocking, run_send_blocking_timeout,
  run_try_recv,
}
use rtsc.AsyncChannel.Fifo.{
  InOrder, try_recv-InOrder, try_send-InOrder, send_blocking-InOrder, send_timed-InOrder,
  send_poll-InOrder,
}

module _ {T : Type 0} where
  abbrev log_poll : Poll T → List T → List T
  log_poll (ready result) log = log_got result log
  log_poll pending log = log
  log_poll panicked log = log

  abbrev got_by : Next T (Unit {0}) → List T → List T
  got_by (returns result) log = log_got result log
  got_by (waits _) log = log

module _ {T S W : Type 0} (q : ChannelStorage T S) where
  unfoldable pub run_recv_poll : Moment → W → RecvFuture → System T S W → System T S W
  run_recv_poll m cx f s =
      let r = recv_poll q m cx s.inner f in
      record s { inner = r.inner; received = log_poll r.answer s.received }

  -- A round of `recv_blocking` or `recv_blocking_timeout`.
  unfoldable pub run_recv_blocking : Moment → System T S W → System T S W
  run_recv_blocking m s =
      let c = recv_blocking q m s.inner in
      record s { inner = c.inner; received = got_by c.result s.received }

  -- A wait that ends by its timeout changes nothing here: its waker stays.
  pub data Step (s : System T S W) : System T S W → Type 0 where
    polls_send : (m : Moment) (cx : W) (f : SendFuture T) → Step s (run_send_poll q m cx f s)
    polls_recv : (m : Moment) (cx : W) (f : RecvFuture) → Step s (run_recv_poll m cx f s)
    calls_try_send : (m : Moment) (v : T) → Step s (run_try_send q m v s)
    calls_try_recv : (m : Moment) → Step s (run_try_recv q m s)
    runs_send_blocking : (m : Moment) (v : T) → Step s (run_send_blocking q m v s)
    runs_send_timed : (m : Moment) (v : T) → Step s (run_send_blocking_timeout q m v s)
    runs_recv_blocking : (m : Moment) → Step s (run_recv_blocking m s)
    drops_send : (f : SendFuture T) → Step s (record s { inner = (send_drop s.inner f).1 })
    drops_recv : (f : RecvFuture) → Step s (record s { inner = (recv_drop s.inner f).1 })
    clones_sender : Step s (record s { inner = clone_sender s.inner })
    clones_receiver : Step s (record s { inner = clone_receiver s.inner })
    drops_sender : Step s (record s { inner = (sender_drop s.inner).1 })
    drops_receiver : Step s (record s { inner = (receiver_drop s.inner).1 })

  pub data Reach (s : System T S W) : System T S W → Type 0 where
    start : Reach s s
    later : {t u : System T S W} → Reach s t → Step t u → Reach s u

module _ {T W : Type 0} (allocated : ℕ → ℕ) where
  recv_poll-InOrder :
      (m : Moment) (cx : W) (f : RecvFuture) (s : System T (VecDeque T) W)
      → InOrder s
      → InOrder (run_recv_poll (vec_storage allocated) m cx f s)
  unfolding run_recv_poll recv_poll recv_runs recv_gets recv_waits data_received
  recv_poll-InOrder m cx f s h = elim (vec_get-VecGets s.inner.queue) [
    | inl (out, empty, e) ↦ ground arith
    | inr (v, out, split, e) ↦
        ground (arith, append_assoc s.received (v ∷ []) (vec_get s.inner.queue).1.items)
  ]

  recv_blocking-InOrder :
      (m : Moment) (s : System T (VecDeque T) W)
      → InOrder s
      → InOrder (run_recv_blocking (vec_storage allocated) m s)
  unfolding run_recv_blocking recv_blocking blocking_got data_received
  recv_blocking-InOrder m s h = elim (vec_get-VecGets s.inner.queue) [
    | inl (out, empty, e) ↦ ground arith
    | inr (v, out, split, e) ↦
        ground (arith, append_assoc s.received (v ∷ []) (vec_get s.inner.queue).1.items)
  ]

  Step-InOrder :
      {s u : System T (VecDeque T) W} → Step (vec_storage allocated) s u → InOrder s → InOrder u
  unfolding clone_sender clone_receiver receiver_drop sender_drop recv_drop send_drop
  Step-InOrder {s} (polls_send m cx f) h = send_poll-InOrder allocated m cx f s h
  Step-InOrder {s} (polls_recv m cx f) h = recv_poll-InOrder m cx f s h
  Step-InOrder {s} (calls_try_send m v) h = try_send-InOrder allocated m v s h
  Step-InOrder {s} (calls_try_recv m) h = try_recv-InOrder allocated m s h
  Step-InOrder {s} (runs_send_blocking m v) h = send_blocking-InOrder allocated m v s h
  Step-InOrder {s} (runs_send_timed m v) h = send_timed-InOrder allocated m v s h
  Step-InOrder {s} (runs_recv_blocking m) h = recv_blocking-InOrder m s h
  Step-InOrder {s} (drops_send f) h = ground arith
  Step-InOrder {s} (drops_recv f) h = ground arith
  Step-InOrder {s} clones_sender h = h
  Step-InOrder {s} clones_receiver h = h
  Step-InOrder {s} drops_sender h = ground arith
  Step-InOrder {s} drops_receiver h = ground arith

  pub Reach-InOrder :
      {s u : System T (VecDeque T) W} → InOrder s → Reach (vec_storage allocated) s u → InOrder u
  Reach-InOrder h start = h
  Reach-InOrder h (later r step) = Step-InOrder step (Reach-InOrder h r)
