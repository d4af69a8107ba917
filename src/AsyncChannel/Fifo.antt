-- ===== src/AsyncChannel/Fifo.antt =====
-- src/base_channel_async.rs over `VecDeque`: the order of the values.
use mathlib.Core.List.{append_assoc}
use rtsc.Prelude.{
  ℕ, ◌≡◌, ◌||◌, ◌==◌, if◌then◌else◌, refl, sym, Bool, true, false, Bool-cases, inl, inr, Option,
  none, some, List, [], ◌∷◌, ◌++◌, arith,
}
use rtsc.Deque.{Moment}
use rtsc.Storage.{ChannelStorage, VecDeque, vec_storage, vec_try_push, vec_get}
use rtsc.Storage.Laws.{vec_push-VecPushes, vec_get-VecGets}
use rtsc.AsyncWakers.{confirm_fut_waked}
use rtsc.AsyncChannel.{
  AsyncData, SendFuture, no_wakers, send_poll, send_runs, send_tries, send_pushes, send_waits,
  recv_poll, recv_runs, recv_gets, recv_waits, send_drop, recv_drop, sender_drop, receiver_drop,
}
use rtsc.AsyncChannel.Calls.{
  data_sent, data_received, clone_sender, clone_receiver, try_pushed, blocking_pushed, try_got,
  blocking_got, try_send, send_blocking, send_blocking_timeout, timeout_pushed, try_recv,
  recv_blocking,
}
use rtsc.AsyncChannel.Tasks.{fresh, waiting, woken, Task, future, thread}
use rtsc.AsyncChannel.System.{
  System, log_ready, run_task, run_send_poll, run_try_send, run_send_blocking,
  run_send_blocking_timeout, run_try_recv, Step, call_recv, call_recv_blocking, run, drops_fresh,
  drops_waiting, drops_woken, calls_try_recv, polls_send, drops_send, calls_try_send,
  runs_send_blocking, runs_send_timed, clones_sender, clones_receiver, drops_sender, drops_receiver,
  Reach, start, later, initial,
}

module _ {T : Type 0} (allocated : ℕ → ℕ) where
  abbrev q : ChannelStorage T (VecDeque T)
  q = vec_storage allocated

-- What was stored is what was received, and then what is in the queue.
abbrev pub InOrder : {T W : Type 0} → System T (VecDeque T) W → Type 0
InOrder s = s.sent ≡ s.received ++ s.inner.queue.items

module _ {T W : Type 0} (allocated : ℕ → ℕ) where
  run-InOrder :
      (m : Moment) (cx : W) (t : Task) (others : List Task) (s : System T (VecDeque T) W)
      → InOrder s
      → InOrder (run_task (q allocated) m cx t others s)
  unfolding run_task recv_poll recv_runs recv_gets recv_waits recv_blocking blocking_got
      data_received
  run-InOrder m cx (future id fresh) others s h = elim (vec_get-VecGets s.inner.queue) [
    | inl (out, empty, e) ↦ ground arith
    | inr (v, out, split, e) ↦
        ground (arith, append_assoc s.received (v ∷ []) (vec_get s.inner.queue).1.items)
  ]
  run-InOrder m cx (future id woken) others s h = elim (vec_get-VecGets s.inner.queue) [
    | inl (out, empty, e) ↦ ground arith
    | inr (v, out, split, e) ↦
        ground (arith, append_assoc s.received (v ∷ []) (vec_get s.inner.queue).1.items)
  ]
  run-InOrder m cx (future id waiting) others s h = h
  run-InOrder m cx (thread fresh) others s h = elim (vec_get-VecGets s.inner.queue) [
    | inl (out, empty, e) ↦ ground arith
    | inr (v, out, split, e) ↦
        ground (arith, append_assoc s.received (v ∷ []) (vec_get s.inner.queue).1.items)
  ]
  run-InOrder m cx (thread woken) others s h = elim (vec_get-VecGets s.inner.queue) [
    | inl (out, empty, e) ↦ ground arith
    | inr (v, out, split, e) ↦
        ground (arith, append_assoc s.received (v ∷ []) (vec_get s.inner.queue).1.items)
  ]
  run-InOrder m cx (thread waiting) others s h = h

  pub try_recv-InOrder :
      (m : Moment) (s : System T (VecDeque T) W)
      → InOrder s
      → InOrder (run_try_recv (q allocated) m s)
  unfolding run_try_recv try_recv try_got data_received
  try_recv-InOrder m s h = elim (vec_get-VecGets s.inner.queue) [
    | inl (out, empty, e) ↦ ground arith
    | inr (v, out, split, e) ↦
        ground (arith, append_assoc s.received (v ∷ []) (vec_get s.inner.queue).1.items)
  ]

  pub try_send-InOrder :
      (m : Moment) (v : T) (s : System T (VecDeque T) W)
      → InOrder s
      → InOrder (run_try_send (q allocated) m v s)
  unfolding run_try_send try_send try_pushed data_sent
  try_send-InOrder m v s h = ground (
    arith,
    vec_push-VecPushes s.inner.queue v,
    append_assoc s.received s.inner.queue.items (v ∷ []),
  )

  pub send_blocking-InOrder :
      (m : Moment) (v : T) (s : System T (VecDeque T) W)
      → InOrder s
      → InOrder (run_send_blocking (q allocated) m v s)
  unfolding run_send_blocking send_blocking blocking_pushed data_sent
  send_blocking-InOrder m v s h = ground (
    arith,
    vec_push-VecPushes s.inner.queue v,
    append_assoc s.received s.inner.queue.items (v ∷ []),
  )

  pub send_timed-InOrder :
      (m : Moment) (v : T) (s : System T (VecDeque T) W)
      → InOrder s
      → InOrder (run_send_blocking_timeout (q allocated) m v s)
  unfolding run_send_blocking_timeout send_blocking_timeout timeout_pushed data_sent
  send_timed-InOrder m v s h = ground (
    arith,
    vec_push-VecPushes s.inner.queue v,
    append_assoc s.received s.inner.queue.items (v ∷ []),
  )

  send_pushes-InOrder :
      (cx : W) (d : AsyncData (VecDeque T) W) (f : SendFuture T) (v : T) (sent received : List T)
      → sent ≡ received ++ d.queue.items
      → let (out, queue) = vec_try_push d.queue v in
        let r = send_pushes cx (record d { queue = queue }) f out in
        log_ready r.answer (some v) sent ≡ received ++ r.inner.queue.items
  unfolding send_pushes send_waits
  send_pushes-InOrder cx d f v sent received h = elim (vec_push-VecPushes d.queue v) [
    | inl (out, e, room) ↦ rw (out, e, h) (append_assoc received d.queue.items (v ∷ []))
    | inr (out, e, no_room) ↦ rw (out, e) h
  ]

  send_runs-InOrder :
      (m : Moment) (cx : W) (f : SendFuture T) (d : AsyncData (VecDeque T) W)
      (sent received : List T)
      → sent ≡ received ++ d.queue.items
      → let r = send_runs (q allocated) m cx f d in
        log_ready r.answer f.value sent ≡ received ++ r.inner.queue.items
  unfolding send_runs send_tries send_waits
  send_runs-InOrder m cx f d sent received h = elim (Bool-cases (d.receivers == 0)) [
    | inl e ↦ rw e h
    | inr e ↦ elim (Bool-cases (no_wakers d.sends.wakers || f.queued)) [
      | inl goes ↦ rw (e, goes) (tries f.value)
      | inr late ↦ rw (e, late) h
    ]
  ]
    where
      tries :
          (value : Option T)
          → let r = send_tries (q allocated) m cx d f value in
            log_ready r.answer value sent ≡ received ++ r.inner.queue.items
      tries none = h
      tries (some v) = send_pushes-InOrder cx d f v sent received h

  confirmed-items :
      (id : ℕ) (d : AsyncData (VecDeque T) W) (b : Bool)
      → (if b then record d { sends = confirm_fut_waked id d.sends } else d).queue ≡ d.queue
  confirmed-items id d true = refl
  confirmed-items id d false = refl

  pub send_poll-InOrder :
      (m : Moment) (cx : W) (f : SendFuture T) (s : System T (VecDeque T) W)
      → InOrder s
      → InOrder (run_send_poll (q allocated) m cx f s)
  unfolding run_send_poll send_poll
  send_poll-InOrder m cx f s h =
      send_runs-InOrder m cx f _ s.sent s.received (rw (confirmed-items f.id s.inner f.queued) h)

  Step-InOrder : {s u : System T (VecDeque T) W} → Step (q allocated) s u → InOrder s → InOrder u
  unfolding clone_sender clone_receiver receiver_drop sender_drop recv_drop send_drop
  Step-InOrder {s} (call_recv alive) h = h
  Step-InOrder {s} (call_recv_blocking alive) h = h
  Step-InOrder {s} (run m cx t others pick) h = run-InOrder m cx t others s h
  Step-InOrder {s} (drops_fresh id others pick) h = h
  Step-InOrder {s} (drops_waiting id others pick) h = h
  Step-InOrder {s} (drops_woken id others pick) h = h
  Step-InOrder {s} (calls_try_recv m alive) h = try_recv-InOrder m s h
  Step-InOrder {s} (polls_send m cx f alive) h = send_poll-InOrder m cx f s h
  Step-InOrder {s} (drops_send f alive) h = ground arith
  Step-InOrder {s} (calls_try_send m v alive) h = try_send-InOrder m v s h
  Step-InOrder {s} (runs_send_blocking m v alive) h = send_blocking-InOrder m v s h
  Step-InOrder {s} (runs_send_timed m v alive) h = send_timed-InOrder m v s h
  Step-InOrder {s} (clones_sender alive) h = h
  Step-InOrder {s} (clones_receiver alive) h = h
  Step-InOrder {s} (drops_sender alive) h = ground arith
  Step-InOrder {s} (drops_receiver alive last) h = ground arith

  Reach-InOrder : {s u : System T (VecDeque T) W} → InOrder s → Reach (q allocated) s u → InOrder u
  Reach-InOrder h start = h
  Reach-InOrder h (later r step) = Step-InOrder step (Reach-InOrder h r)

-- However the steps of AsyncChannel/System interleave on a channel over `VecDeque` that starts with
-- an empty queue and no receives, what its sends have stored is, in this order, what its receives have
-- returned and then what is in the queue, whatever futures were dropped.
pub async_first_in_first_out :
    {T W : Type 0} (allocated : ℕ → ℕ) (d : AsyncData (VecDeque T) W) (u : System T (VecDeque T) W)
    → d.queue.items ≡ []
    → Reach (vec_storage allocated) (initial d) u
    → u.sent ≡ u.received ++ u.inner.queue.items
async_first_in_first_out allocated d u empty r =
    Reach-InOrder allocated {s = initial d} (sym empty) r
