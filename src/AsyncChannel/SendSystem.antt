-- ===== src/AsyncChannel/SendSystem.antt =====
-- src/base_channel_async.rs: futures and threads that share an async channel, as in AsyncChannel/System,
-- but with the sends in progress followed: they have no timeout here, and a future that sends is polled
-- when it is new, and then only when it was woken. The receives may come from any futures, polled at any
-- time, and from any threads, with a timeout or not. A send that runs may bring any value.
use rtsc.Prelude.{ℕ, ◌+◌, ◌<◌, ◌≡◌, true, false, some, List, [], ◌∷◌, length}
use rtsc.Deque.{Moment}
use rtsc.Storage.{ChannelStorage}
use rtsc.BaseChannel.{Next, returns, waits}
use rtsc.BaseChannel.Tasks.{Picks}
use rtsc.AsyncWakers.{Woken}
use rtsc.AsyncChannel.{
  AsyncData, ready, pending, panicked, RecvFuture, SendPoll, send_poll, recv_poll, send_drop,
  recv_drop, sender_drop, receiver_drop,
}
use rtsc.AsyncChannel.Calls.{
  Called, clone_sender, clone_receiver, try_send, send_blocking, try_recv, recv_blocking,
}
use rtsc.AsyncChannel.Tasks.{Task, fresh, waiting, woken, future, thread, deliver}

pub record SendSystem (S W : Type 0) : Type 0 where
  pub inner : AsyncData S W
  pub tasks : List Task
  pub next_id : ℕ

module _ {T S W : Type 0} where
  abbrev pub after_send_poll : ℕ → SendPoll T S W → List Task → SendSystem S W → SendSystem S W
  after_send_poll id r others s = elim r.answer [
    | ready _ ↦ record s { inner = r.inner; tasks = others }
    | pending ↦ record s { inner = r.inner; tasks = future id waiting ∷ others }
    | panicked ↦ record s { inner = r.inner; tasks = others }
  ]

  abbrev pub after_send_round :
      Called S W (Next (Unit {0}) T) → List Task → SendSystem S W → SendSystem S W
  after_send_round c others s = elim c.result [
    | returns _ ↦ record s { inner = c.inner; tasks = others }
    | waits _ ↦ record s { inner = c.inner; tasks = thread waiting ∷ others }
  ]

module _ {S W : Type 0} where
  -- A call, a poll or a drop that reaches the sends that it wakes.
  abbrev pub reaches : Woken W → AsyncData S W → List Task → SendSystem S W → SendSystem S W
  reaches reached inner tasks s = record s { inner = inner; tasks = deliver reached tasks }

module _ {T S W : Type 0} (q : ChannelStorage T S) where
  -- A send runs, where it does not wait.
  unfoldable pub run_send : Moment → W → T → Task → List Task → SendSystem S W → SendSystem S W
  run_send m cx v (future id fresh) others s =
      after_send_poll id
        (send_poll q m cx s.inner (record { id = id; queued = false; value = some v })) others s
  run_send m cx v (future id woken) others s =
      after_send_poll id
        (send_poll q m cx s.inner (record { id = id; queued = true; value = some v })) others s
  run_send m cx v (future id waiting) others s = s
  run_send m cx v (thread fresh) others s = after_send_round (send_blocking q m s.inner v) others s
  run_send m cx v (thread woken) others s = after_send_round (send_blocking q m s.inner v) others s
  run_send m cx v (thread waiting) others s = s

  pub data Step (s : SendSystem S W) : SendSystem S W → Type 0 where
    call_send :
        0 < s.inner.senders
        → Step s (record s { tasks = future s.next_id fresh ∷ s.tasks; next_id = s.next_id + 1 })
    call_send_blocking : 0 < s.inner.senders → Step s (record s { tasks = thread fresh ∷ s.tasks })
    run :
        (m : Moment) (cx : W) (v : T) (t : Task) (others : List Task)
        → Picks t s.tasks others
        → Step s (run_send m cx v t others s)
    drops_fresh :
        (id : ℕ) (v : T) (others : List Task)
        → Picks (future id fresh) s.tasks others
        → Step s (
            let r = send_drop s.inner (record { id = id; queued = false; value = some v }) in
            reaches r.0 r.1 others s)
    drops_waiting :
        (id : ℕ) (v : T) (others : List Task)
        → Picks (future id waiting) s.tasks others
        → Step s (
            let r = send_drop s.inner (record { id = id; queued = true; value = some v }) in
            reaches r.0 r.1 others s)
    drops_woken :
        (id : ℕ) (v : T) (others : List Task)
        → Picks (future id woken) s.tasks others
        → Step s (
            let r = send_drop s.inner (record { id = id; queued = true; value = some v }) in
            reaches r.0 r.1 others s)
    calls_try_send :
        (m : Moment) (v : T)
        → 0 < s.inner.senders
        → Step s (record s { inner = (try_send q m s.inner v).inner })
    polls_recv :
        (m : Moment) (cx : W) (f : RecvFuture)
        → 0 < s.inner.receivers
        → Step s (let r = recv_poll q m cx s.inner f in reaches r.woken r.inner s.tasks s)
    drops_recv :
        (f : RecvFuture)
        → 0 < s.inner.receivers
        → Step s (record s { inner = (recv_drop s.inner f).1 })
    calls_try_recv :
        (m : Moment)
        → 0 < s.inner.receivers
        → Step s (let c = try_recv q m s.inner in reaches c.woken c.inner s.tasks s)
    runs_recv_blocking :
        (m : Moment)
        → 0 < s.inner.receivers
        → Step s (let c = recv_blocking q m s.inner in reaches c.woken c.inner s.tasks s)
    clones_sender : 0 < s.inner.senders → Step s (record s { inner = clone_sender s.inner })
    clones_receiver : 0 < s.inner.receivers → Step s (record s { inner = clone_receiver s.inner })
    drops_sender :
        0 < s.inner.senders
        → (s.inner.senders ≡ 1 → length s.tasks ≡ 0)
        → Step s (record s { inner = (sender_drop s.inner).1 })
    drops_receiver :
        0 < s.inner.receivers → Step s (let r = receiver_drop s.inner in reaches r.0 r.1 s.tasks s)

  pub data Reach (s : SendSystem S W) : SendSystem S W → Type 0 where
    start : Reach s s
    later : {t u : SendSystem S W} → Reach s t → Step t u → Reach s u

abbrev pub send_initial : {S W : Type 0} → AsyncData S W → SendSystem S W
send_initial d = record { inner = d; tasks = []; next_id = 0 }
