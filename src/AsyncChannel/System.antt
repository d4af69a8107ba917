-- ===== src/AsyncChannel/System.antt =====
-- src/base_channel_async.rs: tasks and threads that share an async channel, in any interleaving.
-- The receives in progress are followed: they have no timeout here, and a future that receives is
-- polled when it is new, and then only when it was woken. The sends may come from any futures, polled
-- at any time, and from any threads, with a timeout or not. A timeout that is over changes nothing.
use rtsc.Prelude.{ℕ, ◌+◌, ◌<◌, ◌≡◌, true, false, Option, some, List, [], ◌∷◌, ◌++◌, length}
use rtsc.Error.{Result, ok, err}
use rtsc.Deque.{Moment}
use rtsc.Storage.{ChannelStorage}
use rtsc.BaseChannel.{Next, returns, waits}
use rtsc.BaseChannel.Tasks.{Picks}
use rtsc.AsyncWakers.{Woken}
use rtsc.AsyncChannel.{
  AsyncData, Poll, ready, pending, panicked, SendFuture, RecvPoll, send_poll, recv_poll, send_drop,
  recv_drop, sender_drop, receiver_drop,
}
use rtsc.AsyncChannel.Calls.{
  Called, clone_sender, clone_receiver, try_send, send_blocking, send_blocking_timeout, try_recv,
  recv_blocking,
}
use rtsc.AsyncChannel.Tasks.{fresh, waiting, woken, Task, future, thread, deliver}

-- The channel, the receives in progress, the next id of a future, and what was stored and what was
-- received so far.
pub record System (T S W : Type 0) : Type 0 where
  pub inner : AsyncData S W
  pub tasks : List Task
  pub next_id : ℕ
  pub sent : List T
  pub received : List T

module _ {T : Type 0} where
  abbrev pub log_ready : Poll (Unit {0}) → Option T → List T → List T
  log_ready (ready (ok _)) (some v) log = log ++ v ∷ []
  log_ready _ _ log = log

  abbrev pub log_ok : {A : Type 0} → Result A → T → List T → List T
  log_ok (ok _) v log = log ++ v ∷ []
  log_ok (err _) v log = log

  abbrev pub log_got : Result T → List T → List T
  log_got (ok v) log = log ++ v ∷ []
  log_got (err _) log = log

  abbrev pub sent_by : Next (Unit {0}) T → T → List T → List T
  sent_by (returns result) v log = log_ok result v log
  sent_by (waits _) v log = log

module _ {T S W : Type 0} where
  abbrev pub after_poll : ℕ → RecvPoll T S W → List Task → System T S W → System T S W
  after_poll id r others s = elim r.answer [
    | ready result ↦ record s {
      inner = r.inner;
      tasks = others;
      received = log_got result s.received;
    }
    | pending ↦ record s { inner = r.inner; tasks = future id waiting ∷ others }
    | panicked ↦ record s { inner = r.inner; tasks = others }
  ]

  abbrev pub after_round : Called S W (Next T (Unit {0})) → List Task → System T S W → System T S W
  after_round c others s = elim c.result [
    | returns result ↦ record s {
      inner = c.inner;
      tasks = others;
      received = log_got result s.received;
    }
    | waits _ ↦ record s { inner = c.inner; tasks = thread waiting ∷ others }
  ]

  abbrev pub after_drop : Woken W × AsyncData S W → List Task → System T S W → System T S W
  after_drop (reached, inner) tasks s = record s { inner = inner; tasks = deliver reached tasks }

module _ {T S W : Type 0} (q : ChannelStorage T S) where
  -- A receive runs, where it does not wait.
  unfoldable pub run_task : Moment → W → Task → List Task → System T S W → System T S W
  run_task m cx (future id fresh) others s =
      after_poll id (recv_poll q m cx s.inner (record { id = id; queued = false })) others s
  run_task m cx (future id woken) others s =
      after_poll id (recv_poll q m cx s.inner (record { id = id; queued = true })) others s
  run_task m cx (future id waiting) others s = s
  run_task m cx (thread fresh) others s = after_round (recv_blocking q m s.inner) others s
  run_task m cx (thread woken) others s = after_round (recv_blocking q m s.inner) others s
  run_task m cx (thread waiting) others s = s

  unfoldable pub run_send_poll : Moment → W → SendFuture T → System T S W → System T S W
  run_send_poll m cx f s =
      let r = send_poll q m cx s.inner f in
      record s {
        inner = r.inner;
        tasks = deliver r.woken s.tasks;
        sent = log_ready r.answer f.value s.sent;
      }

  unfoldable pub run_try_send : Moment → T → System T S W → System T S W
  run_try_send m v s =
      let c = try_send q m s.inner v in
      record s { inner = c.inner; tasks = deliver c.woken s.tasks; sent = log_ok c.result v s.sent }

  unfoldable pub run_send_blocking : Moment → T → System T S W → System T S W
  run_send_blocking m v s =
      let c = send_blocking q m s.inner v in
      record s {
        inner = c.inner;
        tasks = deliver c.woken s.tasks;
        sent = sent_by c.result v s.sent;
      }

  unfoldable pub run_send_blocking_timeout : Moment → T → System T S W → System T S W
  run_send_blocking_timeout m v s =
      let c = send_blocking_timeout q m s.inner v in
      record s {
        inner = c.inner;
        tasks = deliver c.woken s.tasks;
        sent = sent_by c.result v s.sent;
      }

  unfoldable pub run_try_recv : Moment → System T S W → System T S W
  run_try_recv m s =
      let c = try_recv q m s.inner in
      record s { inner = c.inner; received = log_got c.result s.received }

  pub data Step (s : System T S W) : System T S W → Type 0 where
    call_recv :
        0 < s.inner.receivers
        → Step s (record s { tasks = future s.next_id fresh ∷ s.tasks; next_id = s.next_id + 1 })
    call_recv_blocking :
        0 < s.inner.receivers → Step s (record s { tasks = thread fresh ∷ s.tasks })
    run :
        (m : Moment) (cx : W) (t : Task) (others : List Task)
        → Picks t s.tasks others
        → Step s (run_task m cx t others s)
    drops_fresh :
        (id : ℕ) (others : List Task)
        → Picks (future id fresh) s.tasks others
        → Step s (after_drop (recv_drop s.inner (record { id = id; queued = false })) others s)
    drops_waiting :
        (id : ℕ) (others : List Task)
        → Picks (future id waiting) s.tasks others
        → Step s (after_drop (recv_drop s.inner (record { id = id; queued = true })) others s)
    drops_woken :
        (id : ℕ) (others : List Task)
        → Picks (future id woken) s.tasks others
        → Step s (after_drop (recv_drop s.inner (record { id = id; queued = true })) others s)
    calls_try_recv : (m : Moment) → 0 < s.inner.receivers → Step s (run_try_recv m s)
    polls_send :
        (m : Moment) (cx : W) (f : SendFuture T)
        → 0 < s.inner.senders
        → Step s (run_send_poll m cx f s)
    drops_send :
        (f : SendFuture T)
        → 0 < s.inner.senders
        → Step s (record s { inner = (send_drop s.inner f).1 })
    calls_try_send : (m : Moment) (v : T) → 0 < s.inner.senders → Step s (run_try_send m v s)
    runs_send_blocking :
        (m : Moment) (v : T) → 0 < s.inner.senders → Step s (run_send_blocking m v s)
    runs_send_timed :
        (m : Moment) (v : T) → 0 < s.inner.senders → Step s (run_send_blocking_timeout m v s)
    clones_sender : 0 < s.inner.senders → Step s (record s { inner = clone_sender s.inner })
    clones_receiver : 0 < s.inner.receivers → Step s (record s { inner = clone_receiver s.inner })
    drops_sender : 0 < s.inner.senders → Step s (after_drop (sender_drop s.inner) s.tasks s)
    drops_receiver :
        0 < s.inner.receivers
        → (s.inner.receivers ≡ 1 → length s.tasks ≡ 0)
        → Step s (record s { inner = (receiver_drop s.inner).1 })

  pub data Reach (s : System T S W) : System T S W → Type 0 where
    start : Reach s s
    later : {t u : System T S W} → Reach s t → Step t u → Reach s u

abbrev pub initial : {T S W : Type 0} → AsyncData S W → System T S W
initial d = record { inner = d; tasks = []; next_id = 0; sent = []; received = [] }
