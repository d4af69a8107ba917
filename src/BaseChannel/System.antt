-- ===== src/BaseChannel/System.antt =====
-- src/base_channel.rs: threads that call the methods of one channel, in any interleaving.
use rtsc.Prelude.{ℕ, ◌<◌, ◌≡◌, Bool, true, List, [], ◌∷◌, ◌++◌, count}
use rtsc.Error.{Result, ok, err}
use rtsc.Deque.{Moment}
use rtsc.Storage.{ChannelStorage}
use rtsc.BaseChannel.Tasks.{
  Task, sending, waiting_space, receiving, waiting_data, uses, deliver, Picks,
}
use rtsc.BaseChannel.{
  InnerData, data_available, space_available, Notify, returns, waits, Round, send_round, recv_round,
  try_send, try_recv, clone_sender, drop_sender, clone_receiver, drop_receiver,
}

-- The channel, the calls in progress, and what was stored and what was received so far.
pub record System (T S : Type 0) : Type 0 where
  pub inner : InnerData S
  pub tasks : List (Task T)
  pub sent : List T
  pub received : List T

module _ {T : Type 0} where
  abbrev pub log_sent : Result (Unit {0}) → T → List T → List T
  log_sent (ok _) v sent = sent ++ v ∷ []
  log_sent (err _) v sent = sent

  abbrev pub log_received : Result T → List T → List T
  log_received (ok v) received = received ++ v ∷ []
  log_received (err _) received = received

module _ {T S : Type 0} where
  -- A round that returns leaves the calls in progress; one that waits stays among them.
  abbrev pub after_send :
      ℕ → Bool → T → Round S (Unit {0}) T → List (Task T) → System T S → System T S
  after_send w timed v r others s = elim r.next [
    | returns result ↦ record s {
      inner = r.inner;
      tasks = deliver r.notify w others;
      sent = log_sent result v s.sent;
    }
    | waits value ↦ record s {
      inner = r.inner;
      tasks = waiting_space timed value ∷ deliver r.notify w others;
    }
  ]

  abbrev pub after_recv : ℕ → Bool → Round S T (Unit {0}) → List (Task T) → System T S → System T S
  after_recv w timed r others s = elim r.next [
    | returns result ↦ record s {
      inner = r.inner;
      tasks = deliver r.notify w others;
      received = log_received result s.received;
    }
    | waits _ ↦ record s { inner = r.inner; tasks = waiting_data timed ∷ deliver r.notify w others }
  ]

  abbrev pub after_drop : ℕ → InnerData S × Notify → System T S → System T S
  after_drop w (inner, notify) s = record s { inner = inner; tasks = deliver notify w s.tasks }

module _ {T S : Type 0} (q : ChannelStorage T S) where
  -- The thread of `t` runs a round at the moment `m`; `w` chooses whom it wakes.
  unfoldable pub run_task : Moment → ℕ → Task T → List (Task T) → System T S → System T S
  run_task m w (sending timed v) others s = after_send w timed v (send_round q m s.inner v) others s
  run_task m w (receiving timed) others s = after_recv w timed (recv_round q m s.inner) others s
  run_task m w t others s = s

  unfoldable pub run_try_send : Moment → ℕ → T → System T S → System T S
  run_try_send m w v s =
      let (result, inner, notify) = try_send q m s.inner v in
      record s { inner = inner; tasks = deliver notify w s.tasks; sent = log_sent result v s.sent }

  unfoldable pub run_try_recv : Moment → ℕ → System T S → System T S
  run_try_recv m w s =
      let (result, inner, notify) = try_recv q m s.inner in
      record s {
        inner = inner;
        tasks = deliver notify w s.tasks;
        received = log_received result s.received;
      }

  -- Calls are made through handles: a send needs a sender, a receive a receiver, and the last
  -- handle of a side cannot be dropped while a call of that side borrows it.
  pub data Step (s : System T S) : System T S → Type 0 where
    call_send :
        (timed : Bool) (v : T)
        → 0 < s.inner.senders
        → Step s (record s { tasks = sending timed v ∷ s.tasks })
    call_recv :
        (timed : Bool)
        → 0 < s.inner.receivers
        → Step s (record s { tasks = receiving timed ∷ s.tasks })
    run :
        (m : Moment) (w : ℕ) (t : Task T) (others : List (Task T))
        → Picks t s.tasks others
        → Step s (run_task m w t others s)
    time_out_send :
        (v : T) (others : List (Task T))
        → Picks (waiting_space true v) s.tasks others
        → Step s (record s { tasks = others })
    time_out_recv :
        (others : List (Task T))
        → Picks (waiting_data true) s.tasks others
        → Step s (record s { tasks = others })
    call_try_send :
        (m : Moment) (w : ℕ) (v : T) → 0 < s.inner.senders → Step s (run_try_send m w v s)
    call_try_recv : (m : Moment) (w : ℕ) → 0 < s.inner.receivers → Step s (run_try_recv m w s)
    clones_sender : 0 < s.inner.senders → Step s (record s { inner = clone_sender s.inner })
    clones_receiver : 0 < s.inner.receivers → Step s (record s { inner = clone_receiver s.inner })
    drops_sender :
        (w : ℕ)
        → 0 < s.inner.senders
        → (s.inner.senders ≡ 1 → count (uses space_available) s.tasks ≡ 0)
        → Step s (after_drop w (drop_sender s.inner) s)
    drops_receiver :
        (w : ℕ)
        → 0 < s.inner.receivers
        → (s.inner.receivers ≡ 1 → count (uses data_available) s.tasks ≡ 0)
        → Step s (after_drop w (drop_receiver s.inner) s)

  pub data Reach (s : System T S) : System T S → Type 0 where
    start : Reach s s
    later : {t u : System T S} → Reach s t → Step t u → Reach s u

abbrev pub initial : {T S : Type 0} → InnerData S → System T S
initial d = record { inner = d; tasks = []; sent = []; received = [] }
