-- ===== src/AsyncChannel/Waiting.antt =====
-- src/base_channel_async.rs: receives that wait for data.
use rtsc.Prelude.{
  ℕ, ◌+◌, ◌-◌, ◌≤◌, ◌<◌, ◌≡◌, ◌≢◌, refl, sym, true, false, length, List, count, arith, ◌==◌,
  Bool-cases, inl, inr,
}
use rtsc.Storage.{ChannelStorage}
use rtsc.Storage.Laws.{StorageLaws}
use rtsc.BaseChannel.Tasks.{Picks}
use rtsc.AsyncWakers
use rtsc.AsyncWakers.{has_id, Wakers, Woken, wake_next, confirm_fut_waked}
use rtsc.AsyncChannel.{AsyncData, send_drop, recv_drop, sender_drop, receiver_drop}
use rtsc.AsyncChannel.Calls.{clone_sender, clone_receiver}
use rtsc.AsyncChannel.Tasks.{
  Phase, fresh, waiting, woken, Task, future, is_waiting, is_woken, has_future, deliver,
}
use rtsc.AsyncChannel.Attached.{Kept-Picks}
use rtsc.AsyncChannel.Kept.{fresh_future-Kept}
use rtsc.AsyncChannel.KeptWakes.{wake_all-Kept, drop_waiting-Kept, drop_woken-Kept}
use rtsc.AsyncChannel.KeptCalls.{
  new_future-Kept, new_thread-Kept, senders-Kept, new-Kept, Kept-gone,
}
use rtsc.AsyncChannel.System.{
  System, Step, call_recv, call_recv_blocking, run, drops_fresh, drops_waiting, drops_woken,
  calls_try_recv, polls_send, drops_send, calls_try_send, runs_send_blocking, runs_send_timed,
  clones_sender, clones_receiver, drops_sender, drops_receiver, Reach, start, later, initial,
}
use rtsc.AsyncChannel.Runs.{Live, run-Live, next_id-run_task}
use rtsc.AsyncChannel.Sends.{send_poll-Live, calls-Live, try_recv-Live}

module _ {T S W : Type 0} (q : ChannelStorage T S) (IsValid : S → Type 0)
    (laws : StorageLaws q IsValid) where
  abbrev IsLive : System T S W → Type 0
  IsLive s = Live q IsValid laws s.next_id s.inner s.tasks

  sender_drop-Live :
      (d : AsyncData S W) (next : ℕ) (ts : List Task)
      → 0 < d.senders
      → Live q IsValid laws next d ts
      → let r = sender_drop d in Live q IsValid laws next r.1 (deliver r.0 ts)
  unfolding sender_drop deliver
  sender_drop-Live d next ts alive live = elim (Bool-cases (d.senders - 1 == 0)) [
    | inl e ↦
        let last : d.senders - 1 ≡ 0 = ground arith in
        rw e (record { valid = live.valid; kept = rw last (wake_all-Kept live.kept) })
    | inr e ↦ rw e (record {
      valid = live.valid;
      kept = senders-Kept (d.senders - 1) alive (ground arith) live.kept;
    })
  ]

  recv_drop-Live :
      (s : System T S W) (id : ℕ) (p : Phase) (others : List Task)
      → p ≢ fresh
      → Picks (future id p) s.tasks others
      → IsLive s
      → let u = recv_drop s.inner (record { id = id; queued = true }) in
        Live q IsValid laws s.next_id u.1 (deliver u.0 others)
  unfolding recv_drop
  recv_drop-Live s id fresh others ne pick live = absurd (ne refl)
  recv_drop-Live s id waiting others ne pick live = record {
    valid = live.valid;
    kept = drop_waiting-Kept id (Kept-Picks pick live.kept);
  }
  recv_drop-Live s id woken others ne pick live = record {
    valid = live.valid;
    kept = drop_woken-Kept id (Kept-Picks pick live.kept);
  }

  Step-Live : {s u : System T S W} → Step q s u → IsLive s → IsLive u
  unfolding clone_sender clone_receiver receiver_drop recv_drop send_drop deliver
  Step-Live {s} (call_recv alive) live = record {
    valid = live.valid;
    kept = new_future-Kept live.kept;
  }
  Step-Live {s} (call_recv_blocking alive) live = record {
    valid = live.valid;
    kept = new_thread-Kept live.kept;
  }
  Step-Live {s} (run m cx t others pick) live =
      rw (next_id-run_task q IsValid laws m cx t others s)
        (run-Live q IsValid laws m cx t others s pick live)
  Step-Live {s} (drops_fresh id others pick) live = record {
    valid = live.valid;
    kept = fresh_future-Kept id (Kept-Picks pick live.kept);
  }
  Step-Live {s} (drops_waiting id others pick) live =
      recv_drop-Live s id waiting others (λ e. cc) pick live
  Step-Live {s} (drops_woken id others pick) live =
      recv_drop-Live s id woken others (λ e. cc) pick live
  Step-Live {s} (calls_try_recv m alive) live = try_recv-Live q IsValid laws m s live
  Step-Live {s} (polls_send m cx f alive) live = send_poll-Live q IsValid laws m cx f s live
  Step-Live {s} (drops_send f alive) live = elim (Bool-cases f.queued) [
    | inl e ↦ rw e (record { valid = live.valid; kept = live.kept })
    | inr e ↦ rw e live
  ]
  Step-Live {s} (calls_try_send m v alive) live = (calls-Live q IsValid laws m v s live).0
  Step-Live {s} (runs_send_blocking m v alive) live = (calls-Live q IsValid laws m v s live).1
  Step-Live {s} (runs_send_timed m v alive) live = (calls-Live q IsValid laws m v s live).2
  Step-Live {s} (clones_sender alive) live = record {
    valid = live.valid;
    kept = senders-Kept (s.inner.senders + 1) alive (omega arith) live.kept;
  }
  Step-Live {s} (clones_receiver alive) live = record { valid = live.valid; kept = live.kept }
  Step-Live {s} (drops_sender alive) live = sender_drop-Live s.inner s.next_id s.tasks alive live
  Step-Live {s} (drops_receiver alive last) live = elim (Bool-cases (s.inner.receivers - 1 == 0)) [
    | inl e ↦ rw e (record { valid = live.valid; kept = live.kept })
    | inr e ↦ rw e (record { valid = live.valid; kept = live.kept })
  ]

  Reach-Live : {s u : System T S W} → IsLive s → Reach q s u → IsLive u
  Reach-Live live start = live
  Reach-Live live (later r step) = Step-Live step (Reach-Live live r)

-- Take any run of receives without a timeout, whose futures are polled when they are new and then
-- only when they were woken, of sends of every kind, timeouts and early polls included, and of drops
-- of futures and of handles, on a channel that starts with a valid storage and no receives, over any
-- storage with the laws: while some receive waits, for each stored value there is a receive that was
-- woken and has not run since, and a sender is left. A future that is dropped after it was woken
-- passes its wake-up on, so none is lost.
pub no_lost_wake :
    {T S W : Type 0} (q : ChannelStorage T S) (IsValid : S → Type 0) (laws : StorageLaws q IsValid)
    → (d : AsyncData S W) (u : System T S W) → IsValid d.queue
    → d.recvs ≡ AsyncWakers.new
    → Reach q (initial d) u
    → 0 < count is_waiting u.tasks
    → (q.len u.inner.queue ≤ count is_woken u.tasks) × (0 < u.inner.senders)
no_lost_wake q IsValid laws d u valid unused r some_wait =
    let live =
      Reach-Live q IsValid laws {s = initial d}
        (record { valid = valid; kept = new-Kept d.senders (q.len d.queue) d.recvs unused }) r in
    ground (arith, live.kept.covered, live.kept.closed, live.kept.attached.total)

-- Take any run of receives without a timeout, whose futures are polled when they are new and then
-- only when they were woken, of sends of every kind, timeouts and early polls included, and of drops
-- of futures and of handles, on a channel that starts with a valid storage and no receives, over any
-- storage with the laws: there are as many wakers in the queue of the receives as receives wait, and
-- nothing is left there of a future that has returned or was dropped: no waker, no entry in the set
-- of queued ids, none in the set of those that are pending.
pub no_future_left :
    {T S W : Type 0} (q : ChannelStorage T S) (IsValid : S → Type 0) (laws : StorageLaws q IsValid)
    → (d : AsyncData S W) (u : System T S W) (id : ℕ) → IsValid d.queue
    → d.recvs ≡ AsyncWakers.new
    → Reach q (initial d) u
    → let w = u.inner.recvs in
      (length w.wakers ≡ count is_waiting u.tasks)
      × (count (has_future id) u.tasks ≡ 0
          → (count (has_id id) w.wakers ≡ 0) × (w.waker_ids id ≡ false) × (w.pending id ≡ false))
no_future_left q IsValid laws d u id valid unused r =
    let live =
      Reach-Live q IsValid laws {s = initial d}
        (record { valid = valid; kept = new-Kept d.senders (q.len d.queue) d.recvs unused }) r in
    (sym live.kept.attached.total, λ gone. Kept-gone id live.kept gone)
