-- ===== src/AsyncChannel/Space.antt =====
-- src/base_channel_async.rs over `VecDeque`: the sends that wait for space.
use rtsc.Prelude.{
  ℕ, ◌+◌, ◌-◌, ◌≤◌, ◌<◌, ◌≡◌, ◌≢◌, refl, Bool-cases, inl, inr, some, List, length, count, arith,
  ◌==◌, true,
}
use rtsc.Deque.{Moment}
use rtsc.Storage.{VecDeque, vec_storage}
use rtsc.Storage.Laws.{VecFits}
use rtsc.BaseChannel.Tasks.{Picks}
use rtsc.AsyncWakers
use rtsc.AsyncWakers.{Wakers, Woken, wake_next, confirm_fut_waked}
use rtsc.AsyncChannel.{AsyncData, send_drop, recv_drop, sender_drop}
use rtsc.AsyncChannel.Calls.{clone_sender, clone_receiver}
use rtsc.AsyncChannel.Tasks.{
  Phase, fresh, waiting, woken, Task, future, thread, is_waiting, is_woken, deliver,
}
use rtsc.AsyncChannel.Attached.{Kept-Picks, Kept-less}
use rtsc.AsyncChannel.Kept.{woken_thread-Kept, fresh_future-Kept}
use rtsc.AsyncChannel.KeptWakes.{drop_waiting-Kept, drop_woken-Kept}
use rtsc.AsyncChannel.KeptCalls.{new_future-Kept, new_thread-Kept, senders-Kept, new-Kept}
use rtsc.AsyncChannel.SendSystem.{
  SendSystem, run_send, Step, call_send, call_send_blocking, run, drops_fresh, drops_waiting,
  drops_woken, calls_try_send, polls_recv, drops_recv, calls_try_recv, runs_recv_blocking,
  clones_sender, clones_receiver, drops_sender, drops_receiver, Reach, start, later, send_initial,
}
use rtsc.AsyncChannel.Freed.{recv_poll-Roomy, calls-Roomy, receiver_drop-Roomy}
use rtsc.AsyncChannel.Room.{
  room, storage, Roomy, run_fresh-Roomy, run_woken-Roomy, round-Roomy, try_send-Roomy,
}

module _ {T W : Type 0} (allocated : ℕ → ℕ) where
  abbrev IsRoomy : SendSystem (VecDeque T) W → Type 0
  IsRoomy s = Roomy s.next_id s.inner s.tasks

  send_drop-Roomy :
      (s : SendSystem (VecDeque T) W) (id : ℕ) (v : T) (p : Phase) (others : List Task)
      → p ≢ fresh
      → Picks (future id p) s.tasks others
      → IsRoomy s
      → let r = send_drop s.inner (record { id = id; queued = true; value = some v }) in
        Roomy s.next_id r.1 (deliver r.0 others)
  unfolding send_drop
  send_drop-Roomy s id v fresh others ne pick h = absurd (ne refl)
  send_drop-Roomy s id v waiting others ne pick h = record {
    fits = h.fits;
    kept = drop_waiting-Kept id (Kept-Picks pick h.kept);
  }
  send_drop-Roomy s id v woken others ne pick h = record {
    fits = h.fits;
    kept = drop_woken-Kept id (Kept-Picks pick h.kept);
  }

  run-Roomy :
      (m : Moment) (cx : W) (v : T) (t : Task) (others : List Task) (s : SendSystem (VecDeque T) W)
      → Picks t s.tasks others
      → IsRoomy s
      → let u = run_send (storage allocated) m cx v t others s in Roomy s.next_id u.inner u.tasks
  unfolding run_send
  run-Roomy m cx v (future id fresh) others s pick h =
      run_fresh-Roomy allocated m cx v id others s h.fits (Kept-Picks pick h.kept)
  run-Roomy m cx v (future id waiting) others s pick h = h
  run-Roomy m cx v (future id woken) others s pick h =
      run_woken-Roomy allocated m cx v id others s h.fits (Kept-Picks pick h.kept)
  run-Roomy m cx v (thread fresh) others s pick h =
      round-Roomy allocated m v s h.fits (Kept-less _ (omega arith) (Kept-Picks pick h.kept))
  run-Roomy m cx v (thread waiting) others s pick h = h
  run-Roomy m cx v (thread woken) others s pick h =
      round-Roomy allocated m v s h.fits (woken_thread-Kept (Kept-Picks pick h.kept))

  next_id-run_send :
      (m : Moment) (cx : W) (v : T) (t : Task) (others : List Task) (s : SendSystem (VecDeque T) W)
      → (run_send (storage allocated) m cx v t others s).next_id ≡ s.next_id
  unfolding run_send
  next_id-run_send m cx v (future id fresh) others s = ground arith
  next_id-run_send m cx v (future id waiting) others s = refl
  next_id-run_send m cx v (future id woken) others s = ground arith
  next_id-run_send m cx v (thread fresh) others s = ground arith
  next_id-run_send m cx v (thread waiting) others s = refl
  next_id-run_send m cx v (thread woken) others s = ground arith

  Step-Roomy :
      {s u : SendSystem (VecDeque T) W} → Step (storage allocated) s u → IsRoomy s → IsRoomy u
  unfolding clone_sender clone_receiver sender_drop recv_drop send_drop deliver
  Step-Roomy {s} (call_send alive) h = record { fits = h.fits; kept = new_future-Kept h.kept }
  Step-Roomy {s} (call_send_blocking alive) h = record {
    fits = h.fits;
    kept = new_thread-Kept h.kept;
  }
  Step-Roomy {s} (run m cx v t others pick) h =
      rw (next_id-run_send m cx v t others s) (run-Roomy m cx v t others s pick h)
  Step-Roomy {s} (drops_fresh id v others pick) h = record {
    fits = h.fits;
    kept = fresh_future-Kept id (Kept-Picks pick h.kept);
  }
  Step-Roomy {s} (drops_waiting id v others pick) h =
      send_drop-Roomy s id v waiting others (λ e. cc) pick h
  Step-Roomy {s} (drops_woken id v others pick) h =
      send_drop-Roomy s id v woken others (λ e. cc) pick h
  Step-Roomy {s} (calls_try_send m v alive) h = try_send-Roomy allocated m v s.inner h
  Step-Roomy {s} (polls_recv m cx f alive) h = recv_poll-Roomy allocated m cx s.inner f h
  Step-Roomy {s} (drops_recv f alive) h = elim (Bool-cases f.queued) [
    | inl e ↦ rw e (record { fits = h.fits; kept = h.kept })
    | inr e ↦ rw e h
  ]
  Step-Roomy {s} (calls_try_recv m alive) h = (calls-Roomy allocated m s.inner h).0
  Step-Roomy {s} (runs_recv_blocking m alive) h = (calls-Roomy allocated m s.inner h).1
  Step-Roomy {s} (clones_sender alive) h = record { fits = h.fits; kept = h.kept }
  Step-Roomy {s} (clones_receiver alive) h = record {
    fits = h.fits;
    kept = senders-Kept (s.inner.receivers + 1) alive (omega arith) h.kept;
  }
  Step-Roomy {s} (drops_sender alive last) h = elim (Bool-cases (s.inner.senders - 1 == 0)) [
    | inl e ↦ rw e (record { fits = h.fits; kept = h.kept })
    | inr e ↦ rw e (record { fits = h.fits; kept = h.kept })
  ]
  Step-Roomy {s} (drops_receiver alive) h = receiver_drop-Roomy s.inner alive h

  Reach-Roomy :
      {s u : SendSystem (VecDeque T) W} → IsRoomy s → Reach (storage allocated) s u → IsRoomy u
  Reach-Roomy h start = h
  Reach-Roomy h (later r step) = Step-Roomy step (Reach-Roomy h r)

-- Take any run of sends without a timeout, whose futures are polled when they are new and then only
-- when they were woken, of receives of every kind, timeouts and early polls included, and of drops
-- of futures and of handles, on a channel over `VecDeque` that starts within its capacity and with no
-- sends: while some send waits, for each free place there is a send that was woken and has not run
-- since, and a receiver is left.
pub no_lost_space :
    {T W : Type 0} (allocated : ℕ → ℕ) (d : AsyncData (VecDeque T) W)
    (u : SendSystem (VecDeque T) W)
    → VecFits d.queue
    → d.sends ≡ AsyncWakers.new
    → Reach (vec_storage allocated) (send_initial d) u
    → 0 < count is_waiting u.tasks
    → (u.inner.queue.capacity ≤ length u.inner.queue.items + count is_woken u.tasks)
      × (0 < u.inner.receivers)
no_lost_space allocated d u fits unused r some_wait =
    let h =
      Reach-Roomy allocated {s = send_initial d}
        (record { fits = fits; kept = new-Kept d.receivers (room d.queue) d.sends unused }) r in
    ground (arith, h.kept.covered, h.kept.closed, h.kept.attached.total)
