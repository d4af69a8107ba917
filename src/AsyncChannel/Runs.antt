-- ===== src/AsyncChannel/Runs.antt =====
-- src/base_channel_async.rs: receives that run, and whether their channel is kept.
use rtsc.Prelude.{
  ℕ, ◌-◌, ◌≤◌, ◌<◌, ◌≡◌, refl, Bool, true, false, Option, none, some, List, [], ◌∷◌, length, arith,
  ◌==◌, ◌||◌, Bool-cases, inl, inr,
}
use rtsc.Deque.{Moment}
use rtsc.Storage.{ChannelStorage}
use rtsc.Storage.Laws.{StorageLaws}
use rtsc.BaseChannel.Tasks.{Picks}
use rtsc.AsyncWakers.{confirm_fut_waked}
use rtsc.AsyncChannel.{AsyncData, no_wakers, recv_poll, recv_runs, recv_gets, recv_waits}
use rtsc.AsyncChannel.Calls.{data_received, blocking_got, recv_blocking}
use rtsc.AsyncChannel.Tasks.{fresh, waiting, woken, Task, future, thread}
use rtsc.AsyncChannel.Attached.{Kept, Kept-Picks, Kept-less}
use rtsc.AsyncChannel.Kept.{
  woken_future-Kept, woken_thread-Kept, fresh_future-Kept, fresh_thread-Kept, wait_future-Kept,
  wait_thread-Kept,
}
use rtsc.AsyncChannel.System.{System, after_poll, after_round, run_task}

pub some_wakers : {A : Type 0} (xs : List A) → (no_wakers xs || false) ≡ false → 0 < length xs
some_wakers [] e = absurd (ground (arith, e))
some_wakers (_ ∷ xs) e = omega arith

module _ {T S : Type 0} (q : ChannelStorage T S) (IsValid : S → Type 0)
    (laws : StorageLaws q IsValid) where
  -- A value is got, or there is none: what this leaves of the storage.
  pub got_at_most : (m : Moment) (s : S) → q.len (q.get m s).1 ≤ q.len s - 1
  got_at_most m s = elim (laws.len-get m s) [ inl e ↦ omega arith | inr e ↦ omega arith ]

  got_none : (m : Moment) (s : S) → (q.get m s).0 ≡ none → q.len (q.get m s).1 ≡ 0
  got_none m s e = elim (laws.len-get m s) [ inl h ↦ h.1 | inr h ↦ absurd (h.0 e) ]

module _ {T S W : Type 0} (q : ChannelStorage T S) (IsValid : S → Type 0)
    (laws : StorageLaws q IsValid) where
  -- What holds of a channel whose queue of receives is kept.
  pub record Live (next : ℕ) (d : AsyncData S W) (ts : List Task) : Type 0 where
    pub valid : IsValid d.queue
    pub kept : Kept d.senders next (q.len d.queue) d.recvs ts

  recv_gets-Live :
      {next : ℕ} {ts : List Task} (cx : W) (s : System T S W) (d : AsyncData S W) (id : ℕ)
      (queued : Bool) (value : Option T)
      → IsValid d.queue
      → (value ≡ none → q.len d.queue ≡ 0)
      → Kept d.senders next (q.len d.queue) d.recvs (future id fresh ∷ ts)
      → let u = after_poll id (recv_gets cx d (record { id = id; queued = queued }) value) ts s in
        Live next u.inner u.tasks
  unfolding recv_gets recv_waits
  recv_gets-Live cx s d id queued (some v) valid empty h = record {
    valid = valid;
    kept = fresh_future-Kept id h;
  }
  recv_gets-Live cx s d id queued none valid empty h = elim (Bool-cases (d.senders == 0)) [
    | inl e ↦ rw e (record { valid = valid; kept = fresh_future-Kept id h })
    | inr e ↦ rw e (record {
      valid = valid;
      kept = wait_future-Kept cx id (ground arith) (inl (empty refl)) h;
    })
  ]

  -- A future polls: the data `pc` is that which it finds once it has confirmed that it was woken.
  got-Live :
      {next : ℕ} {ts : List Task} (m : Moment) (cx : W) (s : System T S W) (pc : AsyncData S W)
      (id : ℕ) (queued : Bool)
      → IsValid pc.queue
      → Kept pc.senders next (q.len pc.queue - 1) pc.recvs (future id fresh ∷ ts)
      → let r =
          recv_gets cx
            (record pc { queue = (q.get m pc.queue).1 })
            (record { id = id; queued = queued })
            (q.get m pc.queue).0 in
        let u = after_poll id r ts s in Live next u.inner u.tasks
  got-Live m cx s pc id queued valid h =
      recv_gets-Live cx s (record pc { queue = (q.get m pc.queue).1 }) id queued
        (q.get m pc.queue).0 (laws.get-IsValid m pc.queue valid)
        (got_none q IsValid laws m pc.queue)
        (Kept-less (q.len (q.get m pc.queue).1) (got_at_most q IsValid laws m pc.queue) h)

  run_fresh-Live :
      (m : Moment) (cx : W) (id : ℕ) (others : List Task) (s : System T S W)
      → IsValid s.inner.queue
      → Kept s.inner.senders s.next_id
          (q.len s.inner.queue)
          s.inner.recvs
          (future id fresh ∷ others)
      → let u = run_task q m cx (future id fresh) others s in Live s.next_id u.inner u.tasks
  unfolding run_task recv_poll recv_runs recv_waits
  run_fresh-Live m cx id others s valid h =
      elim (Bool-cases (no_wakers s.inner.recvs.wakers || false)) [
        | inl goes ↦ rw goes (got-Live m cx s s.inner id false valid (Kept-less _ (omega arith) h))
        | inr late ↦
            let others_wait = some_wakers s.inner.recvs.wakers late in
            rw late (record {
              valid = valid;
              kept =
                  wait_future-Kept cx id (λ e. absurd (omega (arith, h.closed e))) (inr others_wait)
                    h;
            })
      ]

  run_woken-Live :
      (m : Moment) (cx : W) (id : ℕ) (others : List Task) (s : System T S W)
      → IsValid s.inner.queue
      → Kept s.inner.senders s.next_id
          (q.len s.inner.queue)
          s.inner.recvs
          (future id woken ∷ others)
      → let u = run_task q m cx (future id woken) others s in Live s.next_id u.inner u.tasks
  unfolding run_task recv_poll recv_runs
  run_woken-Live m cx id others s valid h =
      let goes : (no_wakers (confirm_fut_waked id s.inner.recvs).wakers || true) ≡ true =
        ground arith in
      let pc : AsyncData S W = record s.inner { recvs = confirm_fut_waked id s.inner.recvs } in
      rw goes (got-Live m cx s pc id true valid (woken_future-Kept id h))

  blocking_got-Live :
      {next : ℕ} {ts : List Task} (s : System T S W) (d : AsyncData S W) (value : Option T)
      → IsValid d.queue
      → (value ≡ none → q.len d.queue ≡ 0)
      → Kept d.senders next (q.len d.queue) d.recvs (thread fresh ∷ ts)
      → let u = after_round (blocking_got d value) ts s in Live next u.inner u.tasks
  unfolding blocking_got data_received
  blocking_got-Live s d (some v) valid empty h = record {
    valid = valid;
    kept = fresh_thread-Kept h;
  }
  blocking_got-Live s d none valid empty h = elim (Bool-cases (d.senders == 0)) [
    | inl e ↦ rw e (record { valid = valid; kept = fresh_thread-Kept h })
    | inr e ↦ rw e (record { valid = valid; kept = wait_thread-Kept (ground arith) (empty refl) h })
  ]

  round-Live :
      {next : ℕ} {ts : List Task} (m : Moment) (s : System T S W)
      → IsValid s.inner.queue
      → Kept s.inner.senders next (q.len s.inner.queue - 1) s.inner.recvs (thread fresh ∷ ts)
      → let u = after_round (recv_blocking q m s.inner) ts s in Live next u.inner u.tasks
  unfolding recv_blocking
  round-Live m s valid h =
      let d = s.inner in
      blocking_got-Live s (record d { queue = (q.get m d.queue).1 }) (q.get m d.queue).0
        (laws.get-IsValid m d.queue valid) (got_none q IsValid laws m d.queue)
        (Kept-less (q.len (q.get m d.queue).1) (got_at_most q IsValid laws m d.queue) h)

  -- A receive that does not wait runs.
  pub run-Live :
      (m : Moment) (cx : W) (t : Task) (others : List Task) (s : System T S W)
      → Picks t s.tasks others
      → Live s.next_id s.inner s.tasks
      → let u = run_task q m cx t others s in Live s.next_id u.inner u.tasks
  unfolding run_task
  run-Live m cx (future id fresh) others s pick live =
      run_fresh-Live m cx id others s live.valid (Kept-Picks pick live.kept)
  run-Live m cx (future id woken) others s pick live =
      run_woken-Live m cx id others s live.valid (Kept-Picks pick live.kept)
  run-Live m cx (future id waiting) others s pick live = live
  run-Live m cx (thread fresh) others s pick live =
      round-Live m s live.valid (Kept-less _ (omega arith) (Kept-Picks pick live.kept))
  run-Live m cx (thread woken) others s pick live =
      round-Live m s live.valid (woken_thread-Kept (Kept-Picks pick live.kept))
  run-Live m cx (thread waiting) others s pick live = live

  pub next_id-run_task :
      (m : Moment) (cx : W) (t : Task) (others : List Task) (s : System T S W)
      → (run_task q m cx t others s).next_id ≡ s.next_id
  unfolding run_task
  next_id-run_task m cx (future id fresh) others s = ground arith
  next_id-run_task m cx (future id woken) others s = ground arith
  next_id-run_task m cx (future id waiting) others s = refl
  next_id-run_task m cx (thread fresh) others s = ground arith
  next_id-run_task m cx (thread woken) others s = ground arith
  next_id-run_task m cx (thread waiting) others s = refl
