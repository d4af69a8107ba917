-- ===== src/AsyncChannel/Room.antt =====
-- src/base_channel_async.rs over `VecDeque`: the room for values, and sends that run.
use rtsc.Prelude.{
  ℕ, ◌-◌, ◌≡◌, ◌≢◌, true, false, Bool-cases, inl, inr, some, List, [], ◌∷◌, ◌||◌, length,
  length-append, arith, ◌==◌,
}
use rtsc.Deque.{Moment}
use rtsc.Storage.{ChannelStorage, VecDeque, vec_storage, vec_try_push}
use rtsc.Storage.Laws.{VecFits, vec_push-VecPushes}
use rtsc.AsyncWakers.{Wakers, confirm_fut_waked}
use rtsc.AsyncChannel.{
  AsyncData, SendFuture, no_wakers, send_poll, send_runs, send_tries, send_pushes, send_waits,
}
use rtsc.AsyncChannel.Calls.{data_sent, try_pushed, blocking_pushed, try_send, send_blocking}
use rtsc.AsyncChannel.Tasks.{fresh, woken, Task, future, thread}
use rtsc.AsyncChannel.Attached.{Kept, Kept-less}
use rtsc.AsyncChannel.Kept.{
  woken_future-Kept, fresh_future-Kept, fresh_thread-Kept, wait_future-Kept, wait_thread-Kept,
}
use rtsc.AsyncChannel.Runs.{some_wakers}
use rtsc.AsyncChannel.SendSystem.{SendSystem, after_send_poll, after_send_round, run_send}

abbrev pub room : {T : Type 0} → VecDeque T → ℕ
room q = q.capacity - length q.items

module _ {W : Type 0} where
  -- Where nobody may wait, any number of values is covered.
  Kept-none :
      {k next n : ℕ} {w : Wakers W} {ts : List Task} (n' : ℕ)
      → k ≡ 0
      → Kept k next n w ts
      → Kept k next n' w ts
  Kept-none n' gone h = record {
    tracked = h.tracked;
    attached = h.attached;
    unique = h.unique;
    new_ids = h.new_ids;
    covered = λ some_wait. absurd (omega (arith, h.closed gone));
    closed = h.closed;
    pendings = h.pendings;
    settled = h.settled;
  }

module _ {T W : Type 0} where
  -- What holds of a channel whose queue of sends is kept.
  pub record Roomy (next : ℕ) (d : AsyncData (VecDeque T) W) (ts : List Task) : Type 0 where
    pub fits : VecFits d.queue
    pub kept : Kept d.receivers next (room d.queue) d.sends ts

module _ {T : Type 0} (allocated : ℕ → ℕ) where
  abbrev pub storage : ChannelStorage T (VecDeque T)
  storage = vec_storage allocated

module _ {T W : Type 0} (allocated : ℕ → ℕ) where
  send_pushes-Roomy :
      {next : ℕ} {ts : List Task} (cx : W) (s : SendSystem (VecDeque T) W)
      (d : AsyncData (VecDeque T) W) (f : SendFuture T) (v : T)
      → d.receivers ≢ 0
      → VecFits d.queue
      → Kept d.receivers next (room d.queue - 1) d.sends (future f.id fresh ∷ ts)
      → let (out, queue) = vec_try_push d.queue v in
        let u = after_send_poll f.id (send_pushes cx (record d { queue = queue }) f out) ts s in
        Roomy next u.inner u.tasks
  unfolding send_pushes send_waits
  send_pushes-Roomy cx s d f v alive fits h = elim (vec_push-VecPushes d.queue v) [
    | inl (out, e, no_limit) ↦
        let size = length-append d.queue.items (v ∷ []) in
        rw (out, e)
          (record {
            fits = omega (arith, size);
            kept = Kept-less _ (omega (arith, size)) (fresh_future-Kept f.id h);
          })
    | inr (out, e, limit) ↦
        rw (out, e)
          (record {
            fits = fits;
            kept = wait_future-Kept cx f.id alive (inl (omega arith)) (Kept-less _ (omega arith) h);
          })
  ]

  pub run_fresh-Roomy :
      (m : Moment) (cx : W) (v : T) (id : ℕ) (others : List Task) (s : SendSystem (VecDeque T) W)
      → VecFits s.inner.queue
      → Kept s.inner.receivers s.next_id
          (room s.inner.queue)
          s.inner.sends
          (future id fresh ∷ others)
      → let u = run_send (storage allocated) m cx v (future id fresh) others s in
        Roomy s.next_id u.inner u.tasks
  unfolding run_send send_poll send_runs send_tries send_waits
  run_fresh-Roomy m cx v id others s fits h =
      let d = s.inner in
      elim (Bool-cases (d.receivers == 0)) [
        | inl e ↦ rw e (record { fits = fits; kept = fresh_future-Kept id h })
        | inr e ↦ elim (Bool-cases (no_wakers d.sends.wakers || false)) [
          | inl goes ↦
              rw (e, goes)
                (send_pushes-Roomy cx s d (record { id = id; queued = false; value = some v }) v
                  (ground arith) fits (Kept-less _ (omega arith) h))
          | inr late ↦
              rw (e, late)
                (record {
                  fits = fits;
                  kept =
                      wait_future-Kept cx id (ground arith) (inr (some_wakers d.sends.wakers late))
                        h;
                })
        ]
      ]

  pub run_woken-Roomy :
      (m : Moment) (cx : W) (v : T) (id : ℕ) (others : List Task) (s : SendSystem (VecDeque T) W)
      → VecFits s.inner.queue
      → Kept s.inner.receivers s.next_id
          (room s.inner.queue)
          s.inner.sends
          (future id woken ∷ others)
      → let u = run_send (storage allocated) m cx v (future id woken) others s in
        Roomy s.next_id u.inner u.tasks
  unfolding run_send send_poll send_runs send_tries
  run_woken-Roomy m cx v id others s fits h =
      let d : AsyncData (VecDeque T) W = record s.inner {
        sends = confirm_fut_waked id s.inner.sends;
      } in
      let goes : (no_wakers d.sends.wakers || true) ≡ true = ground arith in
      elim (Bool-cases (d.receivers == 0)) [
        | inl e ↦ rw e (record {
          fits = fits;
          kept = Kept-none _ (ground arith) (fresh_future-Kept id (woken_future-Kept id h));
        })
        | inr e ↦
            rw (e, goes)
              (send_pushes-Roomy cx s d (record { id = id; queued = true; value = some v }) v
                (ground arith) fits (woken_future-Kept id h))
      ]

  pub round-Roomy :
      {next : ℕ} {ts : List Task} (m : Moment) (v : T) (s : SendSystem (VecDeque T) W)
      → VecFits s.inner.queue
      → Kept s.inner.receivers next (room s.inner.queue - 1) s.inner.sends (thread fresh ∷ ts)
      → let u = after_send_round (send_blocking (storage allocated) m s.inner v) ts s in
        Roomy next u.inner u.tasks
  unfolding send_blocking blocking_pushed data_sent
  round-Roomy m v s fits h =
      let d = s.inner in
      elim (Bool-cases (d.receivers == 0)) [
        | inl e ↦
            rw e (record { fits = fits; kept = Kept-none _ (ground arith) (fresh_thread-Kept h) })
        | inr e ↦ elim (vec_push-VecPushes d.queue v) [
          | inl (out, pushes, no_limit) ↦
              let size = length-append d.queue.items (v ∷ []) in
              rw (e, out, pushes)
                (record {
                  fits = omega (arith, size);
                  kept = Kept-less _ (omega (arith, size)) (fresh_thread-Kept h);
                })
          | inr (out, same, limit) ↦
              rw (e, out, same)
                (record {
                  fits = fits;
                  kept =
                      wait_thread-Kept (ground arith) (omega arith) (Kept-less _ (omega arith) h);
                })
        ]
      ]

  pub try_send-Roomy :
      {next : ℕ} {ts : List Task} (m : Moment) (v : T) (d : AsyncData (VecDeque T) W)
      → Roomy next d ts
      → Roomy next (try_send (storage allocated) m d v).inner ts
  unfolding try_send try_pushed data_sent
  try_send-Roomy m v d h = elim (Bool-cases (d.receivers == 0)) [
    | inl e ↦ rw e h
    | inr e ↦ elim (vec_push-VecPushes d.queue v) [
      | inl (out, pushes, no_limit) ↦
          let size = length-append d.queue.items (v ∷ []) in
          rw (e, out, pushes)
            (record {
              fits = omega (arith, size, h.fits);
              kept = Kept-less _ (omega (arith, size)) h.kept;
            })
      | inr (out, same, limit) ↦ rw (e, out, same) h
    ]
  ]
