-- ===== src/AsyncChannel/Freed.antt =====
-- src/base_channel_async.rs over `VecDeque`: what frees space, and the sends that wait for it.
use rtsc.Prelude.{
  ℕ, suc, ◌-◌, ◌<◌, ◌≡◌, refl, Bool-cases, inl, inr, Option, List, ◌∷◌, ◌||◌, length, arith, ◌==◌,
  Bool, true, false, if◌then◌else◌,
}
use rtsc.Deque.{Moment}
use rtsc.Storage.{VecDeque}
use rtsc.Storage.Laws.{VecGets, vec_get-VecGets}
use rtsc.AsyncWakers.{wake_next, confirm_fut_waked}
use rtsc.AsyncChannel.{
  AsyncData, no_wakers, RecvFuture, recv_poll, recv_runs, recv_gets, recv_waits, receiver_drop,
}
use rtsc.AsyncChannel.Calls.{data_received, try_got, blocking_got, try_recv, recv_blocking}
use rtsc.AsyncChannel.Tasks.{Task, deliver}
use rtsc.AsyncChannel.KeptWakes.{wake_next-Kept, wake_all-Kept}
use rtsc.AsyncChannel.KeptCalls.{senders-Kept}
use rtsc.AsyncChannel.Room.{room, storage, Roomy}

module _ {T W : Type 0} where
  -- A value is got from the front, and a send that waits is woken.
  freed-Roomy :
      {next : ℕ} {ts : List Task} (d : AsyncData (VecDeque T) W) (v : T) (queue : VecDeque T)
      → d.queue.items ≡ v ∷ queue.items
      → queue.capacity ≡ d.queue.capacity
      → Roomy next d ts
      → Roomy next
          (record d { queue = queue; sends = (wake_next d.sends).1 })
          (deliver (wake_next d.sends).0 ts)
  freed-Roomy d v queue split same h =
      let size : length d.queue.items ≡ suc (length queue.items) = rw split refl in
      record {
        fits = omega (arith, size, same, h.fits);
        kept = wake_next-Kept (room queue) (omega (arith, size, same)) h.kept;
      }

  recv_gets-Roomy :
      {next : ℕ} {ts : List Task} (cx : W) (d : AsyncData (VecDeque T) W) (f : RecvFuture)
      (value : Option T) (queue : VecDeque T)
      → VecGets d.queue (value, queue)
      → Roomy next d ts
      → let r = recv_gets cx (record d { queue = queue }) f value in
        Roomy next r.inner (deliver r.woken ts)
  unfolding recv_gets recv_waits deliver
  recv_gets-Roomy cx d f value queue (inl (out, empty, same)) h =
      elim (Bool-cases (d.senders == 0)) [
        | inl e ↦ rw (out, same, e) h
        | inr e ↦ rw (out, same, e) (record { fits = h.fits; kept = h.kept })
      ]
  recv_gets-Roomy cx d f value queue (inr (v, out, split, same)) h =
      rw out (freed-Roomy d v queue split same h)

  got-Roomy :
      {next : ℕ} {ts : List Task} (d : AsyncData (VecDeque T) W) (value : Option T)
      (queue : VecDeque T)
      → VecGets d.queue (value, queue)
      → Roomy next d ts
      → (let c = try_got (record d { queue = queue }) value in
          Roomy next c.inner (deliver c.woken ts))
        × (let c = blocking_got (record d { queue = queue }) value in
            Roomy next c.inner (deliver c.woken ts))
  unfolding try_got blocking_got data_received deliver
  got-Roomy d value queue (inl (out, empty, same)) h = elim (Bool-cases (d.senders == 0)) [
    | inl e ↦ rw (out, same, e) (h, h)
    | inr e ↦ rw (out, same, e) (h, record { fits = h.fits; kept = h.kept })
  ]
  got-Roomy d value queue (inr (v, out, split, same)) h =
      let freed = freed-Roomy d v queue split same h in rw out (freed, freed)

  pub receiver_drop-Roomy :
      {next : ℕ} {ts : List Task} (d : AsyncData (VecDeque T) W)
      → 0 < d.receivers
      → Roomy next d ts
      → let r = receiver_drop d in Roomy next r.1 (deliver r.0 ts)
  unfolding receiver_drop deliver
  receiver_drop-Roomy d alive h = elim (Bool-cases (d.receivers - 1 == 0)) [
    | inl e ↦
        let last : d.receivers - 1 ≡ 0 = ground arith in
        rw e (record { fits = h.fits; kept = rw last (wake_all-Kept h.kept) })
    | inr e ↦ rw e (record {
      fits = h.fits;
      kept = senders-Kept (d.receivers - 1) alive (ground arith) h.kept;
    })
  ]

module _ {T W : Type 0} (allocated : ℕ → ℕ) where
  recv_runs-Roomy :
      {next : ℕ} {ts : List Task} (m : Moment) (cx : W) (f : RecvFuture)
      (d : AsyncData (VecDeque T) W)
      → Roomy next d ts
      → let r = recv_runs (storage allocated) m cx f d in Roomy next r.inner (deliver r.woken ts)
  unfolding recv_runs recv_waits deliver
  recv_runs-Roomy m cx f d h = elim (Bool-cases (no_wakers d.recvs.wakers || f.queued)) [
    | inl goes ↦ rw goes (recv_gets-Roomy cx d f _ _ (vec_get-VecGets d.queue) h)
    | inr late ↦ rw late (record { fits = h.fits; kept = h.kept })
  ]

  confirmed-Roomy :
      {next : ℕ} {ts : List Task} (id : ℕ) (d : AsyncData (VecDeque T) W) (b : Bool)
      → Roomy next d ts
      → Roomy next (if b then record d { recvs = confirm_fut_waked id d.recvs } else d) ts
  confirmed-Roomy id d true h = record { fits = h.fits; kept = h.kept }
  confirmed-Roomy id d false h = h

  pub recv_poll-Roomy :
      {next : ℕ} {ts : List Task} (m : Moment) (cx : W) (d : AsyncData (VecDeque T) W)
      (f : RecvFuture)
      → Roomy next d ts
      → let r = recv_poll (storage allocated) m cx d f in Roomy next r.inner (deliver r.woken ts)
  unfolding recv_poll
  recv_poll-Roomy m cx d f h = recv_runs-Roomy m cx f _ (confirmed-Roomy f.id d f.queued h)

  pub calls-Roomy :
      {next : ℕ} {ts : List Task} (m : Moment) (d : AsyncData (VecDeque T) W)
      → Roomy next d ts
      → (let c = try_recv (storage allocated) m d in Roomy next c.inner (deliver c.woken ts))
        × (let c = recv_blocking (storage allocated) m d in Roomy next c.inner (deliver c.woken ts))
  unfolding try_recv recv_blocking
  calls-Roomy m d h = got-Roomy d _ _ (vec_get-VecGets d.queue) h
