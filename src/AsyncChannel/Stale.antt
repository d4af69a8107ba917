-- ===== src/AsyncChannel/Stale.antt =====
-- src/base_channel_async.rs: wakers that stay in the queue when nobody waits for them any more.
use rtsc.Prelude.{ℕ, ◌≡◌, ◌<◌, ◌==◌, ◌||◌, refl, true, false, some, [], ◌∷◌, arith}
use rtsc.Error.{Result, ok}
use rtsc.Deque.{Moment}
use rtsc.Storage.{ChannelStorage, VecDeque, vec_storage, vec_try_push, vec_get}
use rtsc.AsyncWakers
use rtsc.AsyncWakers.{
  Wakers, one_thread, nobody, confirm_fut_waked, append_sync_waker, append_fut_waker, wake_next,
  wake_next_of,
}
use rtsc.AsyncWakers.Tracked.{queued, IsTracked}
use rtsc.AsyncChannel.{
  AsyncData, pending, ready, RecvPoll, no_wakers, recv_poll, recv_runs, recv_gets, recv_waits,
  recv_drop,
}
use rtsc.AsyncChannel.Calls.{Called, recv_blocking, blocking_got, try_send, try_pushed, data_sent}

-- What happens on an empty channel when a receive in a thread times out, then a future starts to
-- receive, and then a value is sent.
abbrev pub after_timeout :
    {T W : Type 0} (allocated : ℕ → ℕ)
    → Moment
    → W
    → ℕ
    → T
    → AsyncData (VecDeque T) W
    → RecvPoll T (VecDeque T) W × Called (VecDeque T) W (Result (Unit {0}))
after_timeout allocated m cx id v d =
    let q = vec_storage allocated in
    let poll = recv_poll q m cx (recv_blocking q m d).inner (record { id = id; queued = false }) in
    (poll, try_send q m poll.inner v)

-- On an empty channel over `VecDeque` with room, with a sender and a receiver, where nobody waits:
-- when a blocking receive waits until it times out, then a future receives and is pending, and then
-- a value is sent, this wakes a thread, though none waits. The value is stored, and the future is
-- still in the queue.
pub timeout_takes_wake :
    {T W : Type 0} (allocated : ℕ → ℕ) (m : Moment) (cx : W) (id : ℕ) (v : T)
    → (d : AsyncData (VecDeque T) W) → d.queue.items ≡ []
    → 0 < d.queue.capacity
    → 0 < d.senders
    → 0 < d.receivers
    → d.recvs ≡ AsyncWakers.new
    → let (poll, sent) = after_timeout allocated m cx id v d in
      (poll.answer ≡ pending)
      × (sent.result ≡ ok tt)
      × (sent.woken ≡ one_thread)
      × (sent.inner.queue.items ≡ v ∷ [])
      × (sent.inner.recvs.wakers ≡ some (cx, id) ∷ [])
unfolding recv_blocking blocking_got recv_poll recv_runs recv_waits try_send try_pushed data_sent
    wake_next wake_next_of append_sync_waker append_fut_waker vec_get vec_try_push AsyncWakers.new
timeout_takes_wake allocated m cx id v d empty room alive heard unused =
    let has_senders : (d.senders == 0) ≡ false = ground arith in
    let has_receivers : (d.receivers == 0) ≡ false = ground arith in
    let has_room : (0 == d.queue.capacity) ≡ false = ground arith in
    rw (empty, unused, has_senders, has_receivers, has_room) (refl, refl, refl, refl, refl)

-- A future whose waker is in the tracked queue, polled while it was not woken, as `select` and `join`
-- do, on a channel with a value: it returns the value, but its waker stays in the queue, also when
-- the future is dropped after that.
pub early_poll_leaves_waker :
    {T S W : Type 0} (q : ChannelStorage T S) (m : Moment) (cx : W) (d : AsyncData S W) (id : ℕ)
    → (v : T) → IsTracked d.recvs
    → d.recvs.waker_ids id ≡ true
    → (q.get m d.queue).0 ≡ some v
    → let r = recv_poll q m cx d (record { id = id; queued = true }) in
      (r.answer ≡ ready (ok v))
      × (recv_drop r.inner r.future ≡ (nobody, r.inner))
      × (queued id r.inner.recvs ≡ 1)
unfolding recv_poll recv_runs recv_gets confirm_fut_waked recv_drop
early_poll_leaves_waker q m cx d id v tracked listed got =
    let goes : (no_wakers d.recvs.wakers || true) ≡ true = ground arith in
    rw (goes, got) (refl, refl, ground (arith, tracked id))
