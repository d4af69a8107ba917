-- ===== src/AsyncChannel/Polls.antt =====
-- src/base_channel_async.rs: what a poll leaves of its future.
use rtsc.Prelude.{
  ℕ, ◌≡◌, ◌≢◌, ◌⊎◌, refl, Bool, true, false, ◌||◌, Option, none, some, [], ◌∷◌, arith, Bool-cases,
  count-append, ◌==◌, if◌then◌else◌, inl, inr,
}
use rtsc.DataPolicy.{StorageTryPushOutput, pushed, skipped, full}
use rtsc.Deque.{Moment}
use rtsc.Storage.{ChannelStorage}
use rtsc.AsyncWakers.{Wakers, append_fut_waker, confirm_fut_waked, has_id}
use rtsc.AsyncWakers.Tracked.{queued, IsTracked}
use rtsc.AsyncChannel.{
  AsyncData, pending, panicked, SendFuture, RecvFuture, SendPoll, RecvPoll, no_wakers, send_waits,
  send_pushes, send_tries, send_runs, send_poll, recv_runs, recv_waits, recv_gets, recv_poll,
}

append-queued :
    {W : Type 0} (waker : W) (id : ℕ) (w : Wakers W)
    → IsTracked w
    → queued id (append_fut_waker waker id w) ≡ 1
unfolding append_fut_waker
append-queued waker id w h =
    ground (arith, h id, count-append (has_id id) w.wakers (some (waker, id) ∷ []))

module _ {S W : Type 0} where
  confirmed_sends :
      (id : ℕ) (d : AsyncData S W) (b : Bool)
      → IsTracked d.sends
      → IsTracked (if b then record d { sends = confirm_fut_waked id d.sends } else d).sends
  unfolding confirm_fut_waked
  confirmed_sends id d true h = h
  confirmed_sends id d false h = h

  confirmed_recvs :
      (id : ℕ) (d : AsyncData S W) (b : Bool)
      → IsTracked d.recvs
      → IsTracked (if b then record d { recvs = confirm_fut_waked id d.recvs } else d).recvs
  unfolding confirm_fut_waked
  confirmed_recvs id d true h = h
  confirmed_recvs id d false h = h

module _ {T S W : Type 0} where
  -- A send that is pending waits in the queue, once, with its value; any other does not.
  abbrev pub SendSettled : ℕ → SendPoll T S W → Type 0
  SendSettled id r =
      ((r.answer ≡ pending)
        × (r.future.queued ≡ true)
        × (r.future.value ≢ none)
        × (queued id r.inner.sends ≡ 1))
      ⊎ ((r.answer ≢ pending) × (r.answer ≢ panicked) × (r.future.queued ≡ false))

  send_waits-SendSettled :
      (cx : W) (d : AsyncData S W) (f : SendFuture T)
      → IsTracked d.sends
      → f.value ≢ none
      → SendSettled f.id (send_waits cx d f)
  unfolding send_waits
  send_waits-SendSettled cx d f h v = inl (refl, refl, v, append-queued cx f.id d.sends h)

  send_pushes-SendSettled :
      (cx : W) (d : AsyncData S W) (f : SendFuture T) (out : StorageTryPushOutput T)
      → IsTracked d.sends
      → SendSettled f.id (send_pushes cx d f out)
  unfolding send_pushes
  send_pushes-SendSettled cx d f pushed h = ground arith
  send_pushes-SendSettled cx d f skipped h = ground arith
  send_pushes-SendSettled cx d f (full value) h =
      send_waits-SendSettled cx d (record f { value = some value }) h (λ e. cc)

  send_runs-SendSettled :
      (q : ChannelStorage T S) (m : Moment) (cx : W) (f : SendFuture T) (pc : AsyncData S W) (v : T)
      → IsTracked pc.sends
      → f.value ≡ some v
      → SendSettled f.id (send_runs q m cx f pc)
  unfolding send_runs send_tries send_pushes
  send_runs-SendSettled q m cx f pc v h e = elim (Bool-cases (pc.receivers == 0)) [
    | inl none_left ↦ rw none_left (inr ((λ p. cc), (λ p. cc), refl))
    | inr some_left ↦ elim (Bool-cases (no_wakers pc.sends.wakers || f.queued)) [
      | inl goes ↦
          rw (some_left, goes, e)
            (send_pushes-SendSettled cx (record pc { queue = (q.try_push m pc.queue v).1 }) f
              (q.try_push m pc.queue v).0 h)
      | inr late ↦ rw (some_left, late) (send_waits-SendSettled cx pc f h (λ p. cc))
    ]
  ]

-- Polled with a value, a send never panics; if it is pending, it keeps a value and its waker is in
-- the queue of the tracked sends, once; else it counts as queued no more.
pub send_poll_lem :
    {T S W : Type 0} (q : ChannelStorage T S) (m : Moment) (cx : W) (d : AsyncData S W)
    → (f : SendFuture T) (v : T) → IsTracked d.sends
    → f.value ≡ some v
    → SendSettled f.id (send_poll q m cx d f)
unfolding send_poll
send_poll_lem q m cx d f v h e =
    send_runs-SendSettled q m cx f _ v (confirmed_sends f.id d f.queued h) e

module _ {T S W : Type 0} where
  -- The same for a receive, which has no value to keep.
  abbrev pub RecvSettled : ℕ → RecvPoll T S W → Type 0
  RecvSettled id r =
      ((r.answer ≡ pending) × (r.future.queued ≡ true) × (queued id r.inner.recvs ≡ 1))
      ⊎ ((r.answer ≢ pending) × (r.answer ≢ panicked) × (r.future.queued ≡ false))

  recv_gets-RecvSettled :
      (cx : W) (d : AsyncData S W) (f : RecvFuture) (value : Option T)
      → IsTracked d.recvs
      → RecvSettled f.id (recv_gets cx d f value)
  unfolding recv_gets recv_waits
  recv_gets-RecvSettled cx d f (some value) h = ground arith
  recv_gets-RecvSettled cx d f none h = elim (Bool-cases (d.senders == 0)) [
    | inl e ↦ rw e (ground arith)
    | inr e ↦ rw e (inl (refl, refl, append-queued cx f.id d.recvs h))
  ]

  recv_runs-RecvSettled :
      (q : ChannelStorage T S) (m : Moment) (cx : W) (f : RecvFuture) (pc : AsyncData S W)
      → IsTracked pc.recvs
      → RecvSettled f.id (recv_runs q m cx f pc)
  unfolding recv_runs recv_waits
  recv_runs-RecvSettled q m cx f pc h = elim (Bool-cases (no_wakers pc.recvs.wakers || f.queued)) [
    | inl goes ↦ rw goes (
        recv_gets-RecvSettled cx (record pc { queue = (q.get m pc.queue).1 }) f (q.get m pc.queue).0
          h)
    | inr late ↦ rw late (inl (refl, refl, append-queued cx f.id pc.recvs h))
  ]

-- A receive that is pending after a poll has its waker in the queue of the tracked receives, once;
-- else it has returned, and counts as queued no more.
pub recv_poll_lem :
    {T S W : Type 0} (q : ChannelStorage T S) (m : Moment) (cx : W) (d : AsyncData S W)
    → (f : RecvFuture) → IsTracked d.recvs
    → RecvSettled f.id (recv_poll q m cx d f)
unfolding recv_poll
recv_poll_lem q m cx d f h = recv_runs-RecvSettled q m cx f _ (confirmed_recvs f.id d f.queued h)
