-- ===== src/AsyncChannel.antt =====
-- src/base_channel_async.rs: the futures `Send` and `Recv`, and the drops of futures and handles.
-- Each poll and drop runs under the mutex and is a function of the data that this protects,
-- of the storage `q`, and for a poll of its waker. It tells whom it wakes.
pub mod Polls
pub mod Calls
pub mod Tasks
pub mod System
pub mod Attached
pub mod Kept
pub mod KeptWakes
pub mod KeptCalls
pub mod Runs
pub mod Sends
pub mod Waiting
pub mod Fifo
pub mod Stale
pub mod Anytime
pub mod Drained
pub mod Made
pub mod SendSystem
pub mod Room
pub mod Freed
pub mod Space
use rtsc.Prelude.{
  ℕ, ◌+◌, ◌-◌, Bool, true, false, ◌||◌, Option, none, some, List, [], ◌∷◌, ◌==◌, if◌then◌else◌,
}
use rtsc.Error.{
  Error, channel_closed, channel_empty, channel_full, channel_skipped, Result, ok, err,
}
use rtsc.DataPolicy.{StorageTryPushOutput, pushed, skipped, full}
use rtsc.Deque.{Moment}
use rtsc.Storage.{ChannelStorage}
use rtsc.AsyncWakers.{
  Wakers, Woken, nobody, wake_next, wake_all, notify_fut_drop, confirm_fut_waked, append_fut_waker,
}

pub record AsyncData (S W : Type 0) : Type 0 where
  pub queue : S
  pub senders : ℕ
  pub receivers : ℕ
  pub sends : Wakers W
  pub recvs : Wakers W

pub data Poll (A : Type 0) : Type 0 where
  ready : Result A → Poll A
  pending : Poll A
  panicked : Poll A

pub record SendFuture (T : Type 0) : Type 0 where
  pub id : ℕ
  pub queued : Bool
  pub value : Option T

pub record RecvFuture : Type 0 where
  pub id : ℕ
  pub queued : Bool

abbrev pub no_wakers : {A : Type 0} → List A → Bool
no_wakers [] = true
no_wakers (_ ∷ _) = false

-- What a poll of a send leaves: its answer, the future, the data, and whom it wakes.
pub record SendPoll (T S W : Type 0) : Type 0 where
  pub answer : Poll (Unit {0})
  pub future : SendFuture T
  pub inner : AsyncData S W
  pub woken : Woken W

-- The same for a poll of a receive.
pub record RecvPoll (T S W : Type 0) : Type 0 where
  pub answer : Poll T
  pub future : RecvFuture
  pub inner : AsyncData S W
  pub woken : Woken W

module _ {T S W : Type 0} where
  unfoldable pub send_waits : W → AsyncData S W → SendFuture T → SendPoll T S W
  send_waits cx d f = record {
    answer = pending;
    future = record f { queued = true };
    inner = record d { sends = append_fut_waker cx f.id d.sends };
    woken = nobody;
  }

  unfoldable pub send_pushes :
      W → AsyncData S W → SendFuture T → StorageTryPushOutput T → SendPoll T S W
  send_pushes cx d f pushed =
      let (woken, recvs) = wake_next d.recvs in
      record {
        answer = ready (ok tt);
        future = record f { queued = false; value = none };
        inner = record d { recvs = recvs };
        woken = woken;
      }
  send_pushes cx d f skipped = record {
    answer = ready (err channel_skipped);
    future = record f { queued = false; value = none };
    inner = d;
    woken = nobody;
  }
  send_pushes cx d f (full value) = send_waits cx d (record f { value = some value })

  unfoldable pub recv_waits : W → AsyncData S W → RecvFuture → RecvPoll T S W
  recv_waits cx d f = record {
    answer = pending;
    future = record f { queued = true };
    inner = record d { recvs = append_fut_waker cx f.id d.recvs };
    woken = nobody;
  }

  unfoldable pub recv_gets : W → AsyncData S W → RecvFuture → Option T → RecvPoll T S W
  recv_gets cx d f (some value) =
      let (woken, sends) = wake_next d.sends in
      record {
        answer = ready (ok value);
        future = record f { queued = false };
        inner = record d { sends = sends };
        woken = woken;
      }
  recv_gets cx d f none =
      if d.senders == 0
      then record {
        answer = ready (err channel_closed);
        future = record f { queued = false };
        inner = d;
        woken = nobody;
      }
      else recv_waits cx d f

module _ {T S W : Type 0} (q : ChannelStorage T S) where
  unfoldable pub send_tries : Moment → W → AsyncData S W → SendFuture T → Option T → SendPoll T S W
  send_tries m cx d f none = record { answer = panicked; future = f; inner = d; woken = nobody }
  send_tries m cx d f (some value) =
      let (out, queue) = q.try_push m d.queue value in
      send_pushes cx (record d { queue = queue }) f out

  -- `poll`, once a future that was queued has confirmed that it was woken.
  unfoldable pub send_runs : Moment → W → SendFuture T → AsyncData S W → SendPoll T S W
  send_runs m cx f pc =
      if pc.receivers == 0
      then record {
        answer = ready (err channel_closed);
        future = record f { queued = false };
        inner = pc;
        woken = nobody;
      }
      else if no_wakers pc.sends.wakers || f.queued
      then send_tries m cx pc f f.value
      else send_waits cx pc f

  unfoldable pub send_poll : Moment → W → AsyncData S W → SendFuture T → SendPoll T S W
  send_poll m cx d f =
      send_runs m cx f (if f.queued then record d { sends = confirm_fut_waked f.id d.sends } else d)

  unfoldable pub recv_runs : Moment → W → RecvFuture → AsyncData S W → RecvPoll T S W
  recv_runs m cx f pc =
      let (value, queue) = q.get m pc.queue in
      if no_wakers pc.recvs.wakers || f.queued
      then recv_gets cx (record pc { queue = queue }) f value
      else recv_waits cx pc f

  unfoldable pub recv_poll : Moment → W → AsyncData S W → RecvFuture → RecvPoll T S W
  recv_poll m cx d f =
      recv_runs m cx f (if f.queued then record d { recvs = confirm_fut_waked f.id d.recvs } else d)

module _ {T S W : Type 0} where
  unfoldable pub send_drop : AsyncData S W → SendFuture T → Woken W × AsyncData S W
  send_drop d f =
      let (woken, sends) = notify_fut_drop f.id d.sends in
      if f.queued then (woken, record d { sends = sends }) else (nobody, d)

module _ {S W : Type 0} where
  unfoldable pub recv_drop : AsyncData S W → RecvFuture → Woken W × AsyncData S W
  recv_drop d f =
      let (woken, recvs) = notify_fut_drop f.id d.recvs in
      if f.queued then (woken, record d { recvs = recvs }) else (nobody, d)

  unfoldable pub sender_drop : AsyncData S W → Woken W × AsyncData S W
  sender_drop d =
      let left : AsyncData S W = record d { senders = d.senders - 1 } in
      let (woken, recvs) = wake_all left.recvs in
      if left.senders == 0 then (woken, record left { recvs = recvs }) else (nobody, left)

  unfoldable pub receiver_drop : AsyncData S W → Woken W × AsyncData S W
  receiver_drop d =
      let left : AsyncData S W = record d { receivers = d.receivers - 1 } in
      let (woken, sends) = wake_all left.sends in
      if left.receivers == 0 then (woken, record left { sends = sends }) else (nobody, left)
