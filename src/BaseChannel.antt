-- ===== src/BaseChannel.antt =====
-- src/base_channel.rs: the sync channel over any storage.
-- `ChannelInner` is a monitor: each method runs under the mutex, but for the waits on its two
-- condition variables. So a method is modelled by its rounds, the code from one wait to the next:
-- a round is a function of the data that the mutex protects, and tells whether the method returns
-- or waits, and whom it notifies. BaseChannel/System runs threads over these rounds.
pub mod Tasks
pub mod System
pub mod Receivers
pub mod Senders
pub mod Orphans
pub mod Fifo
pub mod Results
pub mod Handles
pub mod Identity
pub mod Drained
use rtsc.Prelude.{ℕ, ◌+◌, ◌-◌, Bool, true, false, Option, none, some, ltb, ◌==◌, if◌then◌else◌}
use rtsc.Error.{
  Error, channel_full, channel_skipped, channel_closed, channel_empty, unimplemented, Result, ok,
  err,
}
use rtsc.DataPolicy.{StorageTryPushOutput, pushed, skipped, full}
use rtsc.Deque.{Moment}
use rtsc.Storage.{ChannelStorage}

pub record InnerData (S : Type 0) : Type 0 where
  pub queue : S
  pub senders : ℕ
  pub receivers : ℕ

pub data Condvar : Type 0 where
  data_available space_available : Condvar

pub data Notify : Type 0 where
  silent : Notify
  notify_one notify_all : Condvar → Notify

-- How a round ends: the method returns, or waits on its condition variable, for which it keeps `W`.
pub data Next (A W : Type 0) : Type 0 where
  returns : Result A → Next A W
  waits : W → Next A W

pub record Round (S A W : Type 0) : Type 0 where
  pub next : Next A W
  pub inner : InnerData S
  pub notify : Notify

module _ {T S : Type 0} (q : ChannelStorage T S) where
  -- `none` is the panic of `InnerData::new`, or of the storage.
  unfoldable pub new : ℕ → Bool → Option (InnerData S)
  new capacity ordering =
      if ltb 0 capacity
      then elim (q.with_capacity_and_ordering capacity ordering) [
        | none ↦ none
        | some queue ↦ some (record { queue = queue; senders = 1; receivers = 1 })
      ]
      else none

  after_push : InnerData S → StorageTryPushOutput T → Round S (Unit {0}) T
  after_push d pushed = record {
    next = returns (ok tt);
    inner = d;
    notify = notify_one data_available;
  }
  after_push d skipped = record { next = returns (err channel_skipped); inner = d; notify = silent }
  after_push d (full value) = record { next = waits value; inner = d; notify = silent }

  -- A round of the loop of `send` and `send_timeout`, which waits on `space_available`.
  unfoldable pub send_round : Moment → InnerData S → T → Round S (Unit {0}) T
  unfolding after_push
  send_round m d value =
      let (out, queue) = q.try_push m d.queue value in
      if d.receivers == 0
      then record { next = returns (err channel_closed); inner = d; notify = silent }
      else after_push (record d { queue = queue }) out

  after_get : InnerData S → Option T → Round S T (Unit {0})
  after_get d (some value) = record {
    next = returns (ok value);
    inner = d;
    notify = notify_one space_available;
  }
  after_get d none =
      if d.senders == 0
      then record { next = returns (err channel_closed); inner = d; notify = silent }
      else record { next = waits tt; inner = d; notify = silent }

  -- A round of the loop of `recv` and `recv_timeout`, which waits on `data_available`.
  unfoldable pub recv_round : Moment → InnerData S → Round S T (Unit {0})
  unfolding after_get
  recv_round m d =
      let (value, queue) = q.get m d.queue in after_get (record d { queue = queue }) value

  -- `try_send` and `try_recv` are such a round, with an error in place of the wait.
  unfoldable pub try_send : Moment → InnerData S → T → Result (Unit {0}) × InnerData S × Notify
  try_send m d value =
      let (out, queue) = q.try_push m d.queue value in
      let d' : InnerData S = record d { queue = queue } in
      if d.receivers == 0 then (err channel_closed, d, silent) else elim out [
        | pushed ↦ (ok tt, d', notify_one data_available)
        | skipped ↦ (err channel_skipped, d', silent)
        | full _ ↦ (err channel_full, d', silent)
      ]

  unfoldable pub try_recv : Moment → InnerData S → Result T × InnerData S × Notify
  try_recv m d =
      let (value, queue) = q.get m d.queue in
      let d' : InnerData S = record d { queue = queue } in
      elim value [
        | some v ↦ (ok v, d', notify_one space_available)
        | none ↦
            if d.senders == 0
            then (err channel_closed, d', silent)
            else (err channel_empty, d', silent)
      ]

module _ {S : Type 0} where
  unfoldable pub clone_sender : InnerData S → InnerData S
  clone_sender d = record d { senders = d.senders + 1 }

  unfoldable pub drop_sender : InnerData S → InnerData S × Notify
  drop_sender d =
      let d' : InnerData S = record d { senders = d.senders - 1 } in
      (d', if d'.senders == 0 then notify_all data_available else silent)

  unfoldable pub clone_receiver : InnerData S → InnerData S
  clone_receiver d = record d { receivers = d.receivers + 1 }

  unfoldable pub drop_receiver : InnerData S → InnerData S × Notify
  drop_receiver d =
      let d' : InnerData S = record d { receivers = d.receivers - 1 } in
      (d', if d'.receivers == 0 then notify_all data_available else silent)

  pub sender_is_alive : InnerData S → Bool
  sender_is_alive d = ltb 0 d.receivers

  pub receiver_is_alive : InnerData S → Bool
  receiver_is_alive d = ltb 0 d.senders
