-- ===== src/AsyncChannel/Calls.antt =====
-- src/base_channel_async.rs: the calls that try and the calls that block, and the handles.
-- A blocking call is modelled by its rounds, as in BaseChannel; a wait puts a thread into the queue
-- of wakers. A timeout that is over leaves the data as the wait has left them.
use rtsc.Prelude.{ℕ, ◌+◌, Bool, Option, none, some, ltb, ◌==◌, if◌then◌else◌}
use rtsc.Error.{channel_closed, channel_empty, channel_full, channel_skipped, Result, ok, err}
use rtsc.DataPolicy.{StorageTryPushOutput, pushed, skipped, full}
use rtsc.Deque.{Moment}
use rtsc.Storage.{ChannelStorage}
use rtsc.BaseChannel.{Next, returns, waits}
use rtsc.AsyncWakers
use rtsc.AsyncWakers.{Woken, nobody, wake_next, append_sync_waker}
use rtsc.AsyncChannel.{AsyncData}

-- How a call, or a round of one, ends, and whom it wakes.
pub record Called (S W R : Type 0) : Type 0 where
  pub result : R
  pub inner : AsyncData S W
  pub woken : Woken W

module _ {S W : Type 0} where
  -- `notify_data_sent`, at the end of a call.
  unfoldable pub data_sent : {R : Type 0} → R → AsyncData S W → Called S W R
  data_sent result d =
      let (woken, recvs) = wake_next d.recvs in
      record { result = result; inner = record d { recvs = recvs }; woken = woken }

  -- `notify_data_received`, at the end of a call.
  unfoldable pub data_received : {R : Type 0} → R → AsyncData S W → Called S W R
  data_received result d =
      let (woken, sends) = wake_next d.sends in
      record { result = result; inner = record d { sends = sends }; woken = woken }

  abbrev pub quiet : {R : Type 0} → R → AsyncData S W → Called S W R
  quiet result d = record { result = result; inner = d; woken = nobody }

  unfoldable pub clone_sender : AsyncData S W → AsyncData S W
  clone_sender d = record d { senders = d.senders + 1 }

  unfoldable pub clone_receiver : AsyncData S W → AsyncData S W
  clone_receiver d = record d { receivers = d.receivers + 1 }

  unfoldable pub sender_is_alive : AsyncData S W → Bool
  sender_is_alive d = ltb 0 d.receivers

  unfoldable pub receiver_is_alive : AsyncData S W → Bool
  receiver_is_alive d = ltb 0 d.senders

module _ {T S W : Type 0} where
  -- The end of `try_send`, for what the storage answers.
  unfoldable pub try_pushed :
      AsyncData S W → StorageTryPushOutput T → Called S W (Result (Unit {0}))
  try_pushed d pushed = data_sent (ok tt) d
  try_pushed d skipped = quiet (err channel_skipped) d
  try_pushed d (full _) = quiet (err channel_full) d

  -- The end of a round of `send_blocking`: a full storage makes it wait.
  unfoldable pub blocking_pushed :
      AsyncData S W → StorageTryPushOutput T → Called S W (Next (Unit {0}) T)
  blocking_pushed d pushed = data_sent (returns (ok tt)) d
  blocking_pushed d skipped = quiet (returns (err channel_skipped)) d
  blocking_pushed d (full value) =
      quiet (waits value) (record d { sends = append_sync_waker d.sends })

  -- The end of a round of `send_blocking_timeout`, which notifies also where the value is skipped.
  unfoldable pub timeout_pushed :
      AsyncData S W → StorageTryPushOutput T → Called S W (Next (Unit {0}) T)
  timeout_pushed d pushed = data_sent (returns (ok tt)) d
  timeout_pushed d skipped = data_sent (returns (err channel_skipped)) d
  timeout_pushed d (full value) =
      quiet (waits value) (record d { sends = append_sync_waker d.sends })

  unfoldable pub try_got : AsyncData S W → Option T → Called S W (Result T)
  try_got d (some value) = data_received (ok value) d
  try_got d none = quiet (err (if d.senders == 0 then channel_closed else channel_empty)) d

  unfoldable pub blocking_got : AsyncData S W → Option T → Called S W (Next T (Unit {0}))
  blocking_got d (some value) = data_received (returns (ok value)) d
  blocking_got d none =
      if d.senders == 0
      then quiet (returns (err channel_closed)) d
      else quiet (waits tt) (record d { recvs = append_sync_waker d.recvs })

module _ {T S W : Type 0} (q : ChannelStorage T S) where
  -- `none` is the panic for a capacity of zero, or of the storage.
  unfoldable pub new : ℕ → Bool → Option (AsyncData S W)
  new capacity ordering =
      if ltb 0 capacity
      then elim (q.with_capacity_and_ordering capacity ordering) [
        | none ↦ none
        | some queue ↦ some (record {
          queue = queue;
          senders = 1;
          receivers = 1;
          sends = AsyncWakers.new;
          recvs = AsyncWakers.new;
        })
      ]
      else none

  unfoldable pub try_send : Moment → AsyncData S W → T → Called S W (Result (Unit {0}))
  try_send m d value =
      let (out, queue) = q.try_push m d.queue value in
      if d.receivers == 0
      then quiet (err channel_closed) d
      else try_pushed (record d { queue = queue }) out

  -- A round of the loop of `send_blocking`.
  unfoldable pub send_blocking : Moment → AsyncData S W → T → Called S W (Next (Unit {0}) T)
  send_blocking m d value =
      let (out, queue) = q.try_push m d.queue value in
      if d.receivers == 0
      then quiet (returns (err channel_closed)) d
      else blocking_pushed (record d { queue = queue }) out

  -- A round of the loop of `send_blocking_timeout`.
  unfoldable pub send_blocking_timeout : Moment → AsyncData S W → T → Called S W (Next (Unit {0}) T)
  send_blocking_timeout m d value =
      let (out, queue) = q.try_push m d.queue value in
      if d.receivers == 0
      then quiet (returns (err channel_closed)) d
      else timeout_pushed (record d { queue = queue }) out

  unfoldable pub try_recv : Moment → AsyncData S W → Called S W (Result T)
  try_recv m d = let (value, queue) = q.get m d.queue in try_got (record d { queue = queue }) value

  -- A round of the loop of `recv_blocking` and `recv_blocking_timeout`.
  unfoldable pub recv_blocking : Moment → AsyncData S W → Called S W (Next T (Unit {0}))
  recv_blocking m d =
      let (value, queue) = q.get m d.queue in blocking_got (record d { queue = queue }) value
