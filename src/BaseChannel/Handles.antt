-- ===== src/BaseChannel/Handles.antt =====
-- src/base_channel.rs: the handles as trait objects, and the receiver as an iterator.
use rtsc.Prelude.{Bool, Option, none, some}
use rtsc.Error.{Result, ok, err, unimplemented}
use rtsc.Deque.{Moment}
use rtsc.Storage.{ChannelStorage}
use rtsc.BaseChannel.{
  InnerData, returns, waits, Notify, silent, Round, send_round, recv_round, try_send, try_recv,
  sender_is_alive, receiver_is_alive,
}

-- `BaseSender` or `BaseReceiver` as a `DataChannel`.
pub data Handle : Type 0 where
  base_sender base_receiver : Handle

module _ {T S : Type 0} (q : ChannelStorage T S) where
  -- A round of `send`.
  unfoldable pub handle_send : Handle → Moment → InnerData S → T → Round S (Unit {0}) T
  handle_send base_sender m d value = send_round q m d value
  handle_send base_receiver m d value = record {
    next = returns (err unimplemented);
    inner = d;
    notify = silent;
  }

  unfoldable pub handle_try_send :
      Handle → Moment → InnerData S → T → Result (Unit {0}) × InnerData S × Notify
  handle_try_send base_sender m d value = try_send q m d value
  handle_try_send base_receiver m d value = (err unimplemented, d, silent)

  -- A round of `recv`.
  unfoldable pub handle_recv : Handle → Moment → InnerData S → Round S T (Unit {0})
  handle_recv base_sender m d = record {
    next = returns (err unimplemented);
    inner = d;
    notify = silent;
  }
  handle_recv base_receiver m d = recv_round q m d

  unfoldable pub handle_try_recv : Handle → Moment → InnerData S → Result T × InnerData S × Notify
  handle_try_recv base_sender m d = (err unimplemented, d, silent)
  handle_try_recv base_receiver m d = try_recv q m d

  unfoldable pub handle_is_alive : Handle → InnerData S → Bool
  handle_is_alive base_sender d = sender_is_alive d
  handle_is_alive base_receiver d = receiver_is_alive d

  -- `Iterator::next`, by a round of `recv`: `none` where it waits, else what the iterator answers.
  unfoldable pub next : Moment → InnerData S → Option (Option T) × InnerData S × Notify
  next m d =
      let round = recv_round q m d in
      elim round.next [
        | returns (ok value) ↦ (some (some value), round.inner, round.notify)
        | returns (err _) ↦ (some none, round.inner, round.notify)
        | waits _ ↦ (none, round.inner, round.notify)
      ]
