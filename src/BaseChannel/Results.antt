-- ===== src/BaseChannel/Results.antt =====
-- src/base_channel.rs: the blocking and the non-blocking methods.
use rtsc.Prelude.{◌≡◌, arith}
use rtsc.Error.{Error, channel_full, channel_empty, Result, err}
use rtsc.Deque.{Moment}
use rtsc.Storage.{ChannelStorage}
use rtsc.BaseChannel.{
  InnerData, Notify, returns, waits, Round, send_round, recv_round, try_send, try_recv,
}

-- A round, with an error in place of the wait.
abbrev pub no_wait : {S A W : Type 0} → Error → Round S A W → Result A × InnerData S × Notify
no_wait e r = elim r.next [
  | returns result ↦ (result, r.inner, r.notify)
  | waits _ ↦ (err e, r.inner, r.notify)
]

-- `try_send` does what the first round of `send` does, and says that the channel is full where that
-- waits; `try_recv` does what the first round of `recv` does, and says that the channel is empty
-- where that waits.
pub try-eq-round :
    {T S : Type 0} (q : ChannelStorage T S) (m : Moment) (d : InnerData S) (v : T)
    → (try_send q m d v ≡ no_wait channel_full (send_round q m d v))
      × (try_recv q m d ≡ no_wait channel_empty (recv_round q m d))
unfolding try_send try_recv send_round recv_round
try-eq-round q m d v = (ground arith, ground arith)
