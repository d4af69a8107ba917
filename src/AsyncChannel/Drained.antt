-- ===== src/AsyncChannel/Drained.antt =====
-- src/base_channel_async.rs over `VecDeque`: what it means that a receive finds the channel closed,
-- with polls and calls at any time as in AsyncChannel/Anytime.
use rtsc.Prelude.{ℕ, ◌<◌, ◌≡◌, ◌∙◌, refl, sym, ap, inl, inr, Bool, true, false, [], ◌++◌, arith}
use mathlib.Core.List.{append-nil}
use rtsc.Error.{err, channel_closed}
use rtsc.Deque.{Moment}
use rtsc.Storage.{ChannelStorage, VecDeque, vec_storage}
use rtsc.Storage.Laws.{vec_get-VecGets, vec_get_empty}
use rtsc.AsyncChannel.{
  AsyncData, ready, RecvFuture, recv_poll, recv_runs, recv_gets, recv_waits, recv_drop,
  receiver_drop,
}
use rtsc.AsyncChannel.Calls.{
  data_received, clone_receiver, try_recv, try_got, recv_blocking, blocking_got,
}
use rtsc.AsyncChannel.System.{System, run_try_recv, initial}
use rtsc.AsyncChannel.Anytime.{
  run_recv_poll, run_recv_blocking, Step, polls_send, polls_recv, calls_try_send, calls_try_recv,
  runs_send_blocking, runs_send_timed, runs_recv_blocking, drops_send, drops_recv, clones_sender,
  clones_receiver, drops_sender, drops_receiver, Reach, start, later, Reach-InOrder,
}

module _ {T S W : Type 0} (q : ChannelStorage T S) where
  -- A sender calls, is cloned or is dropped, or is borrowed by a future.
  abbrev uses_sender : {s u : System T S W} → Step q s u → Bool
  uses_sender (polls_send m cx f) = true
  uses_sender (polls_recv m cx f) = false
  uses_sender (calls_try_send m v) = true
  uses_sender (calls_try_recv m) = false
  uses_sender (runs_send_blocking m v) = true
  uses_sender (runs_send_timed m v) = true
  uses_sender (runs_recv_blocking m) = false
  uses_sender (drops_send f) = true
  uses_sender (drops_recv f) = false
  uses_sender clones_sender = true
  uses_sender clones_receiver = false
  uses_sender drops_sender = true
  uses_sender drops_receiver = false

  -- A run in which nobody uses a sender once there is none.
  pub data Run (s : System T S W) : System T S W → Type 0 where
    begins : Run s s
    goes_on :
        {t u : System T S W}
        → Run s t
        → (step : Step q t u) → (uses_sender step ≡ true → 0 < t.inner.senders)
        → Run s u

module _ {T : Type 0} (allocated : ℕ → ℕ) where
  abbrev storage : ChannelStorage T (VecDeque T)
  storage = vec_storage allocated

module _ {T W : Type 0} (allocated : ℕ → ℕ) where
  record IsDrained (s : System T (VecDeque T) W) : Type 0 where
    gone : s.inner.senders ≡ 0
    empty : s.inner.queue.items ≡ []

  record Rests (s u : System T (VecDeque T) W) : Type 0 where
    drained : IsDrained u
    unsent : u.sent ≡ s.sent
    unreceived : u.received ≡ s.received

  Step-Rests :
      {s u : System T (VecDeque T) W} (step : Step (storage allocated) s u)
      → (uses_sender (storage allocated) step ≡ true → 0 < s.inner.senders)
      → IsDrained s
      → Rests s u
  unfolding run_recv_poll recv_poll recv_runs recv_gets recv_waits run_recv_blocking recv_blocking
      blocking_got run_try_recv try_recv try_got recv_drop clone_receiver receiver_drop
      data_received
  Step-Rests {s} (polls_send m cx f) uses h = absurd (omega (arith, uses refl, h.gone))
  Step-Rests {s} (polls_recv m cx f) uses h = ground (arith, vec_get_empty s.inner.queue h.empty)
  Step-Rests {s} (calls_try_send m v) uses h = absurd (omega (arith, uses refl, h.gone))
  Step-Rests {s} (calls_try_recv m) uses h = ground (arith, vec_get_empty s.inner.queue h.empty)
  Step-Rests {s} (runs_send_blocking m v) uses h = absurd (omega (arith, uses refl, h.gone))
  Step-Rests {s} (runs_send_timed m v) uses h = absurd (omega (arith, uses refl, h.gone))
  Step-Rests {s} (runs_recv_blocking m) uses h = ground (arith, vec_get_empty s.inner.queue h.empty)
  Step-Rests {s} (drops_send f) uses h = absurd (omega (arith, uses refl, h.gone))
  Step-Rests {s} (drops_recv f) uses h = ground arith
  Step-Rests {s} clones_sender uses h = absurd (omega (arith, uses refl, h.gone))
  Step-Rests {s} clones_receiver uses h = ground arith
  Step-Rests {s} drops_sender uses h = absurd (omega (arith, uses refl, h.gone))
  Step-Rests {s} drops_receiver uses h = ground arith

  Run-Rests :
      {s u : System T (VecDeque T) W} → IsDrained s → Run (storage allocated) s u → Rests s u
  Run-Rests h begins = ground arith
  Run-Rests h (goes_on r step uses) =
      let before = Run-Rests h r in
      let after = Step-Rests step uses before.drained in
      record {
        drained = after.drained;
        unsent = after.unsent ∙ before.unsent;
        unreceived = after.unreceived ∙ before.unreceived;
      }

  Run-Reach :
      {s u : System T (VecDeque T) W} → Run (storage allocated) s u → Reach (storage allocated) s u
  Run-Reach begins = start
  Run-Reach (goes_on r step uses) = later (Run-Reach r) step

  closed-IsDrained :
      (m : Moment) (cx : W) (f : RecvFuture) (s : System T (VecDeque T) W)
      → (recv_poll (storage allocated) m cx s.inner f).answer ≡ ready (err channel_closed)
      → IsDrained s
  unfolding recv_poll recv_runs recv_gets recv_waits
  closed-IsDrained m cx f s closed = elim (vec_get-VecGets s.inner.queue) [
    | inl (out, empty, same) ↦ ground arith
    | inr (v, out, split, same) ↦ absurd (ground arith)
  ]

-- Polls and calls in any order on a channel over `VecDeque` that starts with an empty queue, of
-- which none uses a sender once there is none: when the poll of a receive finds the channel closed,
-- all that was ever sent has been received, no sender is left, and so it stays, whatever follows.
pub async_closed_when_drained :
    {T W : Type 0} (allocated : ℕ → ℕ) (d : AsyncData (VecDeque T) W)
    → (u v : System T (VecDeque T) W) (m : Moment) (cx : W) (f : RecvFuture) → d.queue.items ≡ []
    → Run (vec_storage allocated) (initial d) u
    → (recv_poll (vec_storage allocated) m cx u.inner f).answer ≡ ready (err channel_closed)
    → Run (vec_storage allocated) u v
    → (v.received ≡ u.sent) × (v.sent ≡ u.sent) × (v.inner.senders ≡ 0)
async_closed_when_drained allocated d u v m cx f empty before closed after =
    let drained = closed-IsDrained allocated m cx f u closed in
    let rests = Run-Rests allocated drained after in
    let in_order =
      Reach-InOrder allocated {s = initial d} (sym empty) (Run-Reach allocated before) in
    let complete : u.sent ≡ u.received =
      in_order ∙ ap (λ items. u.received ++ items) drained.empty ∙ append-nil u.received in
    (rests.unreceived ∙ sym complete, rests.unsent, rests.drained.gone)
