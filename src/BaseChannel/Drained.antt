-- ===== src/BaseChannel/Drained.antt =====
-- src/base_channel.rs over `VecDeque`: what it means that a receive finds the channel closed.
use rtsc.Prelude.{
  ℕ, ◌-◌, ◌≤◌, ◌≡◌, ◌∙◌, refl, sym, ap, inl, inr, List, [], ◌∷◌, ◌++◌, arith, count, if◌then◌else◌,
}
use mathlib.Core.List.{append-nil}
use rtsc.Deque.{Moment}
use rtsc.Storage.{ChannelStorage, VecDeque, vec_storage}
use rtsc.Storage.Laws.{vec_get-VecGets, vec_get_empty}
use rtsc.BaseChannel.Tasks.{
  Task, sending, waiting_space, receiving, waiting_data, uses, waits_on, wake, wake_one, wake_all,
  deliver, Picks, Picks-count,
}
use rtsc.Error.{err, channel_closed}
use rtsc.BaseChannel.{
  InnerData, Condvar, Notify, silent, notify_one, notify_all, returns, data_available,
  space_available, send_round, recv_round, try_send, try_recv, clone_sender, clone_receiver,
  drop_sender, drop_receiver,
}
use rtsc.BaseChannel.Fifo.{first_in_first_out}
use rtsc.BaseChannel.System.{
  System, run_task, run_try_send, run_try_recv, Step, call_send, call_recv, run, time_out_send,
  time_out_recv, call_try_send, call_try_recv, clones_sender, clones_receiver, drops_sender,
  drops_receiver, Reach, start, later, initial,
}

module _ {T : Type 0} where
  -- Whoever is woken is still in its call.
  wake-uses : (cv : Condvar) (t : Task T) → uses cv (wake t) ≡ uses cv t
  wake-uses space_available (sending timed v) = refl
  wake-uses space_available (waiting_space timed v) = refl
  wake-uses space_available (receiving timed) = refl
  wake-uses space_available (waiting_data timed) = refl
  wake-uses data_available (sending timed v) = refl
  wake-uses data_available (waiting_space timed v) = refl
  wake-uses data_available (receiving timed) = refl
  wake-uses data_available (waiting_data timed) = refl

  wake_one-uses :
      (cv on : Condvar) (w : ℕ) (ts : List (Task T))
      → count (uses cv) (wake_one on w ts) ≡ count (uses cv) ts
  unfolding wake_one
  wake_one-uses cv on w [] = refl
  wake_one-uses cv on w (t ∷ ts) =
      ground (arith, wake-uses cv t, wake_one-uses cv on (if waits_on on t then w - 1 else w) ts)

  wake_all-uses :
      (cv on : Condvar) (ts : List (Task T)) → count (uses cv) (wake_all on ts) ≡ count (uses cv) ts
  unfolding wake_all
  wake_all-uses cv on [] = refl
  wake_all-uses cv on (t ∷ ts) = ground (arith, wake-uses cv t, wake_all-uses cv on ts)

  deliver-uses :
      (cv : Condvar) (n : Notify) (w : ℕ) (ts : List (Task T))
      → count (uses cv) (deliver n w ts) ≡ count (uses cv) ts
  unfolding deliver
  deliver-uses cv silent w ts = refl
  deliver-uses cv (notify_one on) w ts = wake_one-uses cv on w ts
  deliver-uses cv (notify_all on) w ts = wake_all-uses cv on ts

module _ {T S : Type 0} (q : ChannelStorage T S) where
  -- A send in progress borrows a sender.
  abbrev Borrows : System T S → Type 0
  Borrows s = s.inner.senders ≡ 0 → count (uses space_available) s.tasks ≡ 0

  senders-send_round :
      (m : Moment) (d : InnerData S) (v : T) → (send_round q m d v).inner.senders ≡ d.senders
  unfolding send_round
  senders-send_round m d v = ground arith

  senders-recv_round : (m : Moment) (d : InnerData S) → (recv_round q m d).inner.senders ≡ d.senders
  unfolding recv_round
  senders-recv_round m d = ground arith

  -- A round changes no number of senders, and ends no more than its own call.
  run-uses :
      (m : Moment) (w : ℕ) (t : Task T) (others : List (Task T)) (s : System T S)
      → Picks t s.tasks others
      → let u = run_task q m w t others s in
        (u.inner.senders ≡ s.inner.senders)
        × (count (uses space_available) u.tasks ≤ count (uses space_available) s.tasks)
  unfolding run_task
  run-uses m w (sending timed v) others s pick = ground (
    arith,
    senders-send_round m s.inner v,
    Picks-count (uses space_available) pick,
    deliver-uses space_available (send_round q m s.inner v).notify w others,
  )
  run-uses m w (receiving timed) others s pick = ground (
    arith,
    senders-recv_round m s.inner,
    Picks-count (uses space_available) pick,
    deliver-uses space_available (recv_round q m s.inner).notify w others,
  )
  run-uses m w (waiting_space timed v) others s pick = omega arith
  run-uses m w (waiting_data timed) others s pick = omega arith

  Step-Borrows : {s u : System T S} → Step q s u → Borrows s → Borrows u
  unfolding run_try_send run_try_recv try_send try_recv clone_sender clone_receiver drop_sender
      drop_receiver
  Step-Borrows {s} (call_send timed v alive) h = λ e. absurd (omega (arith, e))
  Step-Borrows {s} (call_recv timed alive) h = λ e. omega (arith, h e)
  Step-Borrows {s} (run m w t others pick) h = λ e. ground (arith, run-uses m w t others s pick, h)
  Step-Borrows {s} (time_out_send v others pick) h =
      λ e. omega (arith, Picks-count (uses space_available) pick, h e)
  Step-Borrows {s} (time_out_recv others pick) h =
      λ e. omega (arith, Picks-count (uses space_available) pick, h e)
  Step-Borrows {s} (call_try_send m w v alive) h =
      λ e. ground (arith, h, deliver-uses space_available (try_send q m s.inner v).2 w s.tasks)
  Step-Borrows {s} (call_try_recv m w alive) h =
      λ e. ground (arith, h, deliver-uses space_available (try_recv q m s.inner).2 w s.tasks)
  Step-Borrows {s} (clones_sender alive) h = λ e. absurd (omega (arith, e))
  Step-Borrows {s} (clones_receiver alive) h = h
  Step-Borrows {s} (drops_sender w alive last) h =
      λ e. ground (arith, h, last, deliver-uses space_available (drop_sender s.inner).1 w s.tasks)
  Step-Borrows {s} (drops_receiver w alive last) h =
      λ e. ground (arith, h, deliver-uses space_available (drop_receiver s.inner).1 w s.tasks)

  Reach-Borrows : {s u : System T S} → Borrows s → Reach q s u → Borrows u
  Reach-Borrows h start = h
  Reach-Borrows h (later r step) = Step-Borrows step (Reach-Borrows h r)

module _ {T : Type 0} (allocated : ℕ → ℕ) where
  abbrev storage : ChannelStorage T (VecDeque T)
  storage = vec_storage allocated

  -- No sender is left, no send is in progress, and nothing is stored.
  record IsDrained (s : System T (VecDeque T)) : Type 0 where
    gone : s.inner.senders ≡ 0
    idle : count (uses space_available) s.tasks ≡ 0
    empty : s.inner.queue.items ≡ []

  record Rests (s u : System T (VecDeque T)) : Type 0 where
    drained : IsDrained u
    unsent : u.sent ≡ s.sent
    unreceived : u.received ≡ s.received

  run-Rests :
      (m : Moment) (w : ℕ) (t : Task T) (others : List (Task T)) (s : System T (VecDeque T))
      → Picks t s.tasks others
      → IsDrained s
      → Rests s (run_task storage m w t others s)
  unfolding run_task recv_round deliver
  run-Rests m w (sending timed v) others s pick h =
      absurd (omega (arith, Picks-count (uses space_available) pick, h.idle))
  run-Rests m w (receiving timed) others s pick h =
      ground (arith, vec_get_empty s.inner.queue h.empty, Picks-count (uses space_available) pick)
  run-Rests m w (waiting_space timed v) others s pick h = ground arith
  run-Rests m w (waiting_data timed) others s pick h = ground arith

  Step-Rests : {s u : System T (VecDeque T)} → Step storage s u → IsDrained s → Rests s u
  unfolding run_try_recv try_recv clone_receiver drop_receiver deliver
  Step-Rests {s} (call_send timed v alive) h = absurd (omega (arith, h.gone))
  Step-Rests {s} (call_recv timed alive) h = ground arith
  Step-Rests {s} (run m w t others pick) h = run-Rests m w t others s pick h
  Step-Rests {s} (time_out_send v others pick) h =
      ground (arith, Picks-count (uses space_available) pick)
  Step-Rests {s} (time_out_recv others pick) h =
      ground (arith, Picks-count (uses space_available) pick)
  Step-Rests {s} (call_try_send m w v alive) h = absurd (omega (arith, h.gone))
  Step-Rests {s} (call_try_recv m w alive) h = ground (arith, vec_get_empty s.inner.queue h.empty)
  Step-Rests {s} (clones_sender alive) h = absurd (omega (arith, h.gone))
  Step-Rests {s} (clones_receiver alive) h = ground arith
  Step-Rests {s} (drops_sender w alive last) h = absurd (omega (arith, h.gone))
  Step-Rests {s} (drops_receiver w alive last) h =
      ground (arith, wake_all-uses space_available data_available s.tasks)

  Reach-Rests : {s u : System T (VecDeque T)} → IsDrained s → Reach storage s u → Rests s u
  Reach-Rests h start = ground arith
  Reach-Rests h (later r step) =
      let before = Reach-Rests h r in
      let after = Step-Rests step before.drained in
      record {
        drained = after.drained;
        unsent = after.unsent ∙ before.unsent;
        unreceived = after.unreceived ∙ before.unreceived;
      }

  closed-IsDrained :
      (m : Moment) (s : System T (VecDeque T))
      → Borrows storage s
      → (recv_round storage m s.inner).next ≡ returns (err channel_closed)
      → IsDrained s
  unfolding recv_round
  closed-IsDrained m s borrows closed = elim (vec_get-VecGets s.inner.queue) [
    | inl (out, empty, same) ↦
        let gone : s.inner.senders ≡ 0 = ground arith in
        record { gone = gone; idle = borrows gone; empty = empty }
    | inr (v, out, split, same) ↦ absurd (ground arith)
  ]

-- However the calls on a channel over `VecDeque` interleave that starts with an empty queue and no
-- calls: once a receive finds the channel closed, all that was ever sent has been received, no sender
-- is left, and so it stays, whatever steps follow.
pub closed_when_drained :
    {T : Type 0} (allocated : ℕ → ℕ) (d : InnerData (VecDeque T)) (u v : System T (VecDeque T))
    → (m : Moment) → d.queue.items ≡ []
    → Reach (vec_storage allocated) (initial d) u
    → (recv_round (vec_storage allocated) m u.inner).next ≡ returns (err channel_closed)
    → Reach (vec_storage allocated) u v
    → (v.received ≡ u.sent) × (v.sent ≡ u.sent) × (v.inner.senders ≡ 0)
closed_when_drained allocated d u v m empty before closed after =
    let borrows = Reach-Borrows (vec_storage allocated) {s = initial d} (λ e. refl) before in
    let drained = closed-IsDrained allocated m u borrows closed in
    let rests = Reach-Rests allocated drained after in
    let complete : u.sent ≡ u.received =
      first_in_first_out allocated d u empty before
      ∙ ap (λ items. u.received ++ items) drained.empty
      ∙ append-nil u.received in
    (rests.unreceived ∙ sym complete, rests.unsent, rests.drained.gone)
