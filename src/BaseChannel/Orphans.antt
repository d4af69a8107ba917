-- ===== src/BaseChannel/Orphans.antt =====
-- src/base_channel.rs: what becomes of waiting sends when the last receiver is dropped.
-- `Drop for BaseReceiver` notifies `data_available`, on which receives wait, and not
-- `space_available`, on which sends wait.
use rtsc.Prelude.{ℕ, ◌≤◌, ◌≡◌, ◌∙◌, Bool, true, false, List, [], ◌∷◌, arith, count}
use native.Mathlib.Nat.{le_trans}
use rtsc.Deque.{Moment}
use rtsc.Storage.{ChannelStorage}
use rtsc.BaseChannel.Tasks.{
  Task, sending, waiting_space, receiving, waiting_data, uses, wake_all, deliver, Picks,
  Picks-count,
}
use rtsc.Error.{err, channel_closed}
use rtsc.BaseChannel.{
  returns, data_available, send_round, try_send, clone_sender, drop_sender, drop_receiver,
}
use rtsc.BaseChannel.System.{
  System, run_task, run_try_send, after_drop, Step, call_send, call_recv, run, time_out_send,
  time_out_recv, call_try_send, call_try_recv, clones_sender, clones_receiver, drops_sender,
  drops_receiver, Reach, start, later,
}

module _ {T : Type 0} where
  -- A send that waits, with no timeout.
  abbrev pub is_waiting_send : Task T → Bool
  is_waiting_send (waiting_space false _) = true
  is_waiting_send _ = false

  wake_all_data-keeps :
      (ts : List (Task T))
      → (count is_waiting_send (wake_all data_available ts) ≡ count is_waiting_send ts)
        × (count (uses data_available) (wake_all data_available ts)
            ≡ count (uses data_available) ts)
  unfolding wake_all
  wake_all_data-keeps [] = omega arith
  wake_all_data-keeps (t ∷ ts) = ground (arith, wake_all_data-keeps ts)

module _ {T S : Type 0} (q : ChannelStorage T S) where
  -- No receiver is left, and no receive is in progress.
  record IsOrphaned (s : System T S) : Type 0 where
    none_left : s.inner.receivers ≡ 0
    none_busy : count (uses data_available) s.tasks ≡ 0

  record Keeps (s u : System T S) : Type 0 where
    orphaned : IsOrphaned u
    kept : count is_waiting_send s.tasks ≤ count is_waiting_send u.tasks
    unsent : u.sent ≡ s.sent
    unreceived : u.received ≡ s.received
    untouched : u.inner.queue ≡ s.inner.queue

  run-Keeps :
      (m : Moment) (w : ℕ) (t : Task T) (others : List (Task T)) (s : System T S)
      → Picks t s.tasks others
      → IsOrphaned s
      → Keeps s (run_task q m w t others s)
  unfolding run_task send_round deliver
  run-Keeps m w (sending timed v) others s pick h =
      ground (arith, Picks-count is_waiting_send pick, Picks-count (uses data_available) pick)
  run-Keeps m w (receiving timed) others s pick h =
      absurd (omega (arith, Picks-count (uses data_available) pick, h.none_busy))
  run-Keeps m w (waiting_space timed v) others s pick h = ground arith
  run-Keeps m w (waiting_data timed) others s pick h = ground arith

  Step-Keeps : {s u : System T S} → Step q s u → IsOrphaned s → Keeps s u
  unfolding run_try_send try_send clone_sender drop_sender deliver
  Step-Keeps {s} (call_send timed v alive) h = ground arith
  Step-Keeps {s} (call_recv timed alive) h = absurd (omega (arith, h.none_left))
  Step-Keeps {s} (run m w t others pick) h = run-Keeps m w t others s pick h
  Step-Keeps {s} (time_out_send v others pick) h =
      ground (arith, Picks-count is_waiting_send pick, Picks-count (uses data_available) pick)
  Step-Keeps {s} (time_out_recv others pick) h =
      ground (arith, Picks-count is_waiting_send pick, Picks-count (uses data_available) pick)
  Step-Keeps {s} (call_try_send m w v alive) h = ground arith
  Step-Keeps {s} (call_try_recv m w alive) h = absurd (omega (arith, h.none_left))
  Step-Keeps {s} (clones_sender alive) h = ground arith
  Step-Keeps {s} (clones_receiver alive) h = absurd (omega (arith, h.none_left))
  Step-Keeps {s} (drops_sender w alive last) h = ground (arith, wake_all_data-keeps s.tasks)
  Step-Keeps {s} (drops_receiver w alive last) h = absurd (omega (arith, h.none_left))

  Reach-Keeps : {s u : System T S} → IsOrphaned s → Reach q s u → Keeps s u
  Reach-Keeps h start = ground arith
  Reach-Keeps h (later r step) =
      let before = Reach-Keeps h r in
      let after = Step-Keeps step before.orphaned in
      record {
        orphaned = after.orphaned;
        kept = le_trans before.kept after.kept;
        unsent = after.unsent ∙ before.unsent;
        unreceived = after.unreceived ∙ before.unreceived;
        untouched = after.untouched ∙ before.untouched;
      }

drop_receiver-Keeps :
    {T S : Type 0} (q : ChannelStorage T S) (w : ℕ) (s : System T S)
    → s.inner.receivers ≡ 1
    → count (uses data_available) s.tasks ≡ 0
    → let dropped = after_drop w (drop_receiver s.inner) s in
      IsOrphaned q dropped × (count is_waiting_send s.tasks ≤ count is_waiting_send dropped.tasks)
unfolding drop_receiver deliver
drop_receiver-Keeps q w s one idle = ground (arith, wake_all_data-keeps s.tasks)

-- The drop of the last receiver, with no receive in progress, wakes no send that waits for space:
-- whatever steps follow it, at least as many sends without a timeout wait as did before it.
pub drop_receiver_strands_sends :
    {T S : Type 0} (q : ChannelStorage T S) (w : ℕ) (s u : System T S)
    → s.inner.receivers ≡ 1
    → count (uses data_available) s.tasks ≡ 0
    → Reach q (after_drop w (drop_receiver s.inner) s) u
    → count is_waiting_send s.tasks ≤ count is_waiting_send u.tasks
drop_receiver_strands_sends q w s u one idle r =
    let (orphaned, kept) = drop_receiver-Keeps q w s one idle in
    le_trans kept (Reach-Keeps q orphaned r).kept

-- Once no receiver is left and no receive is in progress, the channel is closed for good: whatever
-- steps follow, no receiver comes back, nothing is sent or received any more, and the storage stays
-- as it is; a send that runs returns at once that the channel is closed.
pub closed_for_good :
    {T S : Type 0} (q : ChannelStorage T S) (s u : System T S) (m : Moment) (v : T)
    → s.inner.receivers ≡ 0
    → count (uses data_available) s.tasks ≡ 0
    → Reach q s u
    → (u.inner.receivers ≡ 0)
      × (u.sent ≡ s.sent)
      × (u.received ≡ s.received)
      × (u.inner.queue ≡ s.inner.queue)
      × ((send_round q m u.inner v).next ≡ returns (err channel_closed))
unfolding send_round
closed_for_good q s u m v none_left idle r =
    ground (arith, Reach-Keeps q (record { none_left = none_left; none_busy = idle }) r)
