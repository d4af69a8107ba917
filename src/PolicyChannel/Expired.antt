-- ===== src/PolicyChannel/Expired.antt =====
-- src/policy_channel.rs, src/base_channel.rs: a receive that finds expired values only.
-- `recv` drops them and waits for data; it notifies `space_available` only when it returns a value.
use rtsc.Prelude.{ℕ, ◌+◌, ◌<◌, ◌≡◌, Bool, List, [], ◌∷◌, arith, All, count, length}
use rtsc.DataPolicy.{DataDeliveryPolicy}
use rtsc.Deque.{Moment, Deque}
use rtsc.Deque.Get.{IsExpired, get_expired}
use rtsc.Storage.{deque_storage}
use rtsc.BaseChannel.{data_available, space_available, recv_round}
use rtsc.BaseChannel.Tasks.{Task, receiving, waiting_data, waits_on, deliver}
use rtsc.BaseChannel.System.{System, run_task}

-- Where all stored values have expired, a sender is left and all other calls wait, the round of a
-- receive makes it wait too, and wakes none of them: every call waits then, as many for space as
-- before, though the queue is empty by now.
pub expired_deadlock :
    {T : Type 0} (p : DataDeliveryPolicy T) (m : Moment) (w : ℕ) (timed : Bool)
    → (s : System T (Deque T)) (others : List (Task T)) → All (IsExpired p m) s.inner.queue.items
    → 0 < s.inner.senders
    → count (waits_on space_available) others + count (waits_on data_available) others
      ≡ length others
    → let u = run_task (deque_storage p) m w (receiving timed) others s in
      (u.inner.queue.items ≡ [])
      × (u.tasks ≡ waiting_data timed ∷ others)
      × (count (waits_on space_available) u.tasks + count (waits_on data_available) u.tasks
          ≡ length u.tasks)
      × (count (waits_on space_available) u.tasks ≡ count (waits_on space_available) others)
unfolding run_task recv_round deliver
expired_deadlock p m w timed s others dead alive all_wait =
    ground (arith, get_expired p m s.inner.queue dead)
