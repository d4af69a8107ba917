-- ===== src/PolicyChannelAsync.antt =====
-- src/policy_channel_async.rs: the constructors of the async channel over the policy deque.
use mathlib.Core.Option.{some-injective}
use rtsc.Prelude.{ℕ, ◌≡◌, ◌<◌, ◌≤◌, ◌⊎◌, inl, inr, Bool, true, false, Option, some, count, arith}
use rtsc.DataPolicy.{DataDeliveryPolicy}
use rtsc.Deque
use rtsc.Deque.{Deque, len}
use rtsc.Deque.Verdict.{Fits}
use rtsc.Storage.{deque_storage}
use rtsc.Storage.Laws.{deque_storage-laws}
use rtsc.AsyncChannel.{AsyncData}
use rtsc.AsyncChannel.Calls
use rtsc.AsyncChannel.Tasks.{is_waiting, is_woken}
use rtsc.AsyncChannel.System.{System, Reach, initial}
use rtsc.AsyncChannel.Waiting.{no_lost_wake}
use rtsc.AsyncChannel.Made.{new_lem}

module _ {T W : Type 0} (p : DataDeliveryPolicy T) where
  -- `none` is the panic for a capacity of zero.
  unfoldable pub bounded : ℕ → Option (AsyncData (Deque T) W)
  bounded capacity = Calls.new (deque_storage p) capacity false

  unfoldable pub ordered : ℕ → Option (AsyncData (Deque T) W)
  ordered capacity = Calls.new (deque_storage p) capacity true

  new_no_lost_wake :
      (capacity : ℕ) (ordering : Bool) (d : AsyncData (Deque T) W) (u : System T (Deque T) W)
      → Calls.new (deque_storage p) capacity ordering ≡ some d
      → Reach (deque_storage p) (initial d) u
      → 0 < count is_waiting u.tasks
      → (len u.inner.queue ≤ count is_woken u.tasks) × (0 < u.inner.senders)
  unfolding Deque.bounded Deque.set_ordering
  new_no_lost_wake capacity ordering d u e r some_wait =
      let (new_queue, unused) = new_lem (deque_storage p) capacity ordering d e in
      let queue = some-injective _ _ new_queue in
      no_lost_wake (deque_storage p) Fits (deque_storage-laws p) d u (rw (← queue) (omega arith))
        unused r some_wait

-- However the steps of AsyncChannel/System interleave on an async policy channel, with ordering or not, whatever
-- values expire, are dropped or are replaced: while some receive waits, for each stored value there
-- is a receive that was woken and has not run since, and a sender is left.
pub policy_no_lost_wake :
    {T W : Type 0} (p : DataDeliveryPolicy T) (capacity : ℕ) (d : AsyncData (Deque T) W)
    → (u : System T (Deque T) W) → (bounded p capacity ≡ some d) ⊎ (ordered p capacity ≡ some d)
    → Reach (deque_storage p) (initial d) u
    → 0 < count is_waiting u.tasks
    → (len u.inner.queue ≤ count is_woken u.tasks) × (0 < u.inner.senders)
unfolding bounded ordered
policy_no_lost_wake p capacity d u (inl e) r some_wait =
    new_no_lost_wake p capacity false d u e r some_wait
policy_no_lost_wake p capacity d u (inr e) r some_wait =
    new_no_lost_wake p capacity true d u e r some_wait
