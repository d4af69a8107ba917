-- ===== src/ChannelAsync.antt =====
-- src/channel_async.rs: the constructor of the async channel over `VecDeque`.
use rtsc.Prelude.{ℕ, ◌≡◌, ◌<◌, ◌≤◌, false, Option, some, ◌++◌, length, count, arith, ap, sym}
use mathlib.Core.Option.{some-injective}
use rtsc.Storage.{VecDeque, vec_storage, vec_with_capacity}
use rtsc.Storage.Laws.{VecFits, vec_storage-laws}
use rtsc.AsyncChannel.{AsyncData}
use rtsc.AsyncChannel.Calls
use rtsc.AsyncChannel.Tasks.{is_waiting, is_woken}
use rtsc.AsyncChannel.System.{System, Reach, initial}
use rtsc.AsyncChannel.Waiting.{no_lost_wake}
use rtsc.AsyncChannel.Anytime
use rtsc.AsyncChannel.Made.{new_lem}
use rtsc.AsyncChannel.Fifo.{async_first_in_first_out}

unfoldable pub bounded :
    {T W : Type 0} → (allocated : ℕ → ℕ) → ℕ → Option (AsyncData (VecDeque T) W)
bounded allocated capacity = Calls.new (vec_storage allocated) capacity false

-- However the steps of AsyncChannel/System interleave on a channel that `bounded` has made: what was stored is, in
-- this order, what was received and then what is in the queue; and while some receive waits, for
-- each stored value there is a receive that was woken and has not run since, and a sender is left.
pub bounded_lem :
    {T W : Type 0} (allocated : ℕ → ℕ) (capacity : ℕ) (d : AsyncData (VecDeque T) W)
    → (u : System T (VecDeque T) W) → bounded allocated capacity ≡ some d
    → Reach (vec_storage allocated) (initial d) u
    → (u.sent ≡ u.received ++ u.inner.queue.items)
      × (0 < count is_waiting u.tasks
          → (length u.inner.queue.items ≤ count is_woken u.tasks) × (0 < u.inner.senders))
unfolding bounded vec_with_capacity
bounded_lem allocated capacity d u e r =
    let (new_queue, unused) = new_lem (vec_storage allocated) capacity false d e in
    let queue = some-injective _ _ new_queue in
    (
      async_first_in_first_out allocated d u (sym (ap (λ q. q.items) queue)) r,
      λ some_wait.
          no_lost_wake (vec_storage allocated) VecFits (vec_storage-laws allocated) d u
            (rw (← queue) (omega arith)) unused r some_wait,
    )

-- On a channel that `bounded` has made, poll any futures at any time, woken or not, let calls that
-- block run their rounds at any time and end by their timeouts, drop and clone what there is, in any
-- order: what was stored is, in this order, what was received and then what is in the queue.
pub in_order_anytime :
    {T W : Type 0} (allocated : ℕ → ℕ) (capacity : ℕ) (d : AsyncData (VecDeque T) W)
    → (u : System T (VecDeque T) W) → bounded allocated capacity ≡ some d
    → Anytime.Reach (vec_storage allocated) (initial d) u
    → u.sent ≡ u.received ++ u.inner.queue.items
unfolding bounded vec_with_capacity
in_order_anytime allocated capacity d u e r =
    let (new_queue, unused) = new_lem (vec_storage allocated) capacity false d e in
    let queue = some-injective _ _ new_queue in
    Anytime.Reach-InOrder allocated {s = initial d} (ap (λ q. q.items) queue) r
