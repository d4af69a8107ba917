-- ===== src/AsyncChannel/Attached.antt =====
-- src/base_channel_async.rs: the receives that wait and the wakers in the queue.
use rtsc.Prelude.{
  ℕ, ◌≤◌, ◌<◌, ◌≡◌, sym, ◌∙◌, Bool, true, false, Option, none, some, List, [], ◌∷◌, length, count,
  arith,
}
use rtsc.AsyncWakers.{Wakers, has_id, wake_next_of}
use rtsc.AsyncWakers.Tracked.{IsTracked}
use rtsc.BaseChannel.Tasks.{Picks, Picks-count}
use rtsc.AsyncChannel.Tasks.{
  Task, is_waiting, is_woken, has_future, future_waits, future_woken, thread_waits, deliver,
  wake_thread, wake_thread-futures, wake_future, wake_future-futures,
}

module _ {W : Type 0} where
  abbrev pub is_thread : Option (W × ℕ) → Bool
  is_thread none = true
  is_thread (some _) = false

  -- The tasks that wait are those whose wakers are in the queue `xs`.
  pub record Attached (xs : List (Option (W × ℕ))) (ts : List Task) : Type 0 where
    pub futures : (id : ℕ) → count (future_waits id) ts ≡ count (has_id id) xs
    pub threads : count thread_waits ts ≡ count is_thread xs
    pub total : count is_waiting ts ≡ length xs

  pub wake_next-Attached :
      (w : Wakers W) (xs : List (Option (W × ℕ))) (ts : List Task)
      → w.wakers ≡ xs
      → Attached xs ts
      → Attached (wake_next_of w xs).1.wakers (deliver (wake_next_of w xs).0 ts)
  unfolding wake_next_of deliver
  wake_next-Attached w [] ts e h = rw e h
  wake_next-Attached w (none ∷ xs) ts e h =
      let one = wake_thread ts (omega (arith, h.threads)) in
      record {
        futures = λ id. omega (arith, h.futures id, wake_thread-futures id ts);
        threads = omega (arith, h.threads, one.1);
        total = omega (arith, h.total, one.0.fewer);
      }
  wake_next-Attached w (some (waker, id) ∷ xs) ts e h =
      let some_waits : 0 < count (future_waits id) ts = ground (arith, h.futures id) in
      let one = wake_future id ts some_waits in
      record {
        futures = λ i. ground (arith, h.futures i, wake_future-futures id i ts some_waits);
        threads = omega (arith, h.threads, one.1);
        total = omega (arith, h.total, one.0.fewer);
      }

  -- What holds of the receives of a channel with `senders` senders and `n` stored values, whose
  -- futures have ids below `next`: the wakers are tracked, those that wait are attached to them,
  -- ids are not shared; while a waker is queued, each value has a receive that was woken; none is
  -- without a sender; the futures woken one by one are pending, and no other future is.
  pub record Kept (senders next n : ℕ) (w : Wakers W) (ts : List Task) : Type 0 where
    pub tracked : IsTracked w
    pub attached : Attached w.wakers ts
    pub unique : (id : ℕ) → count (has_future id) ts ≤ 1
    pub new_ids : (id : ℕ) → next ≤ id → count (has_future id) ts ≡ 0
    pub covered : 0 < length w.wakers → n ≤ count is_woken ts
    pub closed : senders ≡ 0 → length w.wakers ≡ 0
    pub pendings : 0 < senders → (id : ℕ) → 0 < count (future_woken id) ts → w.pending id ≡ true
    pub settled : (id : ℕ) → w.pending id ≡ true → 0 < count (future_woken id) ts

  pub Kept-Picks :
      {k next n : ℕ} {w : Wakers W} {t : Task} {ts rest : List Task}
      → Picks t ts rest
      → Kept k next n w ts
      → Kept k next n w (t ∷ rest)
  Kept-Picks {t} {rest} p h = record {
    tracked = h.tracked;
    attached = record {
      futures = λ id. sym (Picks-count (future_waits id) p) ∙ h.attached.futures id;
      threads = sym (Picks-count thread_waits p) ∙ h.attached.threads;
      total = sym (Picks-count is_waiting p) ∙ h.attached.total;
    };
    unique = λ id. omega (arith, Picks-count (has_future id) p, h.unique id);
    new_ids = λ id le. omega (arith, Picks-count (has_future id) p, h.new_ids id le);
    covered = λ some_wait. omega (arith, Picks-count is_woken p, h.covered some_wait);
    closed = h.closed;
    pendings =
        λ alive id some_woken. h.pendings alive id (omega (arith, Picks-count (future_woken id) p));
    settled = λ id e. omega (arith, Picks-count (future_woken id) p, h.settled id e);
  }

  -- Fewer values than before.
  pub Kept-less :
      {k next n : ℕ} {w : Wakers W} {ts : List Task} (n' : ℕ)
      → n' ≤ n
      → Kept k next n w ts
      → Kept k next n' w ts
  Kept-less n' le h = record {
    tracked = h.tracked;
    attached = h.attached;
    unique = h.unique;
    new_ids = h.new_ids;
    covered = λ some_wait. omega (arith, h.covered some_wait);
    closed = h.closed;
    pendings = h.pendings;
    settled = h.settled;
  }
