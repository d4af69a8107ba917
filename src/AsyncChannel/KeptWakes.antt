-- ===== src/AsyncChannel/KeptWakes.antt =====
-- src/base_channel_async.rs: what the queue of wakers keeps when the next receive, or all of them,
-- are woken, and when a receive is dropped.
use rtsc.Prelude.{
  ℕ, zero, suc, ◌+◌, ◌-◌, ◌≤◌, ◌<◌, ◌≡◌, refl, sym, ◌∙◌, Bool, true, false, Option, none, some,
  List, [], ◌∷◌, length, count, arith, any, ◌==◌, if◌then◌else◌, Bool-cases, inl, inr,
}
use rtsc.AsyncWakers.{
  Wakers, nobody, has_id, wake_next_of, wake_next, wake_all, remove_id, forget, notify_fut_drop,
  confirm_fut_waked, set_remove,
}
use rtsc.AsyncWakers.Tracked.{
  queued, any-count, wake_next_of-IsTracked, forget-IsTracked, count-remove_id, forget-pending,
}
use rtsc.AsyncChannel.Tasks.{
  waiting, woken, Task, future, has_future, future_waits, thread_waits, wake_tasks_lem, deliver,
  wake_thread, wake_thread-futures, wake_future, wake_future-futures, future-counts,
}
use rtsc.AsyncChannel.Attached.{is_thread, wake_next-Attached, Kept}
use rtsc.AsyncChannel.Kept.{not_queued, woken_future-Kept, fresh_future-Kept}

module _ {W : Type 0} where
  wake_next_of-Kept :
      {k next n : ℕ} (n' : ℕ) (w : Wakers W) (xs : List (Option (W × ℕ))) (ts : List Task)
      → w.wakers ≡ xs
      → n' ≤ suc n
      → Kept k next n w ts
      → Kept k next n' (wake_next_of w xs).1 (deliver (wake_next_of w xs).0 ts)
  unfolding wake_next_of deliver
  wake_next_of-Kept n' w [] ts e le h = record {
    tracked = h.tracked;
    attached = h.attached;
    unique = h.unique;
    new_ids = h.new_ids;
    covered = λ some_wait. absurd (ground (arith, e, some_wait));
    closed = h.closed;
    pendings = h.pendings;
    settled = h.settled;
  }
  wake_next_of-Kept n' w (none ∷ xs) ts e le h =
      let some_waits : 0 < count thread_waits ts = ground (arith, h.attached.threads, e) in
      let one = wake_thread ts some_waits in
      record {
        tracked = wake_next_of-IsTracked w (none ∷ xs) e h.tracked;
        attached = wake_next-Attached w (none ∷ xs) ts e (rw e at h.attached);
        unique = λ i. omega (arith, h.unique i, wake_thread-futures i ts);
        new_ids = λ i le. omega (arith, h.new_ids i le, wake_thread-futures i ts);
        covered = λ some_wait. omega (arith, h.covered (ground (arith, e)), one.0.more);
        closed = λ no_sender. absurd (ground (arith, e, h.closed no_sender));
        pendings =
            λ alive i some_woken. h.pendings alive i (omega (arith, wake_thread-futures i ts));
        settled = λ i e. omega (arith, h.settled i e, wake_thread-futures i ts);
      }
  wake_next_of-Kept n' w (some (waker, id) ∷ xs) ts e le h =
      let some_waits : 0 < count (future_waits id) ts = ground (arith, h.attached.futures id, e) in
      let one = wake_future id ts some_waits in
      record {
        tracked = wake_next_of-IsTracked w (some (waker, id) ∷ xs) e h.tracked;
        attached = wake_next-Attached w (some (waker, id) ∷ xs) ts e (rw e at h.attached);
        unique = λ i. omega (arith, h.unique i, wake_future-futures id i ts some_waits);
        new_ids = λ i le. omega (arith, h.new_ids i le, wake_future-futures id i ts some_waits);
        covered = λ some_wait. omega (arith, h.covered (ground (arith, e)), one.0.more);
        closed = λ no_sender. absurd (ground (arith, e, h.closed no_sender));
        pendings = λ alive i some_woken.
            ground (arith, h.pendings alive i, wake_future-futures id i ts some_waits);
        settled = λ i e. ground (arith, h.settled i, wake_future-futures id i ts some_waits);
      }

  pub wake_next-Kept :
      {k next n : ℕ} {w : Wakers W} {ts : List Task} (n' : ℕ)
      → n' ≤ suc n
      → Kept k next n w ts
      → Kept k next n' (wake_next w).1 (deliver (wake_next w).0 ts)
  unfolding wake_next
  wake_next-Kept {w} {ts} n' le h = wake_next_of-Kept n' w w.wakers ts refl le h

  pub wake_all-Kept :
      {k next n : ℕ} {w : Wakers W} {ts : List Task}
      → Kept k next n w ts
      → Kept 0 next n (wake_all w).1 (deliver (wake_all w).0 ts)
  unfolding wake_all deliver
  wake_all-Kept {ts} h = record {
    tracked = λ i. refl;
    attached = record {
      futures = λ i. omega (arith, wake_tasks_lem i ts);
      threads = omega (arith, wake_tasks_lem 0 ts);
      total = omega (arith, wake_tasks_lem 0 ts);
    };
    unique = λ i. omega (arith, h.unique i, wake_tasks_lem i ts);
    new_ids = λ i le. omega (arith, h.new_ids i le, wake_tasks_lem i ts);
    covered = λ some_wait. absurd (omega (arith, some_wait));
    closed = λ _. refl;
    pendings = λ alive. absurd (omega (arith, alive));
    settled = λ i e. omega (arith, h.settled i e, wake_tasks_lem i ts);
  }

  remove_id-sizes :
      (id : ℕ) (xs : List (Option (W × ℕ)))
      → 0 < count (has_id id) xs
      → (length xs ≡ length (remove_id id xs) + 1)
        × (count is_thread (remove_id id xs) ≡ count is_thread xs)
  unfolding remove_id
  remove_id-sizes id [] h = absurd (omega (arith, h))
  remove_id-sizes id (none ∷ xs) h = ground (arith, remove_id-sizes id xs)
  remove_id-sizes id (some (w, k) ∷ xs) h = ground (arith, remove_id-sizes id xs)

  forget-sizes :
      (id : ℕ) (w : Wakers W)
      → 0 < queued id w
      → (length w.wakers ≡ length (forget id w).wakers + 1)
        × (count is_thread (forget id w).wakers ≡ count is_thread w.wakers)
        × ((i : ℕ)
            → count (has_id i) (forget id w).wakers
              ≡ (if i == id then count (has_id i) w.wakers - 1 else count (has_id i) w.wakers))
  unfolding forget
  forget-sizes id w h =
      let found : any (has_id id) w.wakers ≡ true = ground (arith, any-count id w.wakers) in
      let sizes = remove_id-sizes id w.wakers h in
      rw found (sizes.0, sizes.1, λ i. count-remove_id id i w.wakers)

  -- A future that waits is forgotten.
  forget-Kept :
      {k next n : ℕ} {w : Wakers W} {ts : List Task} (id : ℕ)
      → Kept k next n w (future id waiting ∷ ts)
      → Kept k next n (forget id w) ts
  forget-Kept {w} {ts} id h =
      let sizes = forget-sizes id w (grind (arith, h.attached.futures id)) in
      record {
        tracked = forget-IsTracked id w h.tracked;
        attached = record {
          futures = λ i. ground (arith, h.attached.futures i, sizes.2 i);
          threads = omega (arith, h.attached.threads, sizes);
          total = omega (arith, h.attached.total, sizes);
        };
        unique = λ i. omega (arith, h.unique i);
        new_ids = λ i le. omega (arith, h.new_ids i le);
        covered = λ some_wait. omega (arith, h.covered (omega (arith, sizes)));
        closed = λ e. omega (arith, h.closed e, sizes);
        pendings = λ alive i some_woken. forget-pending id i w ∙ h.pendings alive i (omega arith);
        settled = λ i e. omega (arith, h.settled i (sym (forget-pending id i w) ∙ e));
      }

  -- What is kept does not depend on what is pending for ids that no future has.
  unpend-Kept :
      {k next n : ℕ} {w : Wakers W} {ts : List Task} (id : ℕ)
      → count (has_future id) ts ≡ 0
      → Kept k next n w ts
      → Kept k next n (record w { pending = set_remove id w.pending }) ts
  unpend-Kept {ts} id gone h = record {
    tracked = h.tracked;
    attached = h.attached;
    unique = h.unique;
    new_ids = h.new_ids;
    covered = h.covered;
    closed = h.closed;
    pendings = λ alive i some_woken. ground (arith, h.pendings alive i, future-counts i ts);
    settled = λ i e. ground (arith, h.settled i);
  }

  pub drop_waiting-Kept :
      {k next n : ℕ} {w : Wakers W} {ts : List Task} (id : ℕ)
      → Kept k next n w (future id waiting ∷ ts)
      → Kept k next n (notify_fut_drop id w).1 (deliver (notify_fut_drop id w).0 ts)
  unfolding notify_fut_drop deliver
  drop_waiting-Kept {n} {w} {ts} id h = elim (Bool-cases ((forget id w).pending id)) [
    | inl e ↦ rw e (
        wake_next-Kept n (omega arith)
          (unpend-Kept id (grind (arith, h.unique id)) (forget-Kept id h)))
    | inr e ↦ rw e (forget-Kept id h)
  ]

  forget-none : (id : ℕ) (w : Wakers W) → count (has_id id) w.wakers ≡ 0 → forget id w ≡ w
  unfolding forget
  forget-none id w none_queued =
      let missing : any (has_id id) w.wakers ≡ false = ground (arith, any-count id w.wakers) in
      rw missing refl

  -- Of a channel without senders, where nobody is in the queue.
  closed-Kept :
      {next n : ℕ} {w : Wakers W} {ts : List Task} (id : ℕ)
      → w.pending id ≡ false
      → Kept 0 next n w (future id woken ∷ ts)
      → Kept 0 next n w ts
  closed-Kept id e h = record {
    tracked = h.tracked;
    attached = record {
      futures = λ i. omega (arith, h.attached.futures i);
      threads = omega (arith, h.attached.threads);
      total = omega (arith, h.attached.total);
    };
    unique = λ i. omega (arith, h.unique i);
    new_ids = λ i le. omega (arith, h.new_ids i le);
    covered = λ some_wait. absurd (omega (arith, h.closed refl));
    closed = h.closed;
    pendings = λ alive. absurd (omega (arith, alive));
    settled = λ i e'. ground (arith, h.settled i);
  }

  drop_woken-cases :
      {next n : ℕ} {ts : List Task} (k id : ℕ) (w : Wakers W) (b : Bool)
      → w.pending id ≡ b
      → Kept k next n w (future id woken ∷ ts)
      → let dropped = if b then wake_next (confirm_fut_waked id w) else (nobody, w) in
        Kept k next n dropped.1 (deliver dropped.0 ts)
  unfolding deliver
  drop_woken-cases {n} k id w true e h =
      wake_next-Kept n (omega arith) (fresh_future-Kept id (woken_future-Kept id h))
  drop_woken-cases zero id w false e h = closed-Kept id e h
  drop_woken-cases (suc k) id w false e h = absurd (grind (arith, h.pendings, e))

  pub drop_woken-Kept :
      {k next n : ℕ} {w : Wakers W} {ts : List Task} (id : ℕ)
      → Kept k next n w (future id woken ∷ ts)
      → Kept k next n (notify_fut_drop id w).1 (deliver (notify_fut_drop id w).0 ts)
  unfolding notify_fut_drop confirm_fut_waked
  drop_woken-Kept {k} {w} id h =
      rw (forget-none id w (not_queued id woken (λ e. cc) h).1)
        (drop_woken-cases k id w (w.pending id) refl h)
