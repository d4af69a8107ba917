-- ===== src/AsyncChannel/Kept.antt =====
-- src/base_channel_async.rs: what the queue of wakers keeps when a receive runs, waits, is woken or
-- is dropped.
use rtsc.Prelude.{
  ℕ, ◌-◌, ◌<◌, ◌≡◌, ◌≢◌, ◌⊎◌, refl, false, none, some, List, [], ◌∷◌, length, length-append, count,
  count-append, arith, inl, inr,
}
use rtsc.AsyncWakers.{Wakers, has_id, confirm_fut_waked, append_fut_waker, append_sync_waker}
use rtsc.AsyncChannel.Tasks.{Phase, fresh, waiting, woken, Task, future, thread, future-counts}
use rtsc.AsyncChannel.Attached.{is_thread, Kept}

module _ {W : Type 0} where
  -- A future that was woken runs.
  pub woken_future-Kept :
      {k next n : ℕ} {w : Wakers W} {ts : List Task} (id : ℕ)
      → Kept k next n w (future id woken ∷ ts)
      → Kept k next (n - 1) (confirm_fut_waked id w) (future id fresh ∷ ts)
  unfolding confirm_fut_waked
  woken_future-Kept {ts} id h = record {
    tracked = h.tracked;
    attached = record {
      futures = λ i. omega (arith, h.attached.futures i);
      threads = omega (arith, h.attached.threads);
      total = omega (arith, h.attached.total);
    };
    unique = λ i. omega (arith, h.unique i);
    new_ids = λ i le. omega (arith, h.new_ids i le);
    covered = λ some_wait. omega (arith, h.covered some_wait);
    closed = h.closed;
    pendings =
        λ alive i some_woken. ground (arith, h.pendings alive i, h.unique i, future-counts i ts);
    settled = λ i e. ground (arith, h.settled i);
  }

  pub woken_thread-Kept :
      {k next n : ℕ} {w : Wakers W} {ts : List Task}
      → Kept k next n w (thread woken ∷ ts)
      → Kept k next (n - 1) w (thread fresh ∷ ts)
  woken_thread-Kept h = record {
    tracked = h.tracked;
    attached = record {
      futures = λ i. omega (arith, h.attached.futures i);
      threads = omega (arith, h.attached.threads);
      total = omega (arith, h.attached.total);
    };
    unique = λ i. omega (arith, h.unique i);
    new_ids = λ i le. omega (arith, h.new_ids i le);
    covered = λ some_wait. omega (arith, h.covered some_wait);
    closed = h.closed;
    pendings = λ alive i some_woken. h.pendings alive i (omega arith);
    settled = λ i e. omega (arith, h.settled i e);
  }

  pub fresh_future-Kept :
      {k next n : ℕ} {w : Wakers W} {ts : List Task} (id : ℕ)
      → Kept k next n w (future id fresh ∷ ts)
      → Kept k next n w ts
  fresh_future-Kept id h = record {
    tracked = h.tracked;
    attached = record {
      futures = λ i. omega (arith, h.attached.futures i);
      threads = omega (arith, h.attached.threads);
      total = omega (arith, h.attached.total);
    };
    unique = λ i. omega (arith, h.unique i);
    new_ids = λ i le. omega (arith, h.new_ids i le);
    covered = λ some_wait. omega (arith, h.covered some_wait);
    closed = h.closed;
    pendings = λ alive i some_woken. h.pendings alive i (omega arith);
    settled = λ i e. omega (arith, h.settled i e);
  }

  pub fresh_thread-Kept :
      {k next n : ℕ} {w : Wakers W} {ts : List Task}
      → Kept k next n w (thread fresh ∷ ts)
      → Kept k next n w ts
  fresh_thread-Kept h = record {
    tracked = h.tracked;
    attached = record {
      futures = λ i. omega (arith, h.attached.futures i);
      threads = omega (arith, h.attached.threads);
      total = omega (arith, h.attached.total);
    };
    unique = λ i. omega (arith, h.unique i);
    new_ids = λ i le. omega (arith, h.new_ids i le);
    covered = λ some_wait. omega (arith, h.covered some_wait);
    closed = h.closed;
    pendings = λ alive i some_woken. h.pendings alive i (omega arith);
    settled = λ i e. omega (arith, h.settled i e);
  }

  pub not_queued :
      {k next n : ℕ} {w : Wakers W} {ts : List Task} (id : ℕ) (p : Phase)
      → p ≢ waiting
      → Kept k next n w (future id p ∷ ts)
      → (w.waker_ids id ≡ false) × (count (has_id id) w.wakers ≡ 0)
  not_queued {ts} id fresh _ h =
      ground (arith, h.tracked id, h.attached.futures id, h.unique id, future-counts id ts)
  not_queued id waiting ne h = absurd (ne refl)
  not_queued {ts} id woken _ h =
      ground (arith, h.tracked id, h.attached.futures id, h.unique id, future-counts id ts)

  -- A future starts to wait: nothing is stored, or others wait before it.
  pub wait_future-Kept :
      {k next n : ℕ} {w : Wakers W} {ts : List Task} (cx : W) (id : ℕ)
      → k ≢ 0
      → (n ≡ 0) ⊎ (0 < length w.wakers)
      → Kept k next n w (future id fresh ∷ ts)
      → Kept k next n (append_fut_waker cx id w) (future id waiting ∷ ts)
  unfolding append_fut_waker
  wait_future-Kept {n} {w} {ts} cx id alive first h =
      let idle = not_queued id fresh (λ e. cc) h in
      rw idle.0 (record {
        tracked = λ i. ground (
          arith,
          h.tracked i,
          h.tracked id,
          idle,
          count-append (has_id i) w.wakers (some (cx, id) ∷ []),
        );
        attached = record {
          futures = λ i.
              ground (
                arith,
                h.attached.futures i,
                count-append (has_id i) w.wakers (some (cx, id) ∷ []),
              );
          threads =
              omega
                (arith, h.attached.threads, count-append is_thread w.wakers (some (cx, id) ∷ []));
          total = omega (arith, h.attached.total, length-append w.wakers (some (cx, id) ∷ []));
        };
        unique = h.unique;
        new_ids = h.new_ids;
        covered = λ some_wait. elim first [ inl e ↦ omega arith | inr others ↦ h.covered others ];
        closed = λ e. absurd (alive e);
        pendings = h.pendings;
        settled = λ i e. omega (arith, h.settled i e);
      })

  -- A thread starts to wait: nothing is stored.
  pub wait_thread-Kept :
      {k next n : ℕ} {w : Wakers W} {ts : List Task}
      → k ≢ 0
      → n ≡ 0
      → Kept k next n w (thread fresh ∷ ts)
      → Kept k next n (append_sync_waker w) (thread waiting ∷ ts)
  unfolding append_sync_waker
  wait_thread-Kept {w} alive empty h = record {
    tracked = λ i. ground (arith, h.tracked i, count-append (has_id i) w.wakers (none ∷ []));
    attached = record {
      futures =
          λ i. omega (arith, h.attached.futures i, count-append (has_id i) w.wakers (none ∷ []));
      threads = omega (arith, h.attached.threads, count-append is_thread w.wakers (none ∷ []));
      total = omega (arith, h.attached.total, length-append w.wakers (none ∷ []));
    };
    unique = λ i. omega (arith, h.unique i);
    new_ids = λ i le. omega (arith, h.new_ids i le);
    covered = λ some_wait. omega arith;
    closed = λ e. absurd (alive e);
    pendings = λ one i some_woken. h.pendings one i (omega arith);
    settled = λ i e. omega (arith, h.settled i e);
  }
