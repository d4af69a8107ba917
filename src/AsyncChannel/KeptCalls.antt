-- ===== src/AsyncChannel/KeptCalls.antt =====
-- src/base_channel_async.rs: what the queue of wakers keeps before the first call, when a call starts, and when handles come and go.
use rtsc.Prelude.{ℕ, ◌+◌, ◌<◌, ◌≡◌, refl, false, inl, inr, Bool-cases, List, [], ◌∷◌, count, arith}
use rtsc.AsyncWakers
use rtsc.AsyncWakers.{Wakers, has_id}
use rtsc.AsyncChannel.Tasks.{fresh, Task, future, thread, has_future, future-counts}
use rtsc.AsyncChannel.Attached.{Attached, Kept}

module _ {W : Type 0} where
  pub new_future-Kept :
      {k next n : ℕ} {w : Wakers W} {ts : List Task}
      → Kept k next n w ts
      → Kept k (next + 1) n w (future next fresh ∷ ts)
  new_future-Kept {next} h = record {
    tracked = h.tracked;
    attached = record {
      futures = λ i. omega (arith, h.attached.futures i);
      threads = omega (arith, h.attached.threads);
      total = omega (arith, h.attached.total);
    };
    unique = λ i. grind (arith, h.unique i, h.new_ids i);
    new_ids = λ i le. grind (arith, h.new_ids i);
    covered = λ some_wait. omega (arith, h.covered some_wait);
    closed = h.closed;
    pendings = λ alive i some_woken. h.pendings alive i (omega arith);
    settled = λ i e. omega (arith, h.settled i e);
  }

  pub new_thread-Kept :
      {k next n : ℕ} {w : Wakers W} {ts : List Task}
      → Kept k next n w ts
      → Kept k next n w (thread fresh ∷ ts)
  new_thread-Kept h = record {
    tracked = h.tracked;
    attached = record {
      futures = λ i. omega (arith, h.attached.futures i);
      threads = omega (arith, h.attached.threads);
      total = omega (arith, h.attached.total);
    };
    unique = λ i. omega (arith, h.unique i);
    new_ids = λ i le. omega (arith, h.new_ids i le);
    covered = λ some_wait. omega (arith, h.covered some_wait);
    closed = h.closed;
    pendings = λ alive i some_woken. h.pendings alive i (omega arith);
    settled = λ i e. omega (arith, h.settled i e);
  }

  -- Another number of senders, with one left.
  pub senders-Kept :
      {k next n : ℕ} {w : Wakers W} {ts : List Task} (k' : ℕ)
      → 0 < k
      → 0 < k'
      → Kept k next n w ts
      → Kept k' next n w ts
  senders-Kept k' some_before some_left h = record {
    tracked = h.tracked;
    attached = h.attached;
    unique = h.unique;
    new_ids = h.new_ids;
    covered = h.covered;
    closed = λ e. absurd (omega (arith, e));
    pendings = λ alive. h.pendings some_before;
    settled = h.settled;
  }

  -- Before the first call.
  pub new-Kept : (k n : ℕ) (w : Wakers W) → w ≡ AsyncWakers.new → Kept k 0 n w []
  unfolding AsyncWakers.new
  new-Kept k n w unused =
      let attached : Attached w.wakers [] =
        rw unused (record { futures = λ id. refl; threads = refl; total = refl }) in
      record {
        tracked = rw unused (λ id. refl);
        attached = attached;
        unique = λ id. omega arith;
        new_ids = λ id le. refl;
        covered = λ some_queued. absurd (omega (arith, attached.total));
        closed = λ e. omega (arith, attached.total);
        pendings = λ alive id some_woken. absurd (omega (arith, some_woken));
        settled = λ id e. absurd (ground (arith, unused, e));
      }

  -- What is left of a future that is gone.
  pub Kept-gone :
      {k next n : ℕ} {w : Wakers W} {ts : List Task} (id : ℕ)
      → Kept k next n w ts
      → count (has_future id) ts ≡ 0
      → (count (has_id id) w.wakers ≡ 0) × (w.waker_ids id ≡ false) × (w.pending id ≡ false)
  Kept-gone {w} {ts} id h gone =
      let none_queued : count (has_id id) w.wakers ≡ 0 =
        omega (arith, h.attached.futures id, future-counts id ts) in
      let idle : w.pending id ≡ false = elim (Bool-cases (w.pending id)) [
        | inl e ↦ absurd (omega (arith, h.settled id e, future-counts id ts))
        | inr e ↦ e
      ] in
      (none_queued, ground (arith, h.tracked id), idle)
