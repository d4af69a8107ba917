-- ===== src/Pi/Handshake/Safety.antt =====
-- src/pi.rs: no thread sleeps once the flag is up and all that wait have been notified.
use rtsc.Prelude.{
  ℕ, ◌+◌, ◌-◌, ◌≡◌, ◌==◌, refl, true, false, Bool-cases, none, List, ◌∷◌, count, inl, inr, arith,
}
use rtsc.BaseChannel.Tasks.{Picks}
use rtsc.Pi.{PiLock, Phase, idle, holding, lock, begin, unlock_to_wait}
use rtsc.Pi.Kernel.{Kernel, KernelLaws}
use rtsc.Pi.System
use rtsc.Pi.System.{System, goes}
use rtsc.Pi.Exclusion.{mutual_exclusion}
use rtsc.Pi.Handshake.{
  Handshake, Stage, deciding, registered, releasing, asleep, awake, unregistered, relocking, Call,
  waits, notifies, calls_of, Step, lock_goes, tests, registers, releases, sleeps, is_late,
  is_interrupted, times_out, unregisters, relocks, returns, raises, loads, wakes, Reach, start,
  later, nobody_waits,
}
use rtsc.Pi.Handshake.Woken.{is_deciding, is_notifying, may_sleep}
use rtsc.Pi.Handshake.Placed.{
  Placed, is_inside, is_outside, Placed-Picks, inside-le, over-Placed, begins-Placed, own_gone,
  goes-Placed,
}
use rtsc.Pi.Handshake.Stays.{lock_goes-Placed, load-Placed, after_wake-Placed, decider}
use rtsc.Pi.Handshake.Tally.{
  Tally, Tally-Picks, wait_goes-Tally, returns-Tally, tests-Tally, registers-Tally, raises-Tally,
  loads-Tally, Wakes-Tally,
}

module _ (k : Kernel) (laws : KernelLaws k) where
  record Sound (s : Handshake) : Type 0 where
    pub locked : System.Reach k System.initial s.sys
    pub placed : Placed s.sys.phase s.calls
    pub tally : Tally s.waiters s.started s.calls

  -- A wait goes on in its thread's own time.
  stage-Sound :
      (s : Handshake) (t n : ℕ) (from to : Stage) (rest : List Call)
      → Picks (waits t from) s.calls rest
      → ((i : ℕ) → is_inside i (waits t to) ≡ true → s.sys.phase i ≡ holding)
      → ((i : ℕ) → is_outside i (waits t to) ≡ true → s.sys.phase i ≡ idle)
      → (Tally s.waiters s.started (waits t from ∷ rest) → Tally n s.started (waits t to ∷ rest))
      → Sound s
      → Sound (record s { waiters = n; calls = waits t to ∷ rest })
  stage-Sound s t n from to rest pick inside outside counts h =
      let there = Placed-Picks pick h.placed in
      record {
        locked = h.locked;
        placed = begins-Placed (waits t to) (own_gone there) inside outside (over-Placed there);
        tally = counts (Tally-Picks pick h.tally);
      }

  -- A wait takes a step of the lock.
  stage_goes-Sound :
      (s : Handshake) (t : ℕ) (p : Phase × PiLock) (from to : Stage) (rest : List Call)
      → Picks (waits t from) s.calls rest
      → System.Step k s.sys (goes t p s.sys)
      → ((i : ℕ) → is_inside i (waits t to) ≡ false)
      → ((i : ℕ) → is_outside i (waits t to) ≡ false)
      → (Tally s.waiters s.started (waits t from ∷ rest)
          → Tally s.waiters s.started (waits t to ∷ rest))
      → Sound s
      → Sound (record s { sys = goes t p s.sys; calls = waits t to ∷ rest })
  stage_goes-Sound s t p from to rest pick step inside outside counts h =
      let there = Placed-Picks pick h.placed in
      record {
        locked = System.later h.locked step;
        placed =
            begins-Placed (waits t to) (own_gone there) (λ i e. absurd (ground (arith, inside i)))
              (λ i e. absurd (ground (arith, outside i)))
              (goes-Placed t p.0 (own_gone there) (over-Placed there));
        tally = counts (Tally-Picks pick h.tally);
      }

  -- While a thread without a call holds the mutex, nobody decides to wait.
  nobody_decides :
      (s : Handshake) (t : ℕ)
      → Sound s
      → s.sys.phase t ≡ holding
      → count (calls_of t) s.calls ≡ 0
      → count is_deciding s.calls ≡ 0
  nobody_decides s t h holds free = elim (Bool-cases (count is_deciding s.calls == 0)) [
    | inl e ↦ ground arith
    | inr e ↦
        let (i, there) = decider s.calls (ground arith) in
        let mine : i ≡ t =
          mutual_exclusion k laws s.sys i t h.locked (rw (h.placed.inside i there) refl)
            (rw holds refl) in
        let gone : count (calls_of i) s.calls ≡ 0 = rw mine free in
        absurd (ground (arith, inside-le i s.calls, gone))
  ]

  -- What holds of the thread of a call, in the words of the tests.
  its_thread :
      (s : Handshake) (t : ℕ) (p : Phase)
      → s.sys.phase t ≡ p
      → (i : ℕ) → (t == i) ≡ true
      → s.sys.phase i ≡ p
  its_thread s t p e i same = let eq : t ≡ i = ground arith in rw eq at e

  Step-Sound : {s u : Handshake} → Step k s u → Sound s → Sound u
  Step-Sound {s} (lock_goes u step free) h = record {
    locked = System.later h.locked step;
    placed = lock_goes-Placed k step s.calls free h.placed;
    tally = h.tally;
  }
  Step-Sound {s} (tests t holds free down) h = record {
    locked = h.locked;
    placed =
        begins-Placed (waits t deciding) free (its_thread s t holding holds) (λ i e. cc) h.placed;
    tally = tests-Tally t down h.tally;
  }
  Step-Sound {s} (registers t rest pick few) h =
      let holds = (Placed-Picks pick h.placed).inside t (ground arith) in
      stage-Sound s t (s.waiters + 1) deciding registered rest pick (its_thread s t holding holds)
        (λ i e. cc) (registers-Tally t) h
  Step-Sound {s} (releases t rest tid pick) h =
      let holds = (Placed-Picks pick h.placed).inside t (ground arith) in
      stage_goes-Sound s t (unlock_to_wait t s.sys.lock) registered releasing rest pick
        (System.unlocks_to_wait t tid holds) (λ i. refl) (λ i. refl)
        (wait_goes-Tally t s.waiters registered releasing (omega arith) (omega arith) (omega arith)
          (omega arith))
        h
  Step-Sound {s} (sleeps t rest pick out) h =
      stage-Sound s t s.waiters releasing asleep rest pick (λ i e. cc) (its_thread s t idle out)
        (wait_goes-Tally t s.waiters releasing asleep (omega arith) (omega arith) (omega arith)
          (omega arith))
        h
  Step-Sound {s} (is_late t rest pick out) h =
      stage-Sound s t s.waiters releasing awake rest pick (λ i e. cc) (its_thread s t idle out)
        (wait_goes-Tally t s.waiters releasing awake (omega arith) (omega arith) (omega arith)
          (omega arith))
        h
  Step-Sound {s} (is_interrupted t rest pick) h =
      stage-Sound s t s.waiters asleep releasing rest pick (λ i e. cc) (λ i e. cc)
        (wait_goes-Tally t s.waiters asleep releasing (omega arith) (omega arith) (omega arith)
          (omega arith))
        h
  Step-Sound {s} (times_out t rest pick) h =
      let out = (Placed-Picks pick h.placed).outside t (ground arith) in
      stage-Sound s t s.waiters asleep awake rest pick (λ i e. cc) (its_thread s t idle out)
        (wait_goes-Tally t s.waiters asleep awake (omega arith) (omega arith) (omega arith)
          (omega arith))
        h
  Step-Sound {s} (unregisters t rest pick) h =
      let out = (Placed-Picks pick h.placed).outside t (ground arith) in
      stage-Sound s t (s.waiters - 1) awake unregistered rest pick (λ i e. cc)
        (its_thread s t idle out)
        (wait_goes-Tally t (s.waiters - 1) awake unregistered
          (omega (arith, (Tally-Picks pick h.tally).counted)) (omega arith) (omega arith)
          (omega arith))
        h
  Step-Sound {s} (relocks t rest tid pick) h =
      let out = (Placed-Picks pick h.placed).outside t (ground arith) in
      stage_goes-Sound s t (begin lock s.sys.lock, s.sys.lock) unregistered relocking rest pick
        (System.begins t lock tid out) (λ i. refl) (λ i. refl)
        (wait_goes-Tally t s.waiters unregistered relocking (omega arith) (omega arith)
          (omega arith) (omega arith))
        h
  Step-Sound {s} (returns t rest pick holds) h = record {
    locked = h.locked;
    placed = over-Placed (Placed-Picks pick h.placed);
    tally = returns-Tally t (Tally-Picks pick h.tally);
  }
  Step-Sound {s} (raises t holds free) h = record {
    locked = h.locked;
    placed =
        begins-Placed (notifies t none) free (its_thread s t holding holds) (λ i e. cc) h.placed;
    tally = raises-Tally t (nobody_decides s t h holds free) h.tally;
  }
  Step-Sound {s} (loads t rest pick) h = record {
    locked = h.locked;
    placed = load-Placed t s.waiters (Placed-Picks pick h.placed);
    tally = loads-Tally t (Tally-Picks pick h.tally);
  }
  Step-Sound {s} (wakes t to_wake n rest left pick w le) h = record {
    locked = h.locked;
    placed = after_wake-Placed t to_wake n w (Placed-Picks pick h.placed);
    tally = Wakes-Tally t to_wake n w le (Tally-Picks pick h.tally);
  }

  Reach-Sound : {s u : Handshake} → Sound s → Reach k s u → Sound u
  Reach-Sound h start = h
  Reach-Sound h (later r step) = Step-Sound step (Reach-Sound h r)

-- However threads wait for the flag with `wait` or `wait_for`, lock and unlock the mutex and raise the
-- flag, over any kernel with the laws: once the flag is up and no `notify_all` is in progress, no
-- wait sleeps or will, not even one that had found the flag down and had not slept yet.
pub nobody_sleeps_on :
    (k : Kernel) (laws : KernelLaws k) (u : Handshake)
    → Reach k nobody_waits u
    → u.started ≡ true
    → count is_notifying u.calls ≡ 0
    → count may_sleep u.calls ≡ 0
unfolding nobody_waits
nobody_sleeps_on k laws u r up none_notifies =
    (Reach-Sound k laws
        (record {
          locked = System.start;
          placed = record {
            unique = λ t. omega arith;
            inside = λ t e. absurd (omega arith);
            outside = λ t e. absurd (omega arith);
          };
          tally = record {
            counted = refl;
            quiet = λ e. refl;
            decided = λ e. refl;
            loaded = λ m e. absurd (omega arith);
            woken = λ e e'. refl;
          };
        })
        r).tally.woken
      up none_notifies
