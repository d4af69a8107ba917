-- ===== src/Pi/Handshake/Stays.antt =====
-- src/pi.rs: the threads of the calls stay where they belong when a call goes on.
use rtsc.Prelude.{
  ℕ, ◌<◌, ◌≡◌, ◌≢◌, ◌==◌, refl, ◌∙◌, false, Bool-cases, Option, none, some, List, [], ◌∷◌, count,
  any, inl, inr, arith,
}
use rtsc.Pi.{Phase, holding}
use rtsc.Pi.Kernel.{Kernel}
use rtsc.Pi.System
use rtsc.Pi.System.{System, goes, set_phase}
use rtsc.Pi.Handshake.{
  deciding, registered, releasing, asleep, awake, unregistered, relocking, Call, waits, notifies,
  calls_of, stops, Wakes, load, after_wake, actor,
}
use rtsc.Pi.Handshake.Woken.{is_deciding, Wakes-count}
use rtsc.Pi.Handshake.Placed.{
  is_inside, is_outside, Placed, over-Placed, begins-Placed, own_gone, apart,
}

module _ (k : Kernel) where
  actor_lem :
      {s u : System} (step : System.Step k s u) (t : ℕ) → t ≢ actor k step → u.phase t ≡ s.phase t
  actor_lem (System.begins i attempt tid e) t ne = ground arith
  actor_lem (System.races i attempt tid e) t ne = ground arith
  actor_lem (System.queues v marks) t ne = refl
  actor_lem (System.is_answered i attempt a v tid e asking) t ne = ground arith
  actor_lem (System.unlocks i tid e) t ne = ground arith
  actor_lem (System.unlocks_to_wait i tid e) t ne = ground arith
  actor_lem (System.kernel_unlocks i v tid e gives) t ne = ground arith
  actor_lem (System.blocks i tid e) t ne = ground arith

-- A call that stops the lock's steps of its thread.
inside-stops :
    (t : ℕ) (p : Phase) (calls : List Call)
    → any (stops t p) calls ≡ false
    → count (is_inside t) calls ≡ 0
inside-stops t p [] e = refl
inside-stops t p (notifies i to_wake ∷ calls) e = ground (arith, inside-stops t p calls)
inside-stops t p (waits i deciding ∷ calls) e = ground (arith, inside-stops t p calls)
inside-stops t p (waits i registered ∷ calls) e = ground (arith, inside-stops t p calls)
inside-stops t p (waits i releasing ∷ calls) e = ground (arith, inside-stops t p calls)
inside-stops t p (waits i asleep ∷ calls) e = ground (arith, inside-stops t p calls)
inside-stops t p (waits i awake ∷ calls) e = ground (arith, inside-stops t p calls)
inside-stops t p (waits i unregistered ∷ calls) e = ground (arith, inside-stops t p calls)
inside-stops t p (waits i relocking ∷ calls) e = ground (arith, inside-stops t p calls)

outside-stops :
    (t : ℕ) (p : Phase) (calls : List Call)
    → any (stops t p) calls ≡ false
    → count (is_outside t) calls ≡ 0
outside-stops t p [] e = refl
outside-stops t p (notifies i to_wake ∷ calls) e = ground (arith, outside-stops t p calls)
outside-stops t p (waits i deciding ∷ calls) e = ground (arith, outside-stops t p calls)
outside-stops t p (waits i registered ∷ calls) e = ground (arith, outside-stops t p calls)
outside-stops t p (waits i releasing ∷ calls) e = ground (arith, outside-stops t p calls)
outside-stops t p (waits i asleep ∷ calls) e = ground (arith, outside-stops t p calls)
outside-stops t p (waits i awake ∷ calls) e = ground (arith, outside-stops t p calls)
outside-stops t p (waits i unregistered ∷ calls) e = ground (arith, outside-stops t p calls)
outside-stops t p (waits i relocking ∷ calls) e = ground (arith, outside-stops t p calls)

-- A step of the lock that no call stops.
pub lock_goes-Placed :
    (k : Kernel) {s u : System} (step : System.Step k s u) (calls : List Call)
    → any (stops (actor k step) (s.phase (actor k step))) calls ≡ false
    → Placed s.phase calls
    → Placed u.phase calls
lock_goes-Placed k {s} step calls free h =
    let t = actor k step in
    record {
      unique = h.unique;
      inside = λ i e.
          let other =
            apart (λ j. count (is_inside j) calls) i t (inside-stops t (s.phase t) calls free) e in
          actor_lem k step i (ground (arith, other)) ∙ h.inside i e;
      outside = λ i e.
          let other =
            apart (λ j. count (is_outside j) calls) i t (outside-stops t (s.phase t) calls free)
              e in
          actor_lem k step i (ground (arith, other)) ∙ h.outside i e;
    }

-- Threads that were woken stand where they stood.
Wakes-Placed :
    {phase : ℕ → Phase} {n : ℕ} {rest left : List Call}
    → Wakes n rest left
    → Placed phase rest
    → Placed phase left
Wakes-Placed w h = record {
  unique = λ t. omega (arith, Wakes-count (calls_of t) (λ i. refl) w, h.unique t);
  inside = λ t e. h.inside t (omega (arith, Wakes-count (is_inside t) (λ i. refl) w));
  outside = λ t e. h.outside t (omega (arith, Wakes-count (is_outside t) (λ i. refl) w));
}

-- A notification goes on, or is over.
notifies-Placed :
    {phase : ℕ → Phase} {rest : List Call} (t : ℕ) (from to : Option ℕ)
    → Placed phase (notifies t from ∷ rest)
    → Placed phase (notifies t to ∷ rest)
notifies-Placed t from to h = record { unique = h.unique; inside = h.inside; outside = h.outside }

pub load-Placed :
    {phase : ℕ → Phase} {rest : List Call} (t waiters : ℕ)
    → Placed phase (notifies t none ∷ rest)
    → Placed phase (load t waiters rest)
unfolding load
load-Placed t waiters h = elim (Bool-cases (waiters == 0)) [
  | inl e ↦ rw e (over-Placed h)
  | inr e ↦ rw e (notifies-Placed t none (some waiters) h)
]

pub after_wake-Placed :
    {phase : ℕ → Phase} {rest left : List Call} (t to_wake n : ℕ)
    → Wakes n rest left
    → Placed phase (notifies t (some to_wake) ∷ rest)
    → Placed phase (after_wake t to_wake n left)
unfolding after_wake
after_wake-Placed {phase} t to_wake n w h =
    let there = Wakes-Placed w (over-Placed h) in
    let free = Wakes-count (calls_of t) (λ i. refl) w ∙ own_gone h in
    let holds : phase t ≡ holding = h.inside t (ground arith) in
    elim (Bool-cases (n == to_wake)) [
      | inl e ↦ rw e there
      | inr e ↦ rw e (
          begins-Placed (notifies t none) free
            (λ i same. let eq : t ≡ i = ground arith in rw eq at holds) (λ i e. cc) there)
    ]

-- Whoever decides to wait holds the mutex.
pub decider :
    (calls : List Call) → 0 < count is_deciding calls → (t : ℕ) × (0 < count (is_inside t) calls)
decider [] e = absurd (omega arith)
decider (waits t deciding ∷ calls) e = (t, ground arith)
decider (waits t registered ∷ calls) e = (t, ground arith)
decider (waits t releasing ∷ calls) e =
    let (i, there) = decider calls (omega arith) in (i, omega (arith, there))
decider (waits t asleep ∷ calls) e =
    let (i, there) = decider calls (omega arith) in (i, omega (arith, there))
decider (waits t awake ∷ calls) e =
    let (i, there) = decider calls (omega arith) in (i, omega (arith, there))
decider (waits t unregistered ∷ calls) e =
    let (i, there) = decider calls (omega arith) in (i, omega (arith, there))
decider (waits t relocking ∷ calls) e =
    let (i, there) = decider calls (omega arith) in (i, omega (arith, there))
decider (notifies t to_wake ∷ calls) e = (t, ground arith)
