-- ===== src/Pi/Handshake/Placed.antt =====
-- src/pi.rs: where the threads of the calls stand in the lock.
use rtsc.Prelude.{
  ℕ, ◌≤◌, ◌<◌, ◌≡◌, ◌==◌, Bool, true, false, Bool-cases, List, ◌∷◌, count, inl, inr, arith,
}
use rtsc.BaseChannel.Tasks.{Picks, Picks-count}
use rtsc.Pi.{Phase, idle, holding}
use rtsc.Pi.System.{set_phase}
use rtsc.Pi.Handshake.{
  deciding, registered, releasing, asleep, awake, unregistered, relocking, Call, waits, notifies,
  tid_of, calls_of,
}
use rtsc.Pi.Handshake.Woken.{count-le}

-- The calls of `t` that are made with the mutex held.
abbrev pub is_inside : ℕ → Call → Bool
is_inside t (waits i deciding) = i == t
is_inside t (waits i registered) = i == t
is_inside t (notifies i _) = i == t
is_inside _ _ = false

-- The calls of `t` that have nothing to do with the mutex for the time being.
abbrev pub is_outside : ℕ → Call → Bool
is_outside t (waits i asleep) = i == t
is_outside t (waits i awake) = i == t
is_outside t (waits i unregistered) = i == t
is_outside _ _ = false

pub record Placed (phase : ℕ → Phase) (calls : List Call) : Type 0 where
  pub unique : (t : ℕ) → count (calls_of t) calls ≤ 1
  pub inside : (t : ℕ) → 0 < count (is_inside t) calls → phase t ≡ holding
  pub outside : (t : ℕ) → 0 < count (is_outside t) calls → phase t ≡ idle

pub Placed-Picks :
    {phase : ℕ → Phase} {c : Call} {calls rest : List Call}
    → Picks c calls rest
    → Placed phase calls
    → Placed phase (c ∷ rest)
Placed-Picks {phase} {c} {calls} {rest} p h = record {
  unique = λ t. omega (arith, Picks-count (calls_of t) p, h.unique t);
  inside = λ t e. h.inside t (omega (arith, Picks-count (is_inside t) p));
  outside = λ t e. h.outside t (omega (arith, Picks-count (is_outside t) p));
}

-- A call is over.
pub over-Placed :
    {phase : ℕ → Phase} {c : Call} {rest : List Call} → Placed phase (c ∷ rest) → Placed phase rest
over-Placed h = record {
  unique = λ t. omega (arith, h.unique t);
  inside = λ t e. h.inside t (omega arith);
  outside = λ t e. h.outside t (omega arith);
}

-- A call begins, for which the thread stands where it has to.
pub begins-Placed :
    {phase : ℕ → Phase} {calls : List Call} (c : Call)
    → count (calls_of (tid_of c)) calls ≡ 0
    → ((t : ℕ) → is_inside t c ≡ true → phase t ≡ holding)
    → ((t : ℕ) → is_outside t c ≡ true → phase t ≡ idle)
    → Placed phase calls
    → Placed phase (c ∷ calls)
begins-Placed c fresh inside outside h = record {
  unique = λ t. ground (arith, h.unique t);
  inside = λ t e. ground (arith, h.inside t, inside t);
  outside = λ t e. ground (arith, h.outside t, outside t);
}

pub own_gone :
    {phase : ℕ → Phase} {c : Call} {rest : List Call}
    → Placed phase (c ∷ rest)
    → count (calls_of (tid_of c)) rest ≡ 0
own_gone {c} h = ground (arith, h.unique (tid_of c))

inside-calls_of : (t : ℕ) (c : Call) → is_inside t c ≡ true → calls_of t c ≡ true
inside-calls_of t (waits i deciding) e = e
inside-calls_of t (waits i registered) e = e
inside-calls_of t (notifies i _) e = e
inside-calls_of t (waits i releasing) e = cc
inside-calls_of t (waits i asleep) e = cc
inside-calls_of t (waits i awake) e = cc
inside-calls_of t (waits i unregistered) e = cc
inside-calls_of t (waits i relocking) e = cc

outside-calls_of : (t : ℕ) (c : Call) → is_outside t c ≡ true → calls_of t c ≡ true
outside-calls_of t (waits i deciding) e = cc
outside-calls_of t (waits i registered) e = cc
outside-calls_of t (notifies i _) e = cc
outside-calls_of t (waits i releasing) e = cc
outside-calls_of t (waits i asleep) e = e
outside-calls_of t (waits i awake) e = e
outside-calls_of t (waits i unregistered) e = e
outside-calls_of t (waits i relocking) e = cc

pub inside-le : (t : ℕ) (calls : List Call) → count (is_inside t) calls ≤ count (calls_of t) calls
inside-le t calls = count-le (is_inside t) (calls_of t) calls (λ c. inside-calls_of t c)

outside-le : (t : ℕ) (calls : List Call) → count (is_outside t) calls ≤ count (calls_of t) calls
outside-le t calls = count-le (is_outside t) (calls_of t) calls (λ c. outside-calls_of t c)

pub apart : (f : ℕ → ℕ) (i t : ℕ) → f t ≡ 0 → 0 < f i → (i == t) ≡ false
apart f i t nothing some_there = elim (Bool-cases (i == t)) [
  | inl e ↦
      let same : i ≡ t = ground arith in
      let there : 0 < f t = rw same at some_there in absurd (omega arith)
  | inr e ↦ e
]

-- A thread without a call goes on.
pub goes-Placed :
    {phase : ℕ → Phase} {calls : List Call} (t : ℕ) (p : Phase)
    → count (calls_of t) calls ≡ 0
    → Placed phase calls
    → Placed (set_phase t p phase) calls
goes-Placed {phase} {calls} t p free h = record {
  unique = h.unique;
  inside = λ i e.
      let other : (i == t) ≡ false =
        apart (λ j. count (is_inside j) calls) i t (omega (arith, inside-le t calls)) e in
      rw other (h.inside i e);
  outside = λ i e.
      let other : (i == t) ≡ false =
        apart (λ j. count (is_outside j) calls) i t (omega (arith, outside-le t calls)) e in
      rw other (h.outside i e);
}
