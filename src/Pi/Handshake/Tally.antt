-- ===== src/Pi/Handshake/Tally.antt =====
-- src/pi.rs: what the counter of the condition variable counts, and what a `notify_all` that has
-- loaded it can rely on.
use rtsc.Prelude.{
  ℕ, ◌+◌, ◌≤◌, ◌<◌, ◌≡◌, ◌==◌, refl, Bool, true, false, Bool-cases, none, some, List, [], ◌∷◌,
  count, inl, inr, arith,
}
use rtsc.BaseChannel.Tasks.{Picks, Picks-count}
use rtsc.Pi.Handshake.{
  Stage, deciding, registered, releasing, asleep, awake, unregistered, relocking, Call, waits,
  notifies, Wakes, load, after_wake,
}
use rtsc.Pi.Handshake.Woken.{
  is_deciding, is_counted, may_sleep, is_notifying, has_loaded, Wakes-count, Wakes-may_sleep,
  count-le,
}

-- What holds of the calls in progress, for the counter `n` and the flag.
pub record Tally (n : ℕ) (started : Bool) (calls : List Call) : Type 0 where
  pub counted : n ≡ count is_counted calls
  -- With the flag down, nobody notifies; with it up, nobody decides to wait.
  pub quiet : started ≡ false → count is_notifying calls ≡ 0
  pub decided : started ≡ true → count is_deciding calls ≡ 0
  -- The counter has not grown since it was loaded.
  pub loaded : (m : ℕ) → 0 < count (has_loaded m) calls → count is_counted calls ≤ m
  -- With the flag up and nobody who notifies, no wait sleeps or will.
  pub woken : started ≡ true → count is_notifying calls ≡ 0 → count may_sleep calls ≡ 0

pub Tally-Picks :
    {n : ℕ} {b : Bool} {c : Call} {calls rest : List Call}
    → Picks c calls rest
    → Tally n b calls
    → Tally n b (c ∷ rest)
Tally-Picks {c} {rest} p h = record {
  counted = omega (arith, Picks-count is_counted p, h.counted);
  quiet = λ e. omega (arith, Picks-count is_notifying p, h.quiet e);
  decided = λ e. omega (arith, Picks-count is_deciding p, h.decided e);
  loaded = λ m some_loaded.
      omega
        (arith, Picks-count is_counted p, h.loaded m (omega (arith, Picks-count (has_loaded m) p)));
  woken = λ e none_left.
      omega (arith, Picks-count may_sleep p, h.woken e (omega (arith, Picks-count is_notifying p)));
}

-- A wait goes on, and does not count again, decide again or begin to sleep by this.
pub wait_goes-Tally :
    {n : ℕ} {b : Bool} {rest : List Call} (t n' : ℕ) (from to : Stage)
    → n' + count is_counted (waits t from ∷ []) ≡ n + count is_counted (waits t to ∷ [])
    → count is_counted (waits t to ∷ []) ≤ count is_counted (waits t from ∷ [])
    → count is_deciding (waits t to ∷ []) ≤ count is_deciding (waits t from ∷ [])
    → count may_sleep (waits t to ∷ []) ≤ count may_sleep (waits t from ∷ [])
    → Tally n b (waits t from ∷ rest)
    → Tally n' b (waits t to ∷ rest)
wait_goes-Tally t n' from to number fewer decides sleeps h = record {
  counted = omega (arith, h.counted);
  quiet = λ e. omega (arith, h.quiet e);
  decided = λ e. omega (arith, h.decided e);
  loaded = λ m some_loaded. omega (arith, h.loaded m (omega arith));
  woken = λ e none_left. omega (arith, h.woken e (omega arith));
}

-- A wait is over.
pub returns-Tally :
    {n : ℕ} {b : Bool} {rest : List Call} (t : ℕ)
    → Tally n b (waits t relocking ∷ rest)
    → Tally n b rest
returns-Tally t h = record {
  counted = omega (arith, h.counted);
  quiet = λ e. omega (arith, h.quiet e);
  decided = λ e. omega (arith, h.decided e);
  loaded = λ m some_loaded. omega (arith, h.loaded m (omega arith));
  woken = λ e none_left. omega (arith, h.woken e (omega arith));
}

-- The flag is down, and a thread decides to wait.
pub tests-Tally :
    {n : ℕ} {b : Bool} {calls : List Call} (t : ℕ)
    → b ≡ false
    → Tally n b calls
    → Tally n b (waits t deciding ∷ calls)
tests-Tally t down h = record {
  counted = omega (arith, h.counted);
  quiet = λ e. omega (arith, h.quiet e);
  decided = λ up. absurd (ground (arith, down, up));
  loaded = λ m some_loaded. omega (arith, h.loaded m (omega arith));
  woken = λ up. absurd (ground (arith, down, up));
}

has_loaded-is_notifying : (m : ℕ) (c : Call) → has_loaded m c ≡ true → is_notifying c ≡ true
has_loaded-is_notifying m (notifies t to_wake) e = refl
has_loaded-is_notifying m (waits t stage) e = cc

has_loaded-le : (m : ℕ) (calls : List Call) → count (has_loaded m) calls ≤ count is_notifying calls
has_loaded-le m calls = count-le (has_loaded m) is_notifying calls (has_loaded-is_notifying m)

-- It is counted: no notification is in progress then.
pub registers-Tally :
    {n : ℕ} {b : Bool} {rest : List Call} (t : ℕ)
    → Tally n b (waits t deciding ∷ rest)
    → Tally (n + 1) b (waits t registered ∷ rest)
registers-Tally {b} {rest} t h =
    let down : b ≡ false = ground (arith, h.decided) in
    record {
      counted = omega (arith, h.counted);
      quiet = λ e. omega (arith, h.quiet e);
      decided = λ e. omega (arith, h.decided e);
      loaded = λ m some_loaded. absurd (omega (arith, has_loaded-le m rest, h.quiet down));
      woken = λ e none_left. omega (arith, h.woken e (omega arith));
    }

may_sleep-le :
    (calls : List Call) → count may_sleep calls ≤ count is_deciding calls + count is_counted calls
may_sleep-le [] = omega arith
may_sleep-le (notifies t to_wake ∷ calls) = omega (arith, may_sleep-le calls)
may_sleep-le (waits t deciding ∷ calls) = omega (arith, may_sleep-le calls)
may_sleep-le (waits t registered ∷ calls) = omega (arith, may_sleep-le calls)
may_sleep-le (waits t releasing ∷ calls) = omega (arith, may_sleep-le calls)
may_sleep-le (waits t asleep ∷ calls) = omega (arith, may_sleep-le calls)
may_sleep-le (waits t awake ∷ calls) = omega (arith, may_sleep-le calls)
may_sleep-le (waits t unregistered ∷ calls) = omega (arith, may_sleep-le calls)
may_sleep-le (waits t relocking ∷ calls) = omega (arith, may_sleep-le calls)

-- The flag goes up, while nobody decides to wait.
pub raises-Tally :
    {n : ℕ} {b : Bool} {calls : List Call} (t : ℕ)
    → count is_deciding calls ≡ 0
    → Tally n b calls
    → Tally n true (notifies t none ∷ calls)
raises-Tally t none_decides h = record {
  counted = omega (arith, h.counted);
  quiet = λ e. cc;
  decided = λ e. omega arith;
  loaded = λ m some_loaded. omega (arith, h.loaded m (omega arith));
  woken = λ e none_left. absurd (omega arith);
}

-- A notification loads the counter, and returns at once where it counts nobody.
pub loads-Tally :
    {n : ℕ} {b : Bool} {rest : List Call} (t : ℕ)
    → Tally n b (notifies t none ∷ rest)
    → Tally n b (load t n rest)
unfolding load
loads-Tally {n} {b} {rest} t h =
    let up : b ≡ true = ground (arith, h.quiet) in
    elim (Bool-cases (n == 0)) [
      | inl e ↦ rw e (record {
        counted = omega (arith, h.counted);
        quiet = λ down. absurd (ground (arith, up, down));
        decided = λ e. omega (arith, h.decided e);
        loaded = λ m some_loaded. omega (arith, h.loaded m (omega arith));
        woken = λ _ none_left. ground (arith, may_sleep-le rest, h.decided up, h.counted);
      })
      | inr e ↦ rw e (record {
        counted = omega (arith, h.counted);
        quiet = λ down. absurd (ground (arith, up, down));
        decided = λ e. omega (arith, h.decided e);
        loaded = λ m some_loaded. ground (arith, h.loaded m, h.counted);
        woken = λ _ none_left. absurd (omega arith);
      })
    ]

-- The futex has woken threads; the loop ends where these are as many as had been counted.
pub Wakes-Tally :
    {n : ℕ} {b : Bool} {rest left : List Call} (t to_wake woken : ℕ)
    → Wakes woken rest left
    → woken ≤ to_wake
    → Tally n b (notifies t (some to_wake) ∷ rest)
    → Tally n b (after_wake t to_wake woken left)
unfolding after_wake
Wakes-Tally {n} {b} {rest} {left} t to_wake woken w le h =
    let up : b ≡ true = ground (arith, h.quiet) in
    let same_counted = Wakes-count is_counted (λ t. refl) w in
    let same_notifying = Wakes-count is_notifying (λ t. refl) w in
    let same_deciding = Wakes-count is_deciding (λ t. refl) w in
    let fewer = Wakes-may_sleep w in
    elim (Bool-cases (woken == to_wake)) [
      | inl e ↦ rw e (record {
        counted = omega (arith, h.counted);
        quiet = λ down. absurd (ground (arith, up, down));
        decided = λ e. omega (arith, h.decided e);
        loaded =
            λ m some_loaded. ground (arith, h.loaded m, Wakes-count (has_loaded m) (λ t. refl) w);
        woken = λ _ none_left. ground (arith, may_sleep-le rest, h.decided up, h.loaded to_wake);
      })
      | inr e ↦ rw e (record {
        counted = omega (arith, h.counted);
        quiet = λ down. absurd (ground (arith, up, down));
        decided = λ e. omega (arith, h.decided e);
        loaded =
            λ m some_loaded. ground (arith, h.loaded m, Wakes-count (has_loaded m) (λ t. refl) w);
        woken = λ _ none_left. absurd (omega arith);
      })
    ]
