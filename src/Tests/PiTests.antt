-- ===== src/Tests/PiTests.antt =====
-- The theorems on the lock with priority inheritance and its condition variable, with a kernel that
-- keeps the owner's id in the lower 30 bits of the word.
use rtsc.Prelude.{ℕ, ◌<◌, ◌≡◌, ◌≢◌, ◌⊎◌, ◌%◌, inl, inr, refl, true, arith}
use rtsc.Pi.{
  lock, leaked, lent, lost, taken, begin, race, perform_unlock, block_forever, compare_exchange,
  init,
}
use rtsc.Pi.Kernel.{Kernel, KernelLaws}
use rtsc.Pi.System.{System, goes, begins, races, Reach, start, later, initial}
use rtsc.Pi.Guards
use rtsc.Pi.Guards.{Exits}
use rtsc.Pi.Exclusion.{mutual_exclusion}

abbrev pub mask : ℕ → ℕ
mask v = v % 1073741824

abbrev pub kernel : Kernel
kernel = record {
  IsTid = λ t. (0 < t) × (t < 1073741824);
  owner = mask;
  Asks = λ t v a v'.
      ((a ≡ taken) × ((mask v ≡ 0) ⊎ (mask v ≡ t)) × (mask v' ≡ t))
      ⊎ ((a ≢ taken) × (mask v ≢ t) × (v' ≡ v));
  Queues = λ v v'. mask v' ≡ mask v;
  Unlocks = λ t waits v v'. (mask v' ≡ 0) ⊎ (waits (mask v') ≡ true);
}

pub kernel-laws : KernelLaws kernel
kernel-laws = record {
  owner-0 = refl;
  owner_tid = λ t tid. ground arith;
  tid_positive = λ t tid. omega arith;
  taken_free = λ t v v' h. elim h [ inl e ↦ e.1 | inr e ↦ absurd (e.0 refl) ];
  taken_owner = λ t v v' h. elim h [ inl e ↦ e.2 | inr e ↦ absurd (e.0 refl) ];
  refused_owner = λ t v v' a h ne. elim h [ inl e ↦ absurd (ne e.0) | inr e ↦ rw e.2 refl ];
  refused_other = λ t v v' a h ne. elim h [ inl e ↦ absurd (ne e.0) | inr e ↦ e.1 ];
  queues_owner = λ v v' e. e;
  unlocks_owner = λ t v v' waits h e. h;
}

-- When its owner ends, it hands the lock over to a thread that asks, or leaves the word.
abbrev exits : Exits kernel
exits = record { Ends = λ t waits v v'. (v' ≡ v) ⊎ ((waits (mask v') ≡ true) × (mask v' ≢ t)) }

-- Thread 5 takes the lock.
abbrev pub begun : System
begun = goes 5 (begin lock initial.lock, initial.lock) initial

abbrev pub held : System
held = goes 5 (race lock 5 begun.lock) begun

held-Reach : Reach kernel initial held
unfolding initial begin init
held-Reach =
    later (later start (begins 5 lock (omega arith, omega arith) refl))
      (races 5 lock (omega arith, omega arith) refl)

mutual_exclusion_example : ◌≡◌ {A = ℕ} 5 5
unfolding race compare_exchange begin init initial
mutual_exclusion_example = mutual_exclusion kernel kernel-laws held 5 5 held-Reach refl refl

-- It sends its guard to thread 6, which drops it.
abbrev sent : System
sent = goes 5 (lent, held.lock) held

abbrev dropped : System
dropped = goes 5 (lost, (perform_unlock 6 sent.lock).1) sent

-- It leaks its guard, and then thread 6 tries.
abbrev blocked : System
blocked = goes 5 (leaked, block_forever held.lock) held

abbrev tried : System
tried = goes 6 (begin lock blocked.lock, blocked.lock) blocked
