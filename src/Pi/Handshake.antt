-- ===== src/Pi/Handshake.antt =====
-- src/pi.rs: threads that wait for a flag, as the tests of this file do: the flag stands under the
-- mutex, and a thread that finds it down calls `wait` in a loop; another raises it and calls
-- `notify_all`, under the mutex too. Each step is one access to the lock, to the counter of the
-- condition variable or to its futex.
pub mod Placed
pub mod Stays
pub mod Tally
pub mod Woken
pub mod Safety
use rtsc.Prelude.{
  ℕ, ◌+◌, ◌-◌, ◌^◌, ◌≤◌, ◌<◌, ◌≡◌, ◌==◌, Bool, true, false, not, ◌||◌, Option, none, some, List, [],
  ◌∷◌, count, any, if◌then◌else◌,
}
use rtsc.BaseChannel.Tasks.{Picks}
use rtsc.Pi.{Phase, idle, holding, unlocking, lock, begin, unlock_to_wait}
use rtsc.Pi.Kernel.{Kernel}
use rtsc.Pi.System
use rtsc.Pi.System.{System, goes}

-- A wait: its thread has found the flag down; it is counted; it has gone on to unlock the mutex, or
-- to enter the futex; it sleeps there; it has left the futex; it is not counted any more; or it
-- locks the mutex again.
pub data Stage : Type 0 where
  deciding registered releasing asleep awake unregistered relocking : Stage

-- The calls in progress. A `notify_all` is about to load the counter, or has loaded it.
pub data Call : Type 0 where
  waits : (tid : ℕ) → Stage → Call
  notifies : (tid : ℕ) → (to_wake : Option ℕ) → Call

pub record Handshake : Type 0 where
  pub sys : System
  pub waiters : ℕ
  pub calls : List Call
  pub started : Bool

abbrev pub tid_of : Call → ℕ
tid_of (waits t _) = t
tid_of (notifies t _) = t

abbrev pub calls_of : ℕ → Call → Bool
calls_of t c = tid_of c == t

abbrev is_unlocking : Phase → Bool
is_unlocking unlocking = true
is_unlocking _ = false

abbrev is_holding : Phase → Bool
is_holding holding = true
is_holding _ = false

-- Whether the lock's steps go on for the thread of a call: while it unlocks, and until it has locked.
abbrev pub goes_on : Phase → Call → Bool
goes_on p (waits _ releasing) = is_unlocking p
goes_on p (waits _ relocking) = not (is_holding p)
goes_on _ _ = false

-- Whether a call keeps a step of thread `t`, in the phase `p`, from happening.
abbrev pub stops : ℕ → Phase → Call → Bool
stops t p c = if tid_of c == t then not (goes_on p c) else false

-- The turn of `notify_all` by `t` that loads the counter.
unfoldable pub load : (t waiters : ℕ) → List Call → List Call
load t waiters rest = if waiters == 0 then rest else notifies t (some waiters) ∷ rest

-- The end of this turn, where `wake(to_wake)` has woken `woken` threads.
unfoldable pub after_wake : (t to_wake woken : ℕ) → List Call → List Call
after_wake t to_wake woken rest = if woken == to_wake then rest else notifies t none ∷ rest

-- `Wakes n calls left`: the futex wakes `n` of those that sleep, whichever.
pub data Wakes : ℕ → List Call → List Call → Type 0 where
  nobody : (calls : List Call) → Wakes 0 calls calls
  one_more :
      (n t : ℕ) {calls left rest : List Call}
      → Wakes n calls left
      → Picks (waits t asleep) left rest
      → Wakes (n + 1) calls (waits t awake ∷ rest)

module _ (k : Kernel) where
  -- The thread that a step of the lock is one of.
  abbrev pub actor : {s u : System} → System.Step k s u → ℕ
  actor (System.begins t _ _ _) = t
  actor (System.races t _ _ _) = t
  actor (System.queues _ _) = 0
  actor (System.is_answered t _ _ _ _ _ _) = t
  actor (System.unlocks t _ _) = t
  actor (System.unlocks_to_wait t _ _) = t
  actor (System.kernel_unlocks t _ _ _ _) = t
  actor (System.blocks t _ _) = t

  pub data Step (s : Handshake) : Handshake → Type 0 where
    -- The lock.
    lock_goes :
        (u : System) (step : System.Step k s.sys u)
        → any (stops (actor step) (s.sys.phase (actor step))) s.calls ≡ false
        → Step s (record s { sys = u })
    -- A wait.
    tests :
        (t : ℕ)
        → s.sys.phase t ≡ holding
        → count (calls_of t) s.calls ≡ 0
        → s.started ≡ false
        → Step s (record s { calls = waits t deciding ∷ s.calls })
    registers :
        (t : ℕ) (rest : List Call)
        → Picks (waits t deciding) s.calls rest
        → s.waiters < 2 ^ 31 - 1
        → Step s (record s { waiters = s.waiters + 1; calls = waits t registered ∷ rest })
    releases :
        (t : ℕ) (rest : List Call)
        → k.IsTid t
        → Picks (waits t registered) s.calls rest
        → Step s (record s {
          sys = goes t (unlock_to_wait t s.sys.lock) s.sys;
          calls = waits t releasing ∷ rest;
        })
    sleeps :
        (t : ℕ) (rest : List Call)
        → Picks (waits t releasing) s.calls rest
        → s.sys.phase t ≡ idle
        → Step s (record s { calls = waits t asleep ∷ rest })
    is_late :
        (t : ℕ) (rest : List Call)
        → Picks (waits t releasing) s.calls rest
        → s.sys.phase t ≡ idle
        → Step s (record s { calls = waits t awake ∷ rest })
    is_interrupted :
        (t : ℕ) (rest : List Call)
        → Picks (waits t asleep) s.calls rest
        → Step s (record s { calls = waits t releasing ∷ rest })
    times_out :
        (t : ℕ) (rest : List Call)
        → Picks (waits t asleep) s.calls rest
        → Step s (record s { calls = waits t awake ∷ rest })
    unregisters :
        (t : ℕ) (rest : List Call)
        → Picks (waits t awake) s.calls rest
        → Step s (record s { waiters = s.waiters - 1; calls = waits t unregistered ∷ rest })
    relocks :
        (t : ℕ) (rest : List Call)
        → k.IsTid t
        → Picks (waits t unregistered) s.calls rest
        → Step s (record s {
          sys = goes t (begin lock s.sys.lock, s.sys.lock) s.sys;
          calls = waits t relocking ∷ rest;
        })
    returns :
        (t : ℕ) (rest : List Call)
        → Picks (waits t relocking) s.calls rest
        → s.sys.phase t ≡ holding
        → Step s (record s { calls = rest })
    -- A notification.
    raises :
        (t : ℕ)
        → s.sys.phase t ≡ holding
        → count (calls_of t) s.calls ≡ 0
        → Step s (record s { started = true; calls = notifies t none ∷ s.calls })
    loads :
        (t : ℕ) (rest : List Call)
        → Picks (notifies t none) s.calls rest
        → Step s (record s { calls = load t s.waiters rest })
    wakes :
        (t to_wake woken : ℕ) (rest left : List Call)
        → Picks (notifies t (some to_wake)) s.calls rest
        → Wakes woken rest left
        → woken ≤ to_wake
        → Step s (record s { calls = after_wake t to_wake woken left })

  pub data Reach (s : Handshake) : Handshake → Type 0 where
    start : Reach s s
    later : {t u : Handshake} → Reach s t → Step t u → Reach s u

-- Nobody has called yet.
unfoldable pub nobody_waits : Handshake
nobody_waits = record { sys = System.initial; waiters = 0; calls = []; started = false }
