-- ===== src/Semaphore/System.antt =====
-- src/semaphore.rs: threads that acquire permissions and drop guards, in any interleaving.
use rtsc.Prelude.{ℕ, ◌+◌, ◌-◌, ◌<◌, none, some, ◌==◌, if◌then◌else◌}
use rtsc.Semaphore.{SemaphoreInner, new, try_acquire, acquire_round, release}

-- The semaphore, how many guards are held, how many calls of `acquire` are about to run a round
-- and how many wait, and whether a release has overflowed.
pub record System : Type 0 where
  pub inner : SemaphoreInner
  pub guards : ℕ
  pub acquiring : ℕ
  pub waiting : ℕ
  pub overflowed : ℕ

unfoldable pub run_acquire : System → System
run_acquire s =
    let (permission, inner) = acquire_round s.inner in
    elim permission [
      | some _ ↦ record s { inner = inner; guards = s.guards + 1; acquiring = s.acquiring - 1 }
      | none ↦ record s { inner = inner; acquiring = s.acquiring - 1; waiting = s.waiting + 1 }
    ]

unfoldable pub run_try_acquire : System → System
run_try_acquire s =
    let (permission, inner) = try_acquire s.inner in
    elim permission [
      | some _ ↦ record s { inner = inner; guards = s.guards + 1 }
      | none ↦ record s { inner = inner }
    ]

-- `notify_one` lets a waiter run, if there is any.
abbrev pub notify_one : System → System
notify_one s =
    if s.waiting == 0 then s else record s { acquiring = s.acquiring + 1; waiting = s.waiting - 1 }

unfoldable pub drop_guard : System → System
drop_guard s = elim (release s.inner) [
  | some inner ↦ notify_one (record s { inner = inner; guards = s.guards - 1 })
  | none ↦ record s { guards = s.guards - 1; overflowed = s.overflowed + 1 }
]

pub data Step (s : System) : System → Type 0 where
  call_acquire : Step s (record s { acquiring = s.acquiring + 1 })
  runs_acquire : 0 < s.acquiring → Step s (run_acquire s)
  call_try_acquire : Step s (run_try_acquire s)
  drops_guard : 0 < s.guards → Step s (drop_guard s)

pub data Reach (s : System) : System → Type 0 where
  start : Reach s s
  later : {t u : System} → Reach s t → Step t u → Reach s u

abbrev pub initial : ℕ → System
initial capacity = record {
  inner = new capacity;
  guards = 0;
  acquiring = 0;
  waiting = 0;
  overflowed = 0;
}
