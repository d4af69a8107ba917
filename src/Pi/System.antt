-- ===== src/Pi/System.antt =====
-- src/pi.rs: threads that share a lock, in any interleaving of their accesses.
-- Here a guard is dropped, or leaked, by the thread that took it, and no thread ends that owns the
-- lock. Pi/Guards has guards that move, and threads that end.
use rtsc.Prelude.{ℕ, ◌≡◌, ◌==◌, Bool, true, false, if◌then◌else◌}
use rtsc.Pi.{
  PiLock, Attempt, Phase, idle, holding, unlocking, leaked, racing, in_kernel, Answer, begin, race,
  answered, perform_unlock, unlock_to_wait, block_forever, init,
}
use rtsc.Pi.Kernel.{Kernel}

pub record System : Type 0 where
  pub lock : PiLock
  pub phase : ℕ → Phase

abbrev pub set_phase : ℕ → Phase → (ℕ → Phase) → ℕ → Phase
set_phase t p phases i = if i == t then p else phases i

abbrev pub asks : Phase → Bool
asks (in_kernel _) = true
asks _ = false

-- The thread `t` goes on.
abbrev pub goes : ℕ → Phase × PiLock → System → System
goes t (p, l) s = record { lock = l; phase = set_phase t p s.phase }

abbrev pub with_word : ℕ → System → System
with_word v s = record s { lock = record s.lock { value = v } }

module _ (k : Kernel) where
  pub data Step (s : System) : System → Type 0 where
    begins :
        (t : ℕ) (attempt : Attempt)
        → k.IsTid t
        → s.phase t ≡ idle
        → Step s (goes t (begin attempt s.lock, s.lock) s)
    races :
        (t : ℕ) (attempt : Attempt)
        → k.IsTid t
        → s.phase t ≡ racing attempt
        → Step s (goes t (race attempt t s.lock) s)
    queues : (v : ℕ) → k.Queues s.lock.value v → Step s (with_word v s)
    is_answered :
        (t : ℕ) (attempt : Attempt) (a : Answer) (v : ℕ)
        → k.IsTid t
        → s.phase t ≡ in_kernel attempt
        → k.Asks t s.lock.value a v
        → Step s (goes t (answered attempt a, record s.lock { value = v }) s)
    unlocks :
        (t : ℕ) → k.IsTid t → s.phase t ≡ holding → Step s (goes t (perform_unlock t s.lock) s)
    unlocks_to_wait :
        (t : ℕ) → k.IsTid t → s.phase t ≡ holding → Step s (goes t (unlock_to_wait t s.lock) s)
    kernel_unlocks :
        (t v : ℕ)
        → k.IsTid t
        → s.phase t ≡ unlocking
        → k.Unlocks t (λ u. asks (s.phase u)) s.lock.value v
        → Step s (goes t (idle, record s.lock { value = v }) s)
    blocks :
        (t : ℕ) → k.IsTid t → s.phase t ≡ holding → Step s (goes t (leaked, block_forever s.lock) s)

  pub data Reach (s : System) : System → Type 0 where
    start : Reach s s
    later : {t u : System} → Reach s t → Step t u → Reach s u

unfoldable pub initial : System
initial = record { lock = init; phase = λ _. idle }
