-- ===== src/ThreadRt/Agree.antt =====
-- src/thread_rt: the code for both kinds of Linux.
use Prim.Native.String.{String}
use rtsc.Prelude.{
  ℕ, ℤ, pos, ◌<◌, ◌↔◌, count, ◌≡◌, ◌≢◌, ◌⊎◌, Bool, true, false, Option, none, List, [], ◌∷◌, ◌==◌,
}
use rtsc.Error.{Error, Result, ok, err}
use rtsc.ThreadRt.LinuxGnu
use rtsc.ThreadRt.LinuxGnu.{
  Syscalls, SchedConstant, sched_rr, sched_fifo, sched_idle, sched_batch, sched_deadline,
  sched_normal,
}
use rtsc.ThreadRt.LinuxOther
use rtsc.ThreadRt.LinuxOther.{Commands, Arg, text, number, numbers, Status, exited}

abbrev pub is_ok : {A : Type 0} → Result A → Bool
is_ok (ok _) = true
is_ok (err _) = false

-- The options of chrt(1) for the policies.
pub data ChrtOption : String → SchedConstant → Type 0 where
  option_other : ChrtOption "--other" sched_normal
  option_fifo : ChrtOption "--fifo" sched_fifo
  option_rr : ChrtOption "--rr" sched_rr
  option_batch : ChrtOption "--batch" sched_batch
  option_idle : ChrtOption "--idle" sched_idle
  option_deadline : ChrtOption "--deadline" sched_deadline

module _ {O : Type 0} where
  -- A command has the effect of a call, and its exit code is 0 exactly if the call answers 0.
  pub record Matches (r : Option String × O) (s : Status × O) : Type 0 where
    pub state : r.1 ≡ s.1
    pub code : ((r.0 ≡ none) × (s.0 ≡ exited 0)) ⊎ ((r.0 ≢ none) × (s.0 ≢ exited 0))

  -- The commands of a system do what their manuals say, for a thread whose id is positive:
  -- `taskset -cp` sets the CPUs that are listed, and no others, and `chrt` with the option of a
  -- policy and `-p` sets this policy with the priority.
  pub record SameSystem (sys : Syscalls O) (cmd : Commands O) : Type 0 where
    pub uid : sys.getuid ≡ cmd.getuid
    pub taskset :
        (t : ℕ) (cpus : List ℕ) (set : ℕ → Bool) (o : O)
        → 0 < t
        → ((cpu : ℕ) → (set cpu ≡ true) ↔ (0 < count (λ i. i == cpu) cpus))
        → Matches
            (sys.sched_setaffinity (pos t) set o)
            (cmd.status "taskset" (text "-cp" ∷ numbers cpus ∷ number (pos t) ∷ []) o)
    pub chrt :
        (t : ℕ) (option : String) (policy : SchedConstant) (priority : ℤ) (o : O)
        → 0 < t
        → ChrtOption option policy
        → Matches
            (sys.sched_setscheduler (pos t) policy priority o)
            (cmd.status "chrt" (text option ∷ text "-p" ∷ number priority ∷ number (pos t) ∷ []) o)

  abbrev pub SameOutcome : Result (Unit {0}) × O → Result (Unit {0}) × O → Type 0
  SameOutcome r s = (is_ok r.0 ≡ is_ok s.0) × (r.1 ≡ s.1)
