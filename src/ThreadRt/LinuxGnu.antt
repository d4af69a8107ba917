-- ===== src/ThreadRt/LinuxGnu.antt =====
-- src/thread_rt/linux_gnu.rs: `apply` by system calls. The ids of CPUs are taken to fit a cpu_set_t,
-- so that CPU_SET is asked for no other.
use Prim.Native.String.{String}
use rtsc.Prelude.{ℕ, ℤ, pos, Bool, Option, none, some, List, [], ◌∷◌, any, ◌==◌, if◌then◌else◌}
use rtsc.Error.{
  Error, access_denied, rt_sched_set_affinity, rt_sched_set_scheduler, Result, ok, err,
}
use rtsc.ThreadRt.{Scheduling, round_robin, fifo, idle, batch, dead_line, other, Params, sched_for}

-- The constants of the C library.
pub data SchedConstant : Type 0 where
  sched_rr sched_fifo sched_idle sched_batch sched_deadline sched_normal : SchedConstant

abbrev pub into_c : Scheduling → SchedConstant
into_c round_robin = sched_rr
into_c fifo = sched_fifo
into_c idle = sched_idle
into_c batch = sched_batch
into_c dead_line = sched_deadline
into_c other = sched_normal

-- The calls, on the state `O` of the system: `none` stands for the answer 0, else the answer's text.
-- A set of CPUs is its membership test.
pub record Syscalls (O : Type 0) : Type 0 where
  pub getuid : ℕ
  pub sched_setaffinity : ℤ → (ℕ → Bool) → O → Option String × O
  pub sched_setscheduler : ℤ → SchedConstant → ℤ → O → Option String × O

unfoldable pub cpu_set : List ℕ → ℕ → Bool
cpu_set cpu_ids cpu = any (λ i. i == cpu) cpu_ids

module _ {O : Type 0} (sys : Syscalls O) where
  abbrev pub answered : (String → Error) → Option String × O → Result (Unit {0}) × O
  answered error (none, left) = (ok tt, left)
  answered error (some res, left) = (err (error res), left)

  -- The first half of `apply`.
  unfoldable pub set_affinity : ℤ → List ℕ → O → Result (Unit {0}) × O
  set_affinity tid [] o = (ok tt, o)
  set_affinity tid (cpu ∷ cpus) o =
      let set =
        answered rt_sched_set_affinity (sys.sched_setaffinity tid (cpu_set (cpu ∷ cpus)) o) in
      if sys.getuid == 0 then set else (err access_denied, o)

  -- The second half.
  unfoldable pub set_scheduler : ℤ → Params → Option ℤ → O → Result (Unit {0}) × O
  set_scheduler tid params none o = (ok tt, o)
  set_scheduler tid params (some priority) o =
      let sched = into_c (sched_for params priority) in
      let set = answered rt_sched_set_scheduler (sys.sched_setscheduler tid sched priority o) in
      if sys.getuid == 0 then set else (err access_denied, o)

  unfoldable pub apply : ℤ → Params → O → Result (Unit {0}) × O
  apply tid params o =
      let (affinity, left) = set_affinity tid params.cpu_ids o in
      elim affinity [ err e ↦ (err e, left) | ok _ ↦ set_scheduler tid params params.priority left ]

  unfoldable pub apply_for_current : Params → O → Result (Unit {0}) × O
  apply_for_current = apply (pos 0)
