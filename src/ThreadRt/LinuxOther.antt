-- ===== src/ThreadRt/LinuxOther.antt =====
-- src/thread_rt/linux_other.rs: `apply` by the commands `taskset` and `chrt`.
use Prim.Native.String.{String}
use rtsc.Prelude.{
  ℕ, zero, suc, ℤ, Option, none, some, ◌⊎◌, inl, inr, List, [], ◌∷◌, ◌==◌, if◌then◌else◌,
}
use rtsc.Error.{
  Error, access_denied, failed, unimplemented, rt_sched_set_affinity, rt_sched_set_scheduler,
  Result, ok, err,
}
use rtsc.ThreadRt.{Scheduling, round_robin, fifo, idle, batch, dead_line, other, Params, sched_for}

abbrev pub chrt_argument : Scheduling → String
chrt_argument round_robin = "--rr"
chrt_argument fifo = "--fifo"
chrt_argument idle = "--idle"
chrt_argument batch = "--batch"
chrt_argument dead_line = "--deadline"
chrt_argument other = "--other"

-- An argument of a command: a text, or what numbers print as, with commas between.
pub data Arg : Type 0 where
  text : String → Arg
  number : ℤ → Arg
  numbers : List ℕ → Arg

-- A command cannot be started, or it ends with an exit code, or by a signal.
pub data Status : Type 0 where
  not_started : String → Status
  exited : ℕ → Status
  killed : Status

-- `gettid` is the id of the current thread as an `i32`, or the text of the failed conversion.
-- `exit_text` is the text for a code, -1 if there is none.
pub record Commands (O : Type 0) : Type 0 where
  pub getuid : ℕ
  pub gettid : String ⊎ ℤ
  pub status : String → List Arg → O → Status × O
  pub exit_text : Option ℕ → String

module _ {O : Type 0} (sys : Commands O) where
  unfoldable pub ended : (String → Error) → Status × O → Result (Unit {0}) × O
  ended error (not_started e, left) = (err (error e), left)
  ended error (exited zero, left) = (ok tt, left)
  ended error (exited (suc code), left) = (err (error (sys.exit_text (some (suc code)))), left)
  ended error (killed, left) = (err (error (sys.exit_text none)), left)

  unfoldable pub set_affinity : ℤ → List ℕ → O → Result (Unit {0}) × O
  set_affinity tid [] o = (ok tt, o)
  set_affinity tid (cpu ∷ cpus) o =
      let args = text "-cp" ∷ numbers (cpu ∷ cpus) ∷ number tid ∷ [] in
      let set = ended rt_sched_set_affinity (sys.status "taskset" args o) in
      if sys.getuid == 0 then set else (err access_denied, o)

  unfoldable pub set_scheduler : ℤ → Params → Option ℤ → O → Result (Unit {0}) × O
  set_scheduler tid params none o = (ok tt, o)
  set_scheduler tid params (some priority) o =
      let sched = chrt_argument (sched_for params priority) in
      let args = text sched ∷ text "-p" ∷ number priority ∷ number tid ∷ [] in
      let set = ended rt_sched_set_scheduler (sys.status "chrt" args o) in
      if sys.getuid == 0 then set else (err access_denied, o)

  unfoldable pub apply : ℤ → Params → O → Result (Unit {0}) × O
  apply tid params o =
      let (affinity, left) = set_affinity tid params.cpu_ids o in
      elim affinity [ err e ↦ (err e, left) | ok _ ↦ set_scheduler tid params params.priority left ]

  unfoldable pub apply_for_current : Params → O → Result (Unit {0}) × O
  apply_for_current params o = elim sys.gettid [
    | inl e ↦ (err (failed e), o)
    | inr tid ↦ apply tid params o
  ]

unfoldable pub prealloc_heap : ℕ → Result (Unit {0})
prealloc_heap zero = ok tt
prealloc_heap (suc _) = err unimplemented
