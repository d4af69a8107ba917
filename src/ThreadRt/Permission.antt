-- ===== src/ThreadRt/Permission.antt =====
-- src/thread_rt: who may set the parameters of a thread.
use rtsc.Prelude.{
  ℕ, ℤ, ◌≡◌, ◌≢◌, refl, ap, Bool, true, false, Option, none, some, List, [], ◌∷◌, ◌==◌,
  if◌then◌else◌, arith,
}
use rtsc.Error.{access_denied, Result, ok, err}
use rtsc.ThreadRt.{Scheduling, Params}
use rtsc.ThreadRt.LinuxGnu
use rtsc.ThreadRt.LinuxGnu.{Syscalls, into_c, cpu_set}
use rtsc.ThreadRt.LinuxOther
use rtsc.ThreadRt.LinuxOther.{
  Commands, Arg, text, number, numbers, Status, not_started, exited, killed, chrt_argument, ended,
}

abbrev nothing_set : Params → Bool
nothing_set params = elim params.cpu_ids [
  | [] ↦ elim params.priority [ none ↦ true | some _ ↦ false ]
  | _ ∷ _ ↦ false
]

module _ {O : Type 0} (sys : Syscalls O) (cmd : Commands O) (tid : ℤ) (sched : Scheduling) (o : O)
    (no_root : sys.getuid ≢ 0) (no_root' : cmd.getuid ≢ 0) where
  gnu_denied :
      (cpu : ℕ) (cpus : List ℕ)
      → LinuxGnu.set_affinity sys tid (cpu ∷ cpus) o ≡ (err access_denied, o)
  unfolding LinuxGnu.set_affinity
  gnu_denied cpu cpus =
      let other_user : (sys.getuid == 0) ≡ false = ground arith in rw other_user refl

  other_denied :
      (cpu : ℕ) (cpus : List ℕ)
      → LinuxOther.set_affinity cmd tid (cpu ∷ cpus) o ≡ (err access_denied, o)
  unfolding LinuxOther.set_affinity
  other_denied cpu cpus =
      let other_user : (cmd.getuid == 0) ≡ false = ground arith in rw other_user refl

  unprivileged :
      (priority : Option ℤ) (cpus : List ℕ)
      → let params : Params = record { priority = priority; scheduling = sched; cpu_ids = cpus } in
        let denied : Result (Unit {0}) × O =
          (if nothing_set params then ok tt else err access_denied, o) in
        (LinuxGnu.apply sys tid params o ≡ denied) × (LinuxOther.apply cmd tid params o ≡ denied)
  unfolding LinuxGnu.apply LinuxOther.apply LinuxGnu.set_affinity LinuxOther.set_affinity
      LinuxGnu.set_scheduler LinuxOther.set_scheduler
  unprivileged none [] = (refl, refl)
  unprivileged (some priority) [] =
      let other_user : (sys.getuid == 0) ≡ false = ground arith in
      let other_user' : (cmd.getuid == 0) ≡ false = ground arith in
      rw (other_user, other_user') (refl, refl)
  unprivileged priority (cpu ∷ cpus) =
      rw (LinuxGnu.apply, LinuxOther.apply, gnu_denied cpu cpus, other_denied cpu cpus)
        (
          ap (λ r. (err access_denied, r.1)) (gnu_denied cpu cpus),
          ap (λ r. (err access_denied, r.1)) (other_denied cpu cpus),
        )

-- For a user other than root, `apply` of both systems changes nothing: it succeeds if no CPUs and no
-- priority are given, and else denies the access.
apply_unprivileged :
    {O : Type 0} (sys : Syscalls O) (cmd : Commands O) (tid : ℤ) (params : Params) (o : O)
    → sys.getuid ≢ 0
    → cmd.getuid ≢ 0
    → let denied : Result (Unit {0}) × O =
        (if nothing_set params then ok tt else err access_denied, o) in
      (LinuxGnu.apply sys tid params o ≡ denied) × (LinuxOther.apply cmd tid params o ≡ denied)
apply_unprivileged sys cmd tid params o no_root no_root' =
    unprivileged sys cmd tid params.scheduling o no_root no_root' params.priority params.cpu_ids
