-- ===== src/ThreadRt.antt =====
-- src/thread_rt/mod.rs: parameters of a thread. The systems' own code is in the children; which of
-- them `apply`, `apply_for_current` and `preallocate_heap` call is settled when the crate is built.
pub mod LinuxGnu
pub mod LinuxOther
pub mod Heap
pub mod Agree
pub mod Permission
pub mod Unsupported
use rtsc.Prelude.{ℕ, ℤ, is_zero, Option, none, some, List, [], if◌then◌else◌}

pub data Scheduling : Type 0 where
  round_robin fifo idle batch dead_line other : Scheduling

pub record Params : Type 0 where
  pub priority : Option ℤ
  pub scheduling : Scheduling
  pub cpu_ids : List ℕ

unfoldable pub new : Params
new = record { priority = none; scheduling = other; cpu_ids = [] }

unfoldable pub with_priority : Params → Option ℤ → Params
with_priority p priority = record p { priority = priority }

unfoldable pub with_scheduling : Params → Scheduling → Params
with_scheduling p scheduling = record p { scheduling = scheduling }

unfoldable pub with_cpu_ids : Params → List ℕ → Params
with_cpu_ids p cpu_ids = record p { cpu_ids = cpu_ids }

-- The policy for a priority: the same in both systems' `apply`.
unfoldable pub sched_for : Params → ℤ → Scheduling
sched_for p priority = if is_zero priority then other else p.scheduling
