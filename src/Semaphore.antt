-- ===== src/Semaphore.antt =====
-- src/semaphore.rs: the semaphore and its guards.
-- As in BaseChannel, a method is modelled by what it does from the lock to the return or the wait.
-- Semaphore/System runs threads over it.
pub mod System
pub mod Safety
use rtsc.Prelude.{ℕ, ◌+◌, ◌-◌, Bool, Option, none, some, ltb, ◌==◌, if◌then◌else◌}

pub record SemaphoreInner : Type 0 where
  pub permissions : ℕ
  pub capacity : ℕ

-- The permission that a guard stands for.
pub data SemaphoreGuard : Type 0 where
  guard : SemaphoreGuard

unfoldable pub new : ℕ → SemaphoreInner
new capacity = record { permissions = 0; capacity = capacity }

unfoldable pub try_acquire : SemaphoreInner → Option SemaphoreGuard × SemaphoreInner
try_acquire s =
    if s.permissions == s.capacity
    then (none, s)
    else (some guard, record s { permissions = s.permissions + 1 })

-- A round of the loop of `acquire`; `none` is the wait on the condition variable.
unfoldable pub acquire_round : SemaphoreInner → Option SemaphoreGuard × SemaphoreInner
acquire_round s =
    if s.permissions == s.capacity
    then (none, s)
    else (some guard, record s { permissions = s.permissions + 1 })

-- The drop of a guard, which then notifies one waiter; `none` is the overflow of the subtraction.
unfoldable pub release : SemaphoreInner → Option SemaphoreInner
release s = if s.permissions == 0 then none else some (record s { permissions = s.permissions - 1 })

-- The source subtracts on `usize`, which here stops at zero.
unfoldable pub available : SemaphoreInner → ℕ
available s = s.capacity - s.permissions

unfoldable pub used : SemaphoreInner → ℕ
used s = s.permissions

unfoldable pub is_poisoned : SemaphoreInner → Bool
is_poisoned s = ltb s.capacity s.permissions
