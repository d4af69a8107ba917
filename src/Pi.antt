-- ===== src/Pi.antt =====
-- src/pi.rs: the lock of the mutex with priority inheritance.
-- Each function here is one atomic access to the lock, and tells how the thread goes on. What the
-- kernel does in between is in Pi.Kernel. A word of the futex is 0 if the lock is free.
pub mod Kernel
pub mod System
pub mod Guards
pub mod Owned
pub mod Exclusion
pub mod Handover
pub mod Condvar
pub mod Handshake
use rtsc.Prelude.{ℕ, ◌==◌, Bool, true, false, not, ◌||◌, if◌then◌else◌}

pub record PiLock : Type 0 where
  pub value : ℕ
  pub blocked : Bool

-- `lock`, `try_lock` or `try_lock_until`.
pub data Attempt : Type 0 where
  lock try_lock try_lock_until : Attempt

-- What a thread does: nothing with this lock; it parks for ever, since the lock is blocked; it is
-- about to exchange the word; it is in `lock_pi`, `trylock_pi` or `lock_pi_until`; it holds the lock;
-- it is in `unlock_pi`; or it has leaked its guard. Its guard may be with another
-- thread, or was dropped there. It has ended, and the word may still name it.
pub data Phase : Type 0 where
  idle parked holding unlocking leaked : Phase
  lent lost ended died : Phase
  racing in_kernel : Attempt → Phase

-- The kernel's answer to a thread that asks for the lock. `lock_pi` and `trylock_pi` only fail or not.
pub data Answer : Type 0 where
  taken try_again timed_out : Answer

unfoldable pub compare_exchange : (current new : ℕ) → PiLock → Bool × PiLock
compare_exchange current new l =
    if l.value == current then (true, record l { value = new }) else (false, l)

-- `blocked` is looked at before the word is, though not by `try_lock_until`.
unfoldable pub begin : Attempt → PiLock → Phase
begin lock l = if l.blocked then parked else racing lock
begin try_lock l = if l.blocked then idle else racing try_lock
begin try_lock_until l = racing try_lock_until

-- The thread `tid` takes a lock that is free, or asks the kernel.
unfoldable pub race : Attempt → (tid : ℕ) → PiLock → Phase × PiLock
race attempt tid l =
    let (locked, left) = compare_exchange 0 tid l in
    if locked then (holding, left) else (in_kernel attempt, left)

-- `perform_lock` asks until it has the lock, `try_lock_until` until its time is over.
unfoldable pub answered : Attempt → Answer → Phase
answered _ taken = holding
answered lock _ = in_kernel lock
answered try_lock _ = idle
answered try_lock_until try_again = in_kernel try_lock_until
answered try_lock_until timed_out = idle

unfoldable pub perform_unlock : (tid : ℕ) → PiLock → Phase × PiLock
perform_unlock tid l =
    let (fast_unlocked, left) = compare_exchange tid 0 l in
    if fast_unlocked then (idle, left) else (unlocking, left)

unfoldable pub is_locked : PiLock → Bool
is_locked l = l.blocked || not (l.value == 0)

-- A thread that is going to wait on a condition variable.
unfoldable pub unlock_to_wait : (tid : ℕ) → PiLock → Phase × PiLock
unlock_to_wait tid l =
    let unlocked = perform_unlock tid l in if is_locked l then unlocked else (idle, l)

unfoldable pub block_forever : PiLock → PiLock
block_forever l = record l { blocked = true }

unfoldable pub init : PiLock
init = record { value = 0; blocked = false }
