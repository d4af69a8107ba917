-- ===== src/Pi/Kernel.antt =====
-- src/pi.rs: what the lock relies on in the futexes of the kernel, as futex(2) documents them.
use rtsc.Prelude.{ℕ, ◌≡◌, ◌≢◌, ◌⊎◌, Bool, true}
use rtsc.Pi.{Answer, taken}

-- `owner` reads the thread's id out of a word. `Asks t v a v'`: a call of `lock_pi`, `trylock_pi` or
-- `lock_pi_until` by `t`, which did not own the lock when it called, finds the word `v` at its end, leaves `v'` and answers `a`. `Queues v v'`: a call that
-- has not returned yet marks the word. `Unlocks t waits v v'`: a call of `unlock_pi` by `t`, while the
-- threads for which `waits` holds are in a call that asks.
pub record Kernel : Type 1 where
  pub IsTid : ℕ → Type 0
  pub owner : ℕ → ℕ
  pub Asks : ℕ → ℕ → Answer → ℕ → Type 0
  pub Queues : ℕ → ℕ → Type 0
  pub Unlocks : ℕ → (ℕ → Bool) → ℕ → ℕ → Type 0

-- A word that a thread writes names it as the owner. The kernel gives away a lock only if it is free
-- or was handed over to the caller, hands it over only to a thread that asks, and leaves the owner
-- alone otherwise. What the kernel does when an owner ends is in Pi/Guards.
pub record KernelLaws (k : Kernel) : Type 0 where
  pub owner-0 : k.owner 0 ≡ 0
  pub owner_tid : (t : ℕ) → k.IsTid t → k.owner t ≡ t
  pub tid_positive : (t : ℕ) → k.IsTid t → t ≢ 0
  pub taken_free : (t v v' : ℕ) → k.Asks t v taken v' → (k.owner v ≡ 0) ⊎ (k.owner v ≡ t)
  pub taken_owner : (t v v' : ℕ) → k.Asks t v taken v' → k.owner v' ≡ t
  pub refused_owner :
      (t v v' : ℕ) (a : Answer) → k.Asks t v a v' → a ≢ taken → k.owner v' ≡ k.owner v
  pub refused_other : (t v v' : ℕ) (a : Answer) → k.Asks t v a v' → a ≢ taken → k.owner v ≢ t
  pub queues_owner : (v v' : ℕ) → k.Queues v v' → k.owner v' ≡ k.owner v
  pub unlocks_owner :
      (t v v' : ℕ) (waits : ℕ → Bool)
      → k.Unlocks t waits v v'
      → k.owner v ≡ t
      → (k.owner v' ≡ 0) ⊎ (waits (k.owner v') ≡ true)
