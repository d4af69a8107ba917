-- ===== src/Pi/Exclusion.antt =====
-- src/pi.rs: who holds the lock.
use rtsc.Prelude.{ℕ, ◌≡◌, sym, ◌∙◌, Bool, true, false}
use rtsc.Pi.{Phase, leaked, ended, died}
use rtsc.Pi.Kernel.{Kernel, KernelLaws}
use rtsc.Pi.System
use rtsc.Pi.System.{System, initial}
use rtsc.Pi.Owned.{owns, Reach-Owned, initial-Owned}
use rtsc.Pi.Guards
use rtsc.Pi.Guards.{Reach}

-- A thread that has leaked its guard, be it that it has ended after that.
abbrev has_leaked : Phase → Bool
has_leaked leaked = true
has_leaked died = true
has_leaked ended = true
has_leaked _ = false

-- Over any kernel with the laws, where guards stay with the threads that took them and no owner of
-- the lock ends, whatever else the threads do with a lock that was new: no two of them own it, be it
-- that they hold it, that they are in `unlock_pi`, or that they have leaked their guard.
pub mutual_exclusion :
    (k : Kernel) (laws : KernelLaws k) (u : System) (t i : ℕ)
    → System.Reach k initial u
    → owns (u.phase t) ≡ true
    → owns (u.phase i) ≡ true
    → t ≡ i
mutual_exclusion k laws u t i r e e' =
    let h = Reach-Owned k laws (initial-Owned k laws) r in sym (h.named t e).0 ∙ (h.named i e').0
