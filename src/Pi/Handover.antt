-- ===== src/Pi/Handover.antt =====
-- src/pi.rs: the owner that the word of the lock names.
use rtsc.Prelude.{◌≡◌, ◌⊎◌, Bool, true, ◌||◌}
use rtsc.Pi.{Phase}
use rtsc.Pi.Kernel.{Kernel, KernelLaws}
use rtsc.Pi.System.{System, asks}
use rtsc.Pi.Owned.{owns, Owned}

abbrev pub owns_or_asks : Phase → Bool
owns_or_asks p = owns p || asks p

module _ (k : Kernel) (laws : KernelLaws k) where
  abbrev Attended : System → Type 0
  Attended s = (k.owner s.lock.value ≡ 0) ⊎ (owns_or_asks (s.phase (k.owner s.lock.value)) ≡ true)
