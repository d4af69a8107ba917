-- ===== src/ThreadRt/Unsupported.antt =====
-- src/thread_rt/unsupported.rs: systems other than Linux.
use rtsc.Prelude.{ℕ, zero, suc, ℤ}
use rtsc.Error.{Result, ok, err, unimplemented}
use rtsc.ThreadRt.{Params}

unfoldable pub apply_for_current : Params → Result (Unit {0})
apply_for_current _ = err unimplemented

unfoldable pub apply : ℤ → Params → Result (Unit {0})
apply _ _ = err unimplemented

unfoldable pub prealloc_heap : ℕ → Result (Unit {0})
prealloc_heap zero = ok tt
prealloc_heap (suc _) = err unimplemented
