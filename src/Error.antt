-- ===== src/Error.antt =====
-- src/lib.rs: the error type and the result type of the crate.
use Prim.Native.String.{String}

-- The payload of `IO`, an `std::io::Error`, is the text that it displays.
pub data Error : Type 0 where
  channel_full channel_skipped channel_closed channel_empty unimplemented timeout : Error
  invalid_data : String → Error
  failed : String → Error
  access_denied : Error
  io : String → Error
  rt_sched_set_affinity : String → Error
  rt_sched_set_scheduler : String → Error

pub data Result {ℓ} (A : Type ℓ) : Type ℓ where
  ok : A → Result A
  err : Error → Result A
