-- ===== src/Channel.antt =====
-- src/channel.rs: the constructors of the sync channel over `VecDeque`.
use rtsc.Prelude.{ℕ, false, Option}
use rtsc.Storage.{VecDeque, vec_storage}
use rtsc.BaseChannel
use rtsc.BaseChannel.{InnerData}

-- `Bounded::new` and `bounded`: `none` is the panic for a capacity of zero. The two handles are the
-- counts of the data.
unfoldable pub bounded : {T : Type 0} → (allocated : ℕ → ℕ) → ℕ → Option (InnerData (VecDeque T))
bounded allocated capacity = BaseChannel.new (vec_storage allocated) capacity false
