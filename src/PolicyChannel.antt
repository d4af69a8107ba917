-- ===== src/PolicyChannel.antt =====
-- src/policy_channel.rs: the sync channel over the policy deque, and what expiry does to it.
pub mod Expired
use rtsc.Prelude.{ℕ, Bool, true, false, Option}
use rtsc.DataPolicy.{DataDeliveryPolicy}
use rtsc.Deque.{Deque}
use rtsc.Storage.{deque_storage}
use rtsc.BaseChannel
use rtsc.BaseChannel.{InnerData}

module _ {T : Type 0} (p : DataDeliveryPolicy T) where
  -- `none` is the panic for a capacity of zero.
  unfoldable pub bounded : ℕ → Option (InnerData (Deque T))
  bounded capacity = BaseChannel.new (deque_storage p) capacity false

  pub ordered : ℕ → Option (InnerData (Deque T))
  ordered capacity = BaseChannel.new (deque_storage p) capacity true
