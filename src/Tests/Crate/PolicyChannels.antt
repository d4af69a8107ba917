-- ===== src/Tests/Crate/PolicyChannels.antt =====
-- The tests of src/policy_channel.rs. A floating point number of a test is a natural number.
use rtsc.Prelude.{ℕ, Bool, true, false, ◌&&◌, ◌≡◌, refl, Option, List, [], ◌∷◌, ◌==◌, length, count}
use rtsc.DataPolicy.{DeliveryPolicy, always, single, optional, default_policy, DataDeliveryPolicy}
use rtsc.Deque
use rtsc.Deque.{Moment, Deque}
use rtsc.Storage.{ChannelStorage, deque_storage}
use rtsc.BaseChannel
use rtsc.BaseChannel.{InnerData, send_round, recv_round, drop_sender}
use rtsc.PolicyChannel
use rtsc.Tests.Crate.{unwraps}
use rtsc.Tests.Crate.Runs.{times, all_by_one, delivered, is_finished, sends_and_receives}

pub data Message : Type 0 where
  test temperature : ℕ → Message
  spam : Message

abbrev pub is_test : Message → Bool
is_test (test _) = true
is_test _ = false

abbrev pub is_temperature : Message → Bool
is_temperature (temperature _) = true
is_temperature _ = false

abbrev pub is_spam : Message → Bool
is_spam spam = true
is_spam _ = false

-- `mem::discriminant` tells the constructors apart.
abbrev same_discriminant : Message → Message → Bool
same_discriminant (test _) other = is_test other
same_discriminant (temperature _) other = is_temperature other
same_discriminant spam other = is_spam other

abbrev delivery_policy : Message → DeliveryPolicy
delivery_policy (test _) = always
delivery_policy (temperature _) = single
delivery_policy spam = optional

abbrev pub message_policy : DataDeliveryPolicy Message
message_policy = record (default_policy same_discriminant) { delivery_policy = delivery_policy }

abbrev storage : ChannelStorage Message (Deque Message)
storage = deque_storage message_policy

abbrev channel : ℕ → Option (InnerData (Deque Message))
channel capacity = PolicyChannel.bounded message_policy capacity

abbrev sent : List Message
sent = times 10 (test 123 ∷ spam ∷ temperature 123 ∷ [])

unfoldable test_delivery_policy_optional : Moment → Bool
test_delivery_policy_optional m =
    unwraps
      (λ d.
        unwraps (λ messages. count is_spam messages == 0 && length messages == 20)
          (delivered storage is_spam m (all_by_one storage is_spam m) 40 sent d))
      (channel 1)

test_delivery_policy_optional-passes : (m : Moment) → test_delivery_policy_optional m ≡ true
unfolding test_delivery_policy_optional PolicyChannel.bounded BaseChannel.new send_round recv_round
    drop_sender Deque.bounded Deque.set_ordering Deque.try_push Deque.store Deque.make_single
    Deque.push Deque.push_final Deque.push_no_room Deque.retain_but_one Deque.get Deque.get_live
test_delivery_policy_optional-passes m = refl

unfoldable test_delivery_policy_single : Moment → Bool
test_delivery_policy_single m =
    unwraps
      (λ d.
        unwraps (λ messages. count is_test messages == 10 && count is_temperature messages == 1)
          (delivered storage is_spam m (all_by_one storage is_spam m) 40 sent d))
      (channel 512)

test_delivery_policy_single-passes : (m : Moment) → test_delivery_policy_single m ≡ true
unfolding test_delivery_policy_single PolicyChannel.bounded BaseChannel.new send_round recv_round
    drop_sender Deque.bounded Deque.set_ordering Deque.try_push Deque.store Deque.make_single
    Deque.push Deque.push_final Deque.push_no_room Deque.retain_but_one Deque.get Deque.get_live
test_delivery_policy_single-passes m = refl

-- One of its turns, which are all alike.
unfoldable test_poisoning : Moment → (dropped : Bool) → Bool
test_poisoning m dropped = unwraps (is_finished storage is_spam m dropped) (channel 512)

test_poisoning-passes : (m : Moment) (dropped : Bool) → test_poisoning m dropped ≡ true
unfolding test_poisoning PolicyChannel.bounded BaseChannel.new recv_round drop_sender Deque.bounded
    Deque.set_ordering Deque.get Deque.get_live
test_poisoning-passes m true = refl
test_poisoning-passes m false = refl

-- Its channel is one of `usize`, whose kinds are all equal.
abbrev number_policy : DataDeliveryPolicy ℕ
number_policy = default_policy (λ _ _. true)

unfoldable test_other_mutex : Moment → Bool
test_other_mutex m =
    unwraps (sends_and_receives (deque_storage number_policy) (λ _. false) m 42 (λ v. v == 42))
      (PolicyChannel.bounded number_policy 1)

test_other_mutex-passes : (m : Moment) → test_other_mutex m ≡ true
unfolding test_other_mutex PolicyChannel.bounded BaseChannel.new send_round recv_round Deque.bounded
    Deque.set_ordering Deque.try_push Deque.store Deque.make_single Deque.push Deque.push_final
    Deque.is_empty Deque.get Deque.get_live
test_other_mutex-passes m = refl
