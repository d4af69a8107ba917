-- ===== src/Tests/Crate/AsyncPolicyChannels.antt =====
-- The tests of src/policy_channel_async.rs, whose messages are those of src/policy_channel.rs.
use rtsc.Prelude.{
  ℕ, Bool, true, false, ◌&&◌, ◌≡◌, refl, Option, some, none, List, [], ◌∷◌, ◌==◌, length, count,
}
use rtsc.Deque
use rtsc.Deque.{Moment, Deque}
use rtsc.Storage.{ChannelStorage, deque_storage}
use rtsc.AsyncWakers
use rtsc.AsyncChannel
use rtsc.AsyncChannel.{AsyncData}
use rtsc.AsyncChannel.Calls
use rtsc.PolicyChannelAsync
use rtsc.Tests.Crate.{unwraps}
use rtsc.Tests.Crate.Runs.{times}
use rtsc.Tests.Crate.PolicyChannels.{
  Message, test, temperature, spam, is_test, is_temperature, is_spam, message_policy,
}
use rtsc.Tests.Crate.Futures.{
  State, spawn, spawn_blocking, receives_blocking, receives, is_finished,
}

abbrev storage : ChannelStorage Message (Deque Message)
storage = deque_storage message_policy

abbrev channel : ℕ → Option (AsyncData (Deque Message) (Unit {0}))
channel capacity = PolicyChannelAsync.bounded message_policy capacity

abbrev sent : List Message
sent = times 10 (test 123 ∷ spam ∷ temperature 123 ∷ [])

-- What the test receives until an error, and whether it is as expected.
abbrev delivers : Moment → (List Message → Bool) → AsyncData (Deque Message) (Unit {0}) → Bool
delivers m expected d =
    unwraps (λ s. unwraps (λ r. expected r.messages) (receives storage is_spam m 40 s))
      (spawn storage is_spam m sent (record { tasks = []; threads = []; next_id = 0; inner = d }))

unfoldable test_delivery_policy_optional : Moment → Bool
test_delivery_policy_optional m =
    unwraps (delivers m (λ messages. count is_spam messages == 0 && length messages == 20))
      (channel 1)

test_delivery_policy_optional-passes : (m : Moment) → test_delivery_policy_optional m ≡ true
unfolding test_delivery_policy_optional PolicyChannelAsync.bounded Calls.new AsyncWakers.new
    Deque.bounded Deque.set_ordering Deque.try_push Deque.store Deque.make_single Deque.push
    Deque.push_final Deque.push_no_room Deque.retain_but_one Deque.get Deque.get_live
    AsyncChannel.send_poll AsyncChannel.send_runs AsyncChannel.send_tries AsyncChannel.send_pushes
    AsyncChannel.send_waits AsyncChannel.recv_poll AsyncChannel.recv_runs AsyncChannel.recv_gets
    AsyncChannel.recv_waits AsyncChannel.sender_drop AsyncWakers.wake_next AsyncWakers.wake_next_of
    AsyncWakers.wake_all AsyncWakers.confirm_fut_waked AsyncWakers.append_fut_waker
test_delivery_policy_optional-passes m = refl

unfoldable test_delivery_policy_single : Moment → Bool
test_delivery_policy_single m =
    unwraps
      (delivers m (λ messages. count is_test messages == 10 && count is_temperature messages == 1))
      (channel 512)

test_delivery_policy_single-passes : (m : Moment) → test_delivery_policy_single m ≡ true
unfolding test_delivery_policy_single PolicyChannelAsync.bounded Calls.new AsyncWakers.new
    Deque.bounded Deque.set_ordering Deque.try_push Deque.store Deque.make_single Deque.push
    Deque.push_final Deque.push_no_room Deque.retain_but_one Deque.get Deque.get_live
    AsyncChannel.send_poll AsyncChannel.send_runs AsyncChannel.send_tries AsyncChannel.send_pushes
    AsyncChannel.send_waits AsyncChannel.recv_poll AsyncChannel.recv_runs AsyncChannel.recv_gets
    AsyncChannel.recv_waits AsyncChannel.sender_drop AsyncWakers.wake_next AsyncWakers.wake_next_of
    AsyncWakers.wake_all AsyncWakers.confirm_fut_waked AsyncWakers.append_fut_waker
test_delivery_policy_single-passes m = refl

-- A task and a thread send the same values, each by its own sender; `task_first` is which of them
-- begins.
abbrev both_send :
    Moment
    → Bool
    → List Message
    → State Message (Deque Message)
    → Option (State Message (Deque Message))
both_send m true vs s = elim (spawn storage is_spam m vs s) [
  | some s' ↦ spawn_blocking storage is_spam m vs s'
  | none ↦ none
]
both_send m false vs s = elim (spawn_blocking storage is_spam m vs s) [
  | some s' ↦ spawn storage is_spam m vs s'
  | none ↦ none
]

abbrev two_senders : AsyncData (Deque Message) (Unit {0}) → State Message (Deque Message)
two_senders d = record { tasks = []; threads = []; next_id = 0; inner = Calls.clone_sender d }

unfoldable test_sync_send_async_recv : Moment → (task_first : Bool) → Bool
test_sync_send_async_recv m task_first =
    unwraps
      (λ d.
        unwraps
          (λ s. unwraps (λ r. count is_test r.messages == 20) (receives storage is_spam m 60 s))
          (both_send m task_first (times 10 (test 123 ∷ spam ∷ [])) (two_senders d)))
      (channel 8)

test_sync_send_async_recv-passes :
    (m : Moment) (task_first : Bool) → test_sync_send_async_recv m task_first ≡ true
unfolding test_sync_send_async_recv PolicyChannelAsync.bounded Calls.new Calls.clone_sender
    Calls.send_blocking Calls.blocking_pushed Calls.recv_blocking Calls.blocking_got Calls.data_sent
    Calls.data_received AsyncWakers.new Deque.bounded Deque.set_ordering Deque.try_push Deque.store
    Deque.make_single Deque.push Deque.push_final Deque.push_no_room Deque.retain_but_one Deque.get
    Deque.get_live AsyncChannel.send_poll AsyncChannel.send_runs AsyncChannel.send_tries
    AsyncChannel.send_pushes AsyncChannel.send_waits AsyncChannel.recv_poll AsyncChannel.recv_runs
    AsyncChannel.recv_gets AsyncChannel.recv_waits AsyncChannel.sender_drop AsyncWakers.wake_next
    AsyncWakers.wake_next_of AsyncWakers.wake_all AsyncWakers.confirm_fut_waked
    AsyncWakers.append_fut_waker AsyncWakers.append_sync_waker
test_sync_send_async_recv-passes m true = refl
test_sync_send_async_recv-passes m false = refl

unfoldable test_sync_send_sync_recv : Moment → (task_first : Bool) → Bool
test_sync_send_sync_recv m task_first =
    unwraps
      (λ d.
        unwraps
          (λ s.
            unwraps (λ r. count is_test r.messages == 20)
              (receives_blocking storage is_spam m 60 s))
          (both_send m task_first sent (two_senders d)))
      (channel 8)

test_sync_send_sync_recv-passes :
    (m : Moment) (task_first : Bool) → test_sync_send_sync_recv m task_first ≡ true
unfolding test_sync_send_sync_recv PolicyChannelAsync.bounded Calls.new Calls.clone_sender
    Calls.send_blocking Calls.blocking_pushed Calls.recv_blocking Calls.blocking_got Calls.data_sent
    Calls.data_received AsyncWakers.new Deque.bounded Deque.set_ordering Deque.try_push Deque.store
    Deque.make_single Deque.push Deque.push_final Deque.push_no_room Deque.retain_but_one Deque.get
    Deque.get_live AsyncChannel.send_poll AsyncChannel.send_runs AsyncChannel.send_tries
    AsyncChannel.send_pushes AsyncChannel.send_waits AsyncChannel.recv_poll AsyncChannel.recv_runs
    AsyncChannel.recv_gets AsyncChannel.recv_waits AsyncChannel.sender_drop AsyncWakers.wake_next
    AsyncWakers.wake_next_of AsyncWakers.wake_all AsyncWakers.confirm_fut_waked
    AsyncWakers.append_fut_waker AsyncWakers.append_sync_waker
test_sync_send_sync_recv-passes m true = refl
test_sync_send_sync_recv-passes m false = refl

-- One of its turns, which are all alike.
unfoldable test_poisoning : Moment → (dropped : Bool) → Bool
test_poisoning m dropped = unwraps (is_finished storage is_spam m dropped) (channel 512)

test_poisoning-passes : (m : Moment) (dropped : Bool) → test_poisoning m dropped ≡ true
unfolding test_poisoning PolicyChannelAsync.bounded Calls.new AsyncWakers.new Deque.bounded
    Deque.set_ordering Deque.get Deque.get_live AsyncChannel.recv_poll AsyncChannel.recv_runs
    AsyncChannel.recv_gets AsyncChannel.recv_waits AsyncChannel.sender_drop AsyncWakers.wake_all
    AsyncWakers.confirm_fut_waked AsyncWakers.append_fut_waker
test_poisoning-passes m true = refl
test_poisoning-passes m false = refl
