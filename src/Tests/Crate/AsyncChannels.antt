-- ===== src/Tests/Crate/AsyncChannels.antt =====
-- The tests of src/channel_async.rs. The `VecDeque` reserves the capacity that it is asked for.
use rtsc.Prelude.{
  ℕ, zero, suc, Bool, true, false, ◌&&◌, ◌≡◌, refl, Option, some, none, List, [], ◌∷◌, ◌==◌, length,
}
use rtsc.Deque.{Moment}
use rtsc.Storage.{ChannelStorage, VecDeque, vec_storage, vec_with_capacity, vec_try_push, vec_get}
use rtsc.AsyncWakers
use rtsc.AsyncChannel
use rtsc.AsyncChannel.{AsyncData}
use rtsc.AsyncChannel.Calls
use rtsc.ChannelAsync
use rtsc.Tests.Crate.{unwraps, eq_list}
use rtsc.Tests.Crate.Runs.{times}
use rtsc.Tests.Crate.Futures.{State, leaves_no_wakers, spawn, receives, is_finished}

abbrev storage : ChannelStorage ℕ (VecDeque ℕ)
storage = vec_storage (λ capacity. capacity)

abbrev channel : ℕ → Option (AsyncData (VecDeque ℕ) (Unit {0}))
channel capacity = ChannelAsync.bounded (λ c. c) capacity

abbrev never : ℕ → Bool
never _ = false

abbrev opened : AsyncData (VecDeque ℕ) (Unit {0}) → State ℕ (VecDeque ℕ)
opened d = record { tasks = []; threads = []; next_id = 0; inner = d }

unfoldable test_delivery : Moment → Bool
test_delivery m =
    unwraps
      (λ d.
        unwraps
          (λ s.
            unwraps (λ r. length r.messages == 20 && leaves_no_wakers r.left)
              (receives storage never m 40 s))
          (spawn storage never m (times 10 (123 ∷ 456 ∷ [])) (opened d)))
      (channel 1)

test_delivery-passes : (m : Moment) → test_delivery m ≡ true
unfolding test_delivery ChannelAsync.bounded Calls.new AsyncWakers.new vec_with_capacity
    vec_try_push vec_get AsyncChannel.send_poll AsyncChannel.send_runs AsyncChannel.send_tries
    AsyncChannel.send_pushes AsyncChannel.send_waits AsyncChannel.recv_poll AsyncChannel.recv_runs
    AsyncChannel.recv_gets AsyncChannel.recv_waits AsyncChannel.sender_drop AsyncWakers.wake_next
    AsyncWakers.wake_next_of AsyncWakers.wake_all AsyncWakers.confirm_fut_waked
    AsyncWakers.append_fut_waker
test_delivery-passes m = refl

abbrev upto_ten : List ℕ
upto_ten = 1 ∷ 2 ∷ 3 ∷ 4 ∷ 5 ∷ 6 ∷ 7 ∷ 8 ∷ 9 ∷ 10 ∷ []

-- A task for each value, with a clone of the sender.
abbrev spawn_each : Moment → List ℕ → Option (State ℕ (VecDeque ℕ)) → Option (State ℕ (VecDeque ℕ))
spawn_each m [] s = s
spawn_each m (v ∷ vs) none = none
spawn_each m (v ∷ vs) (some s) =
    spawn_each m vs
      (spawn storage never m (v ∷ []) (record s { inner = Calls.clone_sender s.inner }))

-- The test itself sends the first value, by a sender that it keeps.
unfoldable test_tx_ordering : Moment → Bool
test_tx_ordering m =
    unwraps
      (λ d.
        unwraps
          (λ s. unwraps (λ r. eq_list r.messages (0 ∷ upto_ten)) (receives storage never m 11 s))
          (spawn_each m (0 ∷ upto_ten) (some (opened d))))
      (channel 1)

test_tx_ordering-passes : (m : Moment) → test_tx_ordering m ≡ true
unfolding test_tx_ordering ChannelAsync.bounded Calls.new Calls.clone_sender AsyncWakers.new
    vec_with_capacity vec_try_push vec_get AsyncChannel.send_poll AsyncChannel.send_runs
    AsyncChannel.send_tries AsyncChannel.send_pushes AsyncChannel.send_waits AsyncChannel.recv_poll
    AsyncChannel.recv_runs AsyncChannel.recv_gets AsyncChannel.recv_waits AsyncChannel.sender_drop
    AsyncWakers.wake_next AsyncWakers.wake_next_of AsyncWakers.wake_all
    AsyncWakers.confirm_fut_waked AsyncWakers.append_fut_waker
test_tx_ordering-passes m = refl

abbrev below_ten : List ℕ
below_ten = 0 ∷ 1 ∷ 2 ∷ 3 ∷ 4 ∷ 5 ∷ 6 ∷ 7 ∷ 8 ∷ 9 ∷ []

abbrev shared : ℕ → AsyncData (VecDeque ℕ) (Unit {0}) → AsyncData (VecDeque ℕ) (Unit {0})
shared zero d = d
shared (suc n) d = shared n (Calls.clone_receiver d)

-- A task sends its value on, by a clone of the sender of the second channel.
abbrev sends_on : Moment → ℕ → State ℕ (VecDeque ℕ) → Option (State ℕ (VecDeque ℕ))
sends_on m val res =
    spawn storage never m (val ∷ []) (record res { inner = Calls.clone_sender res.inner })

-- So many tasks in turn: each receives a value, sends it on, and drops its receiver. What is left of
-- the second channel.
abbrev passes_on : Moment → ℕ → (s res : State ℕ (VecDeque ℕ)) → Option (State ℕ (VecDeque ℕ))
passes_on m zero s res = some res
passes_on m (suc n) s res = elim (receives storage never m 1 s) [
  | some r ↦ elim r.messages [
    | [] ↦ none
    | val ∷ _ ↦ elim (sends_on m val res) [
      | some res' ↦
          passes_on m n (record r.left { inner = (AsyncChannel.receiver_drop r.left.inner).1 }) res'
      | none ↦ none
    ]
  ]
  | none ↦ none
]

-- The test itself sends, by a sender that it keeps.
unfoldable test_rx_ordering : Moment → Bool
test_rx_ordering m =
    unwraps
      (λ d.
        unwraps
          (λ res.
            unwraps
              (λ s.
                unwraps
                  (λ res'.
                    unwraps (λ r. eq_list r.messages below_ten) (receives storage never m 10 res'))
                  (passes_on m 10 s (opened res)))
              (spawn storage never m below_ten (opened (shared 10 (Calls.clone_sender d)))))
          (channel 1024))
      (channel 1)

test_rx_ordering-passes : (m : Moment) → test_rx_ordering m ≡ true
unfolding test_rx_ordering ChannelAsync.bounded Calls.new Calls.clone_sender Calls.clone_receiver
    AsyncWakers.new vec_with_capacity vec_try_push vec_get AsyncChannel.send_poll
    AsyncChannel.send_runs AsyncChannel.send_tries AsyncChannel.send_pushes AsyncChannel.send_waits
    AsyncChannel.recv_poll AsyncChannel.recv_runs AsyncChannel.recv_gets AsyncChannel.recv_waits
    AsyncChannel.sender_drop AsyncChannel.receiver_drop AsyncWakers.wake_next
    AsyncWakers.wake_next_of AsyncWakers.wake_all AsyncWakers.confirm_fut_waked
    AsyncWakers.append_fut_waker
test_rx_ordering-passes m = refl

-- One of its turns, which are all alike.
unfoldable test_poisoning : Moment → (dropped : Bool) → Bool
test_poisoning m dropped = unwraps (is_finished storage never m dropped) (channel 512)

test_poisoning-passes : (m : Moment) (dropped : Bool) → test_poisoning m dropped ≡ true
unfolding test_poisoning ChannelAsync.bounded Calls.new AsyncWakers.new vec_with_capacity vec_get
    AsyncChannel.recv_poll AsyncChannel.recv_runs AsyncChannel.recv_gets AsyncChannel.recv_waits
    AsyncChannel.sender_drop AsyncWakers.wake_all AsyncWakers.confirm_fut_waked
    AsyncWakers.append_fut_waker
test_poisoning-passes m true = refl
test_poisoning-passes m false = refl
