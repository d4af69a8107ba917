-- ===== src/Tests/Crate/Channels.antt =====
-- The tests of src/channel.rs. The `VecDeque` reserves the capacity that it is asked for.
use rtsc.Prelude.{
  ℕ, zero, suc, Bool, true, false, ◌&&◌, ◌≡◌, refl, Option, some, none, List, [], ◌∷◌, ◌==◌, length,
  if◌then◌else◌,
}
use rtsc.Error.{ok, err}
use rtsc.Deque.{Moment}
use rtsc.Storage.{ChannelStorage, VecDeque, vec_storage, vec_with_capacity, vec_try_push, vec_get}
use rtsc.BaseChannel
use rtsc.BaseChannel.{
  InnerData, Next, returns, waits, send_round, recv_round, clone_sender, clone_receiver,
  drop_sender, drop_receiver,
}
use rtsc.Channel
use rtsc.Tests.Crate.{unwraps, eq_list}
use rtsc.Tests.Crate.Runs.{
  sends, receives, times, all_by_one, one_each, delivered, is_finished, is_sent, sends_and_receives,
}

abbrev storage : ChannelStorage ℕ (VecDeque ℕ)
storage = vec_storage (λ capacity. capacity)

abbrev channel : ℕ → Option (InnerData (VecDeque ℕ))
channel capacity = Channel.bounded (λ c. c) capacity

abbrev never : ℕ → Bool
never _ = false

unfoldable test_delivery : Moment → Bool
test_delivery m =
    unwraps
      (λ d.
        unwraps (λ messages. length messages == 20)
          (delivered storage never m (all_by_one storage never m) 40 (times 10 (123 ∷ 456 ∷ [])) d))
      (channel 1)

test_delivery-passes : (m : Moment) → test_delivery m ≡ true
unfolding test_delivery Channel.bounded BaseChannel.new vec_with_capacity vec_try_push vec_get
    send_round recv_round drop_sender
test_delivery-passes m = refl

abbrev upto_ten : List ℕ
upto_ten = 1 ∷ 2 ∷ 3 ∷ 4 ∷ 5 ∷ 6 ∷ 7 ∷ 8 ∷ 9 ∷ 10 ∷ []

abbrev cloned : ℕ → InnerData (VecDeque ℕ) → InnerData (VecDeque ℕ)
cloned zero d = d
cloned (suc n) d = cloned n (clone_sender d)

unfoldable test_tx_ordering : Moment → Bool
test_tx_ordering m =
    unwraps
      (λ d.
        let first = send_round storage m d 0 in
        is_sent storage never m first.next
        && unwraps (λ messages. eq_list messages (0 ∷ upto_ten))
            (delivered storage never m (one_each storage never m) 11 upto_ten
              (cloned 10 first.inner)))
      (channel 1)

test_tx_ordering-passes : (m : Moment) → test_tx_ordering m ≡ true
unfolding test_tx_ordering Channel.bounded BaseChannel.new vec_with_capacity vec_try_push vec_get
    send_round recv_round clone_sender drop_sender
test_tx_ordering-passes m = refl

abbrev below_ten : List ℕ
below_ten = 0 ∷ 1 ∷ 2 ∷ 3 ∷ 4 ∷ 5 ∷ 6 ∷ 7 ∷ 8 ∷ 9 ∷ []

abbrev shared : ℕ → InnerData (VecDeque ℕ) → InnerData (VecDeque ℕ)
shared zero d = d
shared (suc n) d = shared n (clone_receiver d)

-- The test itself sends, with the sender that it keeps.
abbrev sends_all :
    Moment → List ℕ → InnerData (VecDeque ℕ) → Option (List ℕ × InnerData (VecDeque ℕ))
sends_all m vs d = sends storage never m (λ d'. d') vs d

-- So many threads in turn: each receives a value, sends it on, and drops its receiver and its
-- sender. What is left of the second channel.
abbrev passes_on :
    Moment → ℕ → List ℕ → (d res : InnerData (VecDeque ℕ)) → Option (InnerData (VecDeque ℕ))
passes_on m zero unsent d res = some res
passes_on m (suc n) unsent d res =
    let r = recv_round storage m d in
    elim r.next [
      | returns (ok val) ↦
          let sent = send_round storage m res val in
          elim (sends_all m unsent (drop_receiver r.inner).0) [
            | some (unsent', d') ↦
                let rest = passes_on m n unsent' d' (drop_sender sent.inner).0 in
                if is_sent storage never m sent.next then rest else none
            | none ↦ none
          ]
      | returns (err e) ↦ none
      | waits w ↦ none
    ]

unfoldable test_rx_ordering : Moment → Bool
test_rx_ordering m =
    unwraps
      (λ d.
        unwraps
          (λ res.
            unwraps
              (λ (unsent, d').
                unwraps
                  (λ res'.
                    unwraps (λ vals. eq_list vals below_ten)
                      (receives storage never m (λ none_waits r. some (none_waits, r)) 10 [] res'))
                  (passes_on m 10 unsent d' (cloned 10 res)))
              (sends_all m below_ten (shared 10 d)))
          (channel 1024))
      (channel 1)

test_rx_ordering-passes : (m : Moment) → test_rx_ordering m ≡ true
unfolding test_rx_ordering Channel.bounded BaseChannel.new vec_with_capacity vec_try_push vec_get
    send_round recv_round clone_sender clone_receiver drop_sender drop_receiver
test_rx_ordering-passes m = refl

-- One of its turns, which are all alike.
unfoldable test_poisoning : Moment → (dropped : Bool) → Bool
test_poisoning m dropped = unwraps (is_finished storage never m dropped) (channel 512)

test_poisoning-passes : (m : Moment) (dropped : Bool) → test_poisoning m dropped ≡ true
unfolding test_poisoning Channel.bounded BaseChannel.new vec_with_capacity vec_try_push vec_get
    recv_round drop_sender
test_poisoning-passes m true = refl
test_poisoning-passes m false = refl

unfoldable test_other_mutex : Moment → Bool
test_other_mutex m = unwraps (sends_and_receives storage never m 42 (λ v. v == 42)) (channel 1)

test_other_mutex-passes : (m : Moment) → test_other_mutex m ≡ true
unfolding test_other_mutex Channel.bounded BaseChannel.new vec_with_capacity vec_try_push vec_get
    send_round recv_round
test_other_mutex-passes m = refl
