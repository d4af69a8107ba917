-- ===== src/Tests/Crate/Queues.antt =====
-- The tests of src/pdeque.rs, src/buf.rs and src/semaphore.rs. A floating point number of a test is
-- a natural number, since it is compared only.
use rtsc.Prelude.{ℕ, Bool, true, false, ◌&&◌, ◌≡◌, refl, [], ◌∷◌, ◌==◌}
use rtsc.DataPolicy.{single, DataDeliveryPolicy, StorageTryPushOutput, pushed, skipped, full}
use rtsc.Deque
use rtsc.Deque.{Moment, Deque}
use rtsc.DataBuffer
use rtsc.Semaphore
use rtsc.Semaphore.{SemaphoreGuard, SemaphoreInner, guard}
use rtsc.Tests.Crate.{unwraps, is_nothing, eq_list}

pub record Data : Type 0 where
  pub id : ℕ
  pub value : ℕ

abbrev data_policy : DataDeliveryPolicy Data
data_policy = record {
  delivery_policy = λ _. single;
  priority = λ _. 100;
  eq_kind = λ self other. self.id == other.id;
  is_expired = λ _ _. false;
}

abbrev is_pushed : StorageTryPushOutput Data → Bool
is_pushed pushed = true
is_pushed skipped = false
is_pushed (full _) = false

abbrev has : ℕ → ℕ → Data → Bool
has id value d = d.id == id && d.value == value

-- Its calls take place at the moments `at 0`, `at 1` and so on.
unfoldable test_dp_single : (at : ℕ → Moment) → Bool
test_dp_single at =
    let d = Deque.bounded Data 2 in
    let (first, d) = Deque.try_push data_policy (at 0) d (record { id = 1; value = 1 }) in
    let (second, d) = Deque.try_push data_policy (at 1) d (record { id = 2; value = 2 }) in
    let (third, d) = Deque.try_push data_policy (at 2) d (record { id = 1; value = 3 }) in
    let stored = Deque.len d in
    let (v1, d) = Deque.get data_policy (at 3) d in
    let (v2, d) = Deque.get data_policy (at 4) d in
    let (v3, d) = Deque.get data_policy (at 5) d in
    is_pushed first
    && is_pushed second
    && is_pushed third
    && stored == 2
    && unwraps (has 2 2) v1
    && unwraps (has 1 3) v2
    && is_nothing v3

test_dp_single-passes : (at : ℕ → Moment) → test_dp_single at ≡ true
unfolding test_dp_single Deque.bounded Deque.try_push Deque.store Deque.make_single Deque.push
    Deque.push_final Deque.get Deque.get_live
test_dp_single-passes at = refl

unfoldable test_data_buffer : Bool
test_data_buffer =
    unwraps
      (λ buf.
        let l0 = DataBuffer.len buf in
        let (_, buf) = DataBuffer.try_push buf 1 in
        let l1 = DataBuffer.len buf in
        let (_, buf) = DataBuffer.try_push buf 2 in
        let l2 = DataBuffer.len buf in
        let (_, buf) = DataBuffer.try_push buf 3 in
        let l3 = DataBuffer.len buf in
        let (_, buf) = DataBuffer.try_push buf 4 in
        let l4 = DataBuffer.len buf in
        let (taken, buf) = DataBuffer.take buf in
        l0 == 0
        && l1 == 1
        && l2 == 2
        && l3 == 3
        && l4 == 3
        && eq_list taken (1 ∷ 2 ∷ 3 ∷ [])
        && DataBuffer.is_empty buf)
      (DataBuffer.bounded 3)

test_data_buffer-passes : test_data_buffer ≡ true
unfolding test_data_buffer DataBuffer.bounded DataBuffer.len DataBuffer.try_push DataBuffer.take
    DataBuffer.is_empty
test_data_buffer-passes = refl

-- `acquire` returns at once here; a wait would not end, which fails the test.
abbrev uses : ℕ → ℕ → SemaphoreInner → Bool
uses free taken sem = Semaphore.available sem == free && Semaphore.used sem == taken

unfoldable test_semaphore : Bool
test_semaphore =
    let sem = Semaphore.new 2 in
    let (g1, sem1) = Semaphore.acquire_round sem in
    let (g2, sem2) = Semaphore.acquire_round sem1 in
    let (g3, sem3) = Semaphore.try_acquire sem2 in
    sem.capacity == 2
    && uses 2 0 sem
    && unwraps (λ _. true) g1
    && uses 1 1 sem1
    && unwraps (λ _. true) g2
    && uses 0 2 sem2
    && is_nothing g3
    && unwraps
        (λ sem4.
          let (g4, sem5) = Semaphore.acquire_round sem4 in
          uses 1 1 sem4 && unwraps (λ _. true) g4 && uses 0 2 sem5)
        (Semaphore.release sem3)

test_semaphore-passes : test_semaphore ≡ true
unfolding test_semaphore Semaphore.new Semaphore.acquire_round Semaphore.try_acquire
    Semaphore.release Semaphore.available Semaphore.used
test_semaphore-passes = refl

unfoldable test_data_buffer_other_mutex : Bool
test_data_buffer_other_mutex =
    unwraps {A = DataBuffer.DataBuffer ℕ} (λ buf. DataBuffer.len buf == 0) (DataBuffer.bounded 3)

test_data_buffer_other_mutex-passes : test_data_buffer_other_mutex ≡ true
unfolding test_data_buffer_other_mutex DataBuffer.bounded DataBuffer.len
test_data_buffer_other_mutex-passes = refl
