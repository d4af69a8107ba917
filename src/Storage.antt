-- ===== src/Storage.antt =====
-- src/base_channel.rs, the trait `ChannelStorage`, and its implementations: src/channel.rs for
-- `VecDeque`, src/policy_channel.rs for `pdeque::Deque`.
pub mod Laws
use rtsc.Prelude.{
  ℕ, Bool, true, false, Option, none, some, List, [], ◌∷◌, ◌++◌, length, ◌==◌, if◌then◌else◌,
}
use rtsc.DataPolicy.{DataDeliveryPolicy, StorageTryPushOutput, pushed, full}
use rtsc.Deque
use rtsc.Deque.{Moment, Deque}

-- `T` is the type of the values, `S` that of the storage. `with_capacity_and_ordering` may panic.
pub record ChannelStorage (T S : Type 0) : Type 0 where
  pub with_capacity_and_ordering : ℕ → Bool → Option S
  pub try_push : Moment → S → T → StorageTryPushOutput T × S
  pub get : Moment → S → Option T × S
  pub len : S → ℕ
  pub is_full : S → Bool
  pub is_empty : S → Bool

-- The standard library's deque: `capacity` is what `capacity()` answers.
pub record VecDeque (T : Type 0) : Type 0 where
  pub items : List T
  pub capacity : ℕ

module _ {T : Type 0} where
  unfoldable pub vec_try_push : VecDeque T → T → StorageTryPushOutput T × VecDeque T
  vec_try_push q value =
      if length q.items == q.capacity
      then (full value, q)
      else (pushed, record q { items = q.items ++ value ∷ [] })

  abbrev pop_front : List T → Option T × List T
  pop_front [] = (none, [])
  pop_front (x ∷ xs) = (some x, xs)

  unfoldable pub vec_get : VecDeque T → Option T × VecDeque T
  vec_get q = let (value, items) = pop_front q.items in (value, record q { items = items })

  -- `allocated` is the capacity that `VecDeque::with_capacity` reserves, at least what is asked for.
  -- The assertion refuses an ordering.
  unfoldable pub vec_with_capacity : (allocated : ℕ → ℕ) → ℕ → Bool → Option (VecDeque T)
  vec_with_capacity allocated capacity ordering =
      if ordering then none else some (record { items = []; capacity = allocated capacity })

  abbrev pub vec_storage : (allocated : ℕ → ℕ) → ChannelStorage T (VecDeque T)
  vec_storage allocated = record {
    with_capacity_and_ordering = vec_with_capacity allocated;
    try_push = λ m. vec_try_push;
    get = λ m. vec_get;
    len = λ q. length q.items;
    is_full = λ q. length q.items == q.capacity;
    is_empty = λ q. length q.items == 0;
  }

  abbrev pub deque_storage : DataDeliveryPolicy T → ChannelStorage T (Deque T)
  deque_storage p = record {
    with_capacity_and_ordering =
        λ capacity ordering. some (Deque.set_ordering (Deque.bounded T capacity) ordering);
    try_push = Deque.try_push p;
    get = Deque.get p;
    len = Deque.len;
    is_full = Deque.is_full;
    is_empty = Deque.is_empty;
  }
