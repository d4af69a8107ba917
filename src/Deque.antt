-- ===== src/Deque.antt =====
-- src/pdeque.rs: the deque that stores values with respect to their delivery policies.
-- The front of the `VecDeque` is the head of the list. An operation takes the `Moment` of its call.
-- This file has the operations; the children are about what they do.
pub mod Kept
pub mod Evict
pub mod Verdict
pub mod Arrival
pub mod Stored
pub mod Kinds
pub mod Order
pub mod Get
use rtsc.Prelude.{
  ℕ, ◌-◌, Bool, true, false, not, ◌&&◌, ◌||◌, Option, none, some, List, [], ◌∷◌, ◌++◌, length, take,
  drop, retain, ltb, leb, ◌==◌, if◌then◌else◌,
}
use rtsc.DataPolicy.{
  DeliveryPolicy, always, latest, optional, single, single_optional, DataDeliveryPolicy,
  StorageTryPushOutput, pushed, skipped, full, is_delivery_policy_single,
  is_delivery_policy_optional,
}

-- What an operation reads of the world around it: the instant at which it runs, and how many of
-- the elements `as_slices` of the `VecDeque` puts into its second slice, which the standard
-- library leaves open.
pub record Moment : Type 0 where
  pub now : ℕ
  pub second_slice : ℕ

-- `VecDeque::rotate_right`.
pub rotate_right {ℓ} : {A : Type ℓ} → ℕ → List A → List A
rotate_right k xs = let mid = length xs - k in drop mid xs ++ take mid xs

-- `retain` with the closure that removes one entry at most; the first argument is `entry_removed`.
unfoldable pub retain_but_one {ℓ} : {A : Type ℓ} → Bool → (A → Bool) → List A → List A
retain_but_one removed goes [] = []
retain_but_one true goes (d ∷ ds) = d ∷ retain_but_one true goes ds
retain_but_one false goes (d ∷ ds) = elim (goes d) [
  | true ↦ retain_but_one true goes ds
  | false ↦ d ∷ retain_but_one false goes ds
]

-- `T` is the type of the values, with its policies.
pub record Deque (T : Type 0) : Type 0 where
  pub items : List T
  pub capacity : ℕ
  pub ordered : Bool

unfoldable pub bounded : (T : Type 0) → ℕ → Deque T
bounded T capacity = record { items = []; capacity = capacity; ordered = false }

unfoldable pub set_ordering : {T : Type 0} → Deque T → Bool → Deque T
set_ordering d v = record d { ordered = v }

pub clear : {T : Type 0} → Deque T → Deque T
clear d = record d { items = [] }

abbrev pub len : {T : Type 0} → Deque T → ℕ
len d = length d.items

pub is_full : {T : Type 0} → Deque T → Bool
is_full d = len d == d.capacity

unfoldable pub is_empty : {T : Type 0} → Deque T → Bool
is_empty d = len d == 0

module _ {T : Type 0} (p : DataDeliveryPolicy T) where
  -- The stable `sort_by` of the standard library: each element goes before the first that is not
  -- better.
  pub insert_by_priority : T → List T → List T
  insert_by_priority x [] = x ∷ []
  insert_by_priority x (y ∷ ys) =
      let rest = insert_by_priority x ys in
      if leb (p.priority x) (p.priority y) then x ∷ y ∷ ys else y ∷ rest

  pub sort_by : List T → List T
  sort_by [] = []
  sort_by (x ∷ xs) = insert_by_priority x (sort_by xs)

  -- Rotated by the length of its second slice, the deque is in one slice, which is sorted.
  pub sort_by_priority : Moment → List T → List T
  sort_by_priority m v = sort_by (rotate_right m.second_slice v)

  -- The macro `push`.
  unfoldable pub push : Moment → Deque T → T → StorageTryPushOutput T × Deque T
  push m d value =
      let items = d.items ++ value ∷ [] in
      (pushed, record d { items = if d.ordered then sort_by_priority m items else items })

  -- The macro `push_final`.
  unfoldable pub push_final : Moment → Deque T → T → StorageTryPushOutput T × Deque T
  push_final m d value = if ltb (len d) d.capacity then push m d value else (full value, d)

  -- The tests of the two closures that remove one entry.
  abbrev pub gives_way : Moment → T → Bool
  gives_way m d = p.is_expired m.now d || is_delivery_policy_optional p d

  abbrev pub gives_way_latest : Moment → T → T → Bool
  gives_way_latest m value d = gives_way m d || p.eq_kind d value

  -- The `match` on the policy, for a deque with no room.
  unfoldable pub push_no_room :
      Moment → Deque T → T → DeliveryPolicy → StorageTryPushOutput T × Deque T
  push_no_room m d value always =
      push_final m (record d { items = retain_but_one false (gives_way m) d.items }) value
  push_no_room m d value single =
      push_final m (record d { items = retain_but_one false (gives_way m) d.items }) value
  push_no_room m d value latest =
      push_final m (record d { items = retain_but_one false (gives_way_latest m value) d.items })
        value
  push_no_room m d value optional = (skipped, d)
  push_no_room m d value single_optional = (skipped, d)

  -- What a `single` value leaves of the deque before it is stored.
  abbrev pub stays_beside : Moment → T → T → Bool
  stays_beside m value d = not (p.eq_kind d value) && not (p.is_expired m.now d)

  unfoldable pub make_single : Moment → Deque T → T → Deque T
  make_single m d value =
      if is_delivery_policy_single p value
      then record d { items = retain (stays_beside m value) d.items }
      else d

  unfoldable pub store : Moment → Deque T → T → StorageTryPushOutput T × Deque T
  store m d value =
      if ltb (len d) d.capacity
      then push m d value
      else push_no_room m d value (p.delivery_policy value)

  unfoldable pub try_push : Moment → Deque T → T → StorageTryPushOutput T × Deque T
  try_push m d value =
      if p.is_expired m.now value then (pushed, d) else store m (make_single m d value) value

  -- The loop of `get`: pops until a value is not expired.
  unfoldable pub get_live : Moment → List T → Option T × List T
  get_live m [] = (none, [])
  get_live m (x ∷ xs) =
      let rest = get_live m xs in if p.is_expired m.now x then rest else (some x, xs)

  unfoldable pub get : Moment → Deque T → Option T × Deque T
  get m d = let (value, items) = get_live m d.items in (value, record d { items = items })
