-- ===== src/Deque/Arrival.antt =====
-- src/pdeque.rs: where `try_push` puts a value of an ordered deque.
use mathlib.Core.List.{append-nil}
use rtsc.Prelude.{
  ℕ, ◌-◌, ◌≤◌, ◌<◌, ◌≡◌, refl, sym, ap, ◌∙◌, Bool, true, false, not, inl, inr, List, [], ◌∷◌, ◌++◌,
  arith, length, length-append, take, drop, retain, leb, leb→le, All, All-append, Bool-cases,
}
use rtsc.DataPolicy.{DataDeliveryPolicy, is_delivery_policy_single}
use rtsc.Deque.{
  Moment, Deque, len, rotate_right, insert_by_priority, sort_by, sort_by_priority, push, store,
  make_single, try_push,
}
use rtsc.Deque.Order.{IsSorted, Bounds, Bounds-mono, insert_by_priority_first, sort_by-eq_self}

drop-length {ℓ} : {A : Type ℓ} (xs ys : List A) → drop (length xs) (xs ++ ys) ≡ ys
drop-length [] ys = refl
drop-length (x ∷ xs) ys = drop-length xs ys

take-length {ℓ} : {A : Type ℓ} (xs ys : List A) → take (length xs) (xs ++ ys) ≡ xs
take-length [] ys = refl
take-length (x ∷ xs) ys = ap (λ r. x ∷ r) (take-length xs ys)

-- With the last values in the second slice, the rotation puts these in front.
rotate_right-append {ℓ} :
    {A : Type ℓ} (k : ℕ) (xs ys : List A) → k ≡ length ys → rotate_right k (xs ++ ys) ≡ ys ++ xs
unfolding rotate_right
rotate_right-append k xs ys e =
    let same : length (xs ++ ys) - k ≡ length xs = omega (arith, length-append xs ys) in
    rw (same, drop-length xs ys, take-length xs ys)

rotate_right_zero {ℓ} : {A : Type ℓ} (xs : List A) → rotate_right 0 xs ≡ xs
rotate_right_zero xs = ap (rotate_right 0) (sym (append-nil xs)) ∙ rotate_right-append 0 xs [] refl

module _ {T : Type 0} (p : DataDeliveryPolicy T) where
  same_priority-Bounds : (n : ℕ) (xs : List T) → All (λ x. p.priority x ≡ n) xs → Bounds p n xs
  same_priority-Bounds n [] h = tt
  same_priority-Bounds n (x ∷ xs) h = (omega arith, same_priority-Bounds n xs h.1)

  same_priority-IsSorted_at : (n : ℕ) (xs : List T) → All (λ x. p.priority x ≡ n) xs → IsSorted p xs
  same_priority-IsSorted_at n [] h = tt
  same_priority-IsSorted_at n (x ∷ xs) h = (
    Bounds-mono p (p.priority x) n xs (omega arith) (same_priority-Bounds n xs h.1),
    same_priority-IsSorted_at n xs h.1,
  )

  same_priority-IsSorted :
      (value : T) (xs : List T)
      → All (λ x. p.priority x ≡ p.priority value) xs
      → IsSorted p (value ∷ xs)
  same_priority-IsSorted value xs h =
      (same_priority-Bounds _ xs h, same_priority-IsSorted_at (p.priority value) xs h)

module _ {T : Type 0} (p : DataDeliveryPolicy T) (value : T) where
  -- The stored values that a new one must not overtake.
  abbrev pub goes_before : T → Bool
  goes_before x = leb (p.priority x) (p.priority value)

  -- Where a queue by priority, first come first served, puts `value`.
  abbrev pub arrival : List T → List T
  arrival xs = retain goes_before xs ++ value ∷ retain (λ x. not (goes_before x)) xs

  All-retain : (P : T → Type 0) (test : T → Bool) (xs : List T) → All P xs → All P (retain test xs)
  All-retain P test [] h = tt
  All-retain P test (x ∷ xs) h = elim (Bool-cases (test x)) [
    | inl e ↦ rw e (h.0, All-retain P test xs h.1)
    | inr e ↦ rw e (All-retain P test xs h.1)
  ]

  -- Behind a value that `value` overtakes, in a sorted list, it overtakes all.
  overtakes :
      (n : ℕ) (xs : List T)
      → p.priority value < n
      → Bounds p n xs
      → (retain goes_before xs ≡ []) × (retain (λ x. not (goes_before x)) xs ≡ xs)
  overtakes n [] h b = (refl, refl)
  overtakes n (x ∷ xs) h b =
      let rest = overtakes n xs h b.1 in
      let behind : goes_before x ≡ false = ground arith in
      rw behind (rest.0, ap (λ r. x ∷ r) rest.1)

  sort_by-arrival : (xs : List T) → IsSorted p xs → sort_by p (xs ++ value ∷ []) ≡ arrival xs
  unfolding sort_by insert_by_priority
  sort_by-arrival [] h = refl
  sort_by-arrival (x ∷ xs) h = elim (Bool-cases (goes_before x)) [
    | inl e ↦
        rw (e, sort_by-arrival xs h.1)
          (insert_by_priority_first p x (arrival xs) (
            All-append (λ y. p.priority x ≤ p.priority y) (retain goes_before xs) _
              (All-retain _ goes_before xs h.0) (leb→le _ _ e, All-retain _ _ xs h.0)))
    | inr e ↦
        let (none_before, all_behind) = overtakes (p.priority x) xs (ground arith) h.0 in
        rw (e, sort_by-arrival xs h.1, none_before, all_behind, e)
          (ap (λ r. value ∷ r) (insert_by_priority_first p x xs h.0))
  ]

  push-arrival :
      (m : Moment) (d : Deque T)
      → d.ordered ≡ true
      → IsSorted p d.items
      → m.second_slice ≡ 0
      → (push p m d value).1 ≡ record d { items = arrival d.items }
  unfolding push sort_by_priority
  push-arrival m d o h e =
      ground (arith, sort_by-arrival d.items h, rotate_right_zero (d.items ++ value ∷ []))

  push_wrapped :
      (m : Moment) (d : Deque T)
      → d.ordered ≡ true
      → IsSorted p (value ∷ d.items)
      → m.second_slice ≡ 1
      → (push p m d value).1 ≡ record d { items = value ∷ d.items }
  unfolding push sort_by_priority
  push_wrapped m d o h e = ground (
    arith,
    rotate_right-append 1 d.items (value ∷ []) refl,
    sort_by-eq_self p (value ∷ d.items) h,
  )

  try_push_room :
      (m : Moment) (d : Deque T)
      → p.is_expired m.now value ≡ false
      → is_delivery_policy_single p value ≡ false
      → len d < d.capacity
      → try_push p m d value ≡ push p m d value
  unfolding try_push store make_single
  try_push_room m d live plain room = ground arith

-- While the deque lies in one slice, an ordered deque with room, in the order of the priorities, is
-- a queue by priority, first come first served: a live value with no single policy goes behind all
-- values of the same or a better priority and in front of the others, whose order does not change.
pub try_push-arrival :
    {T : Type 0} (p : DataDeliveryPolicy T) (value : T) (m : Moment) (d : Deque T)
    → d.ordered ≡ true
    → IsSorted p d.items
    → p.is_expired m.now value ≡ false
    → is_delivery_policy_single p value ≡ false
    → len d < d.capacity
    → m.second_slice ≡ 0
    → (try_push p m d value).1 ≡ record d { items = arrival p value d.items }
try_push-arrival p value m d o h live plain room e =
    rw (try_push_room p value m d live plain room) (push-arrival p value m d o h e)

-- Once the ring buffer wraps, so that the pushed value alone lies in the second slice, an ordered
-- deque with room that holds values of one priority puts a live value of this priority with no
-- single policy in front of them all: equal priorities are no longer served in the order of their
-- arrival.
pub try_push_wrapped :
    {T : Type 0} (p : DataDeliveryPolicy T) (value : T) (m : Moment) (d : Deque T)
    → d.ordered ≡ true
    → All (λ x. p.priority x ≡ p.priority value) d.items
    → p.is_expired m.now value ≡ false
    → is_delivery_policy_single p value ≡ false
    → len d < d.capacity
    → m.second_slice ≡ 1
    → (try_push p m d value).1 ≡ record d { items = value ∷ d.items }
try_push_wrapped p value m d o h live plain room e =
    rw (try_push_room p value m d live plain room)
      (push_wrapped p value m d o (same_priority-IsSorted p value d.items h) e)
