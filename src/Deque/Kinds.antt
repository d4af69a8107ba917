-- ===== src/Deque/Kinds.antt =====
-- src/pdeque.rs: the single policies and the values of a kind.
use rtsc.Prelude.{
  ℕ, ◌-◌, ◌≡◌, ◌≢◌, ◌⊎◌, refl, ap, ◌∙◌, Bool, true, false, inl, inr, List, [], ◌∷◌, ◌++◌, arith,
  length, count, count-append, take, drop, take-append-drop, retain, leb, if◌then◌else◌, Bool-cases,
  Parted-count,
}
use rtsc.DataPolicy.{
  DeliveryPolicy, always, latest, optional, single, single_optional, DataDeliveryPolicy,
  StorageTryPushOutput, pushed, is_delivery_policy_single,
}
use rtsc.Deque.{
  Moment, Deque, rotate_right, insert_by_priority, sort_by, sort_by_priority, stays_beside,
  make_single, store, try_push,
}
use rtsc.Deque.Verdict.{Fits, refusal, make_single-Fits}
use rtsc.Deque.Stored.{in_place, Stores, Refuses, store-Stores}

count-rotate_right {ℓ} :
    {A : Type ℓ} (test : A → Bool) (k : ℕ) (xs : List A)
    → count test (rotate_right k xs) ≡ count test xs
unfolding rotate_right
count-rotate_right test k xs =
    let mid = length xs - k in
    omega (
      arith,
      count-append test (drop mid xs) (take mid xs),
      count-append test (take mid xs) (drop mid xs),
      ap (count test) (take-append-drop mid xs),
    )

module _ {T : Type 0} (p : DataDeliveryPolicy T) (test : T → Bool) where
  count-insert_by_priority :
      (x : T) (xs : List T) → count test (insert_by_priority p x xs) ≡ count test (x ∷ xs)
  unfolding insert_by_priority
  count-insert_by_priority x [] = refl
  count-insert_by_priority x (y ∷ ys) = elim (Bool-cases (leb (p.priority x) (p.priority y))) [
    | inl e ↦ rw e
    | inr e ↦ rw e (omega (arith, count-insert_by_priority x ys))
  ]

  count-sort_by : (xs : List T) → count test (sort_by p xs) ≡ count test xs
  unfolding sort_by
  count-sort_by [] = refl
  count-sort_by (x ∷ xs) =
      omega (arith, count-insert_by_priority x (sort_by p xs), count-sort_by xs)

  count-in_place :
      (m : Moment) (value : T) (d : Deque T) (xs : List T)
      → count test (in_place p m value d xs) ≡ count test xs
  unfolding sort_by_priority
  count-in_place m value d xs = elim (Bool-cases d.ordered) [
    | inl e ↦
        rw e (
          count-sort_by (rotate_right m.second_slice xs)
          ∙ count-rotate_right test m.second_slice xs)
    | inr e ↦ rw e
  ]

module _ {T : Type 0} (p : DataDeliveryPolicy T) (m : Moment) (value : T) where
  abbrev pub same_kind : T → Bool
  same_kind x = p.eq_kind x value

  count-retain_single : (xs : List T) → count same_kind (retain (stays_beside p m value) xs) ≡ 0
  count-retain_single [] = refl
  count-retain_single (x ∷ xs) = ground (arith, count-retain_single xs)

  count-make_single :
      (d : Deque T)
      → is_delivery_policy_single p value ≡ true
      → count same_kind (make_single p m d value).items ≡ 0
  unfolding make_single
  count-make_single d e = rw e (count-retain_single d.items)

  refusal-ne-pushed : (policy : DeliveryPolicy) → refusal p m value policy ≢ pushed
  refusal-ne-pushed always e = cc
  refusal-ne-pushed latest e = cc
  refusal-ne-pushed optional e = cc
  refusal-ne-pushed single e = cc
  refusal-ne-pushed single_optional e = cc

  Stored-count :
      (d : Deque T) (r : StorageTryPushOutput T × Deque T)
      → count same_kind d.items ≡ 0
      → Stores p m value d r ⊎ Refuses p m value d r
      → r.0 ≡ pushed
      → count same_kind r.1.items ≡ (if p.eq_kind value value then 1 else 0)
  Stored-count d r none (inl (kept, (gone, parted, all), room, e)) out = rw e (
      omega (
        arith,
        count-in_place p same_kind m value d (kept ++ value ∷ []),
        count-append same_kind kept (value ∷ []),
        Parted-count same_kind parted,
      ))
  Stored-count d r none (inr e) out =
      absurd (refusal-ne-pushed (p.delivery_policy value) (ground arith))

-- When a live value with a single policy, of a kind that is equal to itself, is pushed into a deque
-- within its capacity, the deque then holds just one value of that kind, however many it held
-- before.
pub try_push_single :
    {T : Type 0} (p : DataDeliveryPolicy T) (m : Moment) (value : T) (d : Deque T)
    → Fits d
    → p.is_expired m.now value ≡ false
    → is_delivery_policy_single p value ≡ true
    → (try_push p m d value).0 ≡ pushed
    → p.eq_kind value value ≡ true
    → count (same_kind p m value) (try_push p m d value).1.items ≡ 1
unfolding try_push
try_push_single p m value d h live s out self = ground (
  arith,
  Stored-count p m value (make_single p m d value) (store p m (make_single p m d value) value)
      (count-make_single p m value d s)
      (store-Stores p m value (make_single p m d value) (make_single-Fits p m value d h)),
)
