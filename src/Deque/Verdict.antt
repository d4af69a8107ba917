-- ===== src/Deque/Verdict.antt =====
-- src/pdeque.rs: the outcome of `try_push`, on every branch.
use rtsc.Prelude.{
  ◌≤◌, ◌<◌, ◌≡◌, refl, ◌∙◌, Bool, true, false, not, ◌||◌, inl, inr, List, arith, any,
  length-retain-lt, length-retain-le, retain_none, Bool-cases, any-or, any-false, any-cong, ltb,
  if◌then◌else◌,
}
use rtsc.DataPolicy.{
  DeliveryPolicy, always, latest, optional, single, single_optional, DataDeliveryPolicy,
  StorageTryPushOutput, pushed, skipped, full, is_delivery_policy_single,
}
use rtsc.Deque.{
  Moment, Deque, len, retain_but_one, push, push_final, push_no_room, gives_way, gives_way_latest,
  stays_beside, make_single, store, try_push,
}
use rtsc.Deque.Evict.{retain_but_one_none, length-retain_but_one}

-- The deque holds no more than it may.
abbrev pub Fits : {T : Type 0} → Deque T → Type 0
Fits d = len d ≤ d.capacity

module _ {T : Type 0} (p : DataDeliveryPolicy T) (m : Moment) (value : T) where
  -- Which stored values make room for the pushed one, by its policy.
  pub makes_room : DeliveryPolicy → T → Bool
  makes_room always x = gives_way p m x
  makes_room latest x = gives_way p m x || p.eq_kind x value
  makes_room single x = gives_way p m x || p.eq_kind x value
  makes_room optional x = false
  makes_room single_optional x = p.is_expired m.now x || p.eq_kind x value

  -- The outcome with no room to be made.
  abbrev pub refusal : DeliveryPolicy → StorageTryPushOutput T
  refusal optional = skipped
  refusal single_optional = skipped
  refusal _ = full value

  -- The outcome, from the values that are stored and the policies alone.
  pub verdict : Deque T → StorageTryPushOutput T
  verdict d =
      let policy = p.delivery_policy value in
      if p.is_expired m.now value
      then pushed
      else if ltb (len d) d.capacity
      then pushed
      else if any (makes_room policy) d.items
      then pushed
      else refusal policy

  -- The values that a deque with no room gives up, after `make_single`.
  abbrev goes_no_room : DeliveryPolicy → T → Bool
  goes_no_room always = gives_way p m
  goes_no_room single = gives_way p m
  goes_no_room latest = gives_way_latest p m value
  goes_no_room optional = λ _. false
  goes_no_room single_optional = λ _. false

  push_final_outcome :
      (d : Deque T) (test : T → Bool)
      → len d ≡ d.capacity
      → (push_final p m (record d { items = retain_but_one false test d.items }) value).0
        ≡ (if any test d.items then pushed else full value)
  unfolding push_final push
  push_final_outcome d test h =
      ground (arith, length-retain_but_one test d.items, retain_but_one_none test d.items)

  push_no_room_outcome :
      (d : Deque T) (policy : DeliveryPolicy)
      → len d ≡ d.capacity
      → (push_no_room p m d value policy).0
        ≡ (if any (goes_no_room policy) d.items then pushed else refusal policy)
  unfolding push_no_room
  push_no_room_outcome d always h = push_final_outcome d (gives_way p m) h
  push_no_room_outcome d single h = push_final_outcome d (gives_way p m) h
  push_no_room_outcome d latest h = push_final_outcome d (gives_way_latest p m value) h
  push_no_room_outcome d optional h = rw (any-false d.items)
  push_no_room_outcome d single_optional h = rw (any-false d.items)

  store_outcome :
      (d : Deque T) (policy : DeliveryPolicy)
      → Fits d
      → p.delivery_policy value ≡ policy
      → (store p m d value).0 ≡ (
          if ltb (len d) d.capacity
          then pushed
          else if any (goes_no_room policy) d.items
          then pushed
          else refusal policy)
  unfolding store push
  store_outcome d policy h e = rw e (ground (arith, push_no_room_outcome d policy))

  -- The values that `make_single` removes.
  abbrev goes_single : T → Bool
  goes_single x = not (stays_beside p m value x)

  makes_room_single :
      (xs : List T) → any (makes_room single) xs ≡ (any goes_single xs || any (gives_way p m) xs)
  unfolding makes_room
  makes_room_single xs =
      any-cong (makes_room single) (λ x. goes_single x || gives_way p m x) xs (λ x. ground arith)
      ∙ any-or goes_single (gives_way p m) xs

  makes_room_single_optional :
      (xs : List T) → any (makes_room single_optional) xs ≡ any goes_single xs
  unfolding makes_room
  makes_room_single_optional xs =
      any-cong (makes_room single_optional) goes_single xs (λ x. ground arith)

  pub make_single-Fits : (d : Deque T) → Fits d → Fits (make_single p m d value)
  unfolding make_single
  make_single-Fits d h = ground (arith, length-retain-le (stays_beside p m value) d.items)

  -- `make_single` makes room, or leaves the deque as it was.
  make_single_shrinks :
      (d : Deque T)
      → is_delivery_policy_single p value ≡ true
      → any goes_single d.items ≡ true
      → len (make_single p m d value) < len d
  unfolding make_single
  make_single_shrinks d e h = ground (arith, length-retain-lt (stays_beside p m value) d.items)

  make_single_same : (d : Deque T) → any goes_single d.items ≡ false → make_single p m d value ≡ d
  unfolding make_single
  make_single_same d h = ground (arith, retain_none (stays_beside p m value) d.items)

  make_single_other :
      (d : Deque T) → is_delivery_policy_single p value ≡ false → make_single p m d value ≡ d
  unfolding make_single
  make_single_other d h = ground arith

  make_single-capacity : (d : Deque T) → (make_single p m d value).capacity ≡ d.capacity
  unfolding make_single
  make_single-capacity d = ground arith

  verdict_at :
      (d : Deque T) (policy : DeliveryPolicy)
      → Fits d
      → p.delivery_policy value ≡ policy
      → (try_push p m d value).0 ≡ verdict d
  unfolding try_push verdict makes_room
  verdict_at d always h e = ground (
    arith,
    make_single_other d,
    store_outcome d always h e,
    any-cong (makes_room always) (gives_way p m) d.items (λ x. refl),
  )
  verdict_at d latest h e = ground (
    arith,
    make_single_other d,
    store_outcome d latest h e,
    any-cong (makes_room latest) (gives_way_latest p m value) d.items (λ x. refl),
  )
  verdict_at d optional h e = ground (
    arith,
    make_single_other d,
    store_outcome d optional h e,
    any-cong (makes_room optional) (λ _. false) d.items (λ x. refl),
  )
  verdict_at d single h e = elim (Bool-cases (any goes_single d.items)) [
    | inl some_go ↦ ground (
      arith,
      make_single_shrinks d,
      make_single-capacity d,
      make_single-Fits d h,
      makes_room_single d.items,
      store_outcome (make_single p m d value) single,
    )
    | inr none_go ↦
        ground (arith, make_single_same d, makes_room_single d.items, store_outcome d single h e)
  ]
  verdict_at d single_optional h e = elim (Bool-cases (any goes_single d.items)) [
    | inl some_go ↦ ground (
      arith,
      make_single_shrinks d,
      make_single-capacity d,
      make_single-Fits d h,
      makes_room_single_optional d.items,
      store_outcome (make_single p m d value) single_optional,
    )
    | inr none_go ↦ ground (
      arith,
      make_single_same d,
      makes_room_single_optional d.items,
      store_outcome d single_optional h e,
      any-false d.items,
    )
  ]

-- A deque that holds no more than its capacity answers `try_push` by the verdict: an expired value
-- counts as pushed; otherwise the value is pushed if there is room or a stored value that makes
-- room for it by its policy; otherwise an optional value is skipped and any other comes back.
pub try_push-verdict :
    {T : Type 0} (p : DataDeliveryPolicy T) (m : Moment) (value : T) (d : Deque T)
    → Fits d
    → (try_push p m d value).0 ≡ verdict p m value d
try_push-verdict p m value d h = verdict_at p m value d (p.delivery_policy value) h refl
