-- ===== src/Deque/Stored.antt =====
-- src/pdeque.rs: what `try_push` leaves in the deque.
use rtsc.Prelude.{
  suc, Parted-length, ◌≢◌, ◌≤◌, ◌<◌, ◌≡◌, ◌⊎◌, refl, Bool, true, false, ◌&&◌, ◌||◌, inl, inr, List,
  [], ◌∷◌, ◌++◌, arith, length, length-append, any, Bool-cases, ltb, retain, retain-eq_self,
  if◌then◌else◌,
}
use native.Mathlib.Decide.{dec_lt}
use rtsc.DataPolicy.{
  DeliveryPolicy, always, latest, optional, single, single_optional, DataDeliveryPolicy, eq_policy,
  StorageTryPushOutput, pushed, full, is_delivery_policy_single,
}
use rtsc.Deque.{
  Moment, Deque, len, retain_but_one, sort_by_priority, push, push_final, push_no_room, gives_way,
  gives_way_latest, stays_beside, make_single, store, try_push,
}
use rtsc.Deque.Evict.{
  retain_but_one_none, length-retain_but_one, Loses, Loses-refl, Loses-mono, retain_but_one-Loses,
  retain-Loses,
}
use rtsc.Deque.Order.{IsSorted, length-sort_by_priority, sort_by_priority_lem}
use rtsc.Deque.Verdict.{Fits, refusal}

module _ {T : Type 0} (p : DataDeliveryPolicy T) (m : Moment) (value : T) where
  -- What the arrival of `value` may remove: expired and optional values, and those of its kind if
  -- its policy keeps only the newest.
  abbrev pub may_go : T → Bool
  may_go x =
      gives_way p m x
      || (p.eq_kind x value
          && (is_delivery_policy_single p value || eq_policy (p.delivery_policy value) latest))

  -- The list that is stored once the kept values and the new one are together.
  abbrev pub in_place : Deque T → List T → List T
  in_place d items = if d.ordered then sort_by_priority p m items else items

  -- The value is stored behind the values that are kept, and there was room for it.
  abbrev pub Stores : Deque T → StorageTryPushOutput T × Deque T → Type 0
  Stores d r =
      (kept : List T) × Loses may_go kept d.items
      × (length kept < d.capacity)
      × (r ≡ (pushed, record d { items = in_place d (kept ++ value ∷ []) }))

  -- The value is skipped or given back, and the deque is as it was.
  abbrev pub Refuses : Deque T → StorageTryPushOutput T × Deque T → Type 0
  Refuses d r = r ≡ (refusal p m value (p.delivery_policy value), d)

  push_final-Stores :
      (d : Deque T) (test : T → Bool)
      → ((x : T) → test x ≡ true → may_go x ≡ true)
      → len d ≡ d.capacity
      → refusal p m value (p.delivery_policy value) ≡ full value
      → let r = push_final p m (record d { items = retain_but_one false test d.items }) value in
        Stores d r ⊎ Refuses d r
  unfolding push_final push
  push_final-Stores d test sub h e = elim (Bool-cases (any test d.items)) [
    | inl yields ↦ inl (
      retain_but_one false test d.items,
      Loses-mono test may_go sub _ _ (retain_but_one-Loses test d.items),
      ground (arith, length-retain_but_one test d.items),
      ground (arith, length-retain_but_one test d.items),
    )
    | inr none_yields ↦ inr (ground (arith, retain_but_one_none test d.items))
  ]

  push_no_room-Stores :
      (d : Deque T) (policy : DeliveryPolicy)
      → p.delivery_policy value ≡ policy
      → len d ≡ d.capacity
      → let r = push_no_room p m d value policy in Stores d r ⊎ Refuses d r
  unfolding push_no_room
  push_no_room-Stores d always e h =
      push_final-Stores d (gives_way p m) (λ x g. ground arith) h (rw e)
  push_no_room-Stores d single e h =
      push_final-Stores d (gives_way p m) (λ x g. ground arith) h (rw e)
  push_no_room-Stores d latest e h =
      push_final-Stores d (gives_way_latest p m value) (λ x g. ground arith) h (rw e)
  push_no_room-Stores d optional e h = inr (rw e)
  push_no_room-Stores d single_optional e h = inr (rw e)

  pub store-Stores : (d : Deque T) → Fits d → let r = store p m d value in Stores d r ⊎ Refuses d r
  unfolding store push
  store-Stores d h = elim (Bool-cases (ltb (len d) d.capacity)) [
    | inl room ↦ inl (d.items, Loses-refl may_go d.items, ground arith, ground arith)
    | inr no_room ↦ rw no_room (push_no_room-Stores d (p.delivery_policy value) refl (ground arith))
  ]

  -- `make_single` only removes values that may go.
  make_single_at :
      (d : Deque T) (b : Bool)
      → is_delivery_policy_single p value ≡ b
      → Loses may_go
          (if b then record d { items = retain (stays_beside p m value) d.items } else d).items
          d.items
  make_single_at d true e =
      retain-Loses may_go (stays_beside p m value) d.items (λ x h. ground arith)
  make_single_at d false e = Loses-refl may_go d.items

  make_single-Loses : (d : Deque T) → Loses may_go (make_single p m d value).items d.items
  unfolding make_single
  make_single-Loses d = make_single_at d (is_delivery_policy_single p value) refl

  -- With no room after it, `make_single` has removed nothing.
  make_single_no_room :
      (d : Deque T)
      → Fits d
      → (d.capacity ≤ len (make_single p m d value))
      → make_single p m d value ≡ d
  unfolding make_single
  make_single_no_room d h k = ground (arith, retain-eq_self (stays_beside p m value) d.items)

  make_single_keeps :
      (d : Deque T)
      → ((make_single p m d value).capacity ≡ d.capacity)
        × ((make_single p m d value).ordered ≡ d.ordered)
  unfolding make_single
  make_single_keeps d = ground arith

  store_room :
      (d e : Deque T)
      → Loses may_go e.items d.items
      → (e.capacity ≡ d.capacity) × (e.ordered ≡ d.ordered)
      → len e < d.capacity
      → Stores d (store p m e value)
  unfolding store push
  store_room d e loses same room = (e.items, loses, room, ground arith)

  live-Stores :
      (d : Deque T)
      → Fits d
      → let r = store p m (make_single p m d value) value in Stores d r ⊎ Refuses d r
  live-Stores d h = elim (dec_lt (len (make_single p m d value)) d.capacity) [
    | yes room ↦
        inl
          (store_room d (make_single p m d value) (make_single-Loses d) (make_single_keeps d) room)
    | no no_room ↦ rw (make_single_no_room d h (omega arith)) (store-Stores d h)
  ]

  length-in_place : (d : Deque T) (xs : List T) → length (in_place d xs) ≡ length xs
  length-in_place d xs = ground (arith, length-sort_by_priority p m xs)

  Stored-Fits :
      (d : Deque T) {r : StorageTryPushOutput T × Deque T}
      → Fits d
      → Stores d r ⊎ Refuses d r
      → Fits r.1 × (r.1.capacity ≡ d.capacity) × (r.1.ordered ≡ d.ordered)
  Stored-Fits d {r} h (inl (kept, loses, room, e)) =
      let size = length-in_place d (kept ++ value ∷ []) in
      rw e (omega (arith, size, length-append kept (value ∷ [])), refl, refl)
  Stored-Fits d h (inr e) = rw e (h, refl, refl)

  Stored-sizes :
      (d : Deque T) {r : StorageTryPushOutput T × Deque T}
      → Stores d r ⊎ Refuses d r
      → (len r.1 ≤ suc (len d)) × (r.0 ≢ pushed → len r.1 ≤ len d)
  Stored-sizes d (inl (kept, (gone, parted, all), room, e)) =
      let size = length-in_place d (kept ++ value ∷ []) in
      rw e (
        omega (arith, size, length-append kept (value ∷ []), Parted-length parted),
        λ refused. absurd (refused refl),
      )
  Stored-sizes d (inr e) = rw e (omega arith, λ refused. omega arith)

  Stored-IsSorted :
      (d : Deque T) {r : StorageTryPushOutput T × Deque T}
      → d.ordered ≡ true
      → IsSorted p d.items
      → Stores d r ⊎ Refuses d r
      → IsSorted p r.1.items
  Stored-IsSorted d o h (inl (kept, loses, room, e)) =
      rw (e, o) (sort_by_priority_lem p m (kept ++ value ∷ [])).0
  Stored-IsSorted d o h (inr e) = rw e h

-- A push of a live value into a deque within its capacity does one of two things. It stores the
-- value behind the values that are kept, in their order, sorting if the deque is ordered; there was
-- room for it, and all that is gone may go: it is expired, optional, or of the value's kind while
-- the value's policy keeps only the newest. Or it refuses the value by its policy, skipping it or
-- giving it back, and changes nothing.
pub try_push_lem :
    {T : Type 0} (p : DataDeliveryPolicy T) (m : Moment) (value : T) (d : Deque T)
    → Fits d
    → p.is_expired m.now value ≡ false
    → let r = try_push p m d value in Stores p m value d r ⊎ Refuses p m value d r
unfolding try_push
try_push_lem p m value d h live = rw live (live-Stores p m value d h)

-- A push into a deque within its capacity leaves it within its capacity, and leaves its capacity
-- and its ordering as they were.
pub try_push-Fits :
    {T : Type 0} (p : DataDeliveryPolicy T) (m : Moment) (value : T) (d : Deque T)
    → Fits d
    → let d' = (try_push p m d value).1 in
      Fits d' × (d'.capacity ≡ d.capacity) × (d'.ordered ≡ d.ordered)
unfolding try_push
try_push-Fits p m value d h = elim (Bool-cases (p.is_expired m.now value)) [
  | inl e ↦ rw e (h, refl, refl)
  | inr live ↦ rw live (Stored-Fits p m value d h (live-Stores p m value d h))
]

-- A push makes the deque longer by one value at most, and no longer at all if it is refused.
pub try_push-sizes :
    {T : Type 0} (p : DataDeliveryPolicy T) (m : Moment) (value : T) (d : Deque T)
    → Fits d
    → let (out, d') = try_push p m d value in
      (len d' ≤ suc (len d)) × (out ≢ pushed → len d' ≤ len d)
unfolding try_push
try_push-sizes p m value d h = elim (Bool-cases (p.is_expired m.now value)) [
  | inl e ↦ rw e (omega arith, λ refused. omega arith)
  | inr live ↦ rw live (Stored-sizes p m value d (live-Stores p m value d h))
]

-- Every push into an ordered deque within its capacity leaves it in the order of the priorities, if
-- it was so.
pub try_push-IsSorted :
    {T : Type 0} (p : DataDeliveryPolicy T) (m : Moment) (value : T) (d : Deque T)
    → Fits d
    → d.ordered ≡ true
    → IsSorted p d.items
    → IsSorted p (try_push p m d value).1.items
unfolding try_push
try_push-IsSorted p m value d h o sorted = elim (Bool-cases (p.is_expired m.now value)) [
  | inl e ↦ rw e sorted
  | inr live ↦ rw live (Stored-IsSorted p m value d o sorted (live-Stores p m value d h))
]
