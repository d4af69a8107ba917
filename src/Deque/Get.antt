-- ===== src/Deque/Get.antt =====
-- src/pdeque.rs: `get`.
use rtsc.Prelude.{
  ◌≤◌, ◌≡◌, ◌≢◌, refl, ap, sym, subst, ◌<◌, true, false, ◌⊎◌, inl, inr, Option, none, some, List,
  [], ◌∷◌, ◌++◌, arith, length, length-append, All, Bool-cases,
}
use rtsc.DataPolicy.{DataDeliveryPolicy}
use rtsc.Deque.{Moment, Deque, len, get_live, get}
use rtsc.Deque.Order.{IsSorted}
use rtsc.Deque.Verdict.{Fits}

module _ {T : Type 0} (p : DataDeliveryPolicy T) (m : Moment) where
  abbrev pub IsExpired : T → Type 0
  IsExpired x = p.is_expired m.now x ≡ true

  -- Expired values, then the value returned, then what is left; or expired values only.
  abbrev pub Gets : List T → Option T × List T → Type 0
  Gets xs r =
      ((dead : List T) × (rest : List T) × (v : T) × (xs ≡ dead ++ v ∷ rest)
        × All IsExpired dead
        × (p.is_expired m.now v ≡ false)
        × (r ≡ (some v, rest)))
      ⊎ (All IsExpired xs × (r ≡ (none, [])))

  Gets-cons :
      (x : T) (xs : List T) (r : Option T × List T) → IsExpired x → Gets xs r → Gets (x ∷ xs) r
  Gets-cons x xs r e (inl (dead, rest, v, split, all, live, eq)) =
      inl (x ∷ dead, rest, v, ap (λ l. x ∷ l) split, (e, all), live, eq)
  Gets-cons x xs r e (inr (all, eq)) = inr ((e, all), eq)

  get_live_expired : (x : T) (xs : List T) → IsExpired x → get_live p m (x ∷ xs) ≡ get_live p m xs
  unfolding get_live
  get_live_expired x xs e = rw e

  get_live-All : (xs : List T) → All IsExpired xs → get_live p m xs ≡ (none, [])
  unfolding get_live
  get_live-All [] h = refl
  get_live-All (x ∷ xs) h = rw h.0 (get_live-All xs h.1)

  pub get_live-Gets : (xs : List T) → Gets xs (get_live p m xs)
  unfolding get_live
  get_live-Gets [] = inr (tt, refl)
  get_live-Gets (x ∷ xs) = elim (Bool-cases (p.is_expired m.now x)) [
    | inr live ↦ rw live (inl ([], xs, x, refl, tt, live, refl))
    | inl e ↦
        subst (Gets (x ∷ xs)) (sym (get_live_expired x xs e))
          (Gets-cons x xs _ e (get_live-Gets xs))
  ]

-- `get` returns the first value that is not expired, having dropped just the expired ones in front
-- of it, and leaves the rest as it was; it returns nothing only if all values are expired, and then
-- leaves the deque empty. Capacity and ordering stay.
pub get_lem :
    {T : Type 0} (p : DataDeliveryPolicy T) (m : Moment) (d : Deque T)
    → let (value, d') = get p m d in
      Gets p m d.items (value, d'.items) × (d'.capacity ≡ d.capacity) × (d'.ordered ≡ d.ordered)
unfolding get
get_lem p m d = (get_live-Gets p m d.items, refl, refl)

module _ {T : Type 0} (p : DataDeliveryPolicy T) (m : Moment) where
  IsSorted-append : (xs ys : List T) → IsSorted p (xs ++ ys) → IsSorted p ys
  IsSorted-append [] ys h = h
  IsSorted-append (x ∷ xs) ys h = IsSorted-append xs ys h.1

  Gets-IsSorted :
      (xs : List T) (r : Option T × List T) → Gets p m xs r → IsSorted p xs → IsSorted p r.1
  Gets-IsSorted xs r (inl (dead, rest, v, split, all, live, eq)) h =
      rw eq (IsSorted-append dead (v ∷ rest) (rw split at h)).1
  Gets-IsSorted xs r (inr (all, eq)) h = rw eq tt

  Gets-shorter :
      (xs : List T) (r : Option T × List T)
      → Gets p m xs r
      → ((r.0 ≡ none) × (length r.1 ≡ 0)) ⊎ ((r.0 ≢ none) × (length r.1 < length xs))
  Gets-shorter xs r (inl (dead, rest, v, split, all, live, eq)) =
      inr (rw (eq, split) ((λ e. cc), omega (arith, length-append dead (v ∷ rest))))
  Gets-shorter xs r (inr (all, eq)) = inl (rw eq (refl, refl))

  Gets-length : (xs : List T) (r : Option T × List T) → Gets p m xs r → length r.1 ≤ length xs
  Gets-length xs r (inl (dead, rest, v, split, all, live, eq)) =
      rw (eq, split) (omega (arith, length-append dead (v ∷ rest)))
  Gets-length xs r (inr (all, eq)) = rw eq (omega arith)

-- What the storage of a channel relies on: a value got leaves the deque shorter, and if there is
-- none the deque is left empty.
pub len-get :
    {T : Type 0} (p : DataDeliveryPolicy T) (m : Moment) (d : Deque T)
    → (((get p m d).0 ≡ none) × (len (get p m d).1 ≡ 0))
      ⊎ (((get p m d).0 ≢ none) × (len (get p m d).1 < len d))
unfolding get
len-get p m d = Gets-shorter p m d.items _ (get_live-Gets p m d.items)

-- `get` leaves a deque in the order of the priorities, if it was so.
pub get-IsSorted :
    {T : Type 0} (p : DataDeliveryPolicy T) (m : Moment) (d : Deque T)
    → IsSorted p d.items
    → IsSorted p (get p m d).1.items
unfolding get
get-IsSorted p m d sorted = Gets-IsSorted p m d.items _ (get_live-Gets p m d.items) sorted

pub get-Fits :
    {T : Type 0} (p : DataDeliveryPolicy T) (m : Moment) (d : Deque T) → Fits d → Fits (get p m d).1
unfolding get
get-Fits p m d h = omega (arith, Gets-length p m d.items _ (get_live-Gets p m d.items))

pub get_expired :
    {T : Type 0} (p : DataDeliveryPolicy T) (m : Moment) (d : Deque T)
    → All (IsExpired p m) d.items
    → get p m d ≡ (none, record d { items = [] })
unfolding get
get_expired p m d h = rw (get_live-All p m d.items h)
