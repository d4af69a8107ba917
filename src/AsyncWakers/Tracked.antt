-- ===== src/AsyncWakers/Tracked.antt =====
-- src/base_channel_async.rs: the queue of wakers and the ids kept beside it.
use rtsc.Prelude.{
  ℕ, ◌≡◌, ◌≢◌, ◌↔◌, ◌-◌, refl, sym, ◌∙◌, true, false, Option, none, some, List, [], ◌∷◌, arith, any,
  count, count-append, ◌==◌, if◌then◌else◌, Bool-cases, inl, inr,
}
use rtsc.AsyncWakers.{
  Wakers, nobody, new, wake_next_of, wake_next, wake_all, remove_id, forget, notify_fut_drop,
  confirm_fut_waked, append_fut_waker, append_sync_waker, has_id, set_remove,
}

module _ {W : Type 0} where
  abbrev pub queued : ℕ → Wakers W → ℕ
  queued id w = count (has_id id) w.wakers

  -- An id is in the queue once if it is in the set, and else not at all.
  abbrev pub IsTracked : Wakers W → Type 0
  IsTracked w = (id : ℕ) → queued id w ≡ (if w.waker_ids id then 1 else 0)

  pub any-count :
      (id : ℕ) (xs : List (Option (W × ℕ)))
      → (any (has_id id) xs ≡ true) ↔ (count (has_id id) xs ≢ 0)
  any-count id [] = ground arith
  any-count id (x ∷ xs) = ground (arith, any-count id xs)

  pub count-remove_id :
      (id i : ℕ) (xs : List (Option (W × ℕ)))
      → count (has_id i) (remove_id id xs)
        ≡ (if i == id then count (has_id i) xs - 1 else count (has_id i) xs)
  unfolding remove_id
  count-remove_id id i [] = ground arith
  count-remove_id id i (none ∷ xs) = ground (arith, count-remove_id id i xs)
  count-remove_id id i (some (w, k) ∷ xs) = ground (arith, count-remove_id id i xs)

  pub wake_next_of-IsTracked :
      (w : Wakers W) (xs : List (Option (W × ℕ)))
      → w.wakers ≡ xs
      → IsTracked w
      → IsTracked (wake_next_of w xs).1
  unfolding wake_next_of
  wake_next_of-IsTracked w [] e h = h
  wake_next_of-IsTracked w (none ∷ rest) e h = λ i. ground (arith, rw e at h i)
  wake_next_of-IsTracked w (some (waker, id) ∷ rest) e h =
      λ i. ground (arith, rw e at h i, rw e at h id)

  pub forget-IsTracked : (id : ℕ) (w : Wakers W) → IsTracked w → IsTracked (forget id w)
  unfolding forget
  forget-IsTracked id w h i =
      ground (arith, h i, h id, any-count id w.wakers, count-remove_id id i w.wakers)

  pub append-IsTracked :
      (waker : W) (id : ℕ) (w : Wakers W) → IsTracked w → IsTracked (append_fut_waker waker id w)
  unfolding append_fut_waker
  append-IsTracked waker id w h i =
      ground (arith, h i, h id, count-append (has_id i) w.wakers (some (waker, id) ∷ []))

  pub drop-IsTracked : (id : ℕ) (w : Wakers W) → IsTracked w → IsTracked (notify_fut_drop id w).1
  unfolding notify_fut_drop wake_next
  drop-IsTracked id w h = elim (Bool-cases ((forget id w).pending id)) [
    | inl e ↦ rw e (
        wake_next_of-IsTracked
          (record (forget id w) { pending = set_remove id (forget id w).pending })
          (forget id w).wakers refl (forget-IsTracked id w h))
    | inr e ↦ rw e (forget-IsTracked id w h)
  ]

  pub forget-queued : (id : ℕ) (w : Wakers W) → IsTracked w → queued id (forget id w) ≡ 0
  unfolding forget
  forget-queued id w h = ground (arith, h id, any-count id w.wakers, count-remove_id id id w.wakers)

  wake_next_of-left :
      (id : ℕ) (w : Wakers W) (xs : List (Option (W × ℕ)))
      → w.wakers ≡ xs
      → count (has_id id) xs ≡ 0
      → w.pending id ≡ false
      → let w' = (wake_next_of w xs).1 in (queued id w' ≡ 0) × (w'.pending id ≡ false)
  unfolding wake_next_of
  wake_next_of-left id w [] e gone idle = (rw e refl, idle)
  wake_next_of-left id w (none ∷ rest) e gone idle = ground arith
  wake_next_of-left id w (some (waker, k) ∷ rest) e gone idle = ground arith

  pub forget-pending : (id i : ℕ) (w : Wakers W) → (forget id w).pending i ≡ w.pending i
  unfolding forget
  forget-pending id i w = ground arith

  wake_next_of-woken :
      (v w : Wakers W) (xs : List (Option (W × ℕ))) → (wake_next_of v xs).0 ≡ (wake_next_of w xs).0
  unfolding wake_next_of
  wake_next_of-woken v w [] = refl
  wake_next_of-woken v w (none ∷ rest) = refl
  wake_next_of-woken v w (some (waker, id) ∷ rest) = refl

-- A new queue of wakers is tracked, that is, an id is in the queue once if it is in the set of ids
-- and else not at all; and whatever is done to a tracked queue leaves it tracked: waking the next
-- one or all, appending a future or a thread, confirming that a future was woken, and dropping it.
pub Wakers-IsTracked :
    {W : Type 0} (waker : W) (id : ℕ) (w : Wakers W)
    → IsTracked w
    → IsTracked (new {W = W})
      × IsTracked (wake_next w).1
      × IsTracked (wake_all w).1
      × IsTracked (append_fut_waker waker id w)
      × IsTracked (append_sync_waker w)
      × IsTracked (confirm_fut_waked id w)
      × IsTracked (notify_fut_drop id w).1
unfolding new wake_next wake_all append_sync_waker confirm_fut_waked
Wakers-IsTracked waker id w h = (
  (λ i. refl),
  wake_next_of-IsTracked w w.wakers refl h,
  (λ i. refl),
  append-IsTracked waker id w h,
  (λ i. ground (arith, h i, count-append (has_id i) w.wakers (none ∷ []))),
  h,
  drop-IsTracked id w h,
)

-- When a future is dropped, nothing of it is left in a tracked queue; and if it was woken and has
-- not run since, the next of those that wait is woken in its place, else nobody.
pub notify_fut_drop_lem :
    {W : Type 0} (id : ℕ) (w : Wakers W)
    → IsTracked w
    → let (woken, w') = notify_fut_drop id w in
      (queued id w' ≡ 0)
      × (w'.pending id ≡ false)
      × (woken ≡ (if w.pending id then (wake_next (forget id w)).0 else nobody))
unfolding notify_fut_drop wake_next
notify_fut_drop_lem id w h = elim (Bool-cases ((forget id w).pending id)) [
  | inl e ↦
      let left = record (forget id w) { pending = set_remove id (forget id w).pending } in
      let gone =
        wake_next_of-left id left (forget id w).wakers refl (forget-queued id w h) (ground arith) in
      rw (e, sym (forget-pending id id w) ∙ e)
        (gone.0, gone.1, wake_next_of-woken left (forget id w) (forget id w).wakers)
  | inr e ↦ rw (e, sym (forget-pending id id w) ∙ e) (forget-queued id w h, e, refl)
]
