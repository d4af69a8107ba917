-- ===== src/Storage/Laws.antt =====
-- src/base_channel.rs, src/channel.rs, src/policy_channel.rs: what a channel relies on in its
-- storage.
use rtsc.Prelude.{
  ℕ, suc, ◌≤◌, ◌<◌, ◌≡◌, ◌≢◌, ◌⊎◌, refl, inl, inr, Option, none, some, List, [], ◌∷◌, ◌++◌, ap,
  arith, length, length-append, ◌==◌, Bool-cases,
}
use rtsc.DataPolicy.{DataDeliveryPolicy, StorageTryPushOutput, pushed, full}
use rtsc.Deque.{Moment}
use rtsc.Deque.Verdict.{Fits}
use rtsc.Deque.Stored.{try_push-Fits, try_push-sizes}
use rtsc.Deque.Get.{len-get, get-Fits}
use rtsc.Storage.{ChannelStorage, VecDeque, vec_try_push, vec_get, vec_storage, deque_storage}

-- A push stores one value at most, and only if it says so; a value got leaves the storage shorter,
-- and where there is none the storage is left empty. `IsValid` is what the storage keeps.
pub record StorageLaws {T S : Type 0} (q : ChannelStorage T S) (IsValid : S → Type 0) : Type 0 where
  pub push-IsValid : (m : Moment) (s : S) (v : T) → IsValid s → IsValid (q.try_push m s v).1
  pub get-IsValid : (m : Moment) (s : S) → IsValid s → IsValid (q.get m s).1
  pub len-push :
      (m : Moment) (s : S) (v : T) → IsValid s → q.len (q.try_push m s v).1 ≤ suc (q.len s)
  pub len-push_refused :
      (m : Moment) (s : S) (v : T)
      → IsValid s
      → (q.try_push m s v).0 ≢ pushed
      → q.len (q.try_push m s v).1 ≤ q.len s
  pub len-get :
      (m : Moment) (s : S)
      → (((q.get m s).0 ≡ none) × (q.len (q.get m s).1 ≡ 0))
        ⊎ (((q.get m s).0 ≢ none) × (q.len (q.get m s).1 < q.len s))

abbrev pub VecFits : {T : Type 0} → VecDeque T → Type 0
VecFits q = length q.items ≤ q.capacity

module _ {T : Type 0} where
  -- A push stores the value at the end, or finds the deque at its capacity and gives it back.
  abbrev pub VecPushes : VecDeque T → T → StorageTryPushOutput T × VecDeque T → Type 0
  VecPushes q v r =
      ((r.0 ≡ pushed)
        × (r.1 ≡ record q { items = q.items ++ v ∷ [] })
        × (length q.items ≢ q.capacity))
      ⊎ ((r.0 ≡ full v) × (r.1 ≡ q) × (length q.items ≡ q.capacity))

  pub vec_push-VecPushes : (q : VecDeque T) (v : T) → VecPushes q v (vec_try_push q v)
  unfolding vec_try_push
  vec_push-VecPushes q v = elim (Bool-cases (length q.items == q.capacity)) [
    | inl e ↦ rw e (inr (refl, refl, ground arith))
    | inr e ↦ rw e (inl (refl, refl, ground arith))
  ]

  -- The value at the front, or nothing from an empty deque.
  abbrev pub VecGets : VecDeque T → Option T × VecDeque T → Type 0
  VecGets q r =
      ((r.0 ≡ none) × (q.items ≡ []) × (r.1 ≡ q))
      ⊎ ((v : T) × (r.0 ≡ some v) × (q.items ≡ v ∷ r.1.items) × (r.1.capacity ≡ q.capacity))

  vec_get_at :
      (xs : List T) (c : ℕ)
      → let q : VecDeque T = record { items = xs; capacity = c } in VecGets q (vec_get q)
  unfolding vec_get
  vec_get_at [] c = inl (refl, refl, refl)
  vec_get_at (x ∷ xs) c = inr (x, refl, refl, refl)

  pub vec_get-VecGets : (q : VecDeque T) → VecGets q (vec_get q)
  vec_get-VecGets q = vec_get_at q.items q.capacity

  pub vec_get_empty : (q : VecDeque T) → q.items ≡ [] → ((vec_get q).0 ≡ none) × ((vec_get q).1 ≡ q)
  vec_get_empty q e = elim (vec_get-VecGets q) [
    | inl (out, empty, same) ↦ (out, same)
    | inr (v, out, split, same) ↦ absurd (ground arith)
  ]

  vec_push-sizes :
      (q : VecDeque T) (v : T) (r : StorageTryPushOutput T × VecDeque T)
      → VecPushes q v r
      → VecFits q
      → VecFits r.1
        × (length r.1.items ≤ suc (length q.items))
        × (r.0 ≢ pushed → length r.1.items ≤ length q.items)
  vec_push-sizes q v r (inl (out, e, ne)) h =
      let size = length-append q.items (v ∷ []) in
      rw e (omega (arith, size), omega (arith, size), λ refused. absurd (refused out))
  vec_push-sizes q v r (inr (out, e, eq)) h = rw e (h, omega arith, λ refused. omega arith)

  vec_get-sizes :
      (q : VecDeque T) (r : Option T × VecDeque T)
      → VecGets q r
      → (((r.0 ≡ none) × (length r.1.items ≡ 0))
          ⊎ ((r.0 ≢ none) × (length r.1.items < length q.items)))
        × (VecFits q → VecFits r.1)
  vec_get-sizes q r (inl (out, empty, e)) = (inl (out, rw (e, empty)), λ h. rw e h)
  vec_get-sizes q r (inr (v, out, split, e)) =
      (inr ((λ e. cc), rw split (omega arith)), λ h. omega (arith, ap length split))

  -- `VecDeque` as a storage: a first in, first out queue within its capacity.
  pub vec_storage-laws : (allocated : ℕ → ℕ) → StorageLaws (vec_storage {T = T} allocated) VecFits
  vec_storage-laws allocated = record {
    push-IsValid = λ m s v h. (vec_push-sizes s v _ (vec_push-VecPushes s v) h).0;
    get-IsValid = λ m s. (vec_get-sizes s _ (vec_get-VecGets s)).1;
    len-push = λ m s v h. (vec_push-sizes s v _ (vec_push-VecPushes s v) h).1;
    len-push_refused = λ m s v h. (vec_push-sizes s v _ (vec_push-VecPushes s v) h).2;
    len-get = λ m s. (vec_get-sizes s _ (vec_get-VecGets s)).0;
  }

module _ {T : Type 0} (p : DataDeliveryPolicy T) where
  -- A policy deque as a storage, at whatever moments it is used.
  pub deque_storage-laws : StorageLaws (deque_storage p) Fits
  deque_storage-laws = record {
    push-IsValid = λ m s v h. (try_push-Fits p m v s h).0;
    get-IsValid = λ m s. get-Fits p m s;
    len-push = λ m s v h. (try_push-sizes p m v s h).0;
    len-push_refused = λ m s v h. (try_push-sizes p m v s h).1;
    len-get = len-get p;
  }
