-- ===== src/AsyncWakers.antt =====
-- src/base_channel_async.rs: who waits for space, or for data, on an async channel.
-- `InnerData` keeps the same three collections and the same methods for sends and for receives;
-- `Wakers` is one of these sides. `W` is the type of the wakers. A set of ids is its membership
-- test.
pub mod Tracked
use rtsc.Prelude.{
  ℕ, Bool, true, false, not, ◌&&◌, ◌||◌, Option, none, some, List, [], ◌∷◌, ◌++◌, any, ◌==◌,
  if◌then◌else◌,
}

-- `send_fut_wakers`, `send_fut_waker_ids` and `send_fut_pending`, or those of the receives. The
-- waker `none` stands for a thread that waits on the condition variable.
pub record Wakers (W : Type 0) : Type 0 where
  pub wakers : List (Option (W × ℕ))
  pub waker_ids : ℕ → Bool
  pub pending : ℕ → Bool

-- Whom a method wakes; with the waker of a future, its id.
pub data Woken (W : Type 0) : Type 0 where
  nobody : Woken W
  one_thread : Woken W
  one_future : W → ℕ → Woken W
  everybody : List (Option (W × ℕ)) → Woken W

abbrev pub set_insert : ℕ → (ℕ → Bool) → ℕ → Bool
set_insert id ids i = i == id || ids i

abbrev pub set_remove : ℕ → (ℕ → Bool) → ℕ → Bool
set_remove id ids i = not (i == id) && ids i

abbrev pub has_id : {W : Type 0} → ℕ → Option (W × ℕ) → Bool
has_id id none = false
has_id id (some (_, i)) = i == id

module _ {W : Type 0} where
  unfoldable pub new : Wakers W
  new = record { wakers = []; waker_ids = λ _. false; pending = λ _. false }

  unfoldable pub wake_next_of : Wakers W → List (Option (W × ℕ)) → Woken W × Wakers W
  wake_next_of w [] = (nobody, w)
  wake_next_of w (none ∷ rest) = (one_thread, record w { wakers = rest })
  wake_next_of w (some (waker, id) ∷ rest) = (
    one_future waker id,
    record w {
      wakers = rest;
      waker_ids = set_remove id w.waker_ids;
      pending = set_insert id w.pending;
    },
  )

  -- `wake_next_send` and `wake_next_recv`.
  unfoldable pub wake_next : Wakers W → Woken W × Wakers W
  wake_next w = wake_next_of w w.wakers

  -- `wake_all_sends` and `wake_all_recvs`.
  unfoldable pub wake_all : Wakers W → Woken W × Wakers W
  wake_all w = (everybody w.wakers, record w { wakers = []; waker_ids = λ _. false })

  -- `remove` at the `position` of the id.
  unfoldable pub remove_id : ℕ → List (Option (W × ℕ)) → List (Option (W × ℕ))
  remove_id id [] = []
  remove_id id (x ∷ xs) = let rest = remove_id id xs in if has_id id x then xs else x ∷ rest

  unfoldable pub forget : ℕ → Wakers W → Wakers W
  forget id w =
      if any (has_id id) w.wakers
      then record w { wakers = remove_id id w.wakers; waker_ids = set_remove id w.waker_ids }
      else w

  -- `notify_send_fut_drop` and `notify_recv_fut_drop`.
  unfoldable pub notify_fut_drop : ℕ → Wakers W → Woken W × Wakers W
  notify_fut_drop id w =
      let left = forget id w in
      if left.pending id
      then wake_next (record left { pending = set_remove id left.pending })
      else (nobody, left)

  -- `confirm_send_fut_waked` and `confirm_recv_fut_waked`.
  unfoldable pub confirm_fut_waked : ℕ → Wakers W → Wakers W
  confirm_fut_waked id w = record w { pending = set_remove id w.pending }

  -- `append_send_fut_waker` and `append_recv_fut_waker`.
  unfoldable pub append_fut_waker : W → ℕ → Wakers W → Wakers W
  append_fut_waker waker id w = if w.waker_ids id then w else record w {
    wakers = w.wakers ++ some (waker, id) ∷ [];
    waker_ids = set_insert id w.waker_ids;
  }

  -- `append_send_sync_waker` and `append_recv_sync_waker`.
  unfoldable pub append_sync_waker : Wakers W → Wakers W
  append_sync_waker w = record w { wakers = w.wakers ++ none ∷ [] }
