-- ===== src/BaseChannel/Tasks.antt =====
-- src/base_channel.rs: the calls in progress, and whom a notification wakes.
-- A condition variable does what src/condvar_api.rs documents: `notify_one` wakes one of its
-- waiters, whichever, if it has any, and `notify_all` all of them; nobody else is woken, but a
-- wait with a timeout may end by it at any time.
use rtsc.Prelude.{
  ℕ, ◌+◌, ◌-◌, ◌≡◌, refl, Bool, true, false, ◌&&◌, ◌||◌, List, [], ◌∷◌, map, count, arith, ◌==◌,
  if◌then◌else◌,
}
use rtsc.BaseChannel.{
  Condvar, data_available, space_available, Notify, silent, notify_one, notify_all,
}

-- A call in progress: about to run its next round, or waiting. The flag tells the calls that have
-- a timeout; a call that has returned is gone.
pub data Task (T : Type 0) : Type 0 where
  sending waiting_space : (timed : Bool) → T → Task T
  receiving waiting_data : (timed : Bool) → Task T

module _ {T : Type 0} where
  abbrev pub runs : Condvar → Task T → Bool
  runs space_available (sending _ _) = true
  runs data_available (receiving _) = true
  runs _ _ = false

  abbrev pub waits_on : Condvar → Task T → Bool
  waits_on space_available (waiting_space _ _) = true
  waits_on data_available (waiting_data _) = true
  waits_on _ _ = false

  -- A send, or a receive, in progress holds its handle.
  abbrev pub uses : Condvar → Task T → Bool
  uses space_available (sending _ _) = true
  uses space_available (waiting_space _ _) = true
  uses data_available (receiving _) = true
  uses data_available (waiting_data _) = true
  uses _ _ = false

  abbrev pub wake : Task T → Task T
  wake (waiting_space timed v) = sending timed v
  wake (waiting_data timed) = receiving timed
  wake t = t

  -- Wakes the waiter number `w`, or the last one if there are not so many.
  unfoldable pub wake_one : Condvar → ℕ → List (Task T) → List (Task T)
  wake_one cv w [] = []
  wake_one cv w (t ∷ ts) =
      let rest = wake_one cv (if waits_on cv t then w - 1 else w) ts in
      if waits_on cv t && (w == 0 || count (waits_on cv) ts == 0) then wake t ∷ ts else t ∷ rest

  unfoldable pub wake_all : Condvar → List (Task T) → List (Task T)
  wake_all cv = map (λ t. if waits_on cv t then wake t else t)

  unfoldable pub deliver : Notify → ℕ → List (Task T) → List (Task T)
  deliver silent w ts = ts
  deliver (notify_one cv) w ts = wake_one cv w ts
  deliver (notify_all cv) w ts = wake_all cv ts

-- `Picks t ts rest`: `t` is one of `ts`, and `rest` the others.
pub data Picks {ℓ} {A : Type ℓ} (t : A) : List A → List A → Type ℓ where
  here : {ts : List A} → Picks t (t ∷ ts) ts
  there : (u : A) {ts rest : List A} → Picks t ts rest → Picks t (u ∷ ts) (u ∷ rest)

pub Picks-count {ℓ} :
    {A : Type ℓ} (test : A → Bool) {t : A} {ts rest : List A}
    → Picks t ts rest
    → count test ts ≡ count test (t ∷ rest)
Picks-count test here = refl
Picks-count test {t} (there u p) = omega (arith, Picks-count test p)

-- What a notification of `cv` changes in the counts: waiters become runners, and the calls on the
-- other condition variable stay as they are.
pub record Woken {T : Type 0} (cv other : Condvar) (ts us : List (Task T)) : Type 0 where
  pub moved :
      count (runs cv) us + count (waits_on cv) us ≡ count (runs cv) ts + count (waits_on cv) ts
  pub running : count (runs other) us ≡ count (runs other) ts
  pub waiting : count (waits_on other) us ≡ count (waits_on other) ts

module _ {T : Type 0} where
  pub waits-wake_data :
      (w : ℕ) (ts : List (Task T))
      → count (waits_on data_available) (wake_one data_available w ts)
        ≡ count (waits_on data_available) ts - 1
  unfolding wake_one
  waits-wake_data w [] = omega arith
  waits-wake_data w (t ∷ ts) = ground (arith, waits-wake_data w ts, waits-wake_data (w - 1) ts)

  pub waits-wake_space :
      (w : ℕ) (ts : List (Task T))
      → count (waits_on space_available) (wake_one space_available w ts)
        ≡ count (waits_on space_available) ts - 1
  unfolding wake_one
  waits-wake_space w [] = omega arith
  waits-wake_space w (t ∷ ts) = ground (arith, waits-wake_space w ts, waits-wake_space (w - 1) ts)

  pub wake_data-Woken :
      (w : ℕ) (ts : List (Task T))
      → Woken data_available space_available ts (wake_one data_available w ts)
  unfolding wake_one
  wake_data-Woken w [] = omega arith
  wake_data-Woken w (t ∷ ts) = ground (arith, wake_data-Woken w ts, wake_data-Woken (w - 1) ts)

  pub wake_space-Woken :
      (w : ℕ) (ts : List (Task T))
      → Woken space_available data_available ts (wake_one space_available w ts)
  unfolding wake_one
  wake_space-Woken w [] = omega arith
  wake_space-Woken w (t ∷ ts) = ground (arith, wake_space-Woken w ts, wake_space-Woken (w - 1) ts)

  pub wake_all_data :
      (ts : List (Task T))
      → Woken data_available space_available ts (wake_all data_available ts)
        × (count (waits_on data_available) (wake_all data_available ts) ≡ 0)
  unfolding wake_all
  wake_all_data [] = omega arith
  wake_all_data (t ∷ ts) = ground (arith, wake_all_data ts)
