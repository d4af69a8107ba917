-- ===== src/Pi/Owned.antt =====
-- src/pi.rs: threads that own the lock, and the word that names them.
use rtsc.Prelude.{
  ℕ, ◌≡◌, ◌≢◌, ◌⊎◌, ◌==◌, refl, sym, ◌∙◌, inl, inr, Bool, true, false, Bool-cases, arith,
}
use rtsc.Pi.{
  PiLock, Attempt, lock, try_lock, try_lock_until, Phase, idle, holding, unlocking, leaked, lent,
  lost, died, in_kernel, Answer, taken, try_again, timed_out, begin, race, answered, perform_unlock,
  unlock_to_wait, is_locked, block_forever, compare_exchange, init,
}
use rtsc.Pi.Kernel.{Kernel, KernelLaws}
use rtsc.Pi.System.{
  System, asks, goes, Step, begins, races, queues, is_answered, unlocks, unlocks_to_wait,
  kernel_unlocks, blocks, Reach, start, later, initial,
}

abbrev pub owns : Phase → Bool
owns holding = true
owns unlocking = true
owns leaked = true
owns lent = true
owns lost = true
owns died = true
owns _ = false

module _ (k : Kernel) (laws : KernelLaws k) where
  -- A thread that owns the lock is named by its word, and the lock is blocked where a guard leaked.
  pub record Owned (s : System) : Type 0 where
    pub named : (t : ℕ) → owns (s.phase t) ≡ true → (k.owner s.lock.value ≡ t) × (t ≢ 0)
    pub blocked : (t : ℕ) → s.phase t ≡ leaked → s.lock.blocked ≡ true

  -- One thread goes on from a lock that it may own, and the others own nothing that they did not.
  pub goes-Owned :
      (t : ℕ) (p : Phase) (l : PiLock) (s : System)
      → k.IsTid t
      → (owns p ≡ true → k.owner l.value ≡ t)
      → (p ≡ leaked → l.blocked ≡ true)
      → (l.blocked ≡ s.lock.blocked) ⊎ (l.blocked ≡ true)
      → ((i : ℕ) → i ≢ t → owns (s.phase i) ≡ true → k.owner l.value ≡ i)
      → Owned s
      → Owned (goes t (p, l) s)
  goes-Owned t p l s tid mine block kept others h = record {
    named = λ i owns_it. elim (Bool-cases (i == t)) [
      | inl e ↦
          let same : i ≡ t = ground arith in
          (mine (rw e at owns_it) ∙ sym same, rw same (laws.tid_positive t tid))
      | inr e ↦
          let other : i ≢ t = ground arith in
          (others i other (rw e at owns_it), (h.named i (rw e at owns_it)).1)
    ];
    blocked = λ i e. elim (Bool-cases (i == t)) [
      | inl same ↦ block (rw same at e)
      | inr other ↦ elim kept [ inl kept ↦ kept ∙ h.blocked i (rw other at e) | inr now ↦ now ]
    ];
  }

  -- Where the lock is free or a thread's own, no other thread owns it.
  nobody_else :
      (t i : ℕ) (s : System)
      → Owned s
      → (k.owner s.lock.value ≡ 0) ⊎ (k.owner s.lock.value ≡ t)
      → i ≢ t
      → owns (s.phase i) ≢ true
  nobody_else t i s h (inl free) ne e = (h.named i e).1 (sym (h.named i e).0 ∙ free)
  nobody_else t i s h (inr own) ne e = ne (sym (h.named i e).0 ∙ own)

  -- A thread that owns nothing goes on, and leaves the lock as it is.
  waits-Owned :
      (t : ℕ) (p : Phase) (s : System)
      → k.IsTid t
      → owns p ≡ false
      → Owned s
      → Owned (goes t (p, s.lock) s)
  waits-Owned t p s tid e h =
      goes-Owned t p s.lock s tid (λ owned. absurd (ground arith))
        (λ is_leaked. absurd (ground arith)) (inl refl) (λ i ne owns_it. (h.named i owns_it).0) h

  begin-owns : (attempt : Attempt) (l : PiLock) → owns (begin attempt l) ≡ false
  unfolding begin
  begin-owns lock l = ground arith
  begin-owns try_lock l = ground arith
  begin-owns try_lock_until l = refl

  race-Owned :
      (t : ℕ) (attempt : Attempt) (s : System)
      → k.IsTid t
      → Owned s
      → Owned (goes t (race attempt t s.lock) s)
  unfolding race compare_exchange
  race-Owned t attempt s tid h = elim (Bool-cases (s.lock.value == 0)) [
    | inl e ↦
        let free : k.owner s.lock.value ≡ 0 =
          let is_zero : s.lock.value ≡ 0 = ground arith in rw is_zero laws.owner-0 in
        rw e (
          goes-Owned t holding (record s.lock { value = t }) s tid (λ _. laws.owner_tid t tid)
            (λ is_leaked. absurd (ground arith)) (inl refl)
            (λ i ne owns_it. absurd (nobody_else t i s h (inl free) ne owns_it)) h)
    | inr e ↦ rw e (waits-Owned t (in_kernel attempt) s tid refl h)
  ]

  -- The kernel changes the word of a thread `t` that owns nothing after that, or that has the lock.
  pub kernel-Owned :
      (t v : ℕ) (p : Phase) (s : System)
      → k.IsTid t
      → p ≢ leaked
      → (owns p ≡ true → k.owner v ≡ t)
      → (k.owner v ≡ k.owner s.lock.value)
        ⊎ ((k.owner s.lock.value ≡ 0) ⊎ (k.owner s.lock.value ≡ t))
      → Owned s
      → Owned (goes t (p, record s.lock { value = v }) s)
  kernel-Owned t v p s tid unleaked mine (inl kept) h =
      goes-Owned t p (record s.lock { value = v }) s tid mine (λ e. absurd (unleaked e)) (inl refl)
        (λ i ne owns_it. kept ∙ (h.named i owns_it).0) h
  kernel-Owned t v p s tid unleaked mine (inr free) h =
      goes-Owned t p (record s.lock { value = v }) s tid mine (λ e. absurd (unleaked e)) (inl refl)
        (λ i ne owns_it. absurd (nobody_else t i s h free ne owns_it)) h

  refused-owns :
      (attempt : Attempt) (a : Answer)
      → a ≢ taken
      → (owns (answered attempt a) ≡ false) × (answered attempt a ≢ leaked)
  unfolding answered
  refused-owns attempt taken ne = absurd (ne refl)
  refused-owns lock try_again ne = (refl, λ e. cc)
  refused-owns try_lock try_again ne = (refl, λ e. cc)
  refused-owns try_lock_until try_again ne = (refl, λ e. cc)
  refused-owns lock timed_out ne = (refl, λ e. cc)
  refused-owns try_lock timed_out ne = (refl, λ e. cc)
  refused-owns try_lock_until timed_out ne = (refl, λ e. cc)

  refused-Owned :
      (t v : ℕ) (attempt : Attempt) (a : Answer) (s : System)
      → k.IsTid t
      → a ≢ taken
      → k.Asks t s.lock.value a v
      → Owned s
      → Owned (goes t (answered attempt a, record s.lock { value = v }) s)
  refused-Owned t v attempt a s tid ne asks h =
      let out = refused-owns attempt a ne in
      kernel-Owned t v (answered attempt a) s tid out.1
        (λ owned. absurd (ground (arith, out.0, owned)))
        (inl (laws.refused_owner t s.lock.value v a asks ne)) h

  answered-Owned :
      (t v : ℕ) (attempt : Attempt) (a : Answer) (s : System)
      → k.IsTid t
      → k.Asks t s.lock.value a v
      → Owned s
      → Owned (goes t (answered attempt a, record s.lock { value = v }) s)
  unfolding answered
  answered-Owned t v attempt taken s tid asks h =
      kernel-Owned t v holding s tid (λ e. cc) (λ _. laws.taken_owner t s.lock.value v asks)
        (inr (laws.taken_free t s.lock.value v asks)) h
  answered-Owned t v attempt try_again s tid asks h =
      refused-Owned t v attempt try_again s tid (λ e. cc) asks h
  answered-Owned t v attempt timed_out s tid asks h =
      refused-Owned t v attempt timed_out s tid (λ e. cc) asks h

  unlock-Owned :
      (t : ℕ) (s : System)
      → k.IsTid t
      → s.phase t ≡ holding
      → Owned s
      → Owned (goes t (perform_unlock t s.lock) s)
  unfolding perform_unlock compare_exchange
  unlock-Owned t s tid e h =
      let own : k.owner s.lock.value ≡ t = (h.named t (rw e refl)).0 in
      elim (Bool-cases (s.lock.value == t)) [
        | inl fast ↦ rw fast (
            kernel-Owned t 0 idle s tid (λ is_leaked. cc) (λ owned. absurd (ground arith))
              (inr (inr own)) h)
        | inr slow ↦
            rw slow (
              kernel-Owned t s.lock.value unlocking s tid (λ is_leaked. cc) (λ _. own) (inl refl) h)
      ]

  unlock_to_wait-Owned :
      (t : ℕ) (s : System)
      → k.IsTid t
      → s.phase t ≡ holding
      → Owned s
      → Owned (goes t (unlock_to_wait t s.lock) s)
  unfolding unlock_to_wait
  unlock_to_wait-Owned t s tid e h = elim (Bool-cases (is_locked s.lock)) [
    | inl locked ↦ rw locked (unlock-Owned t s tid e h)
    | inr free ↦ rw free (waits-Owned t idle s tid refl h)
  ]

  pub Step-Owned : {s u : System} → Step k s u → Owned s → Owned u
  unfolding block_forever
  Step-Owned {s} (begins t attempt tid e) h =
      waits-Owned t (begin attempt s.lock) s tid (begin-owns attempt s.lock) h
  Step-Owned {s} (races t attempt tid e) h = race-Owned t attempt s tid h
  Step-Owned {s} (queues v marks) h = record {
    named = λ i owns_it.
        (laws.queues_owner s.lock.value v marks ∙ (h.named i owns_it).0, (h.named i owns_it).1);
    blocked = h.blocked;
  }
  Step-Owned {s} (is_answered t attempt a v tid e asking) h =
      answered-Owned t v attempt a s tid asking h
  Step-Owned {s} (unlocks t tid e) h = unlock-Owned t s tid e h
  Step-Owned {s} (unlocks_to_wait t tid e) h = unlock_to_wait-Owned t s tid e h
  Step-Owned {s} (kernel_unlocks t v tid e gives) h =
      kernel-Owned t v idle s tid (λ is_leaked. cc) (λ owned. absurd (ground arith))
        (inr (inr (h.named t (rw e refl)).0)) h
  Step-Owned {s} (blocks t tid e) h =
      goes-Owned t leaked (record s.lock { blocked = true }) s tid (λ _. (h.named t (rw e refl)).0)
        (λ _. refl) (inr refl) (λ i ne owns_it. (h.named i owns_it).0) h

  pub Reach-Owned : {s u : System} → Owned s → Reach k s u → Owned u
  Reach-Owned h start = h
  Reach-Owned h (later r step) = Step-Owned step (Reach-Owned h r)

  pub initial-Owned : Owned initial
  unfolding initial init
  initial-Owned = record {
    named = λ t e. absurd (ground arith);
    blocked = λ t e. absurd (ground arith);
  }
