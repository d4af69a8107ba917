-- ===== src/Pi/Guards.antt =====
-- src/pi.rs: threads that share a lock, as in Pi/System, whose guards may move to other threads, since
-- the type of the lock has the marker `GuardSend`, and who may end while they own the lock.
-- A thread that the word names already is refused where it tries again, which changes nothing, so
-- a thread without its guard makes no such attempt here.
use rtsc.Prelude.{
  ℕ, ◌≡◌, ◌≢◌, ◌⊎◌, ◌==◌, refl, sym, ◌∙◌, inl, inr, Bool, true, false, Bool-cases, arith,
  if◌then◌else◌,
}
use rtsc.Pi.{
  PiLock, Phase, idle, holding, leaked, lent, lost, ended, died, perform_unlock, block_forever,
  compare_exchange,
}
use rtsc.Pi.Kernel.{Kernel, KernelLaws}
use rtsc.Pi.System
use rtsc.Pi.System.{System, goes, asks, set_phase, initial}
use rtsc.Pi.Owned.{owns, Owned, goes-Owned, kernel-Owned, Step-Owned}

-- `Ends t waits v v'`: the thread `t` ends, while the threads for which `waits` holds are in a call
-- that asks, and the kernel leaves `v'` for the word `v`.
pub record Exits (k : Kernel) : Type 1 where
  pub Ends : ℕ → (ℕ → Bool) → ℕ → ℕ → Type 0

-- A lock whose owner ends is handed over to a thread that asks, or stays as it is.
pub record ExitLaws (k : Kernel) (x : Exits k) : Type 0 where
  pub ends_owner :
      (t v v' : ℕ) (waits : ℕ → Bool)
      → x.Ends t waits v v'
      → k.owner v ≡ t
      → (v' ≡ v) ⊎ ((waits (k.owner v') ≡ true) × (k.owner v' ≢ t))

module _ (k : Kernel) (x : Exits k) where
  pub data Event (s : System) : System → Type 0 where
    acts : {u : System} → System.Step k s u → Event s u
    lends : (t : ℕ) → k.IsTid t → s.phase t ≡ holding → Event s (goes t (lent, s.lock) s)
    takes_back : (t : ℕ) → k.IsTid t → s.phase t ≡ lent → Event s (goes t (holding, s.lock) s)
    -- The thread `i` drops the guard that it has from `t`. Where its exchange fails, it calls
    -- `unlock_pi`, which refuses it, since it is not the owner.
    drops_lent :
        (t i : ℕ)
        → k.IsTid t
        → k.IsTid i
        → i ≢ t
        → s.phase t ≡ lent
        → Event s (goes t (lost, (perform_unlock i s.lock).1) s)
    blocks_lent :
        (t : ℕ) → k.IsTid t → s.phase t ≡ lent → Event s (goes t (leaked, block_forever s.lock) s)
    ends_idle : (t : ℕ) → k.IsTid t → s.phase t ≡ idle → Event s (goes t (ended, s.lock) s)
    ends_owner :
        (t v : ℕ)
        → k.IsTid t
        → owns (s.phase t) ≡ true
        → x.Ends t (λ u. asks (s.phase u)) s.lock.value v
        → Event s (goes t (if k.owner v == t then died else ended, record s.lock { value = v }) s)

  pub data Reach (s : System) : System → Type 0 where
    start : Reach s s
    later : {t u : System} → Reach s t → Event t u → Reach s u

module _ (k : Kernel) (laws : KernelLaws k) (x : Exits k) (exits : ExitLaws k x) where
  -- A thread that is not the owner does not release the lock.
  pub not_released :
      (t i : ℕ) (l : PiLock) → k.IsTid i → i ≢ t → k.owner l.value ≡ t → (perform_unlock i l).1 ≡ l
  unfolding perform_unlock compare_exchange
  not_released t i l tid ne own = elim (Bool-cases (l.value == i)) [
    | inl e ↦
        let same : l.value ≡ i = ground arith in
        absurd (ne (sym (laws.owner_tid i tid) ∙ (rw same at own)))
    | inr e ↦ rw e refl
  ]

  -- The thread goes on as an owner, and leaves the word as it is.
  stays-Owned :
      (t : ℕ) (p : Phase) (s : System)
      → k.IsTid t
      → owns (s.phase t) ≡ true
      → p ≢ leaked
      → Owned k laws s
      → Owned k laws (goes t (p, s.lock) s)
  stays-Owned t p s tid own unleaked h =
      goes-Owned k laws t p s.lock s tid (λ _. (h.named t own).0) (λ e. absurd (unleaked e))
        (inl refl) (λ i ne owns_it. (h.named i owns_it).0) h

  ends-Owned :
      (t v : ℕ) (s : System)
      → k.IsTid t
      → owns (s.phase t) ≡ true
      → (v ≡ s.lock.value) ⊎ ((asks (s.phase (k.owner v)) ≡ true) × (k.owner v ≢ t))
      → Owned k laws s
      → Owned k laws
          (goes t (if k.owner v == t then died else ended, record s.lock { value = v }) s)
  ends-Owned t v s tid own (inl kept) h =
      let still : k.owner v ≡ t = rw kept (h.named t own).0 in
      let named : (k.owner v == t) ≡ true = ground arith in
      rw named
        (kernel-Owned k laws t v died s tid (λ e. cc) (λ _. still) (inr (inr (h.named t own).0)) h)
  ends-Owned t v s tid own (inr handed) h =
      let named : (k.owner v == t) ≡ false = ground arith in
      rw named (
        kernel-Owned k laws t v ended s tid (λ e. cc) (λ owned. absurd (ground arith))
          (inr (inr (h.named t own).0)) h)

  pub Event-Owned : {s u : System} → Event k x s u → Owned k laws s → Owned k laws u
  unfolding block_forever
  Event-Owned {s} (acts step) h = Step-Owned k laws step h
  Event-Owned {s} (lends t tid e) h = stays-Owned t lent s tid (rw e refl) (λ same. cc) h
  Event-Owned {s} (takes_back t tid e) h = stays-Owned t holding s tid (rw e refl) (λ same. cc) h
  Event-Owned {s} (drops_lent t i tid other ne e) h =
      rw (not_released t i s.lock other ne (h.named t (rw e refl)).0)
        (stays-Owned t lost s tid (rw e refl) (λ same. cc) h)
  Event-Owned {s} (blocks_lent t tid e) h =
      goes-Owned k laws t leaked (record s.lock { blocked = true }) s tid
        (λ _. (h.named t (rw e refl)).0) (λ _. refl) (inr refl)
        (λ i ne owns_it. (h.named i owns_it).0) h
  Event-Owned {s} (ends_idle t tid e) h =
      goes-Owned k laws t ended s.lock s tid (λ owned. absurd (ground arith)) (λ is_leaked. cc)
        (inl refl) (λ i ne owns_it. (h.named i owns_it).0) h
  Event-Owned {s} (ends_owner t v tid own gives) h =
      ends-Owned t v s tid own (exits.ends_owner t s.lock.value v _ gives (h.named t own).0) h

  pub Reach-Owned : {s u : System} → Owned k laws s → Reach k x s u → Owned k laws u
  Reach-Owned h start = h
  Reach-Owned h (later r event) = Event-Owned event (Reach-Owned h r)
