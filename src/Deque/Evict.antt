-- ===== src/Deque/Evict.antt =====
-- src/pdeque.rs: what the closures given to `retain` remove.
use rtsc.Prelude.{
  ◌+◌, ◌≡◌, refl, ap, Bool, true, false, List, [], ◌∷◌, arith, length, any, retain, Bool-cases, inl,
  inr, if◌then◌else◌, All, Parted, nil, keep, lose, Parted-keep_all,
}
use rtsc.Deque.{retain_but_one}

module _ {ℓ} {A : Type ℓ} (goes : A → Bool) where
  pub retain_but_one_done : (xs : List A) → retain_but_one true goes xs ≡ xs
  unfolding retain_but_one
  retain_but_one_done [] = refl
  retain_but_one_done (x ∷ xs) = ap (λ r. x ∷ r) (retain_but_one_done xs)

  pub length-retain_but_one :
      (xs : List A)
      → length (retain_but_one false goes xs) + (if any goes xs then 1 else 0) ≡ length xs
  unfolding retain_but_one
  length-retain_but_one [] = omega arith
  length-retain_but_one (x ∷ xs) = ground (arith, length-retain_but_one xs, retain_but_one_done xs)

  pub retain_but_one_none : (xs : List A) → any goes xs ≡ false → retain_but_one false goes xs ≡ xs
  unfolding retain_but_one
  retain_but_one_none [] h = refl
  retain_but_one_none (x ∷ xs) h = ground (arith, retain_but_one_none xs)

  -- The elements that are kept and those that are gone, which all pass the test.
  abbrev pub Loses : List A → List A → Type ℓ
  Loses kept xs = (gone : List A) × Parted kept gone xs × All (λ x. goes x ≡ true) gone

  Loses-keep : (x : A) (kept xs : List A) → Loses kept xs → Loses (x ∷ kept) (x ∷ xs)
  Loses-keep x kept xs (gone, parted, all) = (gone, keep x parted, all)

  Loses-lose : (x : A) (kept xs : List A) → goes x ≡ true → Loses kept xs → Loses kept (x ∷ xs)
  Loses-lose x kept xs h (gone, parted, all) = (x ∷ gone, lose x parted, (h, all))

  pub Loses-refl : (xs : List A) → Loses xs xs
  Loses-refl xs = ([], Parted-keep_all xs, tt)

  pub retain_but_one-Loses : (xs : List A) → Loses (retain_but_one false goes xs) xs
  unfolding retain_but_one
  retain_but_one-Loses [] = Loses-refl []
  retain_but_one-Loses (x ∷ xs) = elim (Bool-cases (goes x)) [
    | inl h ↦ rw (h, retain_but_one, retain_but_one_done xs) (Loses-lose x xs xs h (Loses-refl xs))
    | inr h ↦ rw (h, retain_but_one) (Loses-keep x _ xs (retain_but_one-Loses xs))
  ]

  pub retain-Loses :
      (stays : A → Bool) (xs : List A)
      → ((x : A) → stays x ≡ false → goes x ≡ true)
      → Loses (retain stays xs) xs
  retain-Loses stays [] h = Loses-refl []
  retain-Loses stays (x ∷ xs) h = elim (Bool-cases (stays x)) [
    | inl e ↦ rw e (Loses-keep x _ xs (retain-Loses stays xs h))
    | inr e ↦ rw e (Loses-lose x _ xs (h x e) (retain-Loses stays xs h))
  ]

module _ {ℓ} {A : Type ℓ} (goes others : A → Bool) where
  pub Loses-mono :
      ((x : A) → goes x ≡ true → others x ≡ true)
      → (kept xs : List A) → Loses goes kept xs
      → Loses others kept xs
  Loses-mono sub kept xs (gone, parted, all) = (gone, parted, All-imp gone all)
    where
      All-imp : (ys : List A) → All (λ x. goes x ≡ true) ys → All (λ x. others x ≡ true) ys
      All-imp [] h = tt
      All-imp (y ∷ ys) h = (sub y h.0, All-imp ys h.1)

module _ {ℓ} {A : Type ℓ} (goes : A → Bool) where
  Parted-trans :
      {kept first xs left second : List A}
      → Parted left second kept
      → Parted kept first xs
      → All (λ x. goes x ≡ true) first
      → All (λ x. goes x ≡ true) second
      → Loses goes left xs
  Parted-trans nil nil h k = Loses-refl goes []
  Parted-trans (keep x p) (keep x' q) h k = Loses-keep goes _ _ _ (Parted-trans p q h k)
  Parted-trans (lose x' p) (keep x'' q) h k = Loses-lose goes _ _ _ k.0 (Parted-trans p q h k.1)
  Parted-trans p (lose x q) h k = Loses-lose goes _ _ _ h.0 (Parted-trans p q h.1 k)

  pub Loses-trans :
      (left kept xs : List A) → Loses goes left kept → Loses goes kept xs → Loses goes left xs
  Loses-trans left kept xs (second, p, k) (first, q, h) = Parted-trans p q h k
