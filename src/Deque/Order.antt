-- ===== src/Deque/Order.antt =====
-- src/pdeque.rs: `sort_by_priority`.
use mathlib.Core.List.{Perm, perm_append_comm}
use mathlib.Core.List.Perm
use rtsc.Prelude.{
  ℕ, suc, ◌-◌, ◌≤◌, ◌≡◌, refl, ap, subst, ◌∙◌, inl, inr, List, [], ◌∷◌, ◌++◌, arith, length,
  length-append, take, drop, take-append-drop, leb, All, Bool-cases, leb→le, le→leb,
}
use rtsc.DataPolicy.{DataDeliveryPolicy}
use rtsc.Deque.{Moment, rotate_right, insert_by_priority, sort_by, sort_by_priority}

length-rotate_right {ℓ} :
    {A : Type ℓ} (k : ℕ) (xs : List A) → length (rotate_right k xs) ≡ length xs
unfolding rotate_right
length-rotate_right k xs =
    let mid = length xs - k in
    omega (
      arith,
      length-append (drop mid xs) (take mid xs),
      length-append (take mid xs) (drop mid xs),
      ap length (take-append-drop mid xs),
    )

rotate_right-perm {ℓ} : {A : Type ℓ} (k : ℕ) (xs : List A) → Perm (rotate_right k xs) xs
unfolding rotate_right
rotate_right-perm k xs =
    let mid = length xs - k in
    subst (λ ys. Perm (drop mid xs ++ take mid xs) ys) (take-append-drop mid xs)
      (perm_append_comm (drop mid xs) (take mid xs))

module _ {T : Type 0} (p : DataDeliveryPolicy T) where
  length-insert_by_priority :
      (x : T) (xs : List T) → length (insert_by_priority p x xs) ≡ suc (length xs)
  unfolding insert_by_priority
  length-insert_by_priority x [] = refl
  length-insert_by_priority x (y ∷ ys) = ground (arith, length-insert_by_priority x ys)

  length-sort_by : (xs : List T) → length (sort_by p xs) ≡ length xs
  unfolding sort_by
  length-sort_by [] = refl
  length-sort_by (x ∷ xs) = length-insert_by_priority x (sort_by p xs) ∙ ap suc (length-sort_by xs)

  pub length-sort_by_priority :
      (m : Moment) (xs : List T) → length (sort_by_priority p m xs) ≡ length xs
  unfolding sort_by_priority
  length-sort_by_priority m xs =
      length-sort_by (rotate_right m.second_slice xs) ∙ length-rotate_right m.second_slice xs

  insert_by_priority-perm : (x : T) (xs : List T) → Perm (insert_by_priority p x xs) (x ∷ xs)
  unfolding insert_by_priority
  insert_by_priority-perm x [] = Perm.refl (x ∷ [])
  insert_by_priority-perm x (y ∷ ys) = elim (Bool-cases (leb (p.priority x) (p.priority y))) [
    | inl h ↦ rw h (Perm.refl _)
    | inr h ↦ rw h (Perm.trans (Perm.cons y (insert_by_priority-perm x ys)) (Perm.swap x y ys))
  ]

  sort_by-perm : (xs : List T) → Perm (sort_by p xs) xs
  unfolding sort_by
  sort_by-perm [] = Perm.refl []
  sort_by-perm (x ∷ xs) =
      Perm.trans (insert_by_priority-perm x (sort_by p xs)) (Perm.cons x (sort_by-perm xs))

  -- Better priorities, which are the lower numbers, first.
  abbrev pub IsSorted : List T → Type 0
  IsSorted [] = Unit
  IsSorted (x ∷ xs) = All (λ y. p.priority x ≤ p.priority y) xs × IsSorted xs

  All-insert_by_priority :
      (P : T → Type 0) (x : T) (xs : List T) → P x → All P xs → All P (insert_by_priority p x xs)
  unfolding insert_by_priority
  All-insert_by_priority P x [] h all = (h, tt)
  All-insert_by_priority P x (y ∷ ys) h all =
      elim (Bool-cases (leb (p.priority x) (p.priority y))) [
        | inl e ↦ rw e (h, (all.0, all.1))
        | inr e ↦ rw e (all.0, All-insert_by_priority P x ys h all.1)
      ]

  abbrev pub Bounds : ℕ → List T → Type 0
  Bounds n xs = All (λ y. n ≤ p.priority y) xs

  pub Bounds-mono : (a b : ℕ) (xs : List T) → a ≤ b → Bounds b xs → Bounds a xs
  Bounds-mono a b [] h all = tt
  Bounds-mono a b (x ∷ xs) h all = (omega arith, Bounds-mono a b xs h all.1)

  insert_by_priority-IsSorted :
      (x : T) (xs : List T) → IsSorted xs → IsSorted (insert_by_priority p x xs)
  unfolding insert_by_priority
  insert_by_priority-IsSorted x [] h = (tt, tt)
  insert_by_priority-IsSorted x (y ∷ ys) h = elim (Bool-cases (leb (p.priority x) (p.priority y))) [
    | inl e ↦ rw e ((leb→le _ _ e, Bounds-mono _ (p.priority y) ys (leb→le _ _ e) h.0), h)
    | inr e ↦ rw e (
      All-insert_by_priority (λ z. p.priority y ≤ p.priority z) x ys (ground arith) h.0,
      insert_by_priority-IsSorted x ys h.1,
    )
  ]

  sort_by-IsSorted : (xs : List T) → IsSorted (sort_by p xs)
  unfolding sort_by
  sort_by-IsSorted [] = tt
  sort_by-IsSorted (x ∷ xs) = insert_by_priority-IsSorted x (sort_by p xs) (sort_by-IsSorted xs)

  -- However the deque lies in memory, `sort_by_priority` puts the better priorities first, and
  -- loses and doubles nothing.
  pub sort_by_priority_lem :
      (m : Moment) (xs : List T)
      → IsSorted (sort_by_priority p m xs) × Perm (sort_by_priority p m xs) xs
  unfolding sort_by_priority
  sort_by_priority_lem m xs = (
    sort_by-IsSorted (rotate_right m.second_slice xs),
    Perm.trans (sort_by-perm (rotate_right m.second_slice xs))
        (rotate_right-perm m.second_slice xs),
  )

  pub insert_by_priority_first :
      (x : T) (xs : List T) → Bounds (p.priority x) xs → insert_by_priority p x xs ≡ x ∷ xs
  unfolding insert_by_priority
  insert_by_priority_first x [] h = refl
  insert_by_priority_first x (y ∷ ys) h = rw (le→leb _ _ h.0)

  -- A sort that is stable leaves what is in order as it is.
  pub sort_by-eq_self : (xs : List T) → IsSorted xs → sort_by p xs ≡ xs
  unfolding sort_by
  sort_by-eq_self [] h = refl
  sort_by-eq_self (x ∷ xs) h = rw (sort_by-eq_self xs h.1) (insert_by_priority_first x xs h.0)
