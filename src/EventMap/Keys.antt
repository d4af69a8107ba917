-- ===== src/EventMap/Keys.antt =====
-- src/event_map.rs: the keys of a map, and what insertion and cleanup do to them.
use rtsc.Prelude.{
  ℕ, ◌≤◌, ◌<◌, ◌≡◌, inl, inr, none, some, List, [], ◌∷◌, arith, All, Option-cases, Bool-cases, ltb,
  leb, ◌==◌, if◌then◌else◌,
}
use rtsc.EventMap.{EventMap, map_insert, map_get, insert, split_off, cleanup, map_remove}

module _ {V : Type 0} where
  -- The keys rise, so each is there once.
  abbrev pub IsSorted : List (ℕ × V) → Type 0
  IsSorted [] = Unit
  IsSorted (e ∷ rest) = All (λ f. e.0 < f.0) rest × IsSorted rest

  pub map_get-above :
      (n k : ℕ) (v : V) (rest : List (ℕ × V))
      → All (λ f. n < f.0) rest
      → map_get k rest ≡ some v
      → n < k
  unfolding map_get
  map_get-above n k v [] h found = absurd (ground arith)
  map_get-above n k v ((l, w) ∷ rest) h found = ground (arith, map_get-above n k v rest)

  All-lower : (n k : ℕ) (es : List (ℕ × V)) → n ≤ k → All (λ f. k < f.0) es → All (λ f. n < f.0) es
  All-lower n k [] h all = tt
  All-lower n k (e ∷ es) h all = (omega arith, All-lower n k es h all.1)

  All-map_insert :
      (n key : ℕ) (value : V) (es : List (ℕ × V))
      → n < key
      → All (λ f. n < f.0) es
      → All (λ f. n < f.0) (map_insert key value es)
  unfolding map_insert
  All-map_insert n key value [] h all = (h, tt)
  All-map_insert n key value ((l, w) ∷ rest) h all = elim (Bool-cases (ltb key l)) [
    | inl lt ↦ rw lt (h, all)
    | inr ge ↦ elim (Bool-cases (key == l)) [
      | inl e ↦ rw (ge, e) (h, all.1)
      | inr ne ↦ rw (ge, ne) (all.0, All-map_insert n key value rest h all.1)
    ]
  ]

  pub map_insert-IsSorted :
      (key : ℕ) (value : V) (es : List (ℕ × V)) → IsSorted es → IsSorted (map_insert key value es)
  unfolding map_insert
  map_insert-IsSorted key value [] h = (tt, tt)
  map_insert-IsSorted key value ((l, w) ∷ rest) h = elim (Bool-cases (ltb key l)) [
    | inl lt ↦ rw lt ((ground arith, All-lower key l rest (ground arith) h.0), h)
    | inr ge ↦ elim (Bool-cases (key == l)) [
      | inl e ↦ rw (ge, e) (All-lower key l rest (ground arith) h.0, h.1)
      | inr ne ↦
          rw (ge, ne)
            (
              All-map_insert l key value rest (ground arith) h.0,
              map_insert-IsSorted key value rest h.1,
            )
    ]
  ]

  pub map_get-map_insert :
      (key k : ℕ) (value : V) (es : List (ℕ × V))
      → map_get k (map_insert key value es) ≡ (if k == key then some value else map_get k es)
  unfolding map_insert map_get
  map_get-map_insert key k value [] = ground arith
  map_get-map_insert key k value ((l, w) ∷ rest) =
      ground (arith, map_get-map_insert key k value rest)

  pub map_get-split_off :
      (key k : ℕ) (es : List (ℕ × V))
      → IsSorted es
      → map_get k (split_off key es) ≡ (if leb key k then map_get k es else none)
  unfolding split_off map_get
  map_get-split_off key k [] h = ground arith
  map_get-split_off key k ((l, w) ∷ rest) h = elim (Option-cases (map_get k rest)) [
    | inl missing ↦ ground (arith, map_get-split_off key k rest h.1)
    | inr (x, there) ↦
        ground (arith, map_get-split_off key k rest h.1, map_get-above l k x rest h.0 there)
  ]

  All-map_remove :
      (n key : ℕ) (es : List (ℕ × V))
      → All (λ f. n < f.0) es
      → All (λ f. n < f.0) (map_remove key es)
  unfolding map_remove
  All-map_remove n key [] h = tt
  All-map_remove n key ((l, w) ∷ rest) h = elim (Bool-cases (key == l)) [
    | inl e ↦ rw e h.1
    | inr e ↦ rw e (h.0, All-map_remove n key rest h.1)
  ]

  pub map_remove-IsSorted :
      (key : ℕ) (es : List (ℕ × V)) → IsSorted es → IsSorted (map_remove key es)
  unfolding map_remove
  map_remove-IsSorted key [] h = tt
  map_remove-IsSorted key ((l, w) ∷ rest) h = elim (Bool-cases (key == l)) [
    | inl e ↦ rw e h.1
    | inr e ↦ rw e (All-map_remove l key rest h.0, map_remove-IsSorted key rest h.1)
  ]

  pub map_get-map_remove :
      (key k : ℕ) (es : List (ℕ × V))
      → IsSorted es
      → map_get k (map_remove key es) ≡ (if k == key then none else map_get k es)
  unfolding map_remove map_get
  map_get-map_remove key k [] h = ground arith
  map_get-map_remove key k ((l, w) ∷ rest) h = elim (Option-cases (map_get k rest)) [
    | inl missing ↦ ground (arith, map_get-map_remove key k rest h.1)
    | inr (x, there) ↦
        ground (arith, map_get-map_remove key k rest h.1, map_get-above l k x rest h.0 there)
  ]

  All-split_off :
      (n key : ℕ) (es : List (ℕ × V))
      → All (λ f. n < f.0) es
      → All (λ f. n < f.0) (split_off key es)
  unfolding split_off
  All-split_off n key [] h = tt
  All-split_off n key ((l, w) ∷ rest) h = elim (Bool-cases (leb key l)) [
    | inl e ↦ rw e h
    | inr e ↦ rw e (All-split_off n key rest h.1)
  ]

  pub split_off-IsSorted : (key : ℕ) (es : List (ℕ × V)) → IsSorted es → IsSorted (split_off key es)
  unfolding split_off
  split_off-IsSorted key [] h = tt
  split_off-IsSorted key ((l, w) ∷ rest) h = elim (Bool-cases (leb key l)) [
    | inl e ↦ rw e h
    | inr e ↦ rw e (split_off-IsSorted key rest h.1)
  ]

-- On a map whose keys rise, an insertion keeps them rising; then the map has the value at its key,
-- in place of an older one, and all else as before. A cleanup keeps the keys rising too, and the
-- map then has what it had at the key and above, and nothing below.
pub map_lem :
    {V : Type 0} (m : EventMap V) (key k : ℕ) (value : V)
    → IsSorted m.entries
    → let inserted = (insert m key value).entries in
      let cleaned = (cleanup m key).entries in
      IsSorted inserted
      × (map_get k inserted ≡ (if k == key then some value else map_get k m.entries))
      × IsSorted cleaned
      × (map_get k cleaned ≡ (if leb key k then map_get k m.entries else none))
unfolding insert cleanup
map_lem m key k value h = (
  map_insert-IsSorted key value m.entries h,
  map_get-map_insert key k value m.entries,
  split_off-IsSorted key m.entries h,
  map_get-split_off key k m.entries h,
)
