-- ===== src/DataBuffer/Newest.antt =====
-- src/buf.rs: what pushes leave in a buffer.
use rtsc.Prelude.{
  ℕ, zero, suc, ◌+◌, ◌-◌, ◌≤◌, ◌<◌, ◌≡◌, ◌≢◌, ◌⊎◌, refl, sym, ap, ◌∙◌, Bool, true, false, none,
  some, List, [], ◌∷◌, ◌++◌, ◌&&◌, arith, length, drop, ltb, leb, Bool-cases, inl, inr,
  length-append,
}
use mathlib.Core.List.{append_assoc, append-nil}
use rtsc.DataBuffer.{
  DataBuffer, bounded, bounded_prealloc, try_push, make_room, force_push, len, is_empty, take,
}

module _ {ℓ} {A : Type ℓ} where
  -- The last `c` values of a list.
  abbrev pub newest : ℕ → List A → List A
  newest c xs = drop (length xs - c) xs

  drop-nil : (n : ℕ) → drop {A = A} n [] ≡ []
  drop-nil zero = refl
  drop-nil (suc n) = refl

  drop-drop : (j k : ℕ) (xs : List A) → drop j (drop k xs) ≡ drop (k + j) xs
  drop-drop j zero xs = ap (λ n. drop n xs) (omega arith)
  drop-drop zero (suc k) [] = ground arith
  drop-drop (suc j) (suc k) [] = sym (drop-nil (suc k + suc j))
  drop-drop j (suc k) (x ∷ xs) =
      let e : suc (k + j) ≡ suc k + j = omega arith in
      drop-drop j k xs ∙ ap (λ n. drop n (x ∷ xs)) e

  drop-append : (k : ℕ) (xs ys : List A) → k ≤ length xs → drop k (xs ++ ys) ≡ drop k xs ++ ys
  drop-append zero xs ys h = refl
  drop-append (suc k) [] ys h = absurd (omega arith)
  drop-append (suc k) (x ∷ xs) ys h = drop-append k xs ys (omega arith)

  length-drop : (k : ℕ) (xs : List A) → length (drop k xs) ≡ length xs - k
  length-drop zero xs = omega arith
  length-drop (suc k) [] = omega arith
  length-drop (suc k) (x ∷ xs) = omega (arith, length-drop k xs)

  newest-drop : (c k : ℕ) (xs : List A) → k ≤ length xs - c → newest c (drop k xs) ≡ newest c xs
  newest-drop c k xs h =
      drop-drop (length (drop k xs) - c) k xs
      ∙ ap (λ n. drop n xs) (omega (arith, length-drop k xs))

module _ {T : Type 0} where
  make_room_lem :
      (c : ℕ) (xs : List T) (res : Bool)
      → 0 < c
      → ((make_room c xs res).1 ≡ drop (suc (length xs) - c) xs)
        × ((make_room c xs res).0 ≡ (res && ltb (length xs) c))
  unfolding make_room
  make_room_lem c [] res h = ground arith
  make_room_lem c (x ∷ xs) res h = elim (Bool-cases (leb c (suc (length xs)))) [
    | inl e ↦
        let step : suc (suc (length xs)) - c ≡ suc (suc (length xs) - c) = ground arith in
        rw (e, step)
          ((make_room_lem c xs false h).0, ground (arith, (make_room_lem c xs false h).1))
    | inr e ↦
        let none : suc (suc (length xs)) - c ≡ 0 = ground arith in rw (e, none) (refl, ground arith)
  ]

  -- A forced push into a buffer of positive capacity leaves the newest values, as many as the
  -- capacity allows, and tells whether there was room without a removal.
  pub force_push_lem :
      (buf : DataBuffer T) (v : T)
      → 0 < buf.capacity
      → ((force_push buf v).1
          ≡ record buf { content = newest buf.capacity (buf.content ++ v ∷ []) })
        × ((force_push buf v).0 ≡ ltb (len buf) buf.capacity)
  unfolding force_push len
  force_push_lem buf v h = ground (
    arith,
    make_room_lem buf.capacity buf.content true h,
    drop-append (suc (length buf.content) - buf.capacity) buf.content (v ∷ []),
    length-append buf.content (v ∷ []),
  )

  -- Forced pushes, one after another.
  pub force_all : DataBuffer T → List T → DataBuffer T
  force_all buf [] = buf
  force_all buf (v ∷ vs) = force_all (force_push buf v).1 vs

  newest-snoc :
      (c : ℕ) (xs : List T) (v : T) (vs : List T)
      → 0 < c
      → newest c (newest c (xs ++ v ∷ []) ++ vs) ≡ newest c (xs ++ v ∷ vs)
  newest-snoc c xs v vs h =
      let k = length (xs ++ v ∷ []) - c in
      let short : k ≤ length (xs ++ v ∷ []) = omega arith in
      let enough : k ≤ length (xs ++ v ∷ vs) - c =
        omega (arith, length-append xs (v ∷ []), length-append xs (v ∷ vs)) in
      ap (newest c)
        (sym (drop-append k (xs ++ v ∷ []) vs short) ∙ ap (drop k) (append_assoc xs (v ∷ []) vs))
      ∙ newest-drop c k (xs ++ v ∷ vs) enough

  force_all-capacity :
      (buf : DataBuffer T) (vs : List T) → (force_all buf vs).capacity ≡ buf.capacity
  unfolding force_all force_push
  force_all-capacity buf [] = refl
  force_all-capacity buf (v ∷ vs) = force_all-capacity (force_push buf v).1 vs

-- A buffer of positive capacity, holding no more than it may, to which values are pushed by force:
-- it then holds the newest of all, its own and the pushed ones, in the order of their arrival, as
-- many as the capacity allows.
pub force_all_lem :
    {T : Type 0} (buf : DataBuffer T) (vs : List T)
    → 0 < buf.capacity
    → len buf ≤ buf.capacity
    → (force_all buf vs).content ≡ newest buf.capacity (buf.content ++ vs)
unfolding force_all len
force_all_lem buf [] h fits =
    let none : length buf.content - buf.capacity ≡ 0 = omega arith in
    rw (append-nil buf.content, none) refl
force_all_lem buf (v ∷ vs) h fits =
    let pushed = record buf { content = newest buf.capacity (buf.content ++ v ∷ []) } in
    let fits' : length pushed.content ≤ buf.capacity = omega (
      arith,
      length-drop (length (buf.content ++ v ∷ []) - buf.capacity) (buf.content ++ v ∷ []),
    ) in
    rw (force_all, (force_push_lem buf v h).0)
      (force_all_lem pushed vs h fits' ∙ newest-snoc buf.capacity buf.content v vs h)

-- Both kinds of buffer can be made with a positive capacity. A push into a buffer within its
-- capacity stores the value behind the others if there is room, and else gives it back and changes
-- nothing; taking the content gives all of it and leaves an empty buffer of the same capacity.
pub DataBuffer_lem :
    {T : Type 0} (capacity : ℕ) (buf : DataBuffer T) (v : T)
    → 0 < capacity
    → len buf ≤ buf.capacity
    → (bounded {T = T} capacity ≢ none)
      × (bounded_prealloc {T = T} capacity ≢ none)
      × ((len buf < buf.capacity)
            × (try_push buf v ≡ (none, record buf { content = buf.content ++ v ∷ [] }))
          ⊎ ((len buf ≡ buf.capacity) × (try_push buf v ≡ (some v, buf))))
      × ((take buf).0 ≡ buf.content)
      × (is_empty (take buf).1 ≡ true)
      × ((take buf).1.capacity ≡ buf.capacity)
unfolding bounded bounded_prealloc len try_push take is_empty
DataBuffer_lem capacity buf v h fits = ground arith
