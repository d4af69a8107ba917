-- ===== src/EventMap/Closest.antt =====
-- src/event_map.rs: which event `get_closest_to` finds.
use rtsc.Prelude.{
  ℕ, ◌-◌, ◌≤◌, ◌<◌, ◌≡◌, ◌≢◌, ◌⊎◌, refl, Bool, true, false, inl, inr, Option, none, some, List, [],
  ◌∷◌, arith, All, Option-cases, Bool-cases, leb, if◌then◌else◌,
}
use rtsc.EventMap.Keys.{IsSorted, map_get-above}
use rtsc.EventMap.{EventMap, EventValue, EventKey, map_get, lower, upper, closer, get_closest_to}

abbrev pub distance : ℕ → ℕ → ℕ
distance a b = if leb a b then b - a else a - b

abbrev pub allows : Option ℕ → ℕ → Bool
allows none delta = true
allows (some max_delta) delta = leb delta max_delta

abbrev at_least : ℕ → Option ℕ → Bool
at_least k none = false
at_least k (some l) = leb k l

abbrev at_most : ℕ → Option ℕ → Bool
at_most k none = false
at_most k (some u) = leb u k

-- An event at most as far from the key as `k`, and below `k` if it is just as far.
abbrev pub Beats : ℕ → ℕ → ℕ → ℕ → Type 0
Beats key k at delta =
    (delta ≡ distance at key) × ((delta < distance k key) ⊎ ((delta ≡ distance k key) × (at ≤ k)))

module _ {V : Type 0} where
  lower-above :
      (n key a : ℕ) (es : List (ℕ × V)) → All (λ f. n < f.0) es → lower key es ≡ some a → n < a
  unfolding lower
  lower-above n key a [] h e = absurd (ground arith)
  lower-above n key a ((l, w) ∷ rest) h e = ground (arith, lower-above n key a rest)

  lower-most :
      (key k : ℕ) (v : V) (es : List (ℕ × V))
      → IsSorted es
      → map_get k es ≡ some v
      → k ≤ key
      → at_least k (lower key es) ≡ true
  unfolding lower map_get
  lower-most key k v [] h found le = absurd (ground arith)
  lower-most key k v ((l, w) ∷ rest) h found le = elim (Option-cases (lower key rest)) [
    | inl none_above ↦ ground (arith, lower-most key k v rest h.1)
    | inr (a, e) ↦ ground (arith, lower-most key k v rest h.1, lower-above l key a rest h.0 e)
  ]

  lower-map_get :
      (key a : ℕ) (es : List (ℕ × V)) → lower key es ≡ some a → (a ≤ key) × (map_get a es ≢ none)
  unfolding lower map_get
  lower-map_get key a [] e = absurd (ground arith)
  lower-map_get key a ((l, w) ∷ rest) e = ground (arith, lower-map_get key a rest)

  upper-most :
      (key k : ℕ) (v : V) (es : List (ℕ × V))
      → IsSorted es
      → map_get k es ≡ some v
      → key ≤ k
      → at_most k (upper key es) ≡ true
  unfolding upper map_get
  upper-most key k v [] h found le = absurd (ground arith)
  upper-most key k v ((l, w) ∷ rest) h found le =
      ground (arith, upper-most key k v rest h.1, map_get-above l k v rest h.0)

  upper-map_get :
      (key a : ℕ) (es : List (ℕ × V)) → upper key es ≡ some a → (key ≤ a) × (map_get a es ≢ none)
  unfolding upper map_get
  upper-map_get key a [] e = absurd (ground arith)
  upper-map_get key a ((l, w) ∷ rest) e = ground (arith, upper-map_get key a rest)

  closer-Beats :
      (key k : ℕ) (v : V) (es : List (ℕ × V))
      → IsSorted es
      → map_get k es ≡ some v
      → (c : EventKey) × (closer key (lower key es) (upper key es) ≡ some c)
        × (map_get c.key es ≢ none)
        × Beats key k c.key c.delta
  closer-Beats key k v es h found = elim (Option-cases (lower key es)) [
    | inl no_lower ↦ elim (Option-cases (upper key es)) [
      | inl no_upper ↦
          absurd (ground (arith, lower-most key k v es h found, upper-most key k v es h found))
      | inr (u, eu) ↦ (
        record { key = u; delta = u - key },
        rw (no_lower, eu) refl,
        (upper-map_get key u es eu).1,
        ground (
          arith,
          lower-most key k v es h found,
          upper-most key k v es h found,
          upper-map_get key u es eu,
        ),
      )
    ]
    | inr (l, el) ↦ elim (Option-cases (upper key es)) [
      | inl no_upper ↦ (
        record { key = l; delta = key - l },
        rw (el, no_upper) refl,
        (lower-map_get key l es el).1,
        ground (
          arith,
          lower-most key k v es h found,
          upper-most key k v es h found,
          lower-map_get key l es el,
        ),
      )
      | inr (u, eu) ↦ elim (Bool-cases (leb (key - l) (u - key))) [
        | inl near ↦ (
          record { key = l; delta = key - l },
          rw (el, eu, near) refl,
          (lower-map_get key l es el).1,
          ground (
            arith,
            lower-most key k v es h found,
            upper-most key k v es h found,
            lower-map_get key l es el,
            upper-map_get key u es eu,
          ),
        )
        | inr far ↦ (
          record { key = u; delta = u - key },
          rw (el, eu, far) refl,
          (upper-map_get key u es eu).1,
          ground (
            arith,
            lower-most key k v es h found,
            upper-most key k v es h found,
            lower-map_get key l es el,
            upper-map_get key u es eu,
          ),
        )
      ]
    ]
  ]

-- Among the events of a map whose keys rise, take any one, at `k`. Either an event is found: it is
-- in the map, its delta is its distance to the key and within the limit, and it is closer to the
-- key than that at `k`, or just as close and not above it. Or none is found, and that at `k` is
-- farther away than the limit allows.
pub get_closest_to_lem :
    {V : Type 0} (m : EventMap V) (key k : ℕ) (v : V)
    → IsSorted m.entries
    → map_get k m.entries ≡ some v
    → let found = get_closest_to m key in
      ((e : EventValue V) × (found ≡ some e)
        × (map_get e.key m.entries ≡ some e.value)
        × (allows m.max_delta e.delta ≡ true)
        × Beats key k e.key e.delta)
      ⊎ ((found ≡ none) × (allows m.max_delta (distance k key) ≡ false))
unfolding get_closest_to
get_closest_to_lem m key k v h stored =
    let (c, e, got, beats) = closer-Beats key k v m.entries h stored in
    elim (Option-cases (map_get c.key m.entries)) [
      | inl missing ↦ absurd (got missing)
      | inr (w, value) ↦ elim (Bool-cases (allows m.max_delta c.delta)) [
        | inl near ↦ inl (
          record { key = c.key; value = w; delta = c.delta },
          rw e (ground (arith, near, value)),
          value,
          near,
          beats,
        )
        | inr far ↦ inr (rw e (ground (arith, far)), ground arith)
      ]
    ]
