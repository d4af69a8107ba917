-- ===== src/EventMap.antt =====
-- src/event_map.rs: events at key points, found by the closest key.
-- The `BTreeMap` is its list of entries, in the order of the keys; `range`, `insert`, `get` and
-- `split_off` do what the standard library documents. Keys are points of time and deltas spans of
-- time, both natural numbers; the source subtracts a smaller key from a larger one only.
pub mod Keys
pub mod Closest
pub mod History
use rtsc.Prelude.{
  ℕ, ◌-◌, Bool, true, false, not, Option, none, some, List, [], ◌∷◌, ltb, leb, ◌==◌, if◌then◌else◌,
}

pub record EventMap (V : Type 0) : Type 0 where
  pub entries : List (ℕ × V)
  pub max_delta : Option ℕ

pub record EventValue (V : Type 0) : Type 0 where
  pub key : ℕ
  pub value : V
  pub delta : ℕ

pub record EventKey : Type 0 where
  pub key : ℕ
  pub delta : ℕ

abbrev pub closer : ℕ → Option ℕ → Option ℕ → Option EventKey
closer key (some l) (some u) =
    let lower_diff = key - l in
    let upper_diff = u - key in
    if leb lower_diff upper_diff
    then some (record { key = l; delta = lower_diff })
    else some (record { key = u; delta = upper_diff })
closer key (some l) none = some (record { key = l; delta = key - l })
closer key none (some u) = some (record { key = u; delta = u - key })
closer key none none = none

-- The limit, where it is set.
abbrev pub limit : Option ℕ → Option EventKey → Option EventKey
limit (some max_delta) (some closest) = if ltb max_delta closest.delta then none else some closest
limit (some max_delta) none = none
limit none closest = closest

module _ {V : Type 0} where
  unfoldable pub new : EventMap V
  new = record { entries = []; max_delta = none }

  unfoldable pub with_max_delta : EventMap V → ℕ → EventMap V
  with_max_delta m max_delta = record m { max_delta = some max_delta }

  -- `BTreeMap::insert` and `BTreeMap::get`.
  unfoldable pub map_insert : ℕ → V → List (ℕ × V) → List (ℕ × V)
  map_insert key value [] = (key, value) ∷ []
  map_insert key value ((k, v) ∷ rest) =
      let inserted = map_insert key value rest in
      if ltb key k
      then (key, value) ∷ (k, v) ∷ rest
      else if key == k
      then (key, value) ∷ rest
      else (k, v) ∷ inserted

  unfoldable pub map_get : ℕ → List (ℕ × V) → Option V
  map_get key [] = none
  map_get key ((k, v) ∷ rest) = let found = map_get key rest in if key == k then some v else found

  unfoldable pub insert : EventMap V → ℕ → V → EventMap V
  insert m key value = record m { entries = map_insert key value m.entries }

  unfoldable pub clear_all : EventMap V → EventMap V
  clear_all m = record m { entries = [] }

  -- `split_off`, which returns the entries from the key on.
  unfoldable pub split_off : ℕ → List (ℕ × V) → List (ℕ × V)
  split_off key [] = []
  split_off key ((k, v) ∷ rest) =
      let later = split_off key rest in if leb key k then (k, v) ∷ rest else later

  unfoldable pub cleanup : EventMap V → ℕ → EventMap V
  cleanup m key = record m { entries = split_off key m.entries }

  -- What `data` hands out, and what `data_mut` does, which hands out the same to be edited.
  unfoldable pub entries_of : EventMap V → List (ℕ × V)
  entries_of m = m.entries

  unfoldable pub data_mut : (List (ℕ × V) → List (ℕ × V)) → EventMap V → EventMap V
  data_mut edit m = record m { entries = edit m.entries }

  -- `BTreeMap::remove`.
  unfoldable pub map_remove : ℕ → List (ℕ × V) → List (ℕ × V)
  map_remove key [] = []
  map_remove key ((k, v) ∷ rest) =
      let removed = map_remove key rest in if key == k then rest else (k, v) ∷ removed

  -- `range(..=key).next_back()`, the last key that is not above, and `range(key..).next()`, the
  -- first that is not below.
  unfoldable pub lower : ℕ → List (ℕ × V) → Option ℕ
  lower key [] = none
  lower key ((k, v) ∷ rest) =
      let above = lower key rest in
      if leb k key then elim above [ some l ↦ some l | none ↦ some k ] else above

  unfoldable pub upper : ℕ → List (ℕ × V) → Option ℕ
  upper key [] = none
  upper key ((k, v) ∷ rest) = let above = upper key rest in if leb key k then some k else above

  abbrev pub event : List (ℕ × V) → Option EventKey → Option (EventValue V)
  event entries none = none
  event entries (some closest) = elim (map_get closest.key entries) [
    | some value ↦ some (record { key = closest.key; value = value; delta = closest.delta })
    | none ↦ none
  ]

  unfoldable pub get_closest_to : EventMap V → ℕ → Option (EventValue V)
  get_closest_to m key =
      event m.entries (limit m.max_delta (closer key (lower key m.entries) (upper key m.entries)))
