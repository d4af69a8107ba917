-- ===== src/EventMap/History.antt =====
-- src/event_map.rs: a map after any calls, as a function from keys to the values that they left there.
use rtsc.Prelude.{
  ℕ, ◌≡◌, ◌⊎◌, inl, inr, ◌∙◌, sym, refl, true, false, Option, none, some, List, [], ◌∷◌, arith, leb,
  ◌==◌, if◌then◌else◌,
}
use rtsc.EventMap
use rtsc.EventMap.{
  EventMap, EventValue, with_max_delta, insert, clear_all, cleanup, data_mut, map_insert,
  map_remove, map_get, get_closest_to,
}
use rtsc.EventMap.Keys.{
  IsSorted, map_insert-IsSorted, map_remove-IsSorted, split_off-IsSorted, map_get-map_insert,
  map_get-map_remove, map_get-split_off,
}
use rtsc.EventMap.Closest.{distance, allows, Beats, get_closest_to_lem}

-- A call that changes the map, or an edit of the tree that `data_mut` hands out.
pub data Change (V : Type 0) : Type 0 where
  limits : (max_delta : ℕ) → Change V
  inserts edits_insert : (key : ℕ) → V → Change V
  edits_remove cleans_up : (key : ℕ) → Change V
  clears : Change V

module _ {V : Type 0} where
  unfoldable pub apply : Change V → EventMap V → EventMap V
  apply (limits max_delta) m = with_max_delta m max_delta
  apply (inserts key value) m = insert m key value
  apply (edits_insert key value) m = data_mut (map_insert key value) m
  apply (edits_remove key) m = data_mut (map_remove key) m
  apply (cleans_up key) m = cleanup m key
  apply clears m = clear_all m

  -- A new map after the calls, the last of which stands first.
  unfoldable pub after : List (Change V) → EventMap V
  after [] = EventMap.new
  after (operation ∷ earlier) = apply operation (after earlier)

  -- The value that the calls have left at the key `k`.
  abbrev pub recorded : List (Change V) → ℕ → Option V
  recorded [] k = none
  recorded (limits _ ∷ earlier) k = recorded earlier k
  recorded (inserts key value ∷ earlier) k = if k == key then some value else recorded earlier k
  recorded (edits_insert key value ∷ earlier) k =
      if k == key then some value else recorded earlier k
  recorded (edits_remove key ∷ earlier) k = if k == key then none else recorded earlier k
  recorded (cleans_up key ∷ earlier) k = if leb key k then recorded earlier k else none
  recorded (clears ∷ earlier) k = none

  -- The limit that was set last.
  abbrev pub last_limit : List (Change V) → Option ℕ
  last_limit [] = none
  last_limit (limits max_delta ∷ _) = some max_delta
  last_limit (_ ∷ earlier) = last_limit earlier

  after_lem :
      (ops : List (Change V))
      → IsSorted (after ops).entries
        × ((k : ℕ) → map_get k (after ops).entries ≡ recorded ops k)
        × ((after ops).max_delta ≡ last_limit ops)
  unfolding after apply EventMap.new with_max_delta insert data_mut cleanup clear_all map_get
  after_lem [] = (tt, (λ k. refl), refl)
  after_lem (limits max_delta ∷ earlier) = let h = after_lem earlier in (h.0, h.1, refl)
  after_lem (inserts key value ∷ earlier) =
      let h = after_lem earlier in
      (
        map_insert-IsSorted key value (after earlier).entries h.0,
        (λ k. ground (arith, map_get-map_insert key k value (after earlier).entries, h.1 k)),
        h.2,
      )
  after_lem (edits_insert key value ∷ earlier) =
      let h = after_lem earlier in
      (
        map_insert-IsSorted key value (after earlier).entries h.0,
        (λ k. ground (arith, map_get-map_insert key k value (after earlier).entries, h.1 k)),
        h.2,
      )
  after_lem (edits_remove key ∷ earlier) =
      let h = after_lem earlier in
      (
        map_remove-IsSorted key (after earlier).entries h.0,
        (λ k. ground (arith, map_get-map_remove key k (after earlier).entries h.0, h.1 k)),
        h.2,
      )
  after_lem (cleans_up key ∷ earlier) =
      let h = after_lem earlier in
      (
        split_off-IsSorted key (after earlier).entries h.0,
        (λ k. ground (arith, map_get-split_off key k (after earlier).entries h.0, h.1 k)),
        h.2,
      )
  after_lem (clears ∷ earlier) = (tt, (λ k. refl), (after_lem earlier).2)

-- After any calls on a new map, edits of its tree included, `get_closest_to` answers from what the
-- calls have left. Take any key `k` with a value: either an event is found that is there too, lies
-- within the limit that was set last, if any was, and is nearer to `key` than `k` is, or just as near
-- and not above `k`; or none is found, and `k` is beyond the limit.
pub closest_of_history :
    {V : Type 0} (ops : List (Change V)) (key k : ℕ) (v : V)
    → recorded ops k ≡ some v
    → let found = get_closest_to (after ops) key in
      ((e : EventValue V) × (found ≡ some e)
        × (recorded ops e.key ≡ some e.value)
        × (allows (last_limit ops) e.delta ≡ true)
        × Beats key k e.key e.delta)
      ⊎ ((found ≡ none) × (allows (last_limit ops) (distance k key) ≡ false))
closest_of_history ops key k v there =
    let h = after_lem ops in
    elim (get_closest_to_lem (after ops) key k v h.0 (h.1 k ∙ there)) [
      | inl (e, found, value, near, beats) ↦
          inl (e, found, sym (h.1 e.key) ∙ value, rw h.2 at near, beats)
      | inr (missing, far) ↦ inr (missing, rw h.2 at far)
    ]
