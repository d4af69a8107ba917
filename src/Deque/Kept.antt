-- ===== src/Deque/Kept.antt =====
-- src/pdeque.rs: deques that are used for long.
use rtsc.Prelude.{◌≡◌, refl, ◌∙◌, true, List, [], ◌∷◌}
use rtsc.DataPolicy.{DataDeliveryPolicy}
use rtsc.Deque.{Moment, Deque, try_push, get}
use rtsc.Deque.Order.{IsSorted}
use rtsc.Deque.Verdict.{Fits}
use rtsc.Deque.Stored.{try_push-Fits, try_push-IsSorted}
use rtsc.Deque.Get.{get_lem, get-Fits, get-IsSorted}

-- A call of `try_push` or of `get`, at a moment.
pub data Use (T : Type 0) : Type 0 where
  pushes : Moment → T → Use T
  gets : Moment → Use T

module _ {T : Type 0} (p : DataDeliveryPolicy T) where
  abbrev pub after : Deque T → List (Use T) → Deque T
  after d [] = d
  after d (pushes m v ∷ uses) = after (try_push p m d v).1 uses
  after d (gets m ∷ uses) = after (get p m d).1 uses

-- Whatever is pushed and got, in any order and at any moments: a deque that was within its capacity
-- stays within it, its capacity and its ordering stay as they were, and a deque with ordering that
-- was in the order of the priorities stays so.
pub after_lem :
    {T : Type 0} (p : DataDeliveryPolicy T) (d : Deque T) (uses : List (Use T))
    → Fits d
    → (d.ordered ≡ true → IsSorted p d.items)
    → let d' = after p d uses in
      Fits d'
      × (d'.capacity ≡ d.capacity)
      × (d'.ordered ≡ d.ordered)
      × (d.ordered ≡ true → IsSorted p d'.items)
after_lem p d [] fits sorted = (fits, refl, refl, sorted)
after_lem p d (pushes m v ∷ uses) fits sorted =
    let (fits', capacity, ordered) = try_push-Fits p m v d fits in
    let rest =
      after_lem p (try_push p m d v).1 uses fits'
        (λ o. let was = rw ordered at o in try_push-IsSorted p m v d fits was (sorted was)) in
    (rest.0, rest.1 ∙ capacity, rest.2 ∙ ordered, λ o. rest.3 (ordered ∙ o))
after_lem p d (gets m ∷ uses) fits sorted =
    let (_, capacity, ordered) = get_lem p m d in
    let rest =
      after_lem p (get p m d).1 uses (get-Fits p m d fits)
        (λ o. get-IsSorted p m d (sorted (rw ordered at o))) in
    (rest.0, rest.1 ∙ capacity, rest.2 ∙ ordered, λ o. rest.3 (ordered ∙ o))
