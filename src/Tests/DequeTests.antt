-- ===== src/Tests/DequeTests.antt =====
-- The theorems on the deque, on deques of messages.
use rtsc.Prelude.{true, ◌≡◌, ◌⊎◌, refl, false, [], ◌∷◌, arith, count}
use rtsc.DataPolicy.{always, single}
use rtsc.Deque.{try_push, get, store, make_single, push_no_room, push_final, push, retain_but_one}
use rtsc.Deque.Verdict.{Fits, verdict, try_push-verdict}
use rtsc.Deque.Stored.{Stores, Refuses, try_push_lem}
use rtsc.Deque.Order.{IsSorted}
use rtsc.Deque.Arrival.{arrival, try_push-arrival, try_push_wrapped}
use rtsc.Deque.Kinds.{same_kind, try_push_single}
use rtsc.Deque.Kept.{pushes, gets, after, after_lem}
use rtsc.Deque.Get.{Gets, get_lem}
use rtsc.Tests.Data.{
  messages, message, urgent, later_on, wrapped, full_deque, ordered_deque, same_rank_deque,
  stale_deque,
}

-- A push into a full deque takes the place of the optional value.
full_push :
    (try_push messages later_on full_deque (message 4 always)).1.items
    ≡ message 1 always ∷ message 3 single ∷ message 4 always ∷ []
unfolding try_push store make_single push_no_room push_final push retain_but_one
full_push = refl

try_push-verdict_example :
    (try_push messages later_on full_deque (message 4 always)).0
    ≡ verdict messages later_on (message 4 always) full_deque
try_push-verdict_example =
    try_push-verdict messages later_on (message 4 always) full_deque (omega arith)

try_push_lem_example :
    let r = try_push messages later_on full_deque (message 4 always) in
    Stores messages later_on (message 4 always) full_deque r
    ⊎ Refuses messages later_on (message 4 always) full_deque r
try_push_lem_example =
    try_push_lem messages later_on (message 4 always) full_deque (omega arith) refl

try_push-arrival_example :
    (try_push messages later_on ordered_deque (message 3 always)).1
    ≡ record ordered_deque { items = arrival messages (message 3 always) ordered_deque.items }
try_push-arrival_example =
    try_push-arrival messages (message 3 always) later_on ordered_deque refl (ground arith) refl
      refl (omega arith) refl

try_push_wrapped_example :
    (try_push messages wrapped same_rank_deque (message 3 always)).1
    ≡ record same_rank_deque { items = message 3 always ∷ message 1 always ∷ message 2 always ∷ [] }
try_push_wrapped_example =
    try_push_wrapped messages (message 3 always) wrapped same_rank_deque refl (ground arith) refl
      refl (omega arith) refl

try_push_single_example :
    count
      (same_kind messages later_on (message 3 single))
      (try_push messages later_on full_deque (message 3 single)).1.items
    ≡ 1
unfolding try_push store make_single push
try_push_single_example =
    try_push_single messages later_on (message 3 single) full_deque (omega arith) refl refl refl
      refl

get_lem_example :
    let (value, d') = get messages later_on stale_deque in
    Gets messages later_on stale_deque.items (value, d'.items)
    × (d'.capacity ≡ 2)
    × (d'.ordered ≡ false)
get_lem_example = get_lem messages later_on stale_deque

-- Two pushes and a `get`.
after_lem_example :
    let d' =
      after messages ordered_deque
        (pushes later_on urgent ∷ gets later_on ∷ pushes later_on (message 4 always) ∷ []) in
    Fits d' × (d'.capacity ≡ 4) × (d'.ordered ≡ true) × (true ≡ true → IsSorted messages d'.items)
after_lem_example =
    after_lem messages ordered_deque
      (pushes later_on urgent ∷ gets later_on ∷ pushes later_on (message 4 always) ∷ [])
      (omega arith) (λ _. ground arith)
