-- ===== src/DataBuffer.antt =====
-- src/buf.rs: the data buffer, whose methods each run under its mutex.
-- How much memory the deque has reserved shows in no result, so `VecDeque::new` and
-- `VecDeque::with_capacity` both are the empty list.
pub mod Newest
use rtsc.Prelude.{
  ℕ, Bool, true, false, Option, none, some, List, [], ◌∷◌, ◌++◌, length, ltb, leb, ◌==◌,
  if◌then◌else◌,
}

pub record DataBuffer (T : Type 0) : Type 0 where
  pub content : List T
  pub capacity : ℕ
  pub preallocated : Bool

module _ {T : Type 0} where
  -- `none` is the panic for a capacity of zero.
  unfoldable pub bounded : ℕ → Option (DataBuffer T)
  bounded capacity =
      if ltb 0 capacity
      then some (record { content = []; capacity = capacity; preallocated = false })
      else none

  unfoldable pub bounded_prealloc : ℕ → Option (DataBuffer T)
  bounded_prealloc capacity =
      if ltb 0 capacity
      then some (record { content = []; capacity = capacity; preallocated = true })
      else none

  unfoldable pub try_push : DataBuffer T → T → Option T × DataBuffer T
  try_push buf value =
      if leb buf.capacity (length buf.content)
      then (some value, buf)
      else (none, record buf { content = buf.content ++ value ∷ [] })

  -- The loop of `force_push`, with its `res`. With a positive capacity it ends on the empty deque
  -- at the latest.
  unfoldable pub make_room : ℕ → List T → Bool → Bool × List T
  make_room capacity [] res = (res, [])
  make_room capacity (x ∷ xs) res =
      let rest = make_room capacity xs false in
      if leb capacity (length (x ∷ xs)) then rest else (res, x ∷ xs)

  unfoldable pub force_push : DataBuffer T → T → Bool × DataBuffer T
  force_push buf value =
      let (res, content) = make_room buf.capacity buf.content true in
      (res, record buf { content = content ++ value ∷ [] })

  unfoldable pub len : DataBuffer T → ℕ
  len buf = length buf.content

  unfoldable pub is_empty : DataBuffer T → Bool
  is_empty buf = length buf.content == 0

  unfoldable pub take : DataBuffer T → List T × DataBuffer T
  take buf = (buf.content, record buf { content = [] })
