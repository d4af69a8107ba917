-- ===== src/Tests/Crate/Futures.antt =====
-- How the tests of src/channel_async.rs and src/policy_channel_async.rs run: tasks and threads send
-- and the test receives. A task or a thread runs until it waits or has ended, first and then
-- whenever it is woken; of the threads that wait, the first one is. `m` is the moment of all polls. An
-- awaited future that is ready is dropped unqueued, which does nothing.
use rtsc.Prelude.{
  ℕ, zero, suc, ◌+◌, Bool, true, false, not, ◌&&◌, Option, some, none, List, [], ◌∷◌, ◌++◌, ◌==◌,
  if◌then◌else◌,
}
use rtsc.Error.{ok, err}
use rtsc.Deque.{Moment}
use rtsc.Storage.{ChannelStorage}
use rtsc.AsyncWakers.{Wakers, Woken, nobody, one_thread, one_future, everybody}
use rtsc.AsyncChannel.{
  AsyncData, Poll, ready, pending, panicked, SendFuture, no_wakers, send_poll, recv_poll,
  sender_drop,
}
use rtsc.AsyncChannel.Calls.{send_blocking, recv_blocking}
use rtsc.BaseChannel.{returns, waits}
use rtsc.Tests.Crate.Runs.{is_skipped}

-- A task that awaits a send, with the values to send after that.
pub record Sending (T : Type 0) : Type 0 where
  pub future : SendFuture T
  pub rest : List T

-- The channel with its `next_op_id`, the tasks that wait, and the threads that wait in a blocking
-- send, of which each has a list of values to send.
pub record State (T S : Type 0) : Type 0 where
  pub tasks : List (Sending T)
  pub threads : List (List T)
  pub next_id : ℕ
  pub inner : AsyncData S (Unit {0})

pub record Received (T S : Type 0) : Type 0 where
  pub messages : List T
  pub left : State T S

abbrev got : {T S : Type 0} → T → Option (Received T S) → Option (Received T S)
got v none = none
got v (some r) = some (record r { messages = v ∷ r.messages })

-- Of the ids that the channel has given out, none is in the set.
abbrev none_below : ℕ → (ℕ → Bool) → Bool
none_below zero ids = true
none_below (suc n) ids = not (ids n) && none_below n ids

abbrev unused : {W : Type 0} → ℕ → Wakers W → Bool
unused n w = no_wakers w.wakers && none_below n w.waker_ids && none_below n w.pending

abbrev pub leaves_no_wakers : {T S : Type 0} → State T S → Bool
leaves_no_wakers s = unused s.next_id s.inner.sends && unused s.next_id s.inner.recvs

module _ {T S : Type 0} (q : ChannelStorage T S) (may_skip : T → Bool) (m : Moment) where
  abbrev made : ℕ → T → SendFuture T
  made id v = record { id = id; queued = false; value = some v }

  abbrev ends : State T S → State T S
  ends s = record s { inner = (sender_drop s.inner).1 }

  abbrev awaits : SendFuture T → List T → State T S → State T S
  awaits f rest s = record s { tasks = s.tasks ++ record { future = f; rest = rest } ∷ [] }

  -- A task that is not among those that wait polls its future `f`, whose value is `v`. `none` is that
  -- an assertion fails. At its end the task drops its sender.
  abbrev sends : T → List T → SendFuture T → State T S → Option (State T S)
  sends v [] f s =
      let p = send_poll q m tt s.inner f in
      let s' : State T S = record s { inner = p.inner } in
      elim p.answer [
        | ready (ok u) ↦ some (ends s')
        | ready (err e) ↦ if may_skip v && is_skipped e then some (ends s') else none
        | pending ↦ some (awaits p.future [] s')
        | panicked ↦ none
      ]
  sends v (w ∷ ws) f s =
      let p = send_poll q m tt s.inner f in
      let s' : State T S = record s { inner = p.inner } in
      let next = sends w ws (made s.next_id w) (record s' { next_id = s.next_id + 1 }) in
      elim p.answer [
        | ready (ok u) ↦ next
        | ready (err e) ↦ if may_skip v && is_skipped e then next else none
        | pending ↦ some (awaits p.future (w ∷ ws) s')
        | panicked ↦ none
      ]

  abbrev pub spawn : List T → State T S → Option (State T S)
  spawn [] s = some s
  spawn (v ∷ vs) s = sends v vs (made s.next_id v) (record s { next_id = s.next_id + 1 })

  -- A thread that is not among those that wait runs its blocking sends.
  abbrev pub spawn_blocking : List T → State T S → Option (State T S)
  spawn_blocking [] s = some (ends s)
  spawn_blocking (v ∷ vs) s =
      let c = send_blocking q m s.inner v in
      let s' : State T S = record s { inner = c.inner } in
      let next = spawn_blocking vs s' in
      elim c.result [
        | returns (ok u) ↦ next
        | returns (err e) ↦ if may_skip v && is_skipped e then next else none
        | waits w ↦ some (record s' { threads = s.threads ++ (v ∷ vs) ∷ [] })
      ]

  -- The value of a future that waits is there.
  abbrev resume : Sending T → State T S → Option (State T S)
  resume t s = elim t.future.value [ some v ↦ sends v t.rest t.future s | none ↦ none ]

  abbrev wake_task : ℕ → List (Sending T) → List (Sending T) → State T S → Option (State T S)
  wake_task id before [] s = some s
  wake_task id before (t ∷ ts) s =
      let later = wake_task id (before ++ t ∷ []) ts s in
      if t.future.id == id then resume t (record s { tasks = before ++ ts }) else later

  abbrev wake_thread : List (List T) → State T S → Option (State T S)
  wake_thread [] s = some s
  wake_thread (vs ∷ threads) s = spawn_blocking vs (record s { threads = threads })

  abbrev deliver : Woken (Unit {0}) → State T S → Option (State T S)
  deliver nobody s = some s
  deliver one_thread s = wake_thread s.threads s
  deliver (one_future cx id) s = wake_task id [] s.tasks s
  deliver (everybody wakers) s = none

  -- At most so many receives by futures, until one fails.
  abbrev pub receives : ℕ → State T S → Option (Received T S)
  receives zero s = some (record { messages = []; left = s })
  receives (suc turns) s =
      let p = recv_poll q m tt s.inner (record { id = s.next_id; queued = false }) in
      let s' : State T S = record s { next_id = s.next_id + 1; inner = p.inner } in
      elim p.answer [
        | ready (ok v) ↦ elim (deliver p.woken s') [
          | some s'' ↦ got v (receives turns s'')
          | none ↦ none
        ]
        | ready (err e) ↦ some (record { messages = []; left = s' })
        | pending ↦ none
        | panicked ↦ none
      ]

  -- The same with receives that block.
  abbrev pub receives_blocking : ℕ → State T S → Option (Received T S)
  receives_blocking zero s = some (record { messages = []; left = s })
  receives_blocking (suc turns) s =
      let c = recv_blocking q m s.inner in
      let s' : State T S = record s { inner = c.inner } in
      elim c.result [
        | returns (ok v) ↦ elim (deliver c.woken s') [
          | some s'' ↦ got v (receives_blocking turns s'')
          | none ↦ none
        ]
        | returns (err e) ↦ some (record { messages = []; left = s' })
        | waits w ↦ none
      ]

  abbrev is_over : Poll T → Bool
  is_over (ready (ok v)) = false
  is_over (ready (err e)) = true
  is_over pending = false
  is_over panicked = false

  abbrev wakes : ℕ → Woken (Unit {0}) → Bool
  wakes id (everybody (some (cx, i) ∷ wakers)) = i == id
  wakes id (everybody _) = false
  wakes id nobody = false
  wakes id one_thread = false
  wakes id (one_future cx i) = i == id

  -- A task that receives until an error, while another one drops its sender; `dropped` is whether
  -- that takes place before. It tells whether the receiving task ends.
  abbrev pub is_finished : (dropped : Bool) → AsyncData S (Unit {0}) → Bool
  is_finished true d =
      is_over (recv_poll q m tt (sender_drop d).1 (record { id = 0; queued = false })).answer
  is_finished false d =
      let p = recv_poll q m tt d (record { id = 0; queued = false }) in
      let (woken, d') = sender_drop p.inner in
      elim p.answer [
        | ready r ↦ is_over (ready r)
        | pending ↦ wakes 0 woken && is_over (recv_poll q m tt d' p.future).answer
        | panicked ↦ false
      ]
