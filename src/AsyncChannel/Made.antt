-- ===== src/AsyncChannel/Made.antt =====
-- src/base_channel_async.rs: channels as they are made.
use rtsc.Prelude.{ℕ, ◌≡◌, ap, sym, Bool, Bool-cases, inl, inr, Option, none, some, ltb}
use mathlib.Core.Option.{some-injective}
use rtsc.Storage.{ChannelStorage}
use rtsc.AsyncWakers
use rtsc.AsyncChannel.{AsyncData}
use rtsc.AsyncChannel.Calls

made_of :
    {S W : Type 0} (o : Option S) (d : AsyncData S W)
    → elim o [
      | none ↦ none
      | some queue ↦ some (record {
        queue = queue;
        senders = 1;
        receivers = 1;
        sends = AsyncWakers.new;
        recvs = AsyncWakers.new;
      })
    ]
      ≡ some d
    → (o ≡ some d.queue) × (d.recvs ≡ AsyncWakers.new)
made_of none d e = absurd cc
made_of (some queue) d e =
    let made = some-injective _ _ e in
    (ap (λ d. some (AsyncData.queue d)) made, sym (ap (λ d. AsyncData.recvs d) made))

-- The storage of a new channel is a new one, and nobody waits on it.
pub new_lem :
    {T S W : Type 0} (q : ChannelStorage T S) (capacity : ℕ) (ordering : Bool) (d : AsyncData S W)
    → Calls.new q capacity ordering ≡ some d
    → (q.with_capacity_and_ordering capacity ordering ≡ some d.queue) × (d.recvs ≡ AsyncWakers.new)
unfolding Calls.new
new_lem q capacity ordering d e = elim (Bool-cases (ltb 0 capacity)) [
  | inl positive ↦ made_of (q.with_capacity_and_ordering capacity ordering) d (rw positive at e)
  | inr zero ↦ absurd (let none_made = rw zero at e in cc)
]
