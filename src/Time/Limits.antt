-- ===== src/Time/Limits.antt =====
-- src/time.rs, src/ops.rs: what fits a duration, and what is left of a time limit.
use rtsc.Prelude.{ℕ, ◌+◌, ◌≤◌, ◌≡◌, ◌↔◌, arith}
use rtsc.Error.{ok}
use rtsc.Time.{Operation, remaining, remaining_for, enough}

-- From its start on, an operation has the time `left` remaining exactly if its limit is over that
-- much later; it has enough time for a duration exactly if this is over by the limit; and
-- `remaining_for` with the limit of the operation is `remaining`.
pub remaining_iff :
    (now : ℕ) (o : Operation) (left expected : ℕ)
    → o.t ≤ now
    → ((remaining now o ≡ ok left) ↔ (now + left ≡ o.t + o.limit))
      × (remaining_for now o o.limit ≡ remaining now o)
      × ((enough now o expected ≡ ok tt) ↔ (now + expected ≤ o.t + o.limit))
unfolding remaining remaining_for enough
remaining_iff now o left expected h = ground arith
