-- ===== src/TtlCell/Pairs.antt =====
-- src/cell/ttlcell.rs: what is read, taken and coupled.
use rtsc.Prelude.{ℕ, ◌+◌, ◌≤◌, ◌<◌, ◌≡◌, ◌↔◌, ◌⊎◌, none, some, arith}
use rtsc.TtlCell.{TtlCell, is_expired, touch, replace, set, as_ref, take, as_ref_with, take_with}

-- A cell has a value to read exactly while it holds that value and no more than its time to live
-- has passed since it was set.
pub as_ref_iff :
    {T : Type 0} (now : ℕ) (c : TtlCell T) (v : T)
    → (as_ref now c ≡ some v) ↔ ((c.value ≡ some v) × (now ≤ c.set_at + c.ttl))
unfolding as_ref is_expired
as_ref_iff now c v = ground arith

-- From the instant at which it is set, a value can be read until its time to live is over and not
-- after that; replacing it within that time gives it back and starts the time of the new one, and
-- replacing it later gives nothing back.
pub set-as_ref :
    {T : Type 0} (t now : ℕ) (c : TtlCell T) (v w : T)
    → t ≤ now
    → let cell = set t c v in
      ((now ≤ t + c.ttl)
        × (as_ref now cell ≡ some v)
        × (replace now cell w ≡ (some v, set now c w)))
      ⊎ ((t + c.ttl < now) × (as_ref now cell ≡ none) × (replace now cell w ≡ (none, set now c w)))
unfolding set touch replace as_ref is_expired
set-as_ref t now c v w h = ground arith

-- `take` gives what can be read, and then there is nothing to read at that instant or later.
pub take-as_ref :
    {T : Type 0} (now after : ℕ) (c : TtlCell T)
    → now ≤ after
    → ((take now c).0 ≡ as_ref now c) × (as_ref after (take now c).1 ≡ none)
unfolding take as_ref is_expired
take-as_ref now after c h = ground arith

-- Two values can be read together exactly if each can be read, and they were set no further apart
-- than allowed; `take_with` then gives the same two, and else nothing.
pub as_ref_with_iff :
    {T O : Type 0} (now : ℕ) (c : TtlCell T) (d : TtlCell O) (delta : ℕ) (v : T) (w : O)
    → ((as_ref_with now c d delta ≡ some (v, w)) ↔ (
        (as_ref now c ≡ some v)
        × (as_ref now d ≡ some w)
        × (c.set_at ≤ d.set_at + delta)
        × (d.set_at ≤ c.set_at + delta)))
      × ((take_with now c d delta).0 ≡ as_ref_with now c d delta)
unfolding as_ref_with take_with take as_ref is_expired
as_ref_with_iff now c d delta v w = ground arith

-- After `take_with`, neither cell has a value to read at that instant, whether the two values were
-- given or not: also if just one of them was there, or they were set too far apart.
pub take_with_loses :
    {T O : Type 0} (now : ℕ) (c : TtlCell T) (d : TtlCell O) (delta : ℕ)
    → let (pair, c', d') = take_with now c d delta in
      (as_ref now c' ≡ none) × (as_ref now d' ≡ none)
unfolding take_with take as_ref is_expired
take_with_loses now c d delta = ground arith
