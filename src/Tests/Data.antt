-- ===== src/Tests/Data.antt =====
-- The values of the tests: messages whose policies can be read off their fields, as in
-- src/pdeque.rs and src/policy_channel.rs.
use rtsc.Prelude.{ℕ, true, false, [], ◌∷◌, leb, ◌==◌}
use rtsc.DataPolicy.{DeliveryPolicy, always, optional, single, DataDeliveryPolicy}
use rtsc.Deque.{Moment, Deque}

pub record Message : Type 0 where
  pub kind : ℕ
  pub rank : ℕ
  pub policy : DeliveryPolicy
  pub deadline : ℕ

abbrev pub messages : DataDeliveryPolicy Message
messages = record {
  delivery_policy = λ v. v.policy;
  priority = λ v. v.rank;
  eq_kind = λ v w. v.kind == w.kind;
  is_expired = λ now v. leb v.deadline now;
}

-- Of kind `kind`, with the default priority and far from its deadline.
abbrev pub message : ℕ → DeliveryPolicy → Message
message kind policy = record { kind = kind; rank = 100; policy = policy; deadline = 1000 }

abbrev pub stale : Message
stale = record { kind = 9; rank = 100; policy = always; deadline = 3 }

abbrev pub urgent : Message
urgent = record { kind = 8; rank = 10; policy = always; deadline = 1000 }

abbrev pub later_on : Moment
later_on = record { now = 5; second_slice = 0 }

abbrev pub wrapped : Moment
wrapped = record { now = 5; second_slice = 1 }

abbrev pub full_deque : Deque Message
full_deque = record {
  items = message 1 always ∷ message 2 optional ∷ message 3 single ∷ [];
  capacity = 3;
  ordered = false;
}

abbrev pub ordered_deque : Deque Message
ordered_deque = record {
  items = urgent ∷ message 1 always ∷ message 2 always ∷ [];
  capacity = 4;
  ordered = true;
}

abbrev pub same_rank_deque : Deque Message
same_rank_deque = record {
  items = message 1 always ∷ message 2 always ∷ [];
  capacity = 3;
  ordered = true;
}

abbrev pub stale_deque : Deque Message
stale_deque = record { items = stale ∷ message 1 always ∷ []; capacity = 2; ordered = false }
