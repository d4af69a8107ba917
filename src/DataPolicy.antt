-- ===== src/DataPolicy.antt =====
-- src/data_policy.rs: delivery policies, the trait for own data types, and the outcome of a push.
-- The text form of a policy is in DataPolicy/Text.
pub mod Text
use rtsc.Prelude.{ℕ, Bool, true, false, ◌||◌, ◌≡◌, ◌↔◌, arith}

pub data DeliveryPolicy : Type 0 where
  always latest optional single single_optional : DeliveryPolicy

-- The derived `PartialEq`.
abbrev pub eq_policy : DeliveryPolicy → DeliveryPolicy → Bool
eq_policy always always = true
eq_policy latest latest = true
eq_policy optional optional = true
eq_policy single single = true
eq_policy single_optional single_optional = true
eq_policy _ _ = false

pub eq_policy_iff : (p q : DeliveryPolicy) → (eq_policy p q ≡ true) ↔ (p ≡ q)
eq_policy_iff p q = grind arith

-- The trait. What `is_expired` answers depends on the time: its first argument is the instant.
pub record DataDeliveryPolicy (T : Type 0) : Type 0 where
  pub delivery_policy : T → DeliveryPolicy
  pub priority : T → ℕ
  pub eq_kind : T → T → Bool
  pub is_expired : ℕ → T → Bool

-- The default methods; `same_discriminant` is `mem::discriminant(self) == mem::discriminant(other)`.
abbrev pub default_policy : {T : Type 0} → (T → T → Bool) → DataDeliveryPolicy T
default_policy same_discriminant = record {
  delivery_policy = λ _. always;
  priority = λ _. 100;
  eq_kind = same_discriminant;
  is_expired = λ _ _. false;
}

module _ {T : Type 0} (p : DataDeliveryPolicy T) where
  abbrev pub is_delivery_policy_single : T → Bool
  is_delivery_policy_single v =
      let dp = p.delivery_policy v in eq_policy dp single || eq_policy dp single_optional

  abbrev pub is_delivery_policy_optional : T → Bool
  is_delivery_policy_optional v =
      let dp = p.delivery_policy v in eq_policy dp optional || eq_policy dp single_optional

pub data StorageTryPushOutput (T : Type 0) : Type 0 where
  pushed : StorageTryPushOutput T
  skipped : StorageTryPushOutput T
  full : T → StorageTryPushOutput T
