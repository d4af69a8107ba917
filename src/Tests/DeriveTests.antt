-- ===== src/Tests/DeriveTests.antt =====
-- The theorems on the derive macro, on the enum of its documentation. Functions are numbers.
use rtsc.Prelude.{ℕ, ◌≡◌, ◌≢◌, refl, none, some, [], ◌∷◌}
use rtsc.DataPolicy
use rtsc.DataPolicy.{optional}
use rtsc.DataPolicy.Text.{to_lowercase, same_text}
use rtsc.Derive.{
  int, meta, lit, data_delivery, data_priority, Variant, Generated, data_policy_derive,
  parse_delivery_policy, read_variants, read_attributes, read_attribute, read_list, read_policy,
  read_priority, nested_policy, nested_priority, mark, generate, answers,
}
use rtsc.Derive.Own.{own}
use rtsc.Derive.Tables.{data_policy_derive_lem}

abbrev sensor_data : Variant ℕ
sensor_data = record {
  name = "SensorData";
  attrs =
      record { path = data_delivery; meta_list = some (meta (some "single") 0 ∷ []) }
      ∷ record { path = data_priority; meta_list = some (lit (int 10) ∷ []) }
      ∷ [];
}

abbrev shutdown : Variant ℕ
shutdown = record { name = "Shutdown"; attrs = [] }

abbrev generated : Generated ℕ
generated = record {
  policy_cases = some (DataPolicy.single ∷ DataPolicy.always ∷ []);
  priority_cases = some (int 10 ∷ int 100 ∷ []);
  expires_cases = none;
}

data_policy_derive_lem_example : (own shutdown ≢ none) × (answers generated 1 ≡ own shutdown)
unfolding data_policy_derive read_variants read_attributes read_attribute read_list read_policy
    read_priority nested_policy nested_priority mark generate parse_delivery_policy same_text
    to_lowercase
data_policy_derive_lem_example =
    data_policy_derive_lem (sensor_data ∷ shutdown ∷ []) generated 1 shutdown refl refl
