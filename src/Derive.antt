-- ===== src/Derive.antt =====
-- rtsc-derive/src/lib.rs: the derive macro for `DataDeliveryPolicy`.
-- The attributes are those of a parsed enum; a doc comment is one of them. The macro's code is represented by the tables of its
-- methods, a case for each variant in order. `F` are the functions that `data_expires` may name. A
-- panic is `none`.
pub mod Own
pub mod Tables
pub mod Panics
use Prim.Native.String.{String}
use rtsc.Prelude.{
  ℕ, Bool, true, false, Option, none, some, List, [], ◌∷◌, map, ◌>>=◌, get_elem?, if◌then◌else◌,
}
use rtsc.DataPolicy.{DeliveryPolicy, always, latest, optional, single, single_optional}
use rtsc.DataPolicy.Text.{codes, to_lowercase, same_text}

pub data Lit : Type 0 where
  str : String → Lit
  int : ℕ → Lit
  other_lit : String → Lit

-- A path in an attribute's list has a name if it is a single identifier.
pub data NestedMeta (F : Type 0) : Type 0 where
  meta : (ident : Option String) → (path : F) → NestedMeta F
  lit : Lit → NestedMeta F

pub data AttributePath : Type 0 where
  data_delivery data_expires data_priority : AttributePath
  unknown : String → AttributePath

-- `meta_list` is `none` where the attribute is not a list, or cannot be parsed.
pub record Attribute (F : Type 0) : Type 0 where
  pub path : AttributePath
  pub meta_list : Option (List (NestedMeta F))

pub record Variant (F : Type 0) : Type 0 where
  pub name : String
  pub attrs : List (Attribute F)

-- `delivery_policy_value`, `priority_value` and `expires_value` of a variant. Without a function to
-- ask, its data does not expire.
pub record Values (F : Type 0) : Type 0 where
  pub policy : DeliveryPolicy
  pub priority : Lit
  pub expires : Option F

-- `default_policy_impl` and so on.
pub record Defaults : Type 0 where
  pub policy_impl : Bool
  pub priority_impl : Bool
  pub expires_impl : Bool

-- The body of a method: `none` stands for that of the default.
pub record Generated (F : Type 0) : Type 0 where
  pub policy_cases : Option (List DeliveryPolicy)
  pub priority_cases : Option (List Lit)
  pub expires_cases : Option (List (Option F))

unfoldable pub parse_delivery_policy : Option (List ℕ) → Option DeliveryPolicy
parse_delivery_policy none = none
parse_delivery_policy (some s) =
    if same_text s (codes "single")
    then some single
    else if same_text s (codes "single_optional")
    then some single_optional
    else if same_text s (codes "optional")
    then some optional
    else if same_text s (codes "always")
    then some always
    else if same_text s (codes "latest")
    then some latest
    else none

-- The method for an attribute is generated in full.
unfoldable pub mark : AttributePath → Defaults → Defaults
mark data_delivery d = record d { policy_impl = false }
mark data_expires d = record d { expires_impl = false }
mark data_priority d = record d { priority_impl = false }
mark (unknown _) d = d

abbrev pub all_default : Defaults
all_default = record { policy_impl = true; priority_impl = true; expires_impl = true }

-- What a method of the generated code has for the variant number `i`.
abbrev pub case_of : {A : Type 0} → A → Option (List A) → ℕ → Option A
case_of default none i = some default
case_of default (some cases) i = get_elem? cases i

module _ {F : Type 0} where
  abbrev pub default_values : Values F
  default_values = record { policy = always; priority = int 100; expires = none }

  unfoldable pub nested_policy : NestedMeta F → Option DeliveryPolicy
  nested_policy (meta none path) = parse_delivery_policy none
  nested_policy (meta (some v) path) = parse_delivery_policy (some (to_lowercase (codes v)))
  nested_policy (lit (str v)) = parse_delivery_policy (some (to_lowercase (codes v)))
  nested_policy (lit (int _)) = none
  nested_policy (lit (other_lit _)) = none

  unfoldable pub nested_expires : NestedMeta F → Option F
  nested_expires (meta _ path) = some path
  nested_expires (lit _) = none

  unfoldable pub nested_priority : NestedMeta F → Option Lit
  nested_priority (meta _ _) = none
  nested_priority (lit l) = some l

  -- The list of an attribute: the last value counts.
  unfoldable pub read_policy : Values F → List (NestedMeta F) → Option (Values F)
  read_policy v [] = some v
  read_policy v (x ∷ xs) = do p ← nested_policy x; read_policy (record v { policy = p }) xs

  unfoldable pub read_expires : Values F → List (NestedMeta F) → Option (Values F)
  read_expires v [] = some v
  read_expires v (x ∷ xs) = do f ← nested_expires x; read_expires (record v { expires = some f }) xs

  unfoldable pub read_priority : Values F → List (NestedMeta F) → Option (Values F)
  read_priority v [] = some v
  read_priority v (x ∷ xs) = do l ← nested_priority x; read_priority (record v { priority = l }) xs

  unfoldable pub read_list : AttributePath → List (NestedMeta F) → Values F → Option (Values F)
  read_list data_delivery xs v = read_policy v xs
  read_list data_expires xs v = read_expires v xs
  read_list data_priority xs v = read_priority v xs
  read_list (unknown _) xs v = none

  -- An attribute's turn in the loop.
  unfoldable pub read_attribute : Attribute F → Defaults → Values F → Option (Defaults × Values F)
  read_attribute a d v = do xs ← a.meta_list; v' ← read_list a.path xs v; some (mark a.path d, v')

  unfoldable pub read_attributes :
      List (Attribute F) → Defaults → Values F → Option (Defaults × Values F)
  read_attributes [] d v = some (d, v)
  read_attributes (a ∷ attrs) d v = do (d', v') ← read_attribute a d v; read_attributes attrs d' v'

  unfoldable pub read_variants : List (Variant F) → Defaults → Option (Defaults × List (Values F))
  read_variants [] d = some (d, [])
  read_variants (variant ∷ variants) d = do
    (d', v) ← read_attributes variant.attrs d default_values
    (d'', vs) ← read_variants variants d'
    some (d'', v ∷ vs)

  unfoldable pub generate : Defaults → List (Values F) → Generated F
  generate d vs = record {
    policy_cases = if d.policy_impl then none else some (map (λ v. v.policy) vs);
    priority_cases = if d.priority_impl then none else some (map (λ v. v.priority) vs);
    expires_cases = if d.expires_impl then none else some (map (λ v. v.expires) vs);
  }

  unfoldable pub data_policy_derive : List (Variant F) → Option (Generated F)
  data_policy_derive variants = do
    (d, vs) ← read_variants variants all_default
    some (generate d vs)

  -- What the generated methods answer for the variant number `i`.
  unfoldable pub answers : Generated F → ℕ → Option (Values F)
  answers g i = do
    p ← case_of always g.policy_cases i
    l ← case_of (int 100) g.priority_cases i
    f ← case_of none g.expires_cases i
    some (record { policy = p; priority = l; expires = f })
