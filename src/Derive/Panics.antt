-- ===== src/Derive/Panics.antt =====
-- rtsc-derive/src/lib.rs: attributes and texts that the macro refuses.
use Prim.Native.String.{String}
use rtsc.Prelude.{
  ℕ, zero, suc, ◌≡◌, ◌≢◌, refl, ap, ◌∙◌, true, Option, none, some, List, [], ◌∷◌, bind-some,
  get_elem?, arith,
}
use mathlib.Core.Option.{some-injective}
use rtsc.Error.{ok}
use rtsc.DataPolicy.{DeliveryPolicy, always, latest, optional, single, single_optional}
use rtsc.DataPolicy.Text.{
  codes, to_lowercase, same_text, same_text_iff, display, from_str, from_str_iff,
}
use rtsc.Derive.{
  unknown, Attribute, Variant, Values, Generated, read_list, data_policy_derive,
  parse_delivery_policy,
}
use rtsc.Derive.Own.{own_values, own}
use rtsc.Derive.Tables.{data_policy_derive_lem}

module _ {F : Type 0} where
  own_values-unknown :
      (attrs : List (Attribute F)) (j : ℕ) (a : Attribute F) (name : String) (v w : Values F)
      → get_elem? attrs j ≡ some a
      → a.path ≡ unknown name
      → own_values attrs v ≢ some w
  unfolding read_list
  own_values-unknown [] j a name v w at_j e h = cc
  own_values-unknown (x ∷ attrs) zero a name v w at_j e h =
      let (xs, _, with_list) = bind-some x.meta_list _ w h in
      let path : x.path ≡ unknown name = ap (λ b. b.path) (some-injective _ _ at_j) ∙ e in
      let (v', read, _) = bind-some (read_list x.path xs v) _ w with_list in cc
  own_values-unknown (x ∷ attrs) (suc j) a name v w at_j e h =
      let (xs, _, with_list) = bind-some x.meta_list _ w h in
      let (v', _, rest) = bind-some (read_list x.path xs v) _ w with_list in
      own_values-unknown attrs j a name v' w at_j e rest

  refuses :
      (variants : List (Variant F)) (i j : ℕ) (variant : Variant F) (a : Attribute F)
      (name : String) (r : Option (Generated F))
      → data_policy_derive variants ≡ r
      → get_elem? variants i ≡ some variant
      → get_elem? variant.attrs j ≡ some a
      → a.path ≡ unknown name
      → r ≡ none
  refuses variants i j variant a name none h at_i at_j e = refl
  refuses variants i j variant a name (some g) h at_i at_j e = absurd (without (own variant) refl)
    where
      without : (o : Option (Values F)) → own variant ≡ o → ⊥
      without none is_own = (data_policy_derive_lem variants g i variant h at_i).0 is_own
      without (some w) is_own = own_values-unknown variant.attrs j a name _ w at_j e is_own

-- The macro panics as soon as a variant has any attribute that is not one of its own three, as a doc
-- comment is, whatever stands beside it.
pub unknown_attribute_panics :
    {F : Type 0} (variants : List (Variant F)) (i j : ℕ) (variant : Variant F) (a : Attribute F)
    → (name : String) → get_elem? variants i ≡ some variant
    → get_elem? variant.attrs j ≡ some a
    → a.path ≡ unknown name
    → data_policy_derive variants ≡ none
unknown_attribute_panics variants i j variant a name at_i at_j e =
    refuses variants i j variant a name _ refl at_i at_j e

parse_sound :
    (l : List ℕ) (p : DeliveryPolicy)
    → parse_delivery_policy (some l) ≡ some p
    → p ≢ latest
    → p ≢ single_optional
    → same_text l (codes (display p)) ≡ true
unfolding parse_delivery_policy display
parse_sound l always h _ _ = ground arith
parse_sound l latest h ne _ = absurd (ne refl)
parse_sound l optional h _ _ = ground arith
parse_sound l single h _ _ = ground arith
parse_sound l single_optional h _ ne = absurd (ne refl)

-- A policy that the macro reads from a text is the one that `from_str` reads from it, but for
-- `latest` and `single_optional`, whose texts `from_str` refuses.
pub parse_delivery_policy-from_str :
    (s : String) (p : DeliveryPolicy)
    → parse_delivery_policy (some (to_lowercase (codes s))) ≡ some p
    → p ≢ latest
    → p ≢ single_optional
    → from_str s ≡ ok p
parse_delivery_policy-from_str s p h no_latest no_single_optional =
    let same = parse_sound (to_lowercase (codes s)) p h no_latest no_single_optional in
    (from_str_iff s p).1
      ((same_text_iff (to_lowercase (codes s)) (codes (display p))).0 same, no_latest)
