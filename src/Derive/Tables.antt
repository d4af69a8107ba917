-- ===== src/Derive/Tables.antt =====
-- rtsc-derive/src/lib.rs: the methods that the macro generates, and each variant's own attributes.
use rtsc.Prelude.{
  ℕ, zero, suc, ◌≡◌, ◌≢◌, refl, sym, ap, ◌∙◌, Bool, true, false, Option, none, some, List, [], ◌∷◌,
  map, ◌>>=◌, bind-some, get_elem?, if◌then◌else◌,
}
use mathlib.Core.Option.{some-injective}
use rtsc.DataPolicy.{always}
use rtsc.Derive.{
  int, Variant, Values, Defaults, Generated, default_values, all_default, read_variants, generate,
  data_policy_derive, case_of, answers,
}
use rtsc.Derive.Own.{
  Fewer, Fewer-trans, own, marks, read_attributes_lem, Agrees, own_values-Agrees, Fewer-Agrees,
  marks-Fewer,
}

module _ {F : Type 0} where
  -- The turn of a variant, and the rest of the loop.
  record Turn (variant : Variant F) (variants : List (Variant F)) (d e : Defaults)
      (vs : List (Values F)) : Type 0 where
    pub value : Values F
    pub others : List (Values F)
    pub all : vs ≡ value ∷ others
    pub is_own : own variant ≡ some value
    pub rest : read_variants variants (marks variant.attrs d) ≡ some (e, others)

  abbrev with_value : Values F → Defaults × List (Values F) → Option (Defaults × List (Values F))
  with_value v r = some (r.0, v ∷ r.1)

  abbrev others_of : List (Variant F) → Defaults × Values F → Option (Defaults × List (Values F))
  others_of variants r = read_variants variants r.0 >>= with_value r.1

  abbrev marked : Variant F → Defaults → Values F → Option (Defaults × Values F)
  marked variant d v = some (marks variant.attrs d, v)

  rest-Turn :
      (variant : Variant F) (variants : List (Variant F)) (d e : Defaults) (vs : List (Values F))
      (v : Values F)
      → own variant ≡ some v
      → others_of variants (marks variant.attrs d, v) ≡ some (e, vs)
      → Turn variant variants d e vs
  rest-Turn variant variants d e vs v is_own h =
      let ((e', others), rest, last) =
        bind-some (read_variants variants (marks variant.attrs d)) _ (e, vs) h in
      let ends : (e', v ∷ others) ≡ (e, vs) = some-injective _ _ last in
      record {
        value = v;
        others = others;
        all = sym (ap (λ p. p.1) ends);
        is_own = is_own;
        rest = rest ∙ ap (λ p. some (p.0, others)) ends;
      }

  first-Turn :
      (variant : Variant F) (variants : List (Variant F)) (d e : Defaults) (vs : List (Values F))
      (o : Option (Values F))
      → own variant ≡ o
      → ((o >>= marked variant d) >>= others_of variants) ≡ some (e, vs)
      → Turn variant variants d e vs
  first-Turn variant variants d e vs none is_own h = absurd cc
  first-Turn variant variants d e vs (some v) is_own h =
      rest-Turn variant variants d e vs v is_own h

  read_variants-Turn :
      (variant : Variant F) (variants : List (Variant F)) (d e : Defaults) (vs : List (Values F))
      → read_variants (variant ∷ variants) d ≡ some (e, vs)
      → Turn variant variants d e vs
  unfolding read_variants
  read_variants-Turn variant variants d e vs h =
      first-Turn variant variants d e vs (own variant) refl
        (rw (read_attributes_lem variant.attrs d default_values) at h)

  read_variants-Fewer :
      (variants : List (Variant F)) (d e : Defaults) (vs : List (Values F))
      → read_variants variants d ≡ some (e, vs)
      → Fewer d e
  unfolding read_variants
  read_variants-Fewer [] d e vs h =
      let same : d ≡ e = ap (λ p. p.0) (some-injective _ _ h) in
      rw same (record { policy = λ i. i; priority = λ i. i; expires = λ i. i })
  read_variants-Fewer (x ∷ xs) d e vs h =
      let turn = read_variants-Turn x xs d e vs h in
      Fewer-trans d (marks x.attrs d) e (marks-Fewer x.attrs d)
        (read_variants-Fewer xs (marks x.attrs d) e turn.others turn.rest)

  default_values-Agrees : (d : Defaults) → Agrees {F = F} d default_values
  default_values-Agrees d = record { policy = λ _. refl; priority = λ _. refl; expires = λ _. refl }

  variant_lem :
      (variants : List (Variant F)) (d e : Defaults) (vs : List (Values F)) (i : ℕ)
      (variant : Variant F)
      → read_variants variants d ≡ some (e, vs)
      → get_elem? variants i ≡ some variant
      → (v : Values F) × (own variant ≡ some v) × (get_elem? vs i ≡ some v) × Agrees e v
  unfolding read_variants
  variant_lem [] d e vs i variant h at_i = absurd cc
  variant_lem (x ∷ xs) d e vs zero variant h at_i =
      let turn = read_variants-Turn x xs d e vs h in
      let same : x ≡ variant = some-injective _ _ at_i in
      let agrees =
        own_values-Agrees x.attrs d default_values turn.value turn.is_own
          (default_values-Agrees d) in
      (
        turn.value,
        rw (← same) turn.is_own,
        rw turn.all refl,
        Fewer-Agrees (marks x.attrs d) e turn.value
            (read_variants-Fewer xs (marks x.attrs d) e turn.others turn.rest) agrees,
      )
  variant_lem (x ∷ xs) d e vs (suc i) variant h at_i =
      let turn = read_variants-Turn x xs d e vs h in
      let (v, is_own, found, agrees) =
        variant_lem xs (marks x.attrs d) e turn.others i variant turn.rest at_i in
      (v, is_own, rw turn.all found, agrees)

  case_of-column :
      {A : Type 0} (column : Values F → A) (default : A) (b : Bool) (vs : List (Values F)) (i : ℕ)
      (v : Values F)
      → get_elem? vs i ≡ some v
      → (b ≡ true → column v ≡ default)
      → case_of default (if b then none else some (map column vs)) i ≡ some (column v)
  case_of-column column default true vs i v found agrees = rw (agrees refl) refl
  case_of-column column default false [] i v found agrees = absurd cc
  case_of-column column default false (x ∷ xs) zero v found agrees =
      ap (λ x. some (column x)) (some-injective _ _ found)
  case_of-column column default false (x ∷ xs) (suc i) v found agrees =
      case_of-column column default false xs i v found (λ no. absurd cc)

-- Where the macro does not panic, the methods that it generates answer for each variant what the
-- attributes of this variant give on their own, or the defaults that they do not mention: also the
-- methods that are left at the default since no variant of the enum has their attribute.
pub data_policy_derive_lem :
    {F : Type 0} (variants : List (Variant F)) (g : Generated F) (i : ℕ) (variant : Variant F)
    → data_policy_derive variants ≡ some g
    → get_elem? variants i ≡ some variant
    → (own variant ≢ none) × (answers g i ≡ own variant)
unfolding data_policy_derive answers generate
data_policy_derive_lem variants g i variant h at_i =
    let ((d, vs), read, generated) = bind-some (read_variants variants all_default) _ g h in
    let (v, is_own, found, agrees) = variant_lem variants all_default d vs i variant read at_i in
    let is_g : generate d vs ≡ g = some-injective _ _ generated in
    rw
      (
        ← is_g,
        is_own,
        case_of-column (λ v. v.policy) always d.policy_impl vs i v found agrees.policy,
        case_of-column (λ v. v.priority) (int 100) d.priority_impl vs i v found agrees.priority,
        case_of-column (λ v. v.expires) none d.expires_impl vs i v found agrees.expires,
      )
      ((λ e. cc), refl)
