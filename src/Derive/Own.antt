-- ===== src/Derive/Own.antt =====
-- rtsc-derive/src/lib.rs: what the attributes of a variant say.
use rtsc.Prelude.{◌≡◌, refl, ◌∙◌, true, Option, none, some, List, [], ◌∷◌, ◌>>=◌, bind-some, arith}
use rtsc.DataPolicy.{always}
use rtsc.Derive.{
  int, NestedMeta, AttributePath, data_delivery, data_expires, data_priority, unknown, Attribute,
  Variant, Values, Defaults, default_values, nested_policy, nested_expires, nested_priority,
  read_policy, read_expires, read_priority, mark, read_list, read_attribute, read_attributes,
}

-- Attributes only take methods away from the default.
pub record Fewer (d e : Defaults) : Type 0 where
  pub policy : e.policy_impl ≡ true → d.policy_impl ≡ true
  pub priority : e.priority_impl ≡ true → d.priority_impl ≡ true
  pub expires : e.expires_impl ≡ true → d.expires_impl ≡ true

mark-Fewer : (p : AttributePath) (d : Defaults) → Fewer d (mark p d)
unfolding mark
mark-Fewer data_delivery d = record {
  policy = λ e. absurd (ground arith);
  priority = λ e. e;
  expires = λ e. e;
}
mark-Fewer data_expires d = record {
  policy = λ e. e;
  priority = λ e. e;
  expires = λ e. absurd (ground arith);
}
mark-Fewer data_priority d = record {
  policy = λ e. e;
  priority = λ e. absurd (ground arith);
  expires = λ e. e;
}
mark-Fewer (unknown _) d = record { policy = λ e. e; priority = λ e. e; expires = λ e. e }

pub Fewer-trans : (c d e : Defaults) → Fewer c d → Fewer d e → Fewer c e
Fewer-trans c d e f g = record {
  policy = λ h. f.policy (g.policy h);
  priority = λ h. f.priority (g.priority h);
  expires = λ h. f.expires (g.expires h);
}

module _ {F : Type 0} where
  -- The values that attributes give, without regard to the methods that can stay at the default.
  abbrev pub own_values : List (Attribute F) → Values F → Option (Values F)
  own_values [] v = some v
  own_values (a ∷ attrs) v = do xs ← a.meta_list; v' ← read_list a.path xs v; own_values attrs v'

  abbrev pub own : Variant F → Option (Values F)
  own variant = own_values variant.attrs default_values

  unfoldable pub marks : List (Attribute F) → Defaults → Defaults
  marks [] d = d
  marks (a ∷ attrs) d = marks attrs (mark a.path d)

  pub read_attributes_lem :
      (attrs : List (Attribute F)) (d : Defaults) (v : Values F)
      → read_attributes attrs d v ≡ (do v' ← own_values attrs v; some (marks attrs d, v'))
  unfolding read_attributes read_attribute marks
  read_attributes_lem [] d v = refl
  read_attributes_lem (a ∷ attrs) d v =
      of_list a.meta_list (read_attributes_lem attrs (mark a.path d))
    where
      of_value :
          (o : Option (Values F))
          → ((v' : Values F)
              → read_attributes attrs (mark a.path d) v'
                ≡ (do w ← own_values attrs v'; some (marks attrs (mark a.path d), w)))
          → (do (d', v') ← (do v' ← o; some (mark a.path d, v')); read_attributes attrs d' v')
            ≡ (do w ← (do v' ← o; own_values attrs v'); some (marks attrs (mark a.path d), w))
      of_value none rest = refl
      of_value (some v') rest = rest v'

      of_list :
          (o : Option (List (NestedMeta F)))
          → ((v' : Values F)
              → read_attributes attrs (mark a.path d) v'
                ≡ (do w ← own_values attrs v'; some (marks attrs (mark a.path d), w)))
          → (do
            (d', v') ← (do xs ← o; v' ← read_list a.path xs v; some (mark a.path d, v'))
            read_attributes attrs d' v')
            ≡ (do
              w ← (do xs ← o; v' ← read_list a.path xs v; own_values attrs v')
              some (marks attrs (mark a.path d), w))
      of_list none rest = refl
      of_list (some xs) rest = of_value (read_list a.path xs v) rest

  -- Where a method stays at the default, the values do, too.
  pub record Agrees (d : Defaults) (v : Values F) : Type 0 where
    pub policy : d.policy_impl ≡ true → v.policy ≡ always
    pub priority : d.priority_impl ≡ true → v.priority ≡ int 100
    pub expires : d.expires_impl ≡ true → v.expires ≡ none

  read_policy-others :
      (xs : List (NestedMeta F)) (v v' : Values F)
      → read_policy v xs ≡ some v'
      → (v'.priority ≡ v.priority) × (v'.expires ≡ v.expires)
  unfolding read_policy
  read_policy-others [] v v' e = ground arith
  read_policy-others (x ∷ xs) v v' e =
      let (p, _, rest) = bind-some (nested_policy x) _ v' e in
      read_policy-others xs (record v { policy = p }) v' rest

  read_expires-others :
      (xs : List (NestedMeta F)) (v v' : Values F)
      → read_expires v xs ≡ some v'
      → (v'.priority ≡ v.priority) × (v'.policy ≡ v.policy)
  unfolding read_expires
  read_expires-others [] v v' e = ground arith
  read_expires-others (x ∷ xs) v v' e =
      let (f, _, rest) = bind-some (nested_expires x) _ v' e in
      read_expires-others xs (record v { expires = some f }) v' rest

  read_priority-others :
      (xs : List (NestedMeta F)) (v v' : Values F)
      → read_priority v xs ≡ some v'
      → (v'.policy ≡ v.policy) × (v'.expires ≡ v.expires)
  unfolding read_priority
  read_priority-others [] v v' e = ground arith
  read_priority-others (x ∷ xs) v v' e =
      let (l, _, rest) = bind-some (nested_priority x) _ v' e in
      read_priority-others xs (record v { priority = l }) v' rest

  read_list-Agrees :
      (path : AttributePath) (xs : List (NestedMeta F)) (d : Defaults) (v v' : Values F)
      → read_list path xs v ≡ some v'
      → Agrees d v
      → Agrees (mark path d) v'
  unfolding read_list mark
  read_list-Agrees data_delivery xs d v v' e h =
      let others = read_policy-others xs v v' e in
      record {
        policy = λ no. absurd (ground arith);
        priority = λ e. others.0 ∙ h.priority e;
        expires = λ e. others.1 ∙ h.expires e;
      }
  read_list-Agrees data_expires xs d v v' e h =
      let others = read_expires-others xs v v' e in
      record {
        policy = λ e. others.1 ∙ h.policy e;
        priority = λ e. others.0 ∙ h.priority e;
        expires = λ no. absurd (ground arith);
      }
  read_list-Agrees data_priority xs d v v' e h =
      let others = read_priority-others xs v v' e in
      record {
        policy = λ e. others.0 ∙ h.policy e;
        priority = λ no. absurd (ground arith);
        expires = λ e. others.1 ∙ h.expires e;
      }
  read_list-Agrees (unknown _) xs d v v' e h = absurd (ground arith)

  pub own_values-Agrees :
      (attrs : List (Attribute F)) (d : Defaults) (v v' : Values F)
      → own_values attrs v ≡ some v'
      → Agrees d v
      → Agrees (marks attrs d) v'
  unfolding marks
  own_values-Agrees [] d v v' e h = let same : v ≡ v' = ground arith in rw (← same) h
  own_values-Agrees (a ∷ attrs) d v v' e h =
      let (xs, _, with_list) = bind-some a.meta_list _ v' e in
      let (w, read, rest) = bind-some (read_list a.path xs v) _ v' with_list in
      own_values-Agrees attrs (mark a.path d) w v' rest (read_list-Agrees a.path xs d v w read h)

  pub Fewer-Agrees : (d e : Defaults) (v : Values F) → Fewer d e → Agrees d v → Agrees e v
  Fewer-Agrees d e v fewer h = record {
    policy = λ i. h.policy (fewer.policy i);
    priority = λ i. h.priority (fewer.priority i);
    expires = λ i. h.expires (fewer.expires i);
  }

  pub marks-Fewer : (attrs : List (Attribute F)) (d : Defaults) → Fewer d (marks attrs d)
  unfolding marks
  marks-Fewer [] d = record { policy = λ e. e; priority = λ e. e; expires = λ e. e }
  marks-Fewer (a ∷ attrs) d =
      Fewer-trans d (mark a.path d) (marks attrs (mark a.path d)) (mark-Fewer a.path d)
        (marks-Fewer attrs (mark a.path d))
