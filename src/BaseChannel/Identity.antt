-- ===== src/BaseChannel/Identity.antt =====
-- src/base_channel.rs: which channels are equal. A handle is the address of what it shares with its
-- clones, and src/base_channel_async.rs compares its channels in the same way. `fresh n` is what
-- `UniqueId::default` gives at its call number `n` in a process.
use rtsc.Prelude.{
  ℕ, ◌+◌, ◌<◌, ◌≡◌, ◌≢◌, ◌↔◌, ◌==◌, refl, sym, ◌∙◌, Bool, true, false, Bool-cases, inl, inr, arith,
  if◌then◌else◌, ltb,
}

-- The ids of the channels, by their addresses, and how often an id was asked for, by channels or by
-- other code.
pub record Channels : Type 0 where
  pub made : ℕ
  pub ids : ℕ → ℕ
  pub asked : ℕ

abbrev pub none_made : ℕ → Channels
none_made asked = record { made = 0; ids = λ _. 0; asked = asked }

-- `BaseChannel::new`, for the id: the address of the new channel.
unfoldable pub new_channel : (fresh : ℕ → ℕ) → Channels → ℕ × Channels
new_channel fresh m = (
  m.made,
  record {
    made = m.made + 1;
    ids = λ a. if a == m.made then fresh m.asked else m.ids a;
    asked = m.asked + 1;
  },
)

unfoldable pub clone : ℕ → ℕ
clone address = address

unfoldable pub eq : Channels → ℕ → ℕ → Bool
eq m address other = m.ids address == m.ids other

module _ (fresh : ℕ → ℕ) where
  pub data Step (m : Channels) : Channels → Type 0 where
    makes : Step m (new_channel fresh m).1
    other_asks : Step m (record m { asked = m.asked + 1 })

  pub data Reach (m : Channels) : Channels → Type 0 where
    start : Reach m m
    later : {n o : Channels} → Reach m n → Step n o → Reach m o

  record Apart (m : Channels) : Type 0 where
    pub drawn : (a : ℕ) → a < m.made → (n : ℕ) × (n < m.asked) × (m.ids a ≡ fresh n)
    pub apart : (a b : ℕ) → a < b → b < m.made → m.ids a ≢ m.ids b

  module _ (injective : (n k : ℕ) → fresh n ≡ fresh k → n ≡ k) where
    Step-Apart : {m o : Channels} → Step m o → Apart m → Apart o
    unfolding new_channel
    Step-Apart {m} makes h = record {
      drawn = λ a lt. elim (Bool-cases (a == m.made)) [
        | inl e ↦ (m.asked, omega arith, rw e refl)
        | inr e ↦
            let (n, before, same) = h.drawn a (ground arith) in
            (n, omega (arith, before), rw e same)
      ];
      apart = λ a b lt last. elim (Bool-cases (b == m.made)) [
        | inl e ↦
            let old : (a == m.made) ≡ false = ground arith in
            let (n, before, same) = h.drawn a (ground arith) in
            rw (e, old)
              (λ equal. absurd (omega (arith, before, injective n m.asked (sym same ∙ equal))))
        | inr e ↦
            let old : (a == m.made) ≡ false = ground arith in
            rw (e, old) (h.apart a b lt (ground arith))
      ];
    }
    Step-Apart {m} other_asks h = record {
      drawn = λ a lt. let (n, before, same) = h.drawn a lt in (n, omega (arith, before), same);
      apart = h.apart;
    }

    Reach-Apart : {m o : Channels} → Apart m → Reach m o → Apart o
    Reach-Apart h start = h
    Reach-Apart h (later r step) = Step-Apart step (Reach-Apart h r)

-- However channels are made while other code asks for ids too, where no id is given twice: two
-- handles, cloned or not, are equal exactly if they are of the same channel.
pub eq_iff :
    (fresh : ℕ → ℕ) (asked : ℕ) (m : Channels) (a b : ℕ)
    → ((n k : ℕ) → fresh n ≡ fresh k → n ≡ k)
    → Reach fresh (none_made asked) m
    → a < m.made
    → b < m.made
    → (eq m (clone a) b ≡ true) ↔ (a ≡ b)
unfolding eq clone
eq_iff fresh asked m a b injective r lt lt' =
    let h =
      Reach-Apart fresh injective
        (record {
          drawn = λ a lt. absurd (omega (arith, lt));
          apart = λ a b lt last. absurd (omega (arith, last));
        })
        r in
    let same : m.ids a ≡ m.ids b → a ≡ b = λ equal. elim (Bool-cases (ltb a b)) [
      | inl below ↦ absurd (h.apart a b (ground arith) lt' equal)
      | inr e ↦ elim (Bool-cases (ltb b a)) [
        | inl above ↦ absurd (h.apart b a (ground arith) lt (sym equal))
        | inr e' ↦ ground arith
      ]
    ] in
    ((λ e. same (ground arith)), λ e. rw e (ground arith))
