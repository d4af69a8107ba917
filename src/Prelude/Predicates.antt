-- ===== src/Prelude/Predicates.antt =====
-- A predicate on every element of a list, and a list split in order into two parts.
use Prim.Native.Nat.{◌+◌}
use mathlib.Core.Path.{◌≡◌}
use mathlib.Core.Bool.{Bool}
use mathlib.Core.List.{List, [], ◌∷◌, ◌++◌}
use native.Mathlib.Omega.{arith}
use rtsc.Prelude.Lists.{length, count}

module _ {ℓ κ} {A : Type ℓ} where
  abbrev pub All : (A → Type κ) → List A → Type κ
  All P [] = Unit
  All P (x ∷ xs) = P x × All P xs

  pub All-append : (P : A → Type κ) (xs ys : List A) → All P xs → All P ys → All P (xs ++ ys)
  All-append P [] ys hx hy = hy
  All-append P (x ∷ xs) ys hx hy = (hx.0, All-append P xs ys hx.1 hy)

-- `Parted kept gone xs`: each element of `xs` went to `kept` or to `gone`, in the order of `xs`.
pub data Parted {ℓ} {A : Type ℓ} : List A → List A → List A → Type ℓ where
  nil : Parted [] [] []
  keep : (x : A) {kept gone xs : List A} → Parted kept gone xs → Parted (x ∷ kept) gone (x ∷ xs)
  lose : (x : A) {kept gone xs : List A} → Parted kept gone xs → Parted kept (x ∷ gone) (x ∷ xs)

pub Parted-keep_all {ℓ} : {A : Type ℓ} (xs : List A) → Parted xs [] xs
Parted-keep_all [] = nil
Parted-keep_all (x ∷ xs) = keep x (Parted-keep_all xs)

pub Parted-length {ℓ} :
    {A : Type ℓ} {kept gone xs : List A}
    → Parted kept gone xs
    → length xs ≡ length kept + length gone
Parted-length nil = omega arith
Parted-length (keep x p) = omega (arith, Parted-length p)
Parted-length (lose x p) = omega (arith, Parted-length p)

pub Parted-count {ℓ} :
    {A : Type ℓ} (test : A → Bool) {kept gone xs : List A}
    → Parted kept gone xs
    → count test xs ≡ count test kept + count test gone
Parted-count test nil = omega arith
Parted-count test (keep x p) = omega (arith, Parted-count test p)
Parted-count test (lose x p) = omega (arith, Parted-count test p)
