-- ===== src/Base/Ordered.antt =====
-- Go's `<` on a `cmp.Ordered` type, as an interface: a strict order in which two values that are
-- not ordered are interchangeable. Integers and strings are such; floats are, without NaN.
use Prim.Native.Nat.{ℕ}
use mathlib.Core.Path.{◌≡◌}
use mathlib.Core.Bool.{Bool, true, false}
use mathlib.Core.Logic.{inl, inr}
use native.Mathlib.Omega.{arith}
use gobase.Base.Tests.{ltb, Bool-cases}

pub record Ordered {ℓ} (A : Type ℓ) : Type ℓ where
  pub lt : A → A → Bool
  pub lt_asymm : (a b : A) → lt a b ≡ true → lt b a ≡ false
  pub le_trans : (a b c : A) → lt b a ≡ false → lt c b ≡ false → lt c a ≡ false

ltb_asymm : (a b : ℕ) → ltb a b ≡ true → ltb b a ≡ false
ltb_asymm a b h = ground arith

le_trans_ℕ : (a b c : ℕ) → ltb b a ≡ false → ltb c b ≡ false → ltb c a ≡ false
le_trans_ℕ a b c h k = ground arith

instance abbrev pub nat_ordered : Ordered ℕ
unfolding ltb_asymm le_trans_ℕ
nat_ordered = record { lt = ltb; lt_asymm = ltb_asymm; le_trans = le_trans_ℕ }

module _ {ℓ} {K : Type ℓ} ⦃o : Ordered K⦄ where
  pub lt_of_le : (a b c : K) → o.lt b a ≡ false → o.lt b c ≡ true → o.lt a c ≡ true
  lt_of_le a b c le lt = elim (Bool-cases (o.lt a c)) [
    | inl h ↦ h
    | inr h ↦ cc (o.le_trans c a b h le)
  ]

  pub lt_irrefl : (a : K) → o.lt a a ≡ false
  lt_irrefl a = elim (Bool-cases (o.lt a a)) [ inl h ↦ o.lt_asymm a a h | inr h ↦ h ]
