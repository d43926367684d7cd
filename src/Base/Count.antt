-- ===== src/Base/Count.antt =====
-- How often an item stands in a list, and predicates of every item: the specifications' words.
use Prim.Native.Nat.{ℕ, zero, suc, ◌+◌, ◌≤◌, ◌<◌}
use mathlib.Core.Path.{◌≡◌, refl}
use mathlib.Core.Bool.{Bool}
use mathlib.Core.List.{List, [], ◌∷◌, ◌++◌}
use native.Mathlib.Omega.{arith}
use gobase.Base.Tests.{if◌then◌else◌}
use gobase.Base.Equality.{Comparable, ◌==◌}
use gobase.Base.Lists.{length, get_or}

module _ {ℓ} {A : Type ℓ} ⦃e : Comparable A⦄ where
  abbrev pub count : A → List A → ℕ
  count a [] = 0
  count a (x ∷ xs) = (if x == a then 1 else 0) + count a xs

  pub count-append :
      (a : A) (front back : List A) → count a (front ++ back) ≡ count a front + count a back
  count-append a [] back = omega arith
  count-append a (x ∷ front) back = omega (arith, count-append a front back)

  -- No item stands in the list twice.
  abbrev pub IsUnique : List A → Type ℓ
  IsUnique xs = (a : A) → count a xs ≤ 1

module _ {ℓ κ} {A : Type ℓ} (P : A → Type κ) where
  abbrev pub All : List A → Type κ
  All [] = Unit
  All (x ∷ xs) = P x × All xs

  pub All-get_or : (xs : List A) (i : ℕ) (d : A) → All xs → i < length xs → P (get_or xs i d)
  All-get_or [] i d h lt = ground arith
  All-get_or (x ∷ xs) zero d (px, h) lt = px
  All-get_or (x ∷ xs) (suc i) d (px, h) lt = All-get_or xs i d h (omega arith)

  pub All-append : (xs ys : List A) → All xs → All ys → All (xs ++ ys)
  All-append [] ys _ hy = hy
  All-append (x ∷ xs) ys (px, hx) hy = (px, All-append xs ys hx hy)

module _ {ℓ} {A : Type ℓ} where
  -- The items that pass a test, in order.
  abbrev pub keep : (A → Bool) → List A → List A
  keep f [] = []
  keep f (x ∷ xs) = if f x then x ∷ keep f xs else keep f xs

  pub keep-append : (f : A → Bool) (xs ys : List A) → keep f (xs ++ ys) ≡ keep f xs ++ keep f ys
  keep-append f [] ys = refl
  keep-append f (x ∷ xs) ys = ground (arith, keep-append f xs ys)

module _ {ℓ} {A : Type ℓ} ⦃e : Comparable A⦄ where
  pub count-keep :
      (f : A → Bool) (a : A) (xs : List A) → count a (keep f xs) ≡ (if f a then count a xs else 0)
  count-keep f a [] = ground arith
  count-keep f a (x ∷ xs) = ground (arith, count-keep f a xs, e.is_eq_iff x a)

module _ {ℓ κ μ} {A : Type ℓ} {P : A → Type κ} {Q : A → Type μ} (weaken : (a : A) → P a → Q a) where
  pub All-map : (xs : List A) → All P xs → All Q xs
  All-map [] h = tt
  All-map (x ∷ xs) (p, h) = (weaken x p, All-map xs h)
