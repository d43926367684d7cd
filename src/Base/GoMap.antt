-- ===== src/Base/GoMap.antt =====
-- Go's built-in map: an association list whose keys are distinct. The order of the list is the
-- order in which one `range` visits the map; Go leaves it open, so a statement about every
-- association list is one about every order of visiting.
use mathlib.Core.Path.{◌≡◌, refl}
use mathlib.Core.Option.{Option, none, some}
use mathlib.Core.List.{List, [], ◌∷◌}
use native.Mathlib.Omega.{arith}
use gobase.Base.Tests.{if◌then◌else◌}
use gobase.Base.Equality.{Comparable, ◌==◌}
use gobase.Base.Count.{count, IsUnique}

abbrev pub GoMap {ℓ κ} : Type ℓ → Type κ → Type (ℓ ⊔ κ)
GoMap K V = List (K × V)

-- The first of two optional values that is there.
abbrev pub or_else {ℓ} : {V : Type ℓ} → Option V → Option V → Option V
or_else none other = other
or_else (some v) other = some v

module _ {ℓ κ} {K : Type ℓ} {V : Type κ} where
  abbrev pub keys : GoMap K V → List K
  keys [] = []
  keys ((k, v) ∷ m) = k ∷ keys m

module _ {ℓ κ} {K : Type ℓ} {V : Type κ} ⦃e : Comparable K⦄ where
  -- `v, ok := m[k]`.
  abbrev pub lookup : K → GoMap K V → Option V
  lookup k [] = none
  lookup k ((j, v) ∷ m) = if j == k then some v else lookup k m

  -- `m[k]`, the zero value for a missing key.
  abbrev pub get_or : V → K → GoMap K V → V
  get_or zero_value k m = elim (lookup k m) [ none ↦ zero_value | some v ↦ v ]

  -- `m[k] = v`.
  abbrev pub insert : K → V → GoMap K V → GoMap K V
  insert key new [] = (key, new) ∷ []
  insert key new ((k, old) ∷ rest) =
      if k == key then (key, new) ∷ rest else (k, old) ∷ insert key new rest

  pub lookup-insert :
      (key k : K) (new : V) (m : GoMap K V)
      → lookup k (insert key new m) ≡ (if key == k then some new else lookup k m)
  lookup-insert key k new [] = refl
  lookup-insert key k new ((j, old) ∷ rest) =
      ground
        (arith, lookup-insert key k new rest, e.is_eq_iff j k, e.is_eq_iff j key, e.is_eq_iff key k)

  -- The keys are distinct, as Go's maps keep them.
  abbrev pub IsMap : GoMap K V → Type ℓ
  IsMap m = IsUnique (keys m)

  pub count-keys-insert :
      (k a : K) (v : V) (m : GoMap K V)
      → IsMap m
      → count a (keys (insert k v m)) ≡ (if k == a then 1 else count a (keys m))
  count-keys-insert k a v [] h = ground arith
  count-keys-insert k a v ((j, w) ∷ m) h = ground (
    arith,
    e.is_eq_iff k a,
    e.is_eq_iff j k,
    e.is_eq_iff j a,
    h a,
    count-keys-insert k a v m (λ b. ground (arith, h b)),
  )
