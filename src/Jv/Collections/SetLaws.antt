-- ===== src/Jv/Collections/SetLaws.antt =====
-- `Set` of jv/set.go: membership after `Add` and `Remove`, and what `Add` does with repeats.
use gobase.Base.{
  ℕ, ◌+◌, ◌≡◌, refl, Bool, true, false, not, List, [], ◌∷◌, ◌++◌, arith, if◌then◌else◌,
  nat_comparable, bool_comparable, list_comparable, keep,
}
use gobase.Jv.Select.Laws.{filter_items-keep}
use gobase.Jv.Collections.MapLaws.{IsEquivalence}
use gobase.Jv.Collections.{set_contains, set_add, set_remove}

module _ {ℓ} {A : Type ℓ} (equality : A → A → Bool) where
  -- How many stored values equal `x`.
  abbrev pub copies : List A → A → ℕ
  copies [] x = 0
  copies (v ∷ values) x = (if equality v x then 1 else 0) + copies values x

  copies-append : (xs ys : List A) (x : A) → copies (xs ++ ys) x ≡ copies xs x + copies ys x
  copies-append [] ys x = omega arith
  copies-append (v ∷ xs) ys x = omega (arith, copies-append xs ys x)

module _ {ℓ} {A : Type ℓ} (equality : A → A → Bool) (q : IsEquivalence equality) where
  contains-append :
      (xs ys : List A) (x : A)
      → set_contains equality (xs ++ ys) x
        ≡ (if set_contains equality xs x then true else set_contains equality ys x)
  unfolding set_contains
  contains-append [] ys x = refl
  contains-append (y ∷ xs) ys x = ground (arith, contains-append xs ys x)

  contains_congr :
      (xs : List A) (x y : A)
      → equality x y ≡ true
      → set_contains equality xs x ≡ set_contains equality xs y
  unfolding set_contains
  contains_congr [] x y h = refl
  contains_congr (z ∷ xs) x y h =
      ground (arith, contains_congr xs x y h, q.is_trans z x y, q.is_trans z y x, q.is_symm x y)

  -- What `Add` appends holds the new values that were not there.
  contains-new :
      (values vs : List A) (x : A)
      → set_contains equality values x ≡ false
      → set_contains equality (keep (λ v. not (set_contains equality values v)) vs) x
        ≡ set_contains equality vs x
  unfolding set_contains
  contains-new values [] x h = refl
  contains-new values (v ∷ vs) x h =
      ground (arith, contains-new values vs x h, contains_congr values v x)

  contains-keep :
      (values : List A) (value x : A)
      → set_contains equality (keep (λ v. not (equality value v)) values) x
        ≡ (if equality value x then false else set_contains equality values x)
  unfolding set_contains
  contains-keep [] value x = ground arith
  contains-keep (v ∷ values) value x = ground (
    arith,
    contains-keep values value x,
    q.is_trans value v x,
    q.is_trans value x v,
    q.is_symm v x,
  )

  -- After `Add` the set contains what it contained and the values given; after `Remove` it
  -- contains what it contained, but for the values equal to the one given.
  pub set_contains_after :
      (values vs : List A) (value x : A)
      → (set_contains equality (set_add equality values vs) x
          ≡ (if set_contains equality values x then true else set_contains equality vs x))
        × (set_contains equality (set_remove equality values value) x
            ≡ (if equality value x then false else set_contains equality values x))
  unfolding set_add set_remove
  set_contains_after values vs value x = (
    rw (filter_items-keep, contains-append values _ x) (ground (arith, contains-new values vs x)),
    rw filter_items-keep (contains-keep values value x),
  )

  copies-new :
      (values vs : List A) (x : A)
      → copies equality (keep (λ v. not (set_contains equality values v)) vs) x
        ≡ (if set_contains equality values x then 0 else copies equality vs x)
  copies-new values [] x = ground arith
  copies-new values (v ∷ vs) x = ground (arith, copies-new values vs x, contains_congr values v x)

  -- `Add` filters its values against the old contents only: a value that the set lacks is stored
  -- as many times as one call names it.
  pub copies-set_add :
      (values vs : List A) (x : A)
      → copies equality (set_add equality values vs) x ≡ (
          if set_contains equality values x
          then copies equality values x
          else copies equality values x + copies equality vs x)
  unfolding set_add
  copies-set_add values vs x = rw filter_items-keep (
      ground (
        arith,
        copies-append equality values (keep (λ v. not (set_contains equality values v)) vs) x,
        copies-new values vs x,
      ))
