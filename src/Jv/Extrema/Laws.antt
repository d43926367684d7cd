-- ===== src/Jv/Extrema/Laws.antt =====
-- The least and the greatest item.
use gobase.Base.{
  ℕ, zero, suc, ◌≡◌, refl, ap, ◌∙◌, subst, inl, inr, false, some, List, [], ◌∷◌, if◌then◌else◌,
  Bool-cases, get_elem?, nat_comparable, bool_comparable, list_comparable,
}
use gobase.Base.Ordered.{Ordered, lt_irrefl}
use gobase.Jv.Extrema.{min_loop, max_loop, min_of, max_of}

module _ {ℓ} {A : Type ℓ} ⦃o : Ordered A⦄ where
  -- Every item is at least `r`.
  abbrev pub IsLower : A → List A → Type 0
  IsLower r [] = Unit
  IsLower r (x ∷ xs) = (o.lt x r ≡ false) × IsLower r xs

  min_loop-IsLower : (xs : List A) (m : A) → IsLower (min_loop xs m) (m ∷ xs)
  unfolding min_loop
  min_loop-IsLower [] m = (lt_irrefl m, tt)
  min_loop-IsLower (x ∷ xs) m = elim (Bool-cases (o.lt x m)) [
    | inl less ↦
        let e : min_loop xs x ≡ min_loop (x ∷ xs) m = rw (less, min_loop) refl in
        let (le, all) = min_loop-IsLower xs x in
        subst (λ r. IsLower r (m ∷ x ∷ xs)) e
          (o.le_trans (min_loop xs x) x m le (o.lt_asymm x m less), (le, all))
    | inr more ↦
        let e : min_loop xs m ≡ min_loop (x ∷ xs) m = rw (more, min_loop) refl in
        let (le, all) = min_loop-IsLower xs m in
        subst (λ r. IsLower r (m ∷ x ∷ xs)) e (le, (o.le_trans (min_loop xs m) m x le more, all))
  ]

  past :
      {r : A} (x m : A) (xs : List A) (i : ℕ)
      → get_elem? (m ∷ xs) i ≡ some r
      → (j : ℕ) × (get_elem? (m ∷ x ∷ xs) j ≡ some r)
  past x m xs zero e = (0, e)
  past x m xs (suc i) e = (suc (suc i), e)

  min_loop_member : (xs : List A) (m : A) → (i : ℕ) × (get_elem? (m ∷ xs) i ≡ some (min_loop xs m))
  unfolding min_loop
  min_loop_member [] m = (0, refl)
  min_loop_member (x ∷ xs) m = elim (Bool-cases (o.lt x m)) [
    | inl less ↦
        let e : min_loop xs x ≡ min_loop (x ∷ xs) m = rw (less, min_loop) refl in
        let (i, at) = min_loop_member xs x in (suc i, at ∙ ap some e)
    | inr more ↦
        let e : min_loop xs m ≡ min_loop (x ∷ xs) m = rw (more, min_loop) refl in
        let (i, at) = min_loop_member xs m in past x m xs i (at ∙ ap some e)
  ]

-- The order read backwards.
abbrev pub backwards {ℓ} : {A : Type ℓ} → Ordered A → Ordered A
backwards o = record {
  lt = λ a b. o.lt b a;
  lt_asymm = λ a b h. o.lt_asymm b a h;
  le_trans = λ a b c h k. o.le_trans c b a k h;
}

module _ {ℓ} {A : Type ℓ} ⦃o : Ordered A⦄ where
  max_loop-min_loop : (xs : List A) (m : A) → max_loop xs m ≡ min_loop ⦃o = backwards o⦄ xs m
  unfolding max_loop min_loop
  max_loop-min_loop [] m = refl
  max_loop-min_loop (x ∷ xs) m = max_loop-min_loop xs (if o.lt m x then x else m)

  once :
      {r : A} (x : A) (xs : List A) (i : ℕ)
      → get_elem? (x ∷ x ∷ xs) i ≡ some r
      → (j : ℕ) × (get_elem? (x ∷ xs) j ≡ some r)
  once x xs zero e = (0, e)
  once x xs (suc i) e = (i, e)

  -- `Min` and `Max` of a call with an argument are two of its arguments: no argument is less than
  -- the first, and none is greater than the second.
  pub extremes_exact :
      (x : A) (xs : List A)
      → (least : A) × (greatest : A) × (min_of (x ∷ xs) ≡ some least)
        × (max_of (x ∷ xs) ≡ some greatest)
        × ((i : ℕ) × (get_elem? (x ∷ xs) i ≡ some least))
        × ((i : ℕ) × (get_elem? (x ∷ xs) i ≡ some greatest))
        × IsLower least (x ∷ xs)
        × IsLower ⦃o = backwards o⦄ greatest (x ∷ xs)
  unfolding min_of max_of
  extremes_exact x xs =
      let e = max_loop-min_loop (x ∷ xs) x in
      let (le, below) = min_loop-IsLower (x ∷ xs) x in
      let (ge, above) = min_loop-IsLower ⦃o = backwards o⦄ (x ∷ xs) x in
      let (i, at) = min_loop_member (x ∷ xs) x in
      let (j, found) = min_loop_member ⦃o = backwards o⦄ (x ∷ xs) x in
      (
        min_loop (x ∷ xs) x,
        min_loop ⦃o = backwards o⦄ (x ∷ xs) x,
        refl,
        ap some e,
        once x xs i at,
        once x xs j found,
        below,
        above,
      )
