-- ===== src/Jv/Permutations/Odometer.antt =====
-- `permCounter.Incr` steps its odometer through the rows of the product.
use gobase.Base.{
  ℕ, zero, suc, ◌+◌, ◌<◌, ◌≡◌, refl, sym, ap, ◌∙◌, inl, inr, Bool, true, false, List, [], ◌∷◌, ◌++◌,
  arith, if◌then◌else◌, Bool-cases, length, get_or, drop, nat_comparable, bool_comparable,
  list_comparable,
}
use gobase.Base.Int.{pos, sub_ℕ, leb_ℤ}
use gobase.Jv.Permutations.Product.{cells, snoc, prods}
use gobase.Jv.Permutations.{PermCounter, value_of, incr, select_at}

module _ {ℓ} {B : Type ℓ} (z : B) where
  -- The counters belong to the columns, the root to the first of `os`.
  unfoldable pub Fits : List PermCounter → List (List B) → Type 0
  Fits [] [] = Unit
  Fits [] (o ∷ os) = ⊥
  Fits (p ∷ ps) [] = ⊥
  Fits (p ∷ ps) (o ∷ os) =
      (p.max ≡ sub_ℕ (length o) 1) × (p.value < length (cells z o)) × Fits ps os

  -- The row that the counters select.
  unfoldable pub row : List PermCounter → List (List B) → List B
  row [] os = []
  row (p ∷ ps) [] = []
  row (p ∷ ps) (o ∷ os) = row ps os ++ select_at z o (value_of p) ∷ []

  -- The rows from choice `v` of a new last column on.
  unfoldable pub spread : ℕ → List B → List (List B) → List (List B)
  unfolding prods snoc
  spread v o [] = []
  spread v o (r ∷ rows) = snoc r (drop v (cells z o)) ++ prods z o rows

  -- The rows that are still to come, the present one first.
  unfoldable pub remaining : List PermCounter → List (List B) → List (List B)
  unfolding spread
  remaining [] os = [] ∷ []
  remaining (p ∷ ps) [] = []
  remaining (p ∷ ps) (o ∷ os) = spread p.value o (remaining ps os)

  pub spread_zero : (o : List B) (rows : List (List B)) → spread 0 o rows ≡ prods z o rows
  unfolding spread prods
  spread_zero o [] = refl
  spread_zero o (r ∷ rows) = refl

  at_maximum : (o : List B) (p : PermCounter) → Bool
  at_maximum o p = leb_ℤ p.max (pos p.value)

  drop_last : (xs : List B) (v : ℕ) → suc v ≡ length xs → drop v xs ≡ get_or xs v z ∷ []
  drop_last [] v h = absurd (omega arith)
  drop_last (x ∷ []) zero h = refl
  drop_last (x ∷ y ∷ xs) zero h = absurd (omega arith)
  drop_last (x ∷ xs) (suc v) h = drop_last xs v (omega arith)

  drop_more : (xs : List B) (v : ℕ) → v < length xs → drop v xs ≡ get_or xs v z ∷ drop (suc v) xs
  drop_more [] v h = absurd (omega arith)
  drop_more (x ∷ xs) zero h = refl
  drop_more (x ∷ xs) (suc v) h = drop_more xs v (omega arith)

  select_at-cells :
      (o : List B) (p : PermCounter)
      → p.max ≡ sub_ℕ (length o) 1
      → p.value < length (cells z o)
      → select_at z o (value_of p) ≡ get_or (cells z o) p.value z
  unfolding select_at value_of
  select_at-cells [] p m h = let e : p.value ≡ 0 = omega arith in rw (m, e)
  select_at-cells (x ∷ xs) p m h = rw m (ground arith)

  at_end :
      (o : List B) (p : PermCounter)
      → p.max ≡ sub_ℕ (length o) 1
      → p.value < length (cells z o)
      → (if leb_ℤ p.max (pos p.value) then suc p.value else length (cells z o)) ≡ length (cells z o)
  at_end [] p m h = ground arith
  at_end (x ∷ xs) p m h = ground arith

  before_end :
      (o : List B) (p : PermCounter)
      → p.max ≡ sub_ℕ (length o) 1
      → leb_ℤ p.max (pos p.value) ≡ false
      → suc p.value < length (cells z o)
  before_end [] p m h = ground arith
  before_end (x ∷ xs) p m h = ground arith

  module _ (o : List B) (p : PermCounter) (m : p.max ≡ sub_ℕ (length o) 1)
      (h : p.value < length (cells z o)) (r : List B) (rows : List (List B)) where
    spread_last :
        leb_ℤ p.max (pos p.value) ≡ true
        → spread p.value o (r ∷ rows) ≡ (r ++ select_at z o (value_of p) ∷ []) ∷ spread 0 o rows
    unfolding spread snoc
    spread_last full =
        rw (drop_last (cells z o) p.value (ground (arith, at_end o p m h)), select_at-cells o p m h)
          (ap (λ l. (r ++ get_or (cells z o) p.value z ∷ []) ∷ l) (sym (spread_zero o rows)))

    spread_more :
        leb_ℤ p.max (pos p.value) ≡ false
        → spread p.value o (r ∷ rows)
          ≡ (r ++ select_at z o (value_of p) ∷ []) ∷ spread (p.value + 1) o (r ∷ rows)
    unfolding spread snoc
    spread_more more =
        let e : p.value + 1 ≡ suc p.value = omega arith in
        rw (drop_more (cells z o) p.value h, select_at-cells o p m h, e)

  -- What is still to come: the present row, and what comes after one `Incr`.
  unfoldable pub later : Bool × List PermCounter → List (List B) → List (List B)
  unfolding remaining
  later (true, ps) os = remaining ps os
  later (false, ps) os = []

  later_wrap :
      (p : PermCounter) (o : List B) (next : Bool × List PermCounter) (os : List (List B))
      → later (next.0, record p { value = 0 } ∷ next.1) (o ∷ os) ≡ spread 0 o (later next os)
  unfolding later remaining
  later_wrap p o (true, ps) os = refl
  later_wrap p o (false, ps) os = refl

  pub remaining-incr :
      (ps : List PermCounter) (os : List (List B))
      → Fits ps os
      → remaining ps os ≡ row ps os ∷ later (incr ps) os
  unfolding remaining later row incr Fits
  remaining-incr [] os f = refl
  remaining-incr (p ∷ ps) [] f = elim f [ ]
  remaining-incr (p ∷ []) (o ∷ []) (m, h, f) = elim (Bool-cases (leb_ℤ p.max (pos p.value))) [
    | inl full ↦ rw full (spread_last o p m h [] [] full)
    | inr more ↦ rw more (spread_more o p m h [] [] more)
  ]
  remaining-incr (p ∷ []) (o ∷ o' ∷ os) (m, h, f) = elim f [ ]
  remaining-incr (p ∷ q ∷ next) (o ∷ os) (m, h, f) =
      let ih = remaining-incr (q ∷ next) os f in
      let r = row (q ∷ next) os in
      let now = r ++ select_at z o (value_of p) ∷ [] in
      elim (Bool-cases (leb_ℤ p.max (pos p.value))) [
        | inl full ↦ rw full (
            ap (spread p.value o) ih
            ∙ spread_last o p m h r (later (incr (q ∷ next)) os) full
            ∙ ap (λ l. now ∷ l) (sym (later_wrap p o (incr (q ∷ next)) os)))
        | inr more ↦ rw more (
            ap (spread p.value o) ih
            ∙ spread_more o p m h r (later (incr (q ∷ next)) os) more
            ∙ ap (λ l. now ∷ spread (p.value + 1) o l) (sym ih))
      ]

  pub incr-Fits : (ps : List PermCounter) (os : List (List B)) → Fits ps os → Fits (incr ps).1 os
  unfolding incr Fits
  incr-Fits [] os f = f
  incr-Fits (p ∷ []) [] f = elim f [ ]
  incr-Fits (p ∷ q ∷ next) [] f = elim f [ ]
  incr-Fits (p ∷ []) (o ∷ os) (m, h, f) = elim (Bool-cases (leb_ℤ p.max (pos p.value))) [
    | inl full ↦ rw full (m, h, f)
    | inr more ↦ rw more (m, omega (arith, before_end o p m more), f)
  ]
  incr-Fits (p ∷ q ∷ next) (o ∷ os) (m, h, f) = elim (Bool-cases (leb_ℤ p.max (pos p.value))) [
    | inl full ↦ rw full (m, omega (arith, h), incr-Fits (q ∷ next) os f)
    | inr more ↦ rw more (m, omega (arith, before_end o p m more), f)
  ]
