-- ===== src/Jv/Permutations/Laws.antt =====
-- `Permutations` visits every row of the Cartesian product once, in lexicographic order.
use mathlib.Core.List.{reverse-cons, reverse-reverse, reverse as list_reverse}
use gobase.Base.{
  ℕ, zero, suc, ◌≤◌, ◌<◌, ◌≡◌, refl, sym, ap, ◌∙◌, subst, inl, inr, Bool, true, false, some, List,
  [], ◌∷◌, ◌++◌, map, append_assoc, append-nil, arith, Bool-cases, length, length-append,
  nat_comparable, bool_comparable, list_comparable,
}
use gobase.Base.Int.{ℤ}
use gobase.Jv.Select.Laws.{reverse-list_reverse}
use gobase.Jv.Permutations.Product.{cells, product, all_rows, all_rows-product}
use gobase.Jv.Permutations.Odometer.{
  Fits, row, spread, remaining, later, spread_zero, remaining-incr, incr-Fits,
}
use gobase.Jv.Permutations.{
  PermCounter, value_of, values, incr, counter_for, link, select_at, select_indexes, perm_loop,
  permutations,
}

module _ {ℓ} {B : Type ℓ} (z : B) where
  length-values :
      (ps : List PermCounter) (os : List (List B))
      → Fits z ps os
      → length (values ps) ≡ length (list_reverse os)
  unfolding values Fits
  length-values [] [] f = refl
  length-values [] (o ∷ os) f = elim f [ ]
  length-values (p ∷ ps) [] f = elim f [ ]
  length-values (p ∷ ps) (o ∷ os) (m, h, f) = rw (reverse-cons o os) (
      omega (
        arith,
        length-values ps os f,
        length-append (values ps) (value_of p ∷ []),
        length-append (list_reverse os) (o ∷ []),
      ))

  select-append :
      (os : List (List B)) (is : List ℤ) (o : List B) (i : ℤ)
      → length is ≡ length os
      → select_indexes z (os ++ o ∷ []) (is ++ i ∷ [])
        ≡ select_indexes z os is ++ select_at z o i ∷ []
  unfolding select_indexes
  select-append [] [] o i e = refl
  select-append [] (j ∷ is) o i e = absurd (omega arith)
  select-append (x ∷ os) [] o i e = absurd (omega arith)
  select-append (x ∷ os) (j ∷ is) o i e =
      ap (◌∷◌ (select_at z x j)) (select-append os is o i (omega arith))

  -- The code selects the row of the counters.
  select-row :
      (ps : List PermCounter) (os : List (List B))
      → Fits z ps os
      → select_indexes z (list_reverse os) (values ps) ≡ row z ps os
  unfolding values row Fits
  select-row [] [] f = unfold select_indexes in refl
  select-row [] (o ∷ os) f = elim f [ ]
  select-row (p ∷ ps) [] f = elim f [ ]
  select-row (p ∷ ps) (o ∷ os) (m, h, f) = rw (reverse-cons o os) (
      select-append (list_reverse os) (values ps) o (value_of p) (length-values ps os f)
      ∙ ap (λ r. r ++ select_at z o (value_of p) ∷ []) (select-row ps os f))

  later-true :
      (next : Bool × List PermCounter) (os : List (List B))
      → next.0 ≡ true
      → later z next os ≡ remaining z next.1 os
  unfolding later
  later-true (true, ps) os h = refl
  later-true (false, ps) os h = cc

  later-false :
      (next : Bool × List PermCounter) (os : List (List B)) → next.0 ≡ false → later z next os ≡ []
  unfolding later
  later-false (true, ps) os h = cc
  later-false (false, ps) os h = refl

  perm_loop-remaining :
      (fuel : ℕ) (ps : List PermCounter) (os rows : List (List B))
      → Fits z ps os
      → length (remaining z ps os) ≤ fuel
      → perm_loop fuel z (list_reverse os) ps rows ≡ some (rows ++ remaining z ps os)
  unfolding perm_loop
  perm_loop-remaining zero ps os rows f enough =
      absurd (omega (arith, ap length (remaining-incr z ps os f)))
  perm_loop-remaining (suc fuel) ps os rows f enough =
      rw (select-row ps os f) (elim (Bool-cases (incr ps).0) [
        | inl more ↦
            let step =
              remaining-incr z ps os f ∙ ap (◌∷◌ (row z ps os)) (later-true (incr ps) os more) in
            rw more (
              perm_loop-remaining fuel (incr ps).1 os (rows ++ row z ps os ∷ [])
                (incr-Fits z ps os f) (omega (arith, ap length step))
              ∙ ap some (append_assoc rows _ _ ∙ ap (λ l. rows ++ l) (sym step)))
        | inr over ↦
            let step =
              remaining-incr z ps os f ∙ ap (◌∷◌ (row z ps os)) (later-false (incr ps) os over) in
            rw over (ap (λ l. some (rows ++ l)) (sym step))
      ])

  link-map :
      (rows : List (List B)) (chain : List PermCounter)
      → link rows chain ≡ chain ++ map counter_for rows
  unfolding link
  link-map [] chain = sym (append-nil chain)
  link-map (o ∷ rows) chain = link-map rows (chain ++ counter_for o ∷ []) ∙ append_assoc chain _ _

  start-Fits : (os : List (List B)) → Fits z (map counter_for os) os
  unfolding Fits counter_for
  start-Fits [] = tt
  start-Fits (o ∷ os) = (refl, nonempty o, start-Fits os)
    where
      nonempty : (xs : List B) → 0 < length (cells z xs)
      nonempty [] = omega arith
      nonempty (x ∷ xs) = omega arith

  start-all_rows : (os : List (List B)) → remaining z (map counter_for os) os ≡ all_rows z os
  unfolding remaining counter_for all_rows
  start-all_rows [] = refl
  start-all_rows (o ∷ os) = ap (spread z 0 o) (start-all_rows os) ∙ spread_zero z o (all_rows z os)

  -- The rows that `Permutations` is to visit: none for an empty input.
  abbrev pub expected : List (List B) → List (List B)
  expected [] = []
  expected (o ∷ os) = product z (o ∷ os)

-- `Permutations` ends, and calls back once for each way to choose one option for every item (the
-- default value for an item with no option), in lexicographic order, the last item's choice
-- changing fastest. For an empty input it makes no call.
pub permutations-product {ℓ κ} :
    {A : Type ℓ} {B : Type κ} (fuel : ℕ) (z : B) (input : List A) (extract : A → List B)
    → length (expected z (map extract input)) ≤ fuel
    → permutations fuel z input extract ≡ some (expected z (map extract input))
unfolding permutations
permutations-product fuel z [] extract enough = refl
permutations-product fuel z (item ∷ rest) extract enough =
    let options = map extract (item ∷ rest) in
    let os = list_reverse options in
    let rows =
      start-all_rows z os ∙ all_rows-product z os ∙ ap (product z) (reverse-reverse options) in
    rw (reverse-list_reverse options, link-map z os [])
      (subst (λ o. perm_loop fuel z o (map counter_for os) [] ≡ some (product z options))
        (reverse-reverse options)
        (perm_loop-remaining z fuel (map counter_for os) os [] (start-Fits z os)
            (omega (arith, ap length rows))
          ∙ ap some rows))
