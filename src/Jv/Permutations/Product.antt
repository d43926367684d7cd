-- ===== src/Jv/Permutations/Product.antt =====
-- `Permutations` visits the Cartesian product of the columns, in lexicographic order.
use mathlib.Core.List.{reverse-cons, reverse as list_reverse}
use gobase.Base.{
  ◌≡◌, refl, sym, ap, ◌∙◌, List, [], ◌∷◌, ◌++◌, map, append_assoc, map-append, ap₂, nat_comparable,
  bool_comparable, list_comparable,
}

module _ {ℓ} {B : Type ℓ} where
  unfoldable pub snoc : List B → List B → List (List B)
  snoc r xs = map (λ x. r ++ x ∷ []) xs

  map-snoc : (x : B) (r xs : List B) → snoc (x ∷ r) xs ≡ map (λ row. x ∷ row) (snoc r xs)
  unfolding snoc
  map-snoc x r [] = refl
  map-snoc x r (y ∷ ys) = ap (◌∷◌ (x ∷ r ++ y ∷ [])) (map-snoc x r ys)

module _ {ℓ} {B : Type ℓ} (z : B) where
  -- The choices of a column: one default value where the column has no option.
  abbrev pub cells : List B → List B
  cells [] = z ∷ []
  cells (x ∷ xs) = x ∷ xs

  -- Every way to extend `row` at the front, for the choices `xs` of the first column.
  abbrev pub choose : List B → List (List B) → List (List B)
  choose [] rows = []
  choose (x ∷ xs) rows = map (λ row. x ∷ row) rows ++ choose xs rows

  -- The Cartesian product of the columns in lexicographic order, the last column fastest.
  abbrev pub product : List (List B) → List (List B)
  product [] = [] ∷ []
  product (o ∷ os) = choose (cells o) (product os)

  -- Every row of `rows` extended at the end.
  unfoldable pub prods : List B → List (List B) → List (List B)
  prods o [] = []
  prods o (r ∷ rows) = snoc r (cells o) ++ prods o rows

  prods-append : (o : List B) (r s : List (List B)) → prods o (r ++ s) ≡ prods o r ++ prods o s
  unfolding prods
  prods-append o [] s = refl
  prods-append o (x ∷ r) s = rw (prods-append o r s) (sym (append_assoc (snoc x (cells o)) _ _))

  prods-map :
      (o : List B) (x : B) (rows : List (List B))
      → prods o (map (λ row. x ∷ row) rows) ≡ map (λ row. x ∷ row) (prods o rows)
  unfolding prods
  prods-map o x [] = refl
  prods-map o x (r ∷ rows) =
      rw (map-snoc x r (cells o), prods-map o x rows)
        (sym (map-append (λ row. x ∷ row) (snoc r (cells o)) (prods o rows)))

  prods-choose :
      (o xs : List B) (rows : List (List B)) → prods o (choose xs rows) ≡ choose xs (prods o rows)
  prods-choose o [] rows = unfold prods in refl
  prods-choose o (x ∷ xs) rows =
      prods-append o _ (choose xs rows)
      ∙ ap₂ (λ a b. a ++ b) (prods-map o x rows) (prods-choose o xs rows)

  snoc-choose : (xs : List B) → snoc [] xs ++ [] ≡ choose xs ([] ∷ [])
  unfolding snoc
  snoc-choose [] = refl
  snoc-choose (x ∷ xs) = ap (◌∷◌ (x ∷ [])) (snoc-choose xs)

  product-snoc : (os : List (List B)) (o : List B) → product (os ++ o ∷ []) ≡ prods o (product os)
  product-snoc [] o = unfold prods in sym (snoc-choose (cells o))
  product-snoc (a ∷ os) o =
      ap (choose (cells a)) (product-snoc os o) ∙ sym (prods-choose o (cells a) (product os))

  -- The same product, from the last column on.
  unfoldable pub all_rows : List (List B) → List (List B)
  all_rows [] = [] ∷ []
  all_rows (o ∷ os) = prods o (all_rows os)

  pub all_rows-product : (os : List (List B)) → all_rows os ≡ product (list_reverse os)
  unfolding all_rows
  all_rows-product [] = refl
  all_rows-product (o ∷ os) =
      rw reverse-cons (ap (prods o) (all_rows-product os) ∙ sym (product-snoc (list_reverse os) o))
