-- ===== src/Jv/Distinct/Merge.antt =====
-- `MergeObjects` of jv/arrayutil.go.
use gobase.Base.{
  ◌≡◌, refl, ap, ◌∙◌, Bool, false, not, List, [], ◌∷◌, ◌++◌, append_assoc, append-nil, Comparable,
  nat_comparable, bool_comparable, list_comparable, keep,
}
use gobase.Jv.Select.Laws.{remove_from_list-keep}
use gobase.Jv.Search.{contains_item}
use gobase.Jv.Distinct.{merge_into, merge_loop, merge_objects}

module _ {ℓ} {A : Type ℓ} ⦃e : Comparable A⦄ (merger : A → A → A × Bool) where
  merge_into_none :
      ((a b : A) → (merger a b).1 ≡ false)
      → (a : A) (rest : List A) → merge_into merger a rest [] ≡ (a, [])
  unfolding merge_into
  merge_into_none never a [] = refl
  merge_into_none never a (b ∷ rest) = rw (never a b, merge_into) (merge_into_none never a rest)

  merge_loop_none :
      ((a b : A) → (merger a b).1 ≡ false)
      → (done list : List A) → merge_loop merger done list [] ≡ (done ++ list, [])
  unfolding merge_loop
  merge_loop_none never done [] = rw append-nil
  merge_loop_none never done (a ∷ rest) =
      rw (merge_into_none never a rest)
        (merge_loop_none never (done ++ a ∷ []) rest ∙ ap (λ l. (l, [])) (append_assoc done _ _))

  -- A merger that never merges leaves the list as it is.
  pub merge_objects_none :
      ((a b : A) → (merger a b).1 ≡ false) → (list : List A) → merge_objects list merger ≡ list
  unfolding merge_objects contains_item
  merge_objects_none never list =
      rw (merge_loop_none never [] list) (rw remove_from_list-keep (keep_all list))
    where
      keep_all : (xs : List A) → keep (λ x. not (contains_item [] x)) xs ≡ xs
      keep_all [] = refl
      keep_all (x ∷ xs) = ap (◌∷◌ x) (keep_all xs)
