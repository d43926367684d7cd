-- ===== src/Jv/Distinct/Groups.antt =====
-- `GroupBy` of jv/arrayutil.go.
use gobase.Base.{
  ◌≡◌, refl, sym, ap, ◌∙◌, inl, inr, Option, none, some, List, [], ◌∷◌, ◌++◌, append_assoc,
  append-nil, arith, Bool-cases, Comparable, ◌==◌, nat_comparable, bool_comparable, list_comparable,
  keep,
}
use gobase.Base.GoMap.{GoMap, get_or, insert, lookup-insert, lookup, IsMap, count-keys-insert}
use gobase.Jv.Distinct.{group_loop, group_by}

-- A group, if there is one, followed by the later items of that group.
module _ {ℓ} {A : Type ℓ} where
  abbrev pub joined : Option (List A) → List A → Option (List A)
  joined none [] = none
  joined none (x ∷ xs) = some (x ∷ xs)
  joined (some group) xs = some (group ++ xs)

  joined-cons :
      (group : Option (List A)) (x : A) (xs : List A)
      → joined (some (elim group [ none ↦ [] | some v ↦ v ] ++ x ∷ [])) xs ≡ joined group (x ∷ xs)
  joined-cons none x xs = refl
  joined-cons (some g) x xs = ap some (append_assoc g (x ∷ []) xs)

  joined-nil : (group : Option (List A)) → joined group [] ≡ group
  joined-nil none = refl
  joined-nil (some g) = ap some (append-nil g)

module _ {ℓ κ} {A : Type ℓ} {K : Type κ} ⦃e : Comparable K⦄ where
  lookup-group_loop :
      (list : List A) (grouper : A → K) (output : GoMap K (List A)) (k : K)
      → lookup k (group_loop list grouper output)
        ≡ joined (lookup k output) (keep (λ x. grouper x == k) list)
  unfolding group_loop
  lookup-group_loop [] grouper output k = sym (joined-nil (lookup k output))
  lookup-group_loop (x ∷ xs) grouper output k =
      let key = grouper x in
      let output' = insert key (get_or [] key output ++ x ∷ []) output in
      lookup-group_loop xs grouper output' k
      ∙ ap (λ o. joined o (keep (λ y. grouper y == k) xs)) (lookup-insert key k _ output)
      ∙ elim (Bool-cases (key == k)) [
        | inl same ↦
            let at : lookup key output ≡ lookup k output =
              ap (λ j. lookup j output) ((e.is_eq_iff key k).0 same) in
            rw (same, ← at) (joined-cons (lookup key output) x (keep (λ y. grouper y == k) xs))
        | inr other ↦ rw other
      ]

  group_loop-IsMap :
      (list : List A) (grouper : A → K) (output : GoMap K (List A))
      → IsMap output
      → IsMap (group_loop list grouper output)
  unfolding group_loop
  group_loop-IsMap [] grouper output h = h
  group_loop-IsMap (x ∷ xs) grouper output h = group_loop-IsMap xs grouper _ λ a. ground (
    arith,
    count-keys-insert (grouper x) a (get_or [] (grouper x) output ++ x ∷ []) output h,
    h a,
  )

  -- `GroupBy` builds a map with distinct keys in which a key has an entry exactly if some item of
  -- the list has that key, and the entry holds those items in the order of the list.
  pub group_by_exact :
      (list : List A) (grouper : A → K)
      → IsMap (group_by list grouper)
        × ((k : K)
            → lookup k (group_by list grouper) ≡ joined none (keep (λ x. grouper x == k) list))
  unfolding group_by
  group_by_exact list grouper =
      (group_loop-IsMap list grouper [] (λ a. omega arith), lookup-group_loop list grouper [])
