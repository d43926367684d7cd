-- ===== src/Jv/Distinct/Unique.antt =====
-- `Unique` and `AreAllUnique` of jv/arrayutil.go.
use mathlib.Core.List.{append_assoc, append-nil}
use gobase.Base.{
  ℕ, ◌≤◌, ◌≡◌, refl, ◌∙◌, sym, ap, Bool, true, false, not, List, [], ◌∷◌, ◌++◌, ◌↔◌, if◌then◌else◌,
  Comparable, ◌==◌, ==-refl, arith, keep, count, IsUnique, Bool-cases, inl, inr, min, count-keep,
}
use gobase.Base.GoMap.{GoMap, get_or, insert, lookup-insert}
use gobase.Jv.Distinct.{unique_loop, unique, all_unique_loop, are_all_unique}

module _ {ℓ} {A : Type ℓ} where
  pub keep-keep :
      (f g : A → Bool) (xs : List A)
      → keep f (keep g xs) ≡ keep (λ x. if f x then g x else false) xs
  keep-keep f g [] = refl
  keep-keep f g (x ∷ xs) = ground (arith, keep-keep f g xs)

  pub keep_congr : (f g : A → Bool) (xs : List A) → ((x : A) → f x ≡ g x) → keep f xs ≡ keep g xs
  keep_congr f g [] h = refl
  keep_congr f g (x ∷ xs) h = ground (arith, h x, keep_congr f g xs h)

module _ {ℓ} {A : Type ℓ} ⦃e : Comparable A⦄ where
  -- The first occurrence of each item, in order.
  abbrev pub firsts : List A → List A
  firsts [] = []
  firsts (x ∷ xs) = x ∷ keep (λ y. not (x == y)) (firsts xs)

  unseen : GoMap A Bool → A → Bool
  unseen mp x = not (get_or false x mp)

  unseen-insert :
      (item : A) (mp : GoMap A Bool) (x : A)
      → unseen (insert item true mp) x ≡ (if unseen mp x then not (item == x) else false)
  unfolding unseen
  unseen-insert item mp x = ground (arith, lookup-insert item x true mp)

  keep-unseen_step :
      (item : A) (mp : GoMap A Bool) (xs : List A)
      → keep (unseen (insert item true mp)) xs ≡ keep (unseen mp) (keep (λ y. not (item == y)) xs)
  keep-unseen_step item mp xs =
      keep_congr _ _ xs (unseen-insert item mp) ∙ sym (keep-keep (unseen mp) _ xs)

  -- An item that is not wanted need not be removed first.
  keep_skip :
      (item : A) (f : A → Bool) (xs : List A)
      → f item ≡ false
      → keep f (keep (λ y. not (item == y)) xs) ≡ keep f xs
  keep_skip item f [] h = refl
  keep_skip item f (x ∷ xs) h = elim (Bool-cases (item == x)) [
    | inl same ↦
        let at : f x ≡ false = ap f (sym ((e.is_eq_iff item x).0 same)) ∙ h in
        rw (same, at) (keep_skip item f xs h)
    | inr other ↦ rw other (ground (arith, keep_skip item f xs h))
  ]

  unique_loop-firsts :
      (input : List A) (mp : GoMap A Bool) (list : List A)
      → unique_loop input mp list ≡ list ++ keep (unseen mp) (firsts input)
  unfolding unique_loop
  unique_loop-firsts [] mp list = sym (append-nil list)
  unique_loop-firsts (x ∷ xs) mp list = elim (Bool-cases (get_or false x mp)) [
    | inl seen ↦
        let hidden : unseen mp x ≡ false = unfold unseen in ap not seen in
        rw (seen, unique_loop, hidden)
          (unique_loop-firsts xs mp list
            ∙ ap (◌++◌ list) (sym (keep_skip x (unseen mp) (firsts xs) hidden)))
    | inr fresh ↦
        let shown : unseen mp x ≡ true = unfold unseen in ap not fresh in
        rw (fresh, unique_loop, shown)
          (unique_loop-firsts xs (insert x true mp) (list ++ x ∷ [])
            ∙ append_assoc list _ _
            ∙ ap (λ ys. list ++ x ∷ ys) (keep-unseen_step x mp (firsts xs)))
  ]

  count-firsts : (a : A) (xs : List A) → count a (firsts xs) ≡ min 1 (count a xs)
  count-firsts a [] = omega arith
  count-firsts a (x ∷ xs) =
      ground (arith, count-keep (λ y. not (x == y)) a (firsts xs), count-firsts a xs)

  keep_all : (f : A → Bool) (xs : List A) → ((x : A) → f x ≡ true) → keep f xs ≡ xs
  keep_all f [] h = refl
  keep_all f (x ∷ xs) h = ground (arith, h x, keep_all f xs h)

  -- `Unique` keeps the first occurrence of each item, in the order of the input: every item of
  -- the input stands in the result exactly once, and nothing else does.
  pub unique_exact :
      (input : List A)
      → (unique input ≡ firsts input) × ((a : A) → count a (unique input) ≡ min 1 (count a input))
  unfolding unique unseen
  unique_exact input =
      let same : unique_loop input [] [] ≡ firsts input =
        unique_loop-firsts input [] [] ∙ keep_all (unseen []) (firsts input) (λ x. refl) in
      (same, λ a. ap (count a) same ∙ count-firsts a input)

  abbrev room : GoMap A Bool → A → ℕ
  room parts a = if get_or false a parts then 0 else 1

  all_unique_sound :
      (input : List A) (parts : GoMap A Bool) (a : A)
      → all_unique_loop input parts ≡ true
      → count a input ≤ room parts a
  unfolding all_unique_loop
  all_unique_sound [] parts a h = omega arith
  all_unique_sound (x ∷ xs) parts a h = ground (
    arith,
    all_unique_sound xs (insert x true parts) a,
    lookup-insert x a true parts,
    e.is_eq_iff x a,
  )

  all_unique_complete :
      (input : List A) (parts : GoMap A Bool)
      → ((a : A) → count a input ≤ room parts a)
      → all_unique_loop input parts ≡ true
  unfolding all_unique_loop
  all_unique_complete [] parts h = refl
  all_unique_complete (x ∷ xs) parts h =
      let rest =
        all_unique_complete xs (insert x true parts)
          λ a. ground (arith, h a, lookup-insert x a true parts, e.is_eq_iff x a) in
      ground (arith, h x, ==-refl x, rest)

  -- `AreAllUnique` decides whether no item stands twice.
  pub are_all_unique_iff : (input : List A) → (are_all_unique input ≡ true) ↔ IsUnique input
  unfolding are_all_unique
  are_all_unique_iff [] = (λ h a. omega arith, λ h. refl)
  are_all_unique_iff (x ∷ xs) =
      (λ h a. all_unique_sound (x ∷ xs) [] a h, λ h. all_unique_complete (x ∷ xs) [] h)
