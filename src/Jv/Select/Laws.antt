-- ===== src/Jv/Select/Laws.antt =====
-- The slice builders of jv/arrayutil.go against plain descriptions of their results.
use mathlib.Core.List.{reverse-cons, reverse-reverse}
use mathlib.Core.List.{reverse as list_reverse}
use gobase.Base.{
  ℕ, zero, suc, ◌+◌, ◌≤◌, ◌<◌, ◌≡◌, refl, ◌∙◌, sym, ap, Bool, true, false, not, List, [], ◌∷◌, ◌++◌,
  map, Option, none, some, if◌then◌else◌, Comparable, ◌==◌, length, get_elem?, arith, keep, count,
  Bool-cases, append_assoc, append-nil, length-append, keep-append, count-keep, count-append, inl,
  inr, subst, fun_ext, length-reverse, get_elem?-reverse,
}
use gobase.Base
use gobase.Base.GoMap.{GoMap, get_or, insert, lookup-insert}
use gobase.Jv.Search.{contains_item}
use gobase.Jv.Select.{
  reverse_from, reverse, filter_loop, filter_items, union_loop, union_all, found_in,
  intersection_fx_loop, intersection_fx, mapper_loop, map_items, intersection_loop, intersection,
  mark_all, remove_loop, remove_from_list, filter_by_loop, filter_by_map_key,
}

module _ {ℓ} {A : Type ℓ} where
  reverse_from-append :
      (xs ys out : List A) → reverse_from (length xs) (list_reverse xs ++ ys) out ≡ out ++ xs
  unfolding reverse_from
  reverse_from-append [] ys out = sym (append-nil out)
  reverse_from-append (x ∷ xs) ys out =
      rw (get_elem?-reverse x xs ys, reverse_from)
        (rw (reverse-cons x xs, append_assoc (list_reverse xs) (x ∷ []) ys)
          (reverse_from-append xs (x ∷ ys) (out ++ x ∷ []) ∙ append_assoc out _ _))

  -- `Reverse` is the library's reversal.
  pub reverse-list_reverse : (input : List A) → reverse input ≡ list_reverse input
  unfolding reverse
  reverse-list_reverse input = rw (← length-reverse input) (
      subst (λ xs. reverse_from (length (list_reverse input)) xs [] ≡ list_reverse input)
        (append-nil _ ∙ reverse-reverse input) (reverse_from-append (list_reverse input) [] []))

  filter_loop-keep :
      (input : List A) (filter : A → Bool) (list : List A)
      → filter_loop input filter list ≡ list ++ keep filter input
  unfolding filter_loop
  filter_loop-keep [] filter list = sym (append-nil list)
  filter_loop-keep (x ∷ xs) filter list = elim (Bool-cases (filter x)) [
    | inl hit ↦ rw hit (filter_loop-keep xs filter (list ++ x ∷ []) ∙ append_assoc list _ _)
    | inr miss ↦ rw miss (filter_loop-keep xs filter list)
  ]

  pub filter_items-keep :
      (input : List A) (filter : A → Bool) → filter_items input filter ≡ keep filter input
  unfolding filter_items
  filter_items-keep input filter = filter_loop-keep input filter []

  union_loop-append : (b new_list : List A) → union_loop b new_list ≡ new_list ++ b
  unfolding union_loop
  union_loop-append [] new_list = sym (append-nil new_list)
  union_loop-append (x ∷ b) new_list =
      union_loop-append b (new_list ++ x ∷ []) ∙ append_assoc new_list _ _

  pub union_all-append : (a b : List A) → union_all a b ≡ a ++ b
  unfolding union_all
  union_all-append a b = union_loop-append b a

module _ {ℓ} {A : Type ℓ} ⦃e : Comparable A⦄ where
  marked :
      (item : A) (xs : List A) (remove : GoMap A Bool)
      → get_or false item (mark_all xs remove)
        ≡ (if contains_item xs item then true else get_or false item remove)
  unfolding mark_all contains_item
  marked item [] remove = refl
  marked item (x ∷ xs) remove =
      ground (arith, marked item xs (insert x true remove), lookup-insert x item true remove)

  remove_loop-keep :
      (src : List A) (remove : GoMap A Bool) (list : List A)
      → remove_loop src remove list ≡ list ++ keep (λ x. not (get_or false x remove)) src
  unfolding remove_loop
  remove_loop-keep [] remove list = sym (append-nil list)
  remove_loop-keep (x ∷ xs) remove list = ground (
    arith,
    remove_loop-keep xs remove list,
    remove_loop-keep xs remove (list ++ x ∷ []),
    append_assoc list (x ∷ []) (keep (λ y. not (get_or false y remove)) xs),
  )

  pub remove_from_list-keep :
      (src to_remove : List A)
      → remove_from_list src to_remove ≡ keep (λ x. not (contains_item to_remove x)) src
  unfolding remove_from_list
  remove_from_list-keep src to_remove =
      remove_loop-keep src (mark_all to_remove []) []
      ∙ ap (λ f. keep f src) (fun_ext λ x. ap not (marked_fresh to_remove x))
    where
      marked_fresh : (xs : List A) (x : A) → get_or false x (mark_all xs []) ≡ contains_item xs x
      marked_fresh xs x = ground (arith, marked x xs [])

  intersection_loop-keep :
      (a b common : List A) → intersection_loop a b common ≡ common ++ keep (contains_item b) a
  unfolding intersection_loop
  intersection_loop-keep [] b common = sym (append-nil common)
  intersection_loop-keep (x ∷ a) b common = ground (
    arith,
    intersection_loop-keep a b common,
    intersection_loop-keep a b (common ++ x ∷ []),
    append_assoc common (x ∷ []) (keep (contains_item b) a),
  )

  intersection-keep : (a b : List A) → intersection a b ≡ keep (contains_item b) a
  unfolding intersection
  intersection-keep a b = intersection_loop-keep a b []

  filter_by_loop-keep :
      (list : List A) (m : GoMap A Bool) (new_list : List A)
      → filter_by_loop list m new_list ≡ new_list ++ keep (λ x. not (get_or false x m)) list
  unfolding filter_by_loop
  filter_by_loop-keep [] m new_list = sym (append-nil new_list)
  filter_by_loop-keep (x ∷ xs) m new_list = ground (
    arith,
    filter_by_loop-keep xs m new_list,
    filter_by_loop-keep xs m (new_list ++ x ∷ []),
    append_assoc new_list (x ∷ []) (keep (λ y. not (get_or false y m)) xs),
  )

  contains_item-count : (xs : List A) (a : A) → contains_item xs a ≡ not (Base.eqb (count a xs) 0)
  unfolding contains_item
  contains_item-count [] a = refl
  contains_item-count (x ∷ xs) a = ground (arith, contains_item-count xs a)

  -- `Intersection(a, b)` and `RemoveFromList(a, b)` split `a` by membership in `b`: each item of
  -- `a` stands, as often as in `a`, in the first if `b` holds it and in the second if not.
  pub intersection_remove_split :
      (a b : List A) (x : A)
      → (count x (intersection a b) ≡ (if Base.eqb (count x b) 0 then 0 else count x a))
        × (count x (remove_from_list a b) ≡ (if Base.eqb (count x b) 0 then count x a else 0))
  intersection_remove_split a b x =
      rw (intersection-keep a b, remove_from_list-keep a b)
        (ground (
          arith,
          count-keep (contains_item b) x a,
          count-keep (λ y. not (contains_item b y)) x a,
          contains_item-count b x,
        ))

  -- `FilterByMapKey` with the map that `RemoveFromList` builds is `RemoveFromList`.
  pub filter_by_map_key-mark_all :
      (list to_remove : List A)
      → filter_by_map_key list (mark_all to_remove []) ≡ remove_from_list list to_remove
  unfolding filter_by_map_key remove_from_list
  filter_by_map_key-mark_all list to_remove =
      filter_by_loop-keep list (mark_all to_remove []) []
      ∙ sym (remove_loop-keep list (mark_all to_remove []) [])

  intersection_fx_loop-keep :
      (a b : List A) (compare : A → A → Bool) (out : List A)
      → intersection_fx_loop a b compare out ≡ out ++ keep (λ x. found_in x b compare) a
  unfolding intersection_fx_loop
  intersection_fx_loop-keep [] b compare out = sym (append-nil out)
  intersection_fx_loop-keep (x ∷ a) b compare out = ground (
    arith,
    intersection_fx_loop-keep a b compare out,
    intersection_fx_loop-keep a b compare (out ++ x ∷ []),
    append_assoc out (x ∷ []) (keep (λ y. found_in y b compare) a),
  )

  found_in-contains_item : (x : A) (b : List A) → found_in x b (λ u v. u == v) ≡ contains_item b x
  unfolding found_in contains_item
  found_in-contains_item x [] = refl
  found_in-contains_item x (y ∷ b) =
      ground (arith, found_in-contains_item x b, e.is_eq_iff x y, e.is_eq_iff y x)

  -- `IntersectionFx` with `==` is `Intersection`.
  pub intersection_fx-intersection :
      (a b : List A) → intersection_fx a b (λ u v. u == v) ≡ intersection a b
  unfolding intersection_fx
  intersection_fx-intersection a b =
      intersection_fx_loop-keep a b (λ u v. u == v) []
      ∙ ap (λ f. keep f a) (fun_ext λ x. found_in-contains_item x b)
      ∙ sym (intersection-keep a b)

module _ {ℓ κ} {A : Type ℓ} {B : Type κ} where
  mapper_loop-map :
      (input : List A) (mapper : A → B) (out : List B)
      → mapper_loop input mapper out ≡ out ++ map mapper input
  unfolding mapper_loop
  mapper_loop-map [] mapper out = sym (append-nil out)
  mapper_loop-map (x ∷ xs) mapper out =
      mapper_loop-map xs mapper (out ++ mapper x ∷ []) ∙ append_assoc out _ _

  pub map_items-map : (input : List A) (mapper : A → B) → map_items input mapper ≡ map mapper input
  unfolding map_items
  map_items-map input mapper = mapper_loop-map input mapper []
