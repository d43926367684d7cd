-- ===== src/Jv/Select.antt =====
-- Building one slice from others: jv/arrayutil.go, the functions that reverse, map, filter and
-- combine. `out = append(out, x)` is `out ++ x ∷ []`; a slice is a value, so what `append` does
-- to spare capacity that two slices share is left out.
pub mod Laws
use gobase.Base.{
  ℕ, zero, suc, Bool, true, false, not, List, [], ◌∷◌, ◌++◌, Option, none, some, if◌then◌else◌,
  Comparable, ◌==◌, length, get_elem?,
}
use gobase.Base.GoMap.{GoMap, get_or, insert}
use gobase.Jv.Search.{contains_item}

module _ {ℓ} {A : Type ℓ} where
  -- `append(out, input[i])`; the loop's `i` is always in range.
  append_at : List A → Option A → List A
  append_at out none = out
  append_at out (some x) = out ++ x ∷ []

  -- `for i := len(input) - 1; i >= 0; i--`, with the rounds left as the first argument.
  reverse_from : ℕ → List A → List A → List A
  unfolding append_at
  reverse_from zero input out = out
  reverse_from (suc i) input out = reverse_from i input (append_at out (get_elem? input i))

  unfoldable pub reverse : List A → List A
  unfolding reverse_from
  reverse input = reverse_from (length input) input []

  filter_loop : List A → (A → Bool) → List A → List A
  filter_loop [] filter list = list
  filter_loop (item ∷ rest) filter list =
      filter_loop rest filter (if filter item then list ++ item ∷ [] else list)

  -- `Filter` of the source.
  unfoldable pub filter_items : List A → (A → Bool) → List A
  unfolding filter_loop
  filter_items input filter = filter_loop input filter []

  select_many_loop : List (List A) → List A → List A
  select_many_loop [] list = list
  select_many_loop (item ∷ rest) list = select_many_loop rest (list ++ item)

  unfoldable pub select_many : List (List A) → List A
  unfolding select_many_loop
  select_many input = select_many_loop input []

  union_loop : List A → List A → List A
  union_loop [] new_list = new_list
  union_loop (b ∷ rest) new_list = union_loop rest (new_list ++ b ∷ [])

  unfoldable pub union_all : List A → List A → List A
  unfolding union_loop
  union_all list_a list_b = union_loop list_b list_a

  -- The inner loop of `IntersectionFx`, up to its `break`.
  found_in : A → List A → (A → A → Bool) → Bool
  found_in item_a [] compare = false
  found_in item_a (item_b ∷ rest) compare =
      if compare item_a item_b then true else found_in item_a rest compare

  intersection_fx_loop : List A → List A → (A → A → Bool) → List A → List A
  unfolding found_in
  intersection_fx_loop [] b compare out = out
  intersection_fx_loop (item_a ∷ rest) b compare out =
      intersection_fx_loop rest b compare
        (if found_in item_a b compare then out ++ item_a ∷ [] else out)

  unfoldable pub intersection_fx : List A → List A → (A → A → Bool) → List A
  unfolding intersection_fx_loop
  intersection_fx a b compare = intersection_fx_loop a b compare []

module _ {ℓ κ} {A : Type ℓ} {B : Type κ} where
  mapper_loop : List A → (A → B) → List B → List B
  mapper_loop [] mapper out = out
  mapper_loop (item ∷ rest) mapper out = mapper_loop rest mapper (out ++ mapper item ∷ [])

  -- `Mapper` of the source.
  unfoldable pub map_items : List A → (A → B) → List B
  unfolding mapper_loop
  map_items input mapper = mapper_loop input mapper []

  unfoldable pub reduce : List A → (A → B → B) → B → B
  reduce [] reducer current = current
  reduce (item ∷ rest) reducer current = reduce rest reducer (reducer item current)

module _ {ℓ} {A : Type ℓ} ⦃e : Comparable A⦄ where
  intersection_loop : List A → List A → List A → List A
  intersection_loop [] b common = common
  intersection_loop (item ∷ rest) b common =
      intersection_loop rest b (if contains_item b item then common ++ item ∷ [] else common)

  unfoldable pub intersection : List A → List A → List A
  unfolding intersection_loop
  intersection a b = intersection_loop a b []

  -- `for _, item := range toRemove { remove[item] = true }`.
  unfoldable pub mark_all : List A → GoMap A Bool → GoMap A Bool
  mark_all [] remove = remove
  mark_all (item ∷ rest) remove = mark_all rest (insert item true remove)

  remove_loop : List A → GoMap A Bool → List A → List A
  remove_loop [] remove list = list
  remove_loop (item ∷ rest) remove list =
      remove_loop rest remove (if not (get_or false item remove) then list ++ item ∷ [] else list)

  unfoldable pub remove_from_list : List A → List A → List A
  unfolding mark_all remove_loop
  remove_from_list src to_remove = remove_loop src (mark_all to_remove []) []

  filter_by_loop : List A → GoMap A Bool → List A → List A
  filter_by_loop [] to_remove new_list = new_list
  filter_by_loop (item ∷ rest) to_remove new_list =
      filter_by_loop rest to_remove
        (if get_or false item to_remove then new_list else new_list ++ item ∷ [])

  unfoldable pub filter_by_map_key : List A → GoMap A Bool → List A
  unfolding filter_by_loop
  filter_by_map_key list to_remove = filter_by_loop list to_remove []
