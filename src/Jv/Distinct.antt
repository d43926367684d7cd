-- ===== src/Jv/Distinct.antt =====
-- Comparing the items of one slice: jv/arrayutil.go, the functions that count, group or merge
-- them, over a map that the loop fills. A panic is `none`.
pub mod Unique
pub mod Groups
pub mod Best
pub mod Merge
use gobase.Base.{
  ℕ, suc, ◌+◌, Bool, true, false, List, [], ◌∷◌, ◌++◌, Option, none, some, if◌then◌else◌,
  Comparable, ◌==◌, ltb,
}
use gobase.Base.GoMap.{GoMap, get_or, insert, keys}
use gobase.Base.Ordered.{Ordered}
use gobase.Jv.Select.{remove_from_list}

record Tally {ℓ} (A : Type ℓ) : Type ℓ where
  counter : GoMap A ℕ
  max : ℕ
  max_value : A

module _ {ℓ} {A : Type ℓ} ⦃e : Comparable A⦄ where
  unique_loop : List A → GoMap A Bool → List A → List A
  unique_loop [] mp list = list
  unique_loop (item ∷ rest) mp list = elim (get_or false item mp) [
    | true ↦ unique_loop rest mp list
    | false ↦ unique_loop rest (insert item true mp) (list ++ item ∷ [])
  ]

  unfoldable pub unique : List A → List A
  unfolding unique_loop
  unique input = unique_loop input [] []

  all_unique_loop : List A → GoMap A Bool → Bool
  all_unique_loop [] parts = true
  all_unique_loop (item ∷ rest) parts =
      if get_or false item parts then false else all_unique_loop rest (insert item true parts)

  unfoldable pub are_all_unique : List A → Bool
  unfolding all_unique_loop
  are_all_unique [] = true
  are_all_unique (x ∷ xs) = all_unique_loop (x ∷ xs) []

  -- One round of `Mode`: `val := counter[item] + 1; counter[item] = val; if val > max …`.
  mode_step : Tally A → A → Tally A
  mode_step t item =
      let val = get_or 0 item t.counter + 1 in
      let counter' = insert item val t.counter in
      if ltb t.max val
      then record { counter = counter'; max = val; max_value = item }
      else record t { counter = counter' }

  mode_loop : List A → Tally A → Tally A
  unfolding mode_step
  mode_loop [] t = t
  mode_loop (item ∷ rest) t = mode_loop rest (mode_step t item)

  unfoldable pub mode : A → List A → Option A
  unfolding mode_loop
  mode zero_value [] = none
  mode zero_value (x ∷ xs) =
      some (mode_loop (x ∷ xs) (record { counter = []; max = 0; max_value = zero_value })).max_value

module _ {ℓ κ} {A : Type ℓ} {K : Type κ} ⦃e : Comparable K⦄ where
  group_loop : List A → (A → K) → GoMap K (List A) → GoMap K (List A)
  group_loop [] grouper output = output
  group_loop (item ∷ rest) grouper output =
      let key = grouper item in
      group_loop rest grouper (insert key (get_or [] key output ++ item ∷ []) output)

  unfoldable pub group_by : List A → (A → K) → GoMap K (List A)
  unfolding group_loop
  group_by list grouper = group_loop list grouper []

module _ {ℓ κ} {A : Type ℓ} {K : Type κ} ⦃o : Ordered K⦄ where
  -- `if value > best` is `best < value`.
  max_loop : List A → (A → K) → K → A → A
  max_loop [] lookup best best_val = best_val
  max_loop (item ∷ rest) lookup best best_val = elim (o.lt best (lookup item)) [
    | true ↦ max_loop rest lookup (lookup item) item
    | false ↦ max_loop rest lookup best best_val
  ]

  unfoldable pub max_fx : A → List A → (A → K) → A
  unfolding max_loop
  max_fx zero_value [] lookup = zero_value
  max_fx zero_value (x ∷ xs) lookup = max_loop xs lookup (lookup x) x

module _ {ℓ} {A : Type ℓ} ⦃e : Comparable A⦄ where
  -- The loop over `list[index+1:]`. It returns `a`, which `list[index]` equals, and `invalid`.
  merge_into : (A → A → A × Bool) → A → List A → GoMap A Bool → A × GoMap A Bool
  merge_into merger a [] invalid = (a, invalid)
  merge_into merger a (b ∷ rest) invalid = elim (get_or false b invalid) [
    | true ↦ merge_into merger a rest invalid
    | false ↦ elim (merger a b).1 [
      | true ↦ merge_into merger (merger a b).0 rest (insert b true invalid)
      | false ↦ merge_into merger a rest invalid
    ]
  ]

  -- The loop over `list`, which `merge_into` rewrites at the current index only: `done` holds the
  -- items before it, and the items after it are still those of the input.
  merge_loop : (A → A → A × Bool) → List A → List A → GoMap A Bool → List A × GoMap A Bool
  unfolding merge_into
  merge_loop merger done [] invalid = (done, invalid)
  merge_loop merger done (a ∷ rest) invalid =
      merge_loop merger (done ++ (merge_into merger a rest invalid).0 ∷ []) rest
        (merge_into merger a rest invalid).1

  unfoldable pub merge_objects : List A → (A → A → A × Bool) → List A
  unfolding merge_loop
  merge_objects list merger =
      let r = merge_loop merger [] list [] in remove_from_list r.0 (keys r.1)
