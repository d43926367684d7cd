-- ===== src/Jv/Maps.antt =====
-- Helpers over Go's built-in map: jv/maputil.go. One `range` visits a map in the order of its
-- association list.
pub mod Laws
use gobase.Base.{
  ℕ, ◌+◌, Bool, true, false, not, List, [], ◌∷◌, ◌++◌, Option, none, some, if◌then◌else◌,
  Comparable, ◌==◌,
}
use gobase.Base.GoMap.{GoMap, get_or, lookup, insert}
use gobase.Jv.Select.{mark_all}

pub record Pair {ℓ κ} (K : Type ℓ) (V : Type κ) : Type (ℓ ⊔ κ) where
  pub key : K
  pub value : V

module _ {ℓ κ} {K : Type ℓ} {V : Type κ} where
  keys_loop : GoMap K V → List K → List K
  keys_loop [] list = list
  keys_loop ((k, v) ∷ rest) list = keys_loop rest (list ++ k ∷ [])

  unfoldable pub get_map_keys : GoMap K V → List K
  unfolding keys_loop
  get_map_keys input = keys_loop input []

  values_loop : GoMap K V → List V → List V
  values_loop [] list = list
  values_loop ((k, v) ∷ rest) list = values_loop rest (list ++ v ∷ [])

  unfoldable pub get_map_values : GoMap K V → List V
  unfolding values_loop
  get_map_values input = values_loop input []

  pairs_loop : GoMap K V → List (Pair K V) → List (Pair K V)
  pairs_loop [] list = list
  pairs_loop ((k, v) ∷ rest) list = pairs_loop rest (list ++ (record { key = k; value = v }) ∷ [])

  unfoldable pub get_map_pairs : GoMap K V → List (Pair K V)
  unfolding pairs_loop
  get_map_pairs input = pairs_loop input []

module _ {ℓ} {K : Type ℓ} where
  bool_map_loop : GoMap K Bool → List K → List K
  bool_map_loop [] out = out
  bool_map_loop ((k, v) ∷ rest) out = bool_map_loop rest (if v then out ++ k ∷ [] else out)

  unfoldable pub bool_map_to_array : GoMap K Bool → List K
  unfolding bool_map_loop
  bool_map_to_array input = bool_map_loop input []

module _ {ℓ} {K : Type ℓ} ⦃e : Comparable K⦄ where
  unfoldable pub make_bool_map : List K → GoMap K Bool
  unfolding mark_all
  make_bool_map input = mark_all input []

  count_loop : List K → GoMap K ℕ → GoMap K ℕ
  count_loop [] mp = mp
  count_loop (item ∷ rest) mp = count_loop rest (insert item (get_or 0 item mp + 1) mp)

  unfoldable pub count_map : List K → GoMap K ℕ
  unfolding count_loop
  count_map input = count_loop input []

module _ {ℓ κ} {K : Type ℓ} {V : Type κ} ⦃e : Comparable K⦄ where
  -- `for k, v := range input { out[k] = v }`.
  copy_into : GoMap K V → GoMap K V → GoMap K V
  copy_into [] out = out
  copy_into ((k, v) ∷ rest) out = copy_into rest (insert k v out)

  unfoldable pub clone_map : GoMap K V → GoMap K V
  unfolding copy_into
  clone_map input = copy_into input []

  merge_loop : List (GoMap K V) → GoMap K V → GoMap K V
  unfolding copy_into
  merge_loop [] out = out
  merge_loop (mp ∷ maps) out = merge_loop maps (copy_into mp out)

  unfoldable pub merge_maps : List (GoMap K V) → GoMap K V
  unfolding merge_loop
  merge_maps maps = merge_loop maps []

  filter_map_loop : GoMap K V → (K → V → Bool) → GoMap K V → GoMap K V
  filter_map_loop [] include out = out
  filter_map_loop ((k, v) ∷ rest) include out =
      filter_map_loop rest include (if include k v then insert k v out else out)

  unfoldable pub filter_map : GoMap K V → (K → V → Bool) → GoMap K V
  unfolding filter_map_loop
  filter_map input include = filter_map_loop input include []

  insert_found : K → Option V → GoMap K V → GoMap K V
  insert_found k none out = out
  insert_found k (some value) out = insert k value out

  with_keys_loop : GoMap K V → List K → GoMap K V → GoMap K V
  unfolding insert_found
  with_keys_loop input [] out = out
  with_keys_loop input (v ∷ rest) out =
      with_keys_loop input rest (insert_found v (lookup v input) out)

  unfoldable pub clone_with_keys : GoMap K V → List K → GoMap K V
  unfolding with_keys_loop
  clone_with_keys input keys = with_keys_loop input keys []

  unfoldable pub filter_map_by_key : GoMap K V → List K → GoMap K V
  unfolding clone_with_keys
  filter_map_by_key input keys = clone_with_keys input keys

module _ {ℓ κ} {K : Type ℓ} {V : Type κ} ⦃e : Comparable K⦄ ⦃f : Comparable V⦄ where
  -- The two loops of `MapDiff`; a missing value reads as the zero value.
  diff_first : V → GoMap K V → GoMap K V → GoMap K (List V) → GoMap K (List V)
  diff_first zero_value [] m1 out = out
  diff_first zero_value ((k, v) ∷ rest) m1 out = diff_first zero_value rest m1 (
      if not (get_or zero_value k m1 == v)
      then insert k (v ∷ get_or zero_value k m1 ∷ []) out
      else out)

  diff_second : V → GoMap K V → GoMap K V → GoMap K (List V) → GoMap K (List V)
  diff_second zero_value m0 [] out = out
  diff_second zero_value m0 ((k, v) ∷ rest) out = diff_second zero_value m0 rest (
      if not (get_or zero_value k m0 == v)
      then insert k (get_or zero_value k m0 ∷ v ∷ []) out
      else out)

  unfoldable pub map_diff : V → GoMap K V → GoMap K V → GoMap K (List V)
  unfolding diff_first diff_second
  map_diff zero_value m0 m1 = diff_second zero_value m0 m1 (diff_first zero_value m0 m1 [])
