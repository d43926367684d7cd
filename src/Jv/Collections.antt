-- ===== src/Jv/Collections.antt =====
-- The package's own collections over a caller's equality test: `Set` (jv/set.go), `Map`
-- (jv/map.go) and `Iter` (jv/iter.go). A method returns the new state and its result. `Map.Pairs`
-- holds pointers that only the map's methods write through, so a pair is a value here.
pub mod MapLaws
pub mod SetLaws
pub mod IterLaws
use gobase.Base.{
  ℕ, suc, Bool, true, false, not, List, [], ◌∷◌, ◌++◌, Option, none, some, if◌then◌else◌, length,
  get_elem?, zero, ◌+◌,
}
use gobase.Jv.Maps.{Pair}
use gobase.Jv.Select.{filter_items}

module _ {ℓ} {A : Type ℓ} (equality : A → A → Bool) where
  -- `Set.Contains`, over `s.Values`.
  unfoldable pub set_contains : List A → A → Bool
  set_contains [] value = false
  set_contains (item ∷ rest) value = if equality item value then true else set_contains rest value

  -- `Set.Add`: the values are filtered against the old `Values`, then appended.
  unfoldable pub set_add : List A → List A → List A
  unfolding filter_items set_contains
  set_add values value = values ++ filter_items value (λ input. not (set_contains values input))

  unfoldable pub set_remove : List A → A → List A
  unfolding filter_items
  set_remove values value = filter_items values (λ v. not (equality value v))

  unfoldable pub set_len : List A → ℕ
  set_len values = length values

module _ {ℓ κ} {K : Type ℓ} {V : Type κ} (equality : K → K → Bool) where
  -- `First(s.Pairs, …)`, whose zero value is the nil pointer.
  find_pair : List (Pair K V) → K → Option (Pair K V)
  find_pair [] key = none
  find_pair (p ∷ rest) key = if equality p.key key then some p else find_pair rest key

  -- `v.Value = value` for the pointer that `find_pair` returns.
  write_pair : List (Pair K V) → K → V → List (Pair K V)
  write_pair [] key value = []
  write_pair (p ∷ rest) key value =
      if equality p.key key
      then record p { value = value } ∷ rest
      else p ∷ write_pair rest key value

  unfoldable pub map_set : List (Pair K V) → K → V → List (Pair K V) × Bool
  unfolding find_pair write_pair
  map_set pairs key value = elim (find_pair pairs key) [
    | none ↦ (pairs ++ (record { key = key; value = value }) ∷ [], true)
    | some v ↦ (write_pair pairs key value, false)
  ]

  unfoldable pub map_get : V → List (Pair K V) → K → V × Bool
  unfolding find_pair
  map_get zero_value pairs key = elim (find_pair pairs key) [
    | none ↦ (zero_value, false)
    | some v ↦ (v.value, true)
  ]

  unfoldable pub map_delete : List (Pair K V) → K → List (Pair K V)
  unfolding filter_items
  map_delete pairs key = filter_items pairs (λ input. not (equality input.key key))

  unfoldable pub map_transform : V → List (Pair K V) → K → (V → V) → List (Pair K V)
  unfolding map_set map_get
  map_transform zero_value pairs key transform =
      (map_set pairs key (transform (map_get zero_value pairs key).0)).0

  unfoldable pub map_len : List (Pair K V) → ℕ
  map_len pairs = length pairs

pub record Iter {ℓ} (A : Type ℓ) : Type ℓ where
  pub src : List A
  pub position : ℕ
  pub filter : Option (A → Bool)

module _ {ℓ} {A : Type ℓ} where
  unfoldable pub new_iter : List A → Iter A
  new_iter input = record { src = input; position = 0; filter = none }

  unfoldable pub set_filter : Iter A → Option (A → Bool) → Iter A
  set_filter i fx = record i { filter = fx }

  -- Does the filter, if there is one, accept the item?
  unfoldable pub accepts : Option (A → Bool) → A → Bool
  accepts none item = true
  accepts (some filter) item = filter item

  -- The loop of `Next`, on the position; the fuel bounds its rounds. The result is the position
  -- that is left, and the item, `none` for `blank, false`.
  next_loop : ℕ → List A → Option (A → Bool) → ℕ → Option (ℕ × Option A)
  unfolding accepts
  next_loop zero src filter position = none
  next_loop (suc fuel) src filter position =
      let again = next_loop fuel src filter (position + 1) in
      elim (get_elem? src position) [
        | none ↦ some (position + 1, none)
        | some item ↦ if accepts filter item then some (position + 1, some item) else again
      ]

  unfoldable pub next : ℕ → Iter A → Option (Iter A × Option A)
  unfolding next_loop
  next fuel i = elim (next_loop fuel i.src i.filter i.position) [
    | none ↦ none
    | some r ↦ some (record i { position = r.0 }, r.1)
  ]
