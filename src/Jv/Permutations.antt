-- ===== src/Jv/Permutations.antt =====
-- `Permutations` of jv/arrayutil.go and its odometer, `permCounter`. A chain of counters linked by
-- `next` is the list of them, the root first. The callback's calls are returned as the list of
-- rows in the order of the calls; `input`, which each call gets too, is the same in all.
pub mod Product
pub mod Odometer
pub mod Laws
use gobase.Base.{
  ℕ, zero, suc, ◌+◌, ◌-◌, Bool, true, false, List, [], ◌∷◌, ◌++◌, Option, none, some, if◌then◌else◌,
  length, get_or, map, eqb,
}
use gobase.Base.Int.{ℤ, pos, negsuc, sub_ℕ, leb_ℤ, ltb_ℤ}
use gobase.Jv.Select.{reverse}

pub record PermCounter : Type 0 where
  pub value : ℕ
  pub max : ℤ

-- `Value`: the counters after this one, then this one; -1 for a column with no option.
unfoldable pub value_of : PermCounter → ℤ
value_of p = if ltb_ℤ p.max (pos 0) then negsuc 0 else pos p.value

unfoldable pub values : List PermCounter → List ℤ
unfolding value_of
values [] = []
values (p ∷ next) = values next ++ value_of p ∷ []

-- `Incr`: false when every counter is at its maximum; the last of them is then left as it is.
unfoldable pub incr : List PermCounter → Bool × List PermCounter
incr [] = (false, [])
incr (p ∷ []) =
    if leb_ℤ p.max (pos p.value)
    then (false, p ∷ [])
    else (true, record p { value = p.value + 1 } ∷ [])
incr (p ∷ q ∷ next) =
    let rest = incr (q ∷ next) in
    if leb_ℤ p.max (pos p.value)
    then (rest.0, record p { value = 0 } ∷ rest.1)
    else (true, record p { value = p.value + 1 } ∷ q ∷ next)

-- The counter of one column: `max: len(row) - 1`.
counter_for {ℓ} : {B : Type ℓ} → List B → PermCounter
counter_for row = record { value = 0; max = sub_ℕ (length row) 1 }

module _ {ℓ} {B : Type ℓ} where
  -- The loop that links the counters: the root for the first row, then one behind the last.
  link : List (List B) → List PermCounter → List PermCounter
  unfolding counter_for
  link [] chain = chain
  link (row ∷ rest) chain = link rest (chain ++ counter_for row ∷ [])

  unfoldable pub select_at : B → List B → ℤ → B
  select_at default_value row (pos index) = get_or row index default_value
  select_at default_value row (negsuc n) = default_value

  -- `input[i]` and `index`, read side by side.
  unfoldable pub select_indexes : B → List (List B) → List ℤ → List B
  unfolding select_at
  select_indexes default_value input [] = []
  select_indexes default_value [] (index ∷ indexes) = []
  select_indexes default_value (row ∷ input) (index ∷ indexes) =
      select_at default_value row index ∷ select_indexes default_value input indexes

  -- `for { … }`: `none` means that the fuel ran out.
  perm_loop : ℕ → B → List (List B) → List PermCounter → List (List B) → Option (List (List B))
  perm_loop zero default_value options root rows = none
  perm_loop (suc fuel) default_value options root rows =
      let rows' = rows ++ select_indexes default_value options (values root) ∷ [] in
      let rest = perm_loop fuel default_value options (incr root).1 rows' in
      if (incr root).0 then rest else some rows'

module _ {ℓ κ} {A : Type ℓ} {B : Type κ} where
  unfoldable pub permutations : ℕ → B → List A → (A → List B) → Option (List (List B))
  unfolding link perm_loop
  permutations fuel default_value [] extract = some []
  permutations fuel default_value (item ∷ rest) extract =
      let options = map extract (item ∷ rest) in
      perm_loop fuel default_value options (link (reverse options) []) []
