-- ===== src/Jv/Search.antt =====
-- Searching a slice: jv/arrayutil.go, the functions that scan for an item. Go's index -1 is
-- `negsuc 0`; a `filter` is a pure test; `zero_value` is what `var val T` holds.
pub mod Laws
pub mod Last
use gobase.Base.{
  ℕ, zero, suc, Bool, true, false, not, List, [], ◌∷◌, ◌++◌, Option, none, some, if◌then◌else◌,
  Comparable, ◌==◌, length, get_or, eqb, ltb,
}
use gobase.Base.Int.{ℤ, pos, negsuc}

module _ {ℓ} {A : Type ℓ} where
  index_of_from : ℕ → List A → (A → Bool) → ℤ
  index_of_from i [] filter = negsuc 0
  index_of_from i (item ∷ rest) filter =
      if filter item then pos i else index_of_from (suc i) rest filter

  unfoldable pub index_of : List A → (A → Bool) → ℤ
  unfolding index_of_from
  index_of input filter = index_of_from 0 input filter

  indexes_of_from : ℕ → List A → (A → Bool) → List ℕ → List ℕ
  indexes_of_from i [] filter list = list
  indexes_of_from i (item ∷ rest) filter list =
      indexes_of_from (suc i) rest filter (if filter item then list ++ i ∷ [] else list)

  unfoldable pub indexes_of : List A → (A → Bool) → List ℕ
  unfolding indexes_of_from
  indexes_of input filter = indexes_of_from 0 input filter []

  unfoldable pub first : A → List A → (A → Bool) → A
  first zero_value [] filter = zero_value
  first zero_value (item ∷ rest) filter = if filter item then item else first zero_value rest filter

  -- `for i := len(input) - 1; i >= 0; i--`, the rounds left as the argument; a round reads
  -- `input[i]`.
  last_from : ℕ → A → List A → (A → Bool) → A
  last_from zero zero_value input filter = zero_value
  last_from (suc i) zero_value input filter =
      if filter (get_or input i zero_value)
      then get_or input i zero_value
      else last_from i zero_value input filter

  unfoldable pub last : A → List A → (A → Bool) → A
  unfolding last_from
  last zero_value input filter = last_from (length input) zero_value input filter

  unfoldable pub contains : List A → (A → Bool) → Bool
  contains [] filter = false
  contains (item ∷ rest) filter = if filter item then true else contains rest filter

  unfoldable pub any : List A → (A → Bool) → Bool
  any [] check = false
  any (item ∷ rest) check = if check item then true else any rest check

  unfoldable pub all : List A → (A → Bool) → Bool
  all [] check = true
  all (item ∷ rest) check = if not (check item) then false else all rest check

  unfoldable pub last_item : A → List A → A
  last_item zero_value [] = zero_value
  last_item zero_value (x ∷ xs) = get_or (x ∷ xs) (length xs) zero_value

module _ {ℓ} {A : Type ℓ} ⦃e : Comparable A⦄ where
  unfoldable pub index_of_item : List A → A → ℤ
  unfolding index_of
  index_of_item input item = index_of input (λ it. it == item)

  unfoldable pub indexes_of_item : List A → A → List ℕ
  unfolding indexes_of
  indexes_of_item input item = indexes_of input (λ it. it == item)

  unfoldable pub contains_item : List A → A → Bool
  contains_item [] item = false
  contains_item (v ∷ rest) item = if v == item then true else contains_item rest item

  -- The loop of `ArrayItemCompare` over both slices, read side by side: the lengths are equal.
  item_compare_loop : List A → List A → Bool
  item_compare_loop [] b = true
  item_compare_loop (item ∷ a) [] = true
  item_compare_loop (item ∷ a) (other ∷ b) =
      if not (other == item) then false else item_compare_loop a b

  unfoldable pub array_item_compare : List A → List A → Bool
  unfolding item_compare_loop
  array_item_compare a b = if not (eqb (length a) (length b)) then false else item_compare_loop a b

  same_as : A → List A → Bool
  same_as main [] = true
  same_as main (item ∷ rest) = if not (item == main) then false else same_as main rest

  unfoldable pub are_all_the_same : List A → Bool
  unfolding same_as
  are_all_the_same [] = true
  are_all_the_same (main ∷ rest) = same_as main (main ∷ rest)
