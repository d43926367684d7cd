-- ===== src/Jv/Tests.antt =====
-- Runs of package jv, and its theorems at concrete inputs.
use gobase.Base.{
  ℕ, zero, suc, ◌+◌, ◌%◌, min, ◌≡◌, refl, ◌⊎◌, Bool, true, false, not, none, some, List, [], ◌∷◌,
  ◌++◌, map, arith, ltb, leb, eqb, if◌then◌else◌, ◌==◌, nat_comparable, bool_comparable,
  list_comparable, count, keep,
}
use gobase.Base.GoMap.{GoMap, lookup, IsMap}
use gobase.Base.Ordered.{nat_ordered}
use gobase.Jv.Search.{indexes_of}
use gobase.Jv.Distinct.{unique, group_by, mode, merge_objects}
use gobase.Jv.Distinct.Unique.{unique_exact}
use gobase.Jv.Distinct.Groups.{joined, group_by_exact}
use gobase.Jv.Distinct.Best.{IsMode, mode-IsMode}
use gobase.Jv.Permutations.{permutations, values, incr, select_indexes}
use gobase.Jv.Select.{reverse, remove_from_list}
use gobase.Jv.Permutations.Laws.{expected, permutations-product}
use gobase.Jv.Maps.{Pair, map_diff}
use gobase.Jv.Maps.Laws.{lookup-map_diff}
use gobase.Jv.Collections.{map_set, map_get, map_delete, map_transform}
use gobase.Jv.Collections.MapLaws.{IsEquivalence, map_get_after}

abbrev sample : List ℕ
sample = 3 ∷ 8 ∷ 5 ∷ 8 ∷ []

abbrev big : ℕ → Bool
big x = ltb 4 x

indexes_run : indexes_of sample big ≡ 1 ∷ 2 ∷ 3 ∷ []
unfolding indexes_of
indexes_run = refl

unique_exact_example :
    (unique sample ≡ 3 ∷ 8 ∷ 5 ∷ []) × ((a : ℕ) → count a (unique sample) ≡ min 1 (count a sample))
unique_exact_example = unique_exact sample

abbrev parity : ℕ → ℕ
parity x = x % 2

group_by_exact_example :
    IsMap (group_by sample parity)
    × ((k : ℕ) → lookup k (group_by sample parity) ≡ joined none (keep (λ x. parity x == k) sample))
group_by_exact_example = group_by_exact sample parity

mode-IsMode_example :
    ((sample ≡ []) × (mode 0 sample ≡ none))
    ⊎ ((m : ℕ) × (mode 0 sample ≡ some m) × IsMode sample m)
mode-IsMode_example = mode-IsMode 0 sample

-- Numbers that add up to at most 7 merge into their sum.
abbrev up_to_7 : ℕ → ℕ → ℕ × Bool
up_to_7 a b = if leb (a + b) 7 then (a + b, true) else (0, false)

-- 2, which 5 absorbs, still absorbs 1.
absorbed_run : merge_objects (5 ∷ 2 ∷ 1 ∷ []) up_to_7 ≡ 7 ∷ 3 ∷ []
unfolding merge_objects remove_from_list
absorbed_run = refl

abbrev digits_below : ℕ → List ℕ
digits_below zero = []
digits_below (suc n) = digits_below n ++ n ∷ []

permutations_run :
    permutations 6 9 (2 ∷ 0 ∷ 3 ∷ []) digits_below
    ≡ some (
        (0 ∷ 9 ∷ 0 ∷ [])
        ∷ (0 ∷ 9 ∷ 1 ∷ [])
        ∷ (0 ∷ 9 ∷ 2 ∷ [])
        ∷ (1 ∷ 9 ∷ 0 ∷ [])
        ∷ (1 ∷ 9 ∷ 1 ∷ [])
        ∷ (1 ∷ 9 ∷ 2 ∷ [])
        ∷ [])
unfolding permutations values incr select_indexes reverse
permutations_run = refl

permutations-product_example :
    permutations 6 9 (2 ∷ 0 ∷ 3 ∷ []) digits_below
    ≡ some (expected 9 (map digits_below (2 ∷ 0 ∷ 3 ∷ [])))
permutations-product_example = permutations-product 6 9 (2 ∷ 0 ∷ 3 ∷ []) digits_below (omega arith)

abbrev old_map : GoMap ℕ ℕ
old_map = (1, 10) ∷ (2, 20) ∷ []

abbrev new_map : GoMap ℕ ℕ
new_map = (2, 21) ∷ (3, 30) ∷ []

old_map-IsMap : IsMap old_map
old_map-IsMap a = ground arith

new_map-IsMap : IsMap new_map
new_map-IsMap a = ground arith

lookup-map_diff_example : lookup 2 (map_diff 0 old_map new_map) ≡ some (20 ∷ 21 ∷ [])
lookup-map_diff_example = lookup-map_diff 0 old_map new_map 2 old_map-IsMap new_map-IsMap

-- Numbers compared up to parity.
abbrev same_parity : ℕ → ℕ → Bool
same_parity a b = eqb (a % 2) (b % 2)

same_parity-IsEquivalence : IsEquivalence same_parity
same_parity-IsEquivalence = record {
  is_refl = λ a. ground arith;
  is_symm = λ a b. ground arith;
  is_trans = λ a b c h. ground arith;
}

abbrev stored : List (Pair ℕ ℕ)
stored = (record { key = 2; value = 7 }) ∷ []

map_get_after_example :
    let get = map_get {V = ℕ} same_parity 0 in
    (get (map_set same_parity stored 4 9).0 6 ≡ (9, true))
    × (get (map_delete same_parity stored 4) 6 ≡ (0, false))
    × (get (map_transform same_parity 0 stored 4 suc) 6 ≡ (suc (get stored 4).0, true))
    × ((map_set same_parity stored 4 9).1 ≡ not (get stored 4).1)
map_get_after_example = map_get_after same_parity same_parity-IsEquivalence 0 stored 4 6 9 suc
