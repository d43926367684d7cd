-- ===== src/Jv/Maps/Laws.antt =====
-- What the map helpers of jv/maputil.go leave at each key. A map's keys are distinct (`IsMap`).
use gobase.Base.{
  ℕ, ◌+◌, ◌≡◌, refl, ap, ◌∙◌, Bool, not, Option, none, some, List, [], ◌∷◌, arith, if◌then◌else◌,
  Comparable, ◌==◌, ==-refl, nat_comparable, bool_comparable, list_comparable, count, All,
}
use gobase.Base.GoMap.{GoMap, get_or, lookup, insert, lookup-insert, IsMap, keys, or_else}
use gobase.Jv.Search.{contains_item}
use gobase.Jv.Maps.{
  count_loop, count_map, copy_into, clone_map, merge_loop, merge_maps, filter_map_loop, filter_map,
  insert_found, with_keys_loop, clone_with_keys, diff_first, diff_second, map_diff,
}

module _ {ℓ} {K : Type ℓ} ⦃e : Comparable K⦄ where
  count_loop-count :
      (input : List K) (mp : GoMap K ℕ) (k : K)
      → get_or 0 k (count_loop input mp) ≡ get_or 0 k mp + count k input
  unfolding count_loop
  count_loop-count [] mp k = omega arith
  count_loop-count (x ∷ xs) mp k = ground (
    arith,
    count_loop-count xs (insert x (get_or 0 x mp + 1) mp) k,
    lookup-insert x k (get_or 0 x mp + 1) mp,
    e.is_eq_iff x k,
  )

  -- `CountMap` counts.
  pub count_map-count : (input : List K) (k : K) → get_or 0 k (count_map input) ≡ count k input
  unfolding count_map
  count_map-count input k = omega (arith, count_loop-count input [] k)

module _ {ℓ κ} {K : Type ℓ} {V : Type κ} ⦃e : Comparable K⦄ where
  tail-IsMap : (k : K) (v : V) (m : GoMap K V) → IsMap ((k, v) ∷ m) → IsMap m
  tail-IsMap k v m h a = ground (arith, h a)

  not_twice : (k : K) (m : GoMap K V) → count k (keys m) ≡ 0 → lookup k m ≡ none
  not_twice k [] h = refl
  not_twice k ((j, w) ∷ m) h = ground (arith, not_twice k m)

  -- The first key of a map is not a key of the rest.
  fresh : (k : K) (v : V) (m : GoMap K V) → IsMap ((k, v) ∷ m) → lookup k m ≡ none
  fresh k v m h = not_twice k m (ground (arith, h k, ==-refl k))

  lookup-copy_into :
      (m out : GoMap K V) (k : K)
      → IsMap m
      → lookup k (copy_into m out) ≡ or_else (lookup k m) (lookup k out)
  unfolding copy_into
  lookup-copy_into [] out k h = refl
  lookup-copy_into ((j, v) ∷ m) out k h =
      lookup-copy_into m (insert j v out) k (tail-IsMap j v m h)
      ∙ ground (arith, lookup-insert j k v out, fresh j v m h, e.is_eq_iff j k)

  -- The last of the maps that has the key decides.
  abbrev pub last_lookup : K → List (GoMap K V) → Option V → Option V
  last_lookup k [] found = found
  last_lookup k (m ∷ maps) found = last_lookup k maps (or_else (lookup k m) found)

  lookup-merge_loop :
      (maps : List (GoMap K V)) (out : GoMap K V) (k : K)
      → All IsMap maps
      → lookup k (merge_loop maps out) ≡ last_lookup k maps (lookup k out)
  unfolding merge_loop
  lookup-merge_loop [] out k h = refl
  lookup-merge_loop (m ∷ maps) out k (hm, h) =
      lookup-merge_loop maps (copy_into m out) k h
      ∙ ap (last_lookup k maps) (lookup-copy_into m out k hm)

  -- `MergeMaps` has at each key the value of the last map that has the key, and no other keys.
  pub lookup-merge_maps :
      (maps : List (GoMap K V)) (k : K)
      → All IsMap maps
      → lookup k (merge_maps maps) ≡ last_lookup k maps none
  unfolding merge_maps
  lookup-merge_maps maps k h = lookup-merge_loop maps [] k h

  -- `CloneMap` copies every entry.
  pub lookup-clone_map :
      (input : GoMap K V) (k : K) → IsMap input → lookup k (clone_map input) ≡ lookup k input
  unfolding clone_map
  lookup-clone_map input k h = ground (arith, lookup-copy_into input [] k h)

  lookup-insert_found :
      (w k : K) (o : Option V) (out : GoMap K V)
      → lookup k (insert_found w o out)
        ≡ (if w == k then or_else o (lookup k out) else lookup k out)
  unfolding insert_found
  lookup-insert_found w k none out = ground arith
  lookup-insert_found w k (some v) out = lookup-insert w k v out

  lookup-with_keys_loop :
      (input : GoMap K V) (wanted : List K) (out : GoMap K V) (k : K)
      → lookup k (with_keys_loop input wanted out)
        ≡ (if contains_item wanted k then or_else (lookup k input) (lookup k out) else lookup k out)
  unfolding with_keys_loop contains_item
  lookup-with_keys_loop input [] out k = refl
  lookup-with_keys_loop input (w ∷ ws) out k = ground (
    arith,
    lookup-with_keys_loop input ws (insert_found w (lookup w input) out) k,
    lookup-insert_found w k (lookup w input) out,
    e.is_eq_iff w k,
  )

  -- `CloneWithKeys` and `FilterMapByKey` keep the entries at the given keys, and no others.
  pub lookup-clone_with_keys :
      (input : GoMap K V) (wanted : List K) (k : K)
      → lookup k (clone_with_keys input wanted)
        ≡ (if contains_item wanted k then lookup k input else none)
  unfolding clone_with_keys
  lookup-clone_with_keys input wanted k = ground (arith, lookup-with_keys_loop input wanted [] k)

  lookup-filter_map_loop :
      (input : GoMap K V) (include : K → V → Bool) (out : GoMap K V) (k : K)
      → IsMap input
      → lookup k (filter_map_loop input include out) ≡ elim (lookup k input) [
        | none ↦ lookup k out
        | some v ↦ if include k v then some v else lookup k out
      ]
  unfolding filter_map_loop
  lookup-filter_map_loop [] include out k h = refl
  lookup-filter_map_loop ((j, v) ∷ m) include out k h =
      let t = tail-IsMap j v m h in
      ground (
        arith,
        lookup-filter_map_loop m include out k t,
        lookup-filter_map_loop m include (insert j v out) k t,
        lookup-insert j k v out,
        fresh j v m h,
        e.is_eq_iff j k,
      )

  -- `FilterMap` keeps exactly the entries that `include` accepts.
  pub lookup-filter_map :
      (input : GoMap K V) (include : K → V → Bool) (k : K)
      → IsMap input
      → lookup k (filter_map input include)
        ≡ elim (lookup k input) [ none ↦ none | some v ↦ if include k v then some v else none ]
  unfolding filter_map
  lookup-filter_map input include k h = lookup-filter_map_loop input include [] k h

module _ {ℓ κ} {K : Type ℓ} {V : Type κ} ⦃e : Comparable K⦄ ⦃f : Comparable V⦄ (z : V) where
  lookup-diff_first :
      (m0 m1 : GoMap K V) (out : GoMap K (List V)) (k : K)
      → IsMap m0
      → lookup k (diff_first z m0 m1 out) ≡ elim (lookup k m0) [
        | none ↦ lookup k out
        | some v ↦ if not (get_or z k m1 == v) then some (v ∷ get_or z k m1 ∷ []) else lookup k out
      ]
  unfolding diff_first
  lookup-diff_first [] m1 out k h = refl
  lookup-diff_first ((j, v) ∷ m) m1 out k h =
      let t = tail-IsMap j v m h in
      ground (
        arith,
        lookup-diff_first m m1 out k t,
        lookup-diff_first m m1 (insert j (v ∷ get_or z j m1 ∷ []) out) k t,
        lookup-insert j k (v ∷ get_or z j m1 ∷ []) out,
        fresh j v m h,
        e.is_eq_iff j k,
      )

  lookup-diff_second :
      (m0 m1 : GoMap K V) (out : GoMap K (List V)) (k : K)
      → IsMap m1
      → lookup k (diff_second z m0 m1 out) ≡ elim (lookup k m1) [
        | none ↦ lookup k out
        | some v ↦ if not (get_or z k m0 == v) then some (get_or z k m0 ∷ v ∷ []) else lookup k out
      ]
  unfolding diff_second
  lookup-diff_second m0 [] out k h = refl
  lookup-diff_second m0 ((j, v) ∷ m) out k h =
      let t = tail-IsMap j v m h in
      ground (
        arith,
        lookup-diff_second m0 m out k t,
        lookup-diff_second m0 m (insert j (get_or z j m0 ∷ v ∷ []) out) k t,
        lookup-insert j k (get_or z j m0 ∷ v ∷ []) out,
        fresh j v m h,
        e.is_eq_iff j k,
      )

  -- Of two maps with distinct keys each, where `==` is equality on keys and on values, `MapDiff` has
  -- an entry exactly at the keys where the two read differently, a missing value read as the zero
  -- value, and the entry holds the two values, the first map's first.
  pub lookup-map_diff :
      (m0 m1 : GoMap K V) (k : K)
      → IsMap m0
      → IsMap m1
      → lookup k (map_diff z m0 m1) ≡ (
          if get_or z k m0 == get_or z k m1
          then none
          else some (get_or z k m0 ∷ get_or z k m1 ∷ []))
  unfolding map_diff
  lookup-map_diff m0 m1 k h0 h1 = ground (
    arith,
    lookup-diff_second m0 m1 (diff_first z m0 m1 []) k h1,
    lookup-diff_first m0 m1 [] k h0,
    f.is_eq_iff (get_or z k m0) (get_or z k m1),
    f.is_eq_iff (get_or z k m1) (get_or z k m0),
  )
