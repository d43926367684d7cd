-- ===== src/Jv/Collections/MapLaws.antt =====
-- `Map` of jv/map.go behaves as a map, when the caller's equality is an equivalence.
use gobase.Base.{
  ◌≡◌, inl, inr, Bool, true, false, not, Option, none, some, List, [], ◌∷◌, ◌++◌, arith,
  if◌then◌else◌, Option-cases, nat_comparable, bool_comparable, list_comparable, keep,
}
use gobase.Jv.Maps.{Pair}
use gobase.Jv.Select.Laws.{filter_items-keep}
use gobase.Jv.Collections.{find_pair, write_pair, map_set, map_get, map_delete, map_transform}

pub record IsEquivalence {ℓ} {A : Type ℓ} (equality : A → A → Bool) : Type ℓ where
  pub is_refl : (a : A) → equality a a ≡ true
  pub is_symm : (a b : A) → equality a b ≡ equality b a
  pub is_trans : (a b c : A) → equality a b ≡ true → equality b c ≡ equality a c

module _ {ℓ κ} {K : Type ℓ} {V : Type κ} (equality : K → K → Bool)
    (q : IsEquivalence equality) where
  -- What a read of `j` finds in the pairs.
  found : List (Pair K V) → K → Option V
  unfolding find_pair
  found pairs j = elim (find_pair equality pairs j) [ none ↦ none | some p ↦ some p.value ]

  found-append_new :
      (pairs : List (Pair K V)) (k : K) (v : V) (j : K)
      → find_pair equality pairs k ≡ none
      → found (pairs ++ (record { key = k; value = v }) ∷ []) j
        ≡ (if equality k j then some v else found pairs j)
  unfolding found find_pair
  found-append_new [] k v j h = ground arith
  found-append_new (p ∷ pairs) k v j h =
      ground (arith, found-append_new pairs k v j, q.is_trans p.key j k, q.is_symm k j)

  found-write_pair :
      (pairs : List (Pair K V)) (k : K) (v : V) (j : K) (p : Pair K V)
      → find_pair equality pairs k ≡ some p
      → found (write_pair equality pairs k v) j ≡ (if equality k j then some v else found pairs j)
  unfolding found find_pair write_pair
  found-write_pair [] k v j p h = cc
  found-write_pair (r ∷ pairs) k v j p h = ground (
    arith,
    found-write_pair pairs k v j p,
    q.is_trans r.key k j,
    q.is_trans r.key j k,
    q.is_symm k j,
  )

  found-keep :
      (pairs : List (Pair K V)) (k j : K)
      → found (keep (λ input. not (equality input.key k)) pairs) j
        ≡ (if equality k j then none else found pairs j)
  unfolding found find_pair
  found-keep [] k j = ground arith
  found-keep (r ∷ pairs) k j =
      ground
        (arith, found-keep pairs k j, q.is_trans r.key k j, q.is_trans r.key j k, q.is_symm k j)

  read : V → Option V → V × Bool
  read z none = (z, false)
  read z (some v) = (v, true)

  map_get-found :
      (z : V) (pairs : List (Pair K V)) (j : K)
      → map_get equality z pairs j ≡ read z (found pairs j)
  unfolding map_get found read
  map_get-found z pairs j = ground arith

  found-map_set :
      (pairs : List (Pair K V)) (k : K) (v : V) (j : K)
      → found (map_set equality pairs k v).0 j ≡ (if equality k j then some v else found pairs j)
  unfolding map_set
  found-map_set pairs k v j = elim (Option-cases (find_pair equality pairs k)) [
    | inl missing ↦ rw (missing, map_set) (found-append_new pairs k v j missing)
    | inr (p, here) ↦ rw (here, map_set) (found-write_pair pairs k v j p here)
  ]

  map_set-flag :
      (z : V) (pairs : List (Pair K V)) (k : K) (v : V)
      → (map_set equality pairs k v).1 ≡ not (map_get equality z pairs k).1
  unfolding map_set map_get
  map_set-flag z pairs k v = ground arith

  -- When the equality of the map is an equivalence: reading key `j` after `Set`, `Delete` or
  -- `Transform` at key `k` gives the new value, nothing, or the transformed value (of the zero
  -- value, if `k` was missing) where the keys are equal, and what was there before where they
  -- are not. `Set` reports whether the key was missing.
  pub map_get_after :
      (z : V) (pairs : List (Pair K V)) (k j : K) (v : V) (transform : V → V)
      → let get = map_get equality z in
        (get (map_set equality pairs k v).0 j ≡ (if equality k j then (v, true) else get pairs j))
        × (get (map_delete equality pairs k) j ≡ (if equality k j then (z, false) else get pairs j))
        × (get (map_transform equality z pairs k transform) j
            ≡ (if equality k j then (transform (get pairs k).0, true) else get pairs j))
        × ((map_set equality pairs k v).1 ≡ not (get pairs k).1)
  map_get_after z pairs k j v transform =
      (after_set v, after_delete, after_transform, map_set-flag z pairs k v)
    where
      after_set :
          (w : V)
          → map_get equality z (map_set equality pairs k w).0 j
            ≡ (if equality k j then (w, true) else map_get equality z pairs j)
      after_set w =
          unfold read in
          rw (map_get-found, found-map_set pairs k w j, map_get-found z pairs j) (ground arith)

      after_delete :
          map_get equality z (map_delete equality pairs k) j
          ≡ (if equality k j then (z, false) else map_get equality z pairs j)
      after_delete =
          unfold read map_delete in
          rw (map_get-found, filter_items-keep, found-keep pairs k j, map_get-found z pairs j)
            (ground arith)

      after_transform : map_get equality z (map_transform equality z pairs k transform) j ≡ (
          if equality k j
          then (transform (map_get equality z pairs k).0, true)
          else map_get equality z pairs j)
      after_transform = unfold map_transform in after_set (transform (map_get equality z pairs k).0)
