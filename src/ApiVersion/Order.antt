-- ===== src/ApiVersion/Order.antt =====
-- How `GtOrEq` and `Lt` order versions.
use gobase.Base.{
  ◌≡◌, refl, ap, subst, ◌≢◌, ◌↔◌, ◌⊎◌, inl, inr, true, false, none, some, List, [], ◌∷◌, ◌++◌,
  arith, Bool-cases, nat_comparable, bool_comparable, list_comparable,
}
use gobase.Base.Int.{ℤ, ltb_ℤ, eq_of_parts}
use gobase.ApiVersion.{gt_loop, gt_or_eq, lt}

-- `v` comes before `w`: at the first part where they differ, `v` has the smaller number; or `v`
-- has no part and `w` has one.
pub data Precedes (v w : List ℤ) : Type 0 where
  at_part :
      (common : List ℤ) (i j : ℤ) (v' w' : List ℤ)
      → v ≡ common ++ i ∷ v'
      → w ≡ common ++ j ∷ w'
      → ltb_ℤ i j ≡ true
      → Precedes v w
  unnumbered : (j : ℤ) (w' : List ℤ) → v ≡ [] → w ≡ j ∷ w' → Precedes v w

lt-irrefl_ℤ : (i : ℤ) → ltb_ℤ i i ≡ false
lt-irrefl_ℤ i = ground arith

same_part : (i j : ℤ) → ltb_ℤ j i ≡ false → ltb_ℤ i j ≡ false → i ≡ j
same_part i j h k = eq_of_parts i j (ground arith)

gt_loop_less :
    (common : List ℤ) (i j : ℤ) (v w : List ℤ)
    → ltb_ℤ i j ≡ true
    → gt_loop (common ++ i ∷ v) (common ++ j ∷ w) ≡ some false
unfolding gt_loop
gt_loop_less [] i j v w h = ground arith
gt_loop_less (k ∷ common) i j v w h = rw (lt-irrefl_ℤ k) (gt_loop_less common i j v w h)

Precedes-cons :
    (i : ℤ) {v w : List ℤ} → gt_loop v w ≡ some false → Precedes v w → Precedes (i ∷ v) (i ∷ w)
unfolding gt_loop
Precedes-cons i less (at_part common a b v' w' ev ew h) =
    at_part (i ∷ common) a b v' w' (ap (◌∷◌ i) ev) (ap (◌∷◌ i) ew) h
Precedes-cons i {v} {w} less (unnumbered j w' ev ew) =
    cc (subst (λ l. gt_loop l w ≡ some false) ev less)

-- What the loop's answer false says of two versions that go on with a part.
gt_loop_cases :
    (i j : ℤ) (v w : List ℤ)
    → gt_loop (i ∷ v) (j ∷ w) ≡ some false
    → (ltb_ℤ i j ≡ true) ⊎ ((i ≡ j) × (gt_loop v w ≡ some false))
unfolding gt_loop
gt_loop_cases i j v w h = elim (Bool-cases (ltb_ℤ i j)) [
  | inl less ↦ inl less
  | inr not_less ↦ inr (same_part i j (not_more not_less) not_less, rest not_less)
]
  where
    not_more : ltb_ℤ i j ≡ false → ltb_ℤ j i ≡ false
    not_more k = ground arith

    rest : ltb_ℤ i j ≡ false → gt_loop v w ≡ some false
    rest k = ground arith

not_less : (w : List ℤ) → gt_loop [] w ≢ some false
unfolding gt_loop
not_less w h = cc

not_less_end : (i : ℤ) (v : List ℤ) → gt_loop (i ∷ v) [] ≢ some false
unfolding gt_loop
not_less_end i v h = cc

gt_loop-Precedes : (v w : List ℤ) → gt_loop v w ≡ some false → Precedes v w
gt_loop-Precedes [] w h = absurd (not_less w h)
gt_loop-Precedes (i ∷ v) [] h = absurd (not_less_end i v h)
gt_loop-Precedes (i ∷ v) (j ∷ w) h = elim (gt_loop_cases i j v w h) [
  | inl less ↦ at_part [] i j v w refl refl less
  | inr (same, less) ↦
      subst (λ k. Precedes (i ∷ v) (k ∷ w)) same (Precedes-cons i less (gt_loop-Precedes v w less))
]

lt_cases :
    (v w : List ℤ)
    → lt v w ≡ true
    → (gt_loop v w ≡ some false) ⊎ ((j : ℤ) × (w' : List ℤ) × (v ≡ []) × (w ≡ j ∷ w'))
unfolding lt gt_loop
lt_cases [] [] h = cc
lt_cases [] (j ∷ w) h = inr (j, w, refl, refl)
lt_cases (i ∷ v) w h = inl (ground arith)

-- `Lt` holds exactly where the first version comes before the second: it has the smaller number at
-- the first part where they differ, both having that part, or it has no part and the second has one.
pub lt_iff : (v w : List ℤ) → (lt v w ≡ true) ↔ Precedes v w
lt_iff v w = (there, back)
  where
    there : lt v w ≡ true → Precedes v w
    there h = elim (lt_cases v w h) [
      | inl less ↦ gt_loop-Precedes v w less
      | inr (j, w', ev, ew) ↦ unnumbered j w' ev ew
    ]

    back : Precedes v w → lt v w ≡ true
    back (at_part common i j v' w' ev ew h) =
        unfold lt in rw (ev, ew, gt_or_eq, gt_loop_less common i j v' w' h)
    back (unnumbered j w' ev ew) = unfold lt gt_or_eq gt_loop in rw (ev, ew) (ground arith)

gt_loop_extends : (v rest : List ℤ) → gt_loop v (v ++ rest) ≡ none
unfolding gt_loop
gt_loop_extends [] rest = refl
gt_loop_extends (i ∷ v) rest = rw (lt-irrefl_ℤ i) (gt_loop_extends v rest)

gt_loop_extended : (v rest : List ℤ) (i : ℤ) → gt_loop (v ++ i ∷ rest) v ≡ some true
unfolding gt_loop
gt_loop_extended [] rest i = refl
gt_loop_extended (k ∷ v) rest i = rw (lt-irrefl_ℤ k) (gt_loop_extended v rest i)

-- `GtOrEq` is no order: a version with a part stands at or above both of two longer versions that
-- extend it and that differ, and at or below both, while these are ordered one way only.
pub gt_or_eq_not_transitive :
    (k i j : ℤ) (p : List ℤ)
    → ltb_ℤ i j ≡ true
    → (gt_or_eq (k ∷ p ++ i ∷ []) (k ∷ p) ≡ true)
      × (gt_or_eq (k ∷ p) (k ∷ p ++ j ∷ []) ≡ true)
      × (gt_or_eq (k ∷ p ++ i ∷ []) (k ∷ p ++ j ∷ []) ≡ false)
unfolding gt_or_eq
gt_or_eq_not_transitive k i j p h = (
  rw (gt_or_eq, gt_loop_extended (k ∷ p) [] i),
  rw (gt_or_eq, gt_loop_extends (k ∷ p) (j ∷ [])) (ground arith),
  rw (gt_or_eq, gt_loop_less (k ∷ p) i j [] [] h),
)
