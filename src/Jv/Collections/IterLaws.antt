-- ===== src/Jv/Collections/IterLaws.antt =====
-- `Iter.Next` of jv/iter.go: it stops, and returns the next accepted item.
use gobase.Base.{
  ℕ, zero, suc, ◌+◌, ◌-◌, ◌<◌, max, ◌≡◌, refl, ap, ◌∙◌, inl, inr, Bool, true, false, Option, none,
  some, List, [], ◌∷◌, ◌++◌, arith, Bool-cases, Option-cases, length, get_elem?, drop, length-drop,
  nat_comparable, bool_comparable, list_comparable, All,
}
use native.Mathlib.Numerals.{add-one}
use gobase.Jv.Collections.{Iter, accepts, next_loop, next}

module _ {ℓ} {A : Type ℓ} (src : List A) (filter : Option (A → Bool)) where
  get_elem?-drop-none : (xs : List A) (i : ℕ) → get_elem? xs i ≡ none → drop i xs ≡ []
  get_elem?-drop-none [] zero h = refl
  get_elem?-drop-none [] (suc i) h = refl
  get_elem?-drop-none (x ∷ xs) zero h = cc
  get_elem?-drop-none (x ∷ xs) (suc i) h = get_elem?-drop-none xs i h

  get_elem?-drop-some :
      (xs : List A) (i : ℕ) (x : A) → get_elem? xs i ≡ some x → drop i xs ≡ x ∷ drop (suc i) xs
  get_elem?-drop-some [] i x h = cc
  get_elem?-drop-some (y ∷ xs) zero x h = cc
  get_elem?-drop-some (y ∷ xs) (suc i) x h = get_elem?-drop-some xs i x h

  abbrev pub Rejected : List A → Type 0
  Rejected = All (λ x. accepts filter x ≡ false)

  -- What a search from `position` on returns: the position behind the first accepted item and that
  -- item, or a position past the end and no item.
  pub data NextFrom (position : ℕ) (r : Option (ℕ × Option A)) : Type ℓ where
    next_item :
        (before : List A) (item : A) (after : List A)
        → drop position src ≡ before ++ item ∷ after
        → Rejected before
        → accepts filter item ≡ true
        → r ≡ some (position + length before + 1, some item)
        → NextFrom position r
    finished :
        Rejected (drop position src)
        → r ≡ some (max position (length src) + 1, none)
        → NextFrom position r

  step_over :
      (position : ℕ) (item : A) {r : Option (ℕ × Option A)}
      → get_elem? src position ≡ some item
      → accepts filter item ≡ false
      → NextFrom (suc position) r
      → NextFrom position r
  step_over position item here no_match (next_item b x a split misses hit e) =
      next_item (item ∷ b) x a (get_elem?-drop-some src position item here ∙ ap (◌∷◌ item) split)
        (no_match, misses) hit (e ∙ ap (λ p. some (p, some x)) (omega arith))
  step_over position item here no_match (finished misses e) =
      let at = get_elem?-drop-some src position item here in
      finished (rw at (no_match, misses))
        (e ∙ ap (λ p. some (p, none)) (omega (arith, ap length at, length-drop position src)))

  at_end :
      (position : ℕ) → get_elem? src position ≡ none → NextFrom position (some (position + 1, none))
  at_end position gone =
      let at = get_elem?-drop-none src position gone in
      finished (rw at tt)
        (ap (λ p. some (p, none)) (omega (arith, ap length at, length-drop position src)))

  next_loop-NextFrom :
      (fuel position : ℕ)
      → length src - position < fuel
      → NextFrom position (next_loop fuel src filter position)
  unfolding next_loop
  next_loop-NextFrom zero position enough = absurd (omega arith)
  next_loop-NextFrom (suc fuel) position enough = elim (Option-cases (get_elem? src position)) [
    | inl gone ↦ rw (gone, next_loop) (at_end position gone)
    | inr (item, here) ↦ elim (Bool-cases (accepts filter item)) [
      | inl hit ↦
          rw (here, next_loop, hit)
            (next_item [] item _ (get_elem?-drop-some src position item here) tt hit
              (ap (λ p. some (p, some item)) (omega arith)))
      | inr miss ↦
          rw (here, next_loop, miss)
            (step_over position item here miss (
              rw (← add-one position) (
                next_loop-NextFrom fuel (position + 1) (
                  omega (
                    arith,
                    ap length (get_elem?-drop-some src position item here),
                    length-drop position src,
                  )))))
    ]
  ]

-- `Next` ends and returns the first item from the iterator's position on that the filter accepts,
-- leaving the position just behind it; if no item is left that the filter accepts, it returns
-- none and leaves the position past the end. Source and filter stay.
pub next-NextFrom {ℓ} :
    {A : Type ℓ} (fuel : ℕ) (i : Iter A)
    → length i.src - i.position < fuel
    → (r : ℕ × Option A) × (next fuel i ≡ some (record i { position = r.0 }, r.1))
      × NextFrom i.src i.filter i.position (some r)
unfolding next
next-NextFrom {A} fuel i enough =
    from _ (next_loop-NextFrom i.src i.filter fuel i.position enough) refl
  where
    from :
        (o : Option (ℕ × Option A))
        → NextFrom i.src i.filter i.position o
        → next_loop fuel i.src i.filter i.position ≡ o
        → (r : ℕ × Option A) × (next fuel i ≡ some (record i { position = r.0 }, r.1))
          × NextFrom i.src i.filter i.position (some r)
    from none (next_item b x a split misses hit e) same = cc
    from none (finished misses e) same = cc
    from (some r) n same = (r, rw (same, next), n)
