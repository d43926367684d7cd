-- ===== src/Jv/Distinct/Best.antt =====
-- `Mode` and `MaxFx` of jv/arrayutil.go.
use gobase.Base.{
  ℕ, ◌+◌, ◌≤◌, ◌<◌, ◌≡◌, refl, ap, ◌∙◌, subst, ◌⊎◌, inl, inr, true, false, none, some, List, [],
  ◌∷◌, ◌++◌, append_assoc, append-nil, arith, ltb, ltb→lt, Bool-cases, Comparable, ==-refl,
  nat_comparable, bool_comparable, list_comparable, count, count-append, All, All-append,
}
use gobase.Base.GoMap.{GoMap, get_or, insert, lookup-insert, lookup}
use gobase.Base.Ordered.{Ordered, lt_of_le, lt_irrefl}
use gobase.Jv.Distinct.{Tally, mode_step, mode_loop, mode, max_loop, max_fx}

module _ {ℓ} {A : Type ℓ} ⦃e : Comparable A⦄ where
  -- `m` is the most frequent item of `xs`, and the first to stand as often as it does.
  pub data IsMode (xs : List A) (m : A) : Type ℓ where
    is_mode :
        (before after : List A)
        → xs ≡ before ++ m ∷ after
        → ((y : A) → count y xs ≤ count m xs)
        → ((y : A) → count y before < count m xs)
        → IsMode xs m

  -- The loop's state after the items `seen`.
  record Counts (seen : List A) (t : Tally A) : Type ℓ where
    exact : (y : A) → get_or 0 y t.counter ≡ count y seen
    bound : (y : A) → count y seen ≤ t.max
    best : (t.max ≡ 0) ⊎ (IsMode seen t.max_value × (count t.max_value seen ≡ t.max))

  abbrev tallied : GoMap A ℕ → A → GoMap A ℕ
  tallied counter item = insert item (get_or 0 item counter + 1) counter

  module _ (seen : List A) (t : Tally A) (c : Counts seen t) (item : A) where
    exact' : (y : A) → get_or 0 y (tallied t.counter item) ≡ count y (seen ++ item ∷ [])
    exact' y = ground (
      arith,
      lookup-insert item y (get_or 0 item t.counter + 1) t.counter,
      c.exact y,
      c.exact item,
      count-append y seen (item ∷ []),
      e.is_eq_iff item y,
    )

    -- The count of the item just read.
    count_item : count item (seen ++ item ∷ []) ≡ count item seen + 1
    count_item = ground (arith, count-append item seen (item ∷ []), ==-refl item)

    count_other : (y : A) → count y (seen ++ item ∷ []) ≤ count y seen + 1
    count_other y = ground (arith, count-append y seen (item ∷ []))

    count_ne : (y : A) → (count y (seen ++ item ∷ []) ≡ count y seen) ⊎ (item ≡ y)
    count_ne y = ground (arith, count-append y seen (item ∷ []), e.is_eq_iff item y)

    overtaken :
        t.max < get_or 0 item t.counter + 1
        → Counts (seen ++ item ∷ []) (record {
          counter = tallied t.counter item;
          max = get_or 0 item t.counter + 1;
          max_value = item;
        })
    overtaken more = record {
      exact = exact';
      bound = above;
      best = inr (
        is_mode seen [] refl (λ y. omega (arith, above y, top))
            (λ y. omega (arith, c.bound y, top)),
        top,
      );
    }
      where
        top : count item (seen ++ item ∷ []) ≡ get_or 0 item t.counter + 1
        top = omega (arith, count_item, c.exact item)

        above : (y : A) → count y (seen ++ item ∷ []) ≤ get_or 0 item t.counter + 1
        above y = omega (arith, count_other y, c.bound y)

    -- The item of the best count stays in front.
    kept :
        (get_or 0 item t.counter + 1 ≤ t.max)
        → Counts (seen ++ item ∷ []) (record t { counter = tallied t.counter item })
    kept less = record { exact = exact'; bound = under; best = best_after c.best }
      where
        under : (y : A) → count y (seen ++ item ∷ []) ≤ t.max
        under y = elim (count_ne y) [
          | inl same ↦ omega (arith, c.bound y)
          | inr this ↦
              subst (λ z. count z (seen ++ item ∷ []) ≤ t.max) this
                (omega (arith, count_item, c.exact item))
        ]

        same_best : count t.max_value seen ≡ t.max → count t.max_value (seen ++ item ∷ []) ≡ t.max
        same_best top = omega (arith, under t.max_value, count-append t.max_value seen (item ∷ []))

        best_after :
            (t.max ≡ 0) ⊎ (IsMode seen t.max_value × (count t.max_value seen ≡ t.max))
            → (t.max ≡ 0)
              ⊎ (IsMode (seen ++ item ∷ []) t.max_value
                  × (count t.max_value (seen ++ item ∷ []) ≡ t.max))
        best_after (inl e) = inl e
        best_after (inr (is_mode before after split most first, top)) = inr (
          is_mode before (after ++ item ∷ [])
              (ap (λ xs. xs ++ item ∷ []) split ∙ append_assoc before _ _)
              (λ y. omega (arith, under y, same_best top))
              (λ y. omega (arith, first y, same_best top)),
          same_best top,
        )

  mode_step-Counts :
      (seen : List A) (t : Tally A) (item : A)
      → Counts seen t
      → Counts (seen ++ item ∷ []) (mode_step t item)
  unfolding mode_step
  mode_step-Counts seen t item c = elim (Bool-cases (ltb t.max (get_or 0 item t.counter + 1))) [
    | inl more ↦ rw more (overtaken seen t c item (ltb→lt _ _ more))
    | inr less ↦ rw less (kept seen t c item (ground arith))
  ]

  mode_loop-Counts :
      (seen rest : List A) (t : Tally A) → Counts seen t → Counts (seen ++ rest) (mode_loop rest t)
  unfolding mode_loop
  mode_loop-Counts seen [] t c = rw append-nil c
  mode_loop-Counts seen (item ∷ rest) t c = rw (← append_assoc seen (item ∷ []) rest) (
      mode_loop-Counts (seen ++ item ∷ []) rest (mode_step t item) (mode_step-Counts seen t item c))

  final-IsMode :
      (x : A) (xs : List A) (t : Tally A) → Counts (x ∷ xs) t → IsMode (x ∷ xs) t.max_value
  final-IsMode x xs t c = elim c.best [
    | inl nothing ↦ absurd (omega (arith, c.bound x, some_item))
    | inr (m, _) ↦ m
  ]
    where
      some_item : 1 ≤ count x (x ∷ xs)
      some_item = ground (arith, ==-refl x)

  -- `Mode` panics exactly on no values, and otherwise returns a most frequent value: of those, the
  -- one that reaches its count first.
  pub mode-IsMode :
      (zero_value : A) (input : List A)
      → ((input ≡ []) × (mode zero_value input ≡ none))
        ⊎ ((m : A) × (mode zero_value input ≡ some m) × IsMode input m)
  unfolding mode
  mode-IsMode z [] = inl (refl, refl)
  mode-IsMode z (x ∷ xs) = inr (_, refl, final-IsMode x xs _ (mode_loop-Counts [] (x ∷ xs) _ fresh))
    where
      fresh : Counts [] (record { counter = []; max = 0; max_value = z })
      fresh = record { exact = λ y. refl; bound = λ y. omega arith; best = inl refl }

module _ {ℓ κ} {A : Type ℓ} {K : Type κ} ⦃o : Ordered K⦄ where
  -- `m` is the first item of `xs` whose score no other exceeds.
  pub data IsFirstMax (lookup : A → K) (xs : List A) (m : A) : Type (ℓ ⊔ κ) where
    first_max :
        (before after : List A)
        → xs ≡ before ++ m ∷ after
        → All (λ y. o.lt (lookup y) (lookup m) ≡ true) before
        → All (λ y. o.lt (lookup m) (lookup y) ≡ false) xs
        → IsFirstMax lookup xs m

  IsFirstMax-keep :
      (lookup : A → K) (xs : List A) (m item : A)
      → o.lt (lookup m) (lookup item) ≡ false
      → IsFirstMax lookup xs m
      → IsFirstMax lookup (xs ++ item ∷ []) m
  IsFirstMax-keep lookup xs m item h (first_max before after split less top) =
      first_max before (after ++ item ∷ [])
        (ap (λ ys. ys ++ item ∷ []) split ∙ append_assoc before _ _) less
        (All-append _ xs (item ∷ []) top (h, tt))

  All-less :
      (lookup : A → K) (xs : List A) (m item : A)
      → o.lt (lookup m) (lookup item) ≡ true
      → All (λ y. o.lt (lookup m) (lookup y) ≡ false) xs
      → All (λ y. o.lt (lookup y) (lookup item) ≡ true) xs
  All-less lookup [] m item h top = tt
  All-less lookup (x ∷ xs) m item h (t, top) =
      (lt_of_le (lookup x) (lookup m) (lookup item) t h, All-less lookup xs m item h top)

  none_above :
      (lookup : A → K) (xs : List A) (item : A)
      → All (λ y. o.lt (lookup y) (lookup item) ≡ true) xs
      → All (λ y. o.lt (lookup item) (lookup y) ≡ false) xs
  none_above lookup [] item h = tt
  none_above lookup (x ∷ xs) item (l, h) = (o.lt_asymm _ _ l, none_above lookup xs item h)

  IsFirstMax-new :
      (lookup : A → K) (xs : List A) (m item : A)
      → o.lt (lookup m) (lookup item) ≡ true
      → IsFirstMax lookup xs m
      → IsFirstMax lookup (xs ++ item ∷ []) item
  IsFirstMax-new lookup xs m item h (first_max before after split less top) =
      let below = All-less lookup xs m item h top in
      first_max xs [] refl below (
        All-append _ xs (item ∷ []) (none_above lookup xs item below) (lt_irrefl (lookup item), tt))

  max_loop-IsFirstMax :
      (lookup : A → K) (seen rest : List A) (m : A)
      → IsFirstMax lookup seen m
      → IsFirstMax lookup (seen ++ rest) (max_loop rest lookup (lookup m) m)
  unfolding max_loop
  max_loop-IsFirstMax lookup seen [] m h = rw append-nil h
  max_loop-IsFirstMax lookup seen (item ∷ rest) m h =
      elim (Bool-cases (o.lt (lookup m) (lookup item))) [
        | inl more ↦
            rw (more, max_loop, ← append_assoc seen (item ∷ []) rest)
              (max_loop-IsFirstMax lookup (seen ++ item ∷ []) rest item
                (IsFirstMax-new lookup seen m item more h))
        | inr less ↦
            rw (less, max_loop, ← append_assoc seen (item ∷ []) rest)
              (max_loop-IsFirstMax lookup (seen ++ item ∷ []) rest m
                (IsFirstMax-keep lookup seen m item less h))
      ]

  -- `MaxFx` returns the zero value for no items, and otherwise the first item whose score no
  -- other exceeds.
  pub max_fx-IsFirstMax :
      (zero_value : A) (input : List A) (lookup : A → K)
      → ((input ≡ []) × (max_fx zero_value input lookup ≡ zero_value))
        ⊎ IsFirstMax lookup input (max_fx zero_value input lookup)
  unfolding max_fx
  max_fx-IsFirstMax z [] lookup = inl (refl, refl)
  max_fx-IsFirstMax z (x ∷ xs) lookup = inr (
      max_loop-IsFirstMax lookup (x ∷ []) xs x (first_max [] [] refl tt (lt_irrefl (lookup x), tt)))
