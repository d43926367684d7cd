-- ===== src/WorkQueue/Table/Rows.antt =====
-- What each statement leaves of every row.
use gobase.Base.{
  ℕ, zero, suc, ◌≤◌, ◌≡◌, refl, ap, subst, inl, inr, Bool, true, false, none, some, List, [], ◌∷◌,
  ◌++◌, arith, Bool-cases, ◌==◌, ==_iff, ==-refl, nat_comparable, bool_comparable, list_comparable,
  count, IsUnique, All,
}
use gobase.Base.Text.{Text}
use gobase.WorkQueue.Table.{Row, has, ids, find_row, update_rows, delete_rows}

pub has-count : (xs : List Text) (j : Text) → has xs j ≡ false → count j xs ≡ 0
has-count [] j h = refl
has-count (x ∷ xs) j h = ground (arith, has-count xs j)

pub count-has : (xs : List Text) (j : Text) → count j xs ≡ 0 → has xs j ≡ false
count-has [] j h = refl
count-has (x ∷ xs) j h = ground (arith, count-has xs j)

pub id-find_row : (j : Text) (rows : List Row) (r : Row) → find_row j rows ≡ some r → r.id ≡ j
unfolding find_row
id-find_row j [] r h = cc
id-find_row j (s ∷ rows) r h = elim (Bool-cases (s.id == j)) [
  | inl same ↦
      let e : some s ≡ some r = rw same at h in
      let f : s ≡ r = cc in subst (λ r. r.id ≡ j) f ((==_iff s.id j).0 same)
  | inr other ↦ id-find_row j rows r (rw other at h)
]

pub find_row-has : (j : Text) (rows : List Row) → has (ids rows) j ≡ false → find_row j rows ≡ none
unfolding find_row
find_row-has j [] h = refl
find_row-has j (s ∷ rows) h = ground (arith, find_row-has j rows)

pub find_row-append :
    (j : Text) (rows : List Row) (r s : Row)
    → find_row j rows ≡ some s
    → find_row j (rows ++ r ∷ []) ≡ some s
unfolding find_row
find_row-append j [] r s h = cc
find_row-append j (t ∷ rows) r s h = ground (arith, find_row-append j rows r s)

pub find_row-append_new :
    (rows : List Row) (r : Row)
    → has (ids rows) r.id ≡ false
    → find_row r.id (rows ++ r ∷ []) ≡ some r
unfolding find_row
find_row-append_new [] r h = rw (==-refl r.id) refl
find_row-append_new (t ∷ rows) r h = ground (arith, find_row-append_new rows r)

module _ (change : Row → Row) (keeps : (r : Row) → (change r).id ≡ r.id) where
  pub ids-update_rows : (i : Text) (rows : List Row) → ids (update_rows i change rows) ≡ ids rows
  unfolding update_rows
  ids-update_rows i [] = refl
  ids-update_rows i (r ∷ rows) = ground (arith, keeps r, ids-update_rows i rows)

  pub find_row-update_other :
      (i j : Text) (rows : List Row)
      → (i == j) ≡ false
      → find_row j (update_rows i change rows) ≡ find_row j rows
  unfolding update_rows find_row
  find_row-update_other i j [] h = refl
  find_row-update_other i j (r ∷ rows) h = elim (Bool-cases (r.id == i)) [
    | inl same ↦
        let e = (==_iff r.id i).0 same in
        let f : ((change r).id == j) ≡ false = rw (keeps r, e) h in
        let g : (r.id == j) ≡ false = rw e h in rw (same, f, g) (find_row-update_other i j rows h)
    | inr other ↦ rw other (ground (arith, find_row-update_other i j rows h))
  ]

  pub find_row-update_self :
      (j : Text) (rows : List Row) (r : Row)
      → find_row j rows ≡ some r
      → find_row j (update_rows j change rows) ≡ some (change r)
  unfolding update_rows find_row
  find_row-update_self j [] r h = cc
  find_row-update_self j (s ∷ rows) r h = elim (Bool-cases (s.id == j)) [
    | inl same ↦
        let e : some s ≡ some r = rw same at h in
        let f : ((change s).id == j) ≡ true = rw (keeps s) same in
        rw (same, f) (ap (λ o. elim o [ none ↦ none | some t ↦ some (change t) ]) e)
    | inr other ↦ rw (other, other) (find_row-update_self j rows r (rw other at h))
  ]

  pub All-update_rows {κ} :
      (P : Row → Type κ) (i : Text) (rows : List Row)
      → ((r : Row) → P r → P (change r))
      → All P rows
      → All P (update_rows i change rows)
  unfolding update_rows
  All-update_rows P i [] step h = h
  All-update_rows P i (r ∷ rows) step (p, h) = elim (Bool-cases (r.id == i)) [
    | inl same ↦ rw same (step r p, All-update_rows P i rows step h)
    | inr other ↦ rw other (p, All-update_rows P i rows step h)
  ]

module _ (test : Row → Bool) where
  pub find_row-delete_rows :
      (limit : ℕ) (j : Text) (rows : List Row) (r : Row)
      → find_row j rows ≡ some r
      → test r ≡ false
      → find_row j (delete_rows limit test rows) ≡ some r
  unfolding delete_rows find_row
  find_row-delete_rows limit j [] r h keep_r = cc
  find_row-delete_rows zero j (s ∷ rows) r h keep_r = h
  find_row-delete_rows (suc limit) j (s ∷ rows) r h keep_r = elim (Bool-cases (s.id == j)) [
    | inl same ↦
        let e : some s ≡ some r = rw same at h in
        let f : s ≡ r = cc in let stays : test s ≡ false = rw f keep_r in rw (stays, same) e
    | inr other ↦
        let found = rw other at h in
        elim (Bool-cases (test s)) [
          | inl gone ↦ rw gone (find_row-delete_rows limit j rows r found keep_r)
          | inr stays ↦ rw (stays, other) (find_row-delete_rows (suc limit) j rows r found keep_r)
        ]
  ]

  pub count-delete_rows :
      (limit : ℕ) (j : Text) (rows : List Row)
      → count j (ids (delete_rows limit test rows)) ≤ count j (ids rows)
  unfolding delete_rows
  count-delete_rows limit j [] = omega arith
  count-delete_rows zero j (s ∷ rows) = omega arith
  count-delete_rows (suc limit) j (s ∷ rows) =
      ground (arith, count-delete_rows limit j rows, count-delete_rows (suc limit) j rows)

  pub All-delete_rows {κ} :
      (P : Row → Type κ) (limit : ℕ) (rows : List Row)
      → All P rows
      → All P (delete_rows limit test rows)
  unfolding delete_rows
  All-delete_rows P limit [] h = h
  All-delete_rows P zero (s ∷ rows) h = h
  All-delete_rows P (suc limit) (s ∷ rows) (p, h) = elim (Bool-cases (test s)) [
    | inl gone ↦ rw gone (All-delete_rows P limit rows h)
    | inr stays ↦ rw stays (p, All-delete_rows P (suc limit) rows h)
  ]

pub id-ne :
    (s t : Row) (rows : List Row)
    → IsUnique (ids (s ∷ rows))
    → find_row t.id rows ≡ some t
    → (s.id == t.id) ≡ false
id-ne s t rows unique found = elim (Bool-cases (s.id == t.id)) [
  | inr other ↦ other
  | inl same ↦
      let e = (==_iff s.id t.id).0 same in
      let once = unique s.id in
      let self = ==-refl s.id in
      let zero_times : count s.id (ids rows) ≡ 0 = ground arith in
      let missing = find_row-has s.id rows (count-has (ids rows) s.id zero_times) in
      let here : find_row s.id rows ≡ some t = rw e found in cc
]

pub unique_tail : (s : Row) (rows : List Row) → IsUnique (ids (s ∷ rows)) → IsUnique (ids rows)
unique_tail s rows unique a = let once = unique a in ground arith

pub find_row-All {κ} :
    (P : Row → Type κ) (j : Text) (rows : List Row) (r : Row)
    → All P rows
    → find_row j rows ≡ some r
    → P r
unfolding find_row
find_row-All P j [] r h e = cc
find_row-All P j (s ∷ rows) r (p, h) e = elim (Bool-cases (s.id == j)) [
  | inl same ↦ let f : some s ≡ some r = rw same at e in let g : s ≡ r = cc in subst P g p
  | inr other ↦ find_row-All P j rows r h (rw other at e)
]
