-- ===== src/WorkQueue/Add/Laws.antt =====
-- What a call of `add` leaves of the table.
use gobase.Base.{
  ℕ, ◌≡◌, refl, ◌∙◌, ◌⊎◌, inl, inr, Bool, true, false, Option, none, some, List, [], ◌∷◌, ◌++◌,
  arith, Bool-cases, ◌==◌, ==_iff, ==-refl, nat_comparable, bool_comparable, list_comparable, count,
  count-append, IsUnique, All, All-append,
}
use gobase.Base.{map-append}
use gobase.Base.Text.{Text}
use gobase.WorkQueue.Table.{Row, is_null, has, ids, find_row, insert_row}
use gobase.WorkQueue.Table.Rows.{
  has-count, find_row-has, find_row-append, find_row-append_new, ids-update_rows,
  find_row-update_other, find_row-update_self, id-ne, unique_tail, All-update_rows,
}
use gobase.WorkQueue.Add.{AddOption, new_row, first_where, is_debounced, existing, reuse, add}
use gobase.WorkQueue.Add.Cases.{Added, inserted, kept, reused, add-Added}

pub insert_row_inv :
    (r : Row) (rows rows' : List Row)
    → insert_row r rows ≡ some rows'
    → (has (ids rows) r.id ≡ false) × (rows' ≡ rows ++ r ∷ [])
unfolding insert_row
insert_row_inv r rows rows' h = elim (Bool-cases (has (ids rows) r.id)) [
  | inl there ↦ let e : none ≡ some rows' = rw there at h in cc
  | inr fresh ↦ let e : some (rows ++ r ∷ []) ≡ some rows' = rw fresh at h in (fresh, cc)
]

first_where_holds :
    (test : Row → Bool) (rows : List Row) (r : Row) → first_where test rows ≡ some r → test r ≡ true
unfolding first_where
first_where_holds test [] r h = cc
first_where_holds test (s ∷ rows) r h = ground (arith, first_where_holds test rows r)

find_row-first_where :
    (test : Row → Bool) (rows : List Row) (r : Row)
    → IsUnique (ids rows)
    → first_where test rows ≡ some r
    → find_row r.id rows ≡ some r
unfolding first_where find_row
find_row-first_where test [] r unique h = cc
find_row-first_where test (s ∷ rows) r unique h = elim (Bool-cases (test s)) [
  | inl passes ↦
      let e : some s ≡ some r = rw passes at h in let f : s ≡ r = cc in rw (← f, ==-refl s.id) refl
  | inr fails ↦
      let rest = find_row-first_where test rows r (unique_tail s rows unique) (rw fails at h) in
      rw (id-ne s r rows unique rest) rest
]

pub is_null-none {ℓ} : {A : Type ℓ} (o : Option A) → is_null o ≡ true → o ≡ none
is_null-none none h = refl
is_null-none (some a) h = cc

pub find_row-existing :
    (queue key : Text) (locked : List Text) (rows : List Row) (r : Row)
    → IsUnique (ids rows)
    → existing queue key locked rows ≡ some r
    → find_row r.id rows ≡ some r
unfolding existing
find_row-existing queue key locked rows = find_row-first_where (is_debounced queue key locked) rows

-- A row that `existing` finds is pending, of the queue and key, and held by no one.
pub existing-Pending :
    (queue key : Text) (locked : List Text) (rows : List Row) (r : Row)
    → existing queue key locked rows ≡ some r
    → (r.queue_name ≡ queue)
      × (r.debounce_key ≡ key)
      × (r.started_at ≡ none)
      × (has locked r.id ≡ false)
unfolding existing is_debounced
existing-Pending queue key locked rows r h =
    let test = first_where_holds (is_debounced queue key locked) rows r h in
    let null = is_null-none r.started_at in
    ground (arith, ==_iff r.queue_name queue, ==_iff r.debounce_key key, null)

IsUnique-append :
    (rows : List Row) (r : Row)
    → has (ids rows) r.id ≡ false
    → IsUnique (ids rows)
    → IsUnique (ids (rows ++ r ∷ []))
IsUnique-append rows r fresh unique a =
    rw (map-append (λ (s : Row). s.id) rows (r ∷ []), count-append a (ids rows) (r.id ∷ []))
      (elim (Bool-cases (r.id == a)) [
        | inl same ↦
            let e = (==_iff r.id a).0 same in
            let absent : count a (ids rows) ≡ 0 = has-count (ids rows) a (rw (← e) fresh) in
            ground arith
        | inr other ↦ let once = unique a in ground arith
      ])

module _ (queue : Text) (opts : AddOption) (now : ℕ) (locked : List Text) (id : Text)
    (rows rows' : List Row) (added : Added queue opts now locked id rows rows') where
  pub IsUnique-add : IsUnique (ids rows) → IsUnique (ids rows')
  unfolding reuse
  IsUnique-add unique = go added
    where
      go : Added queue opts now locked id rows rows' → IsUnique (ids rows')
      go (inserted msg start e) =
          let (fresh, after) = insert_row_inv (new_row queue id msg now start opts) rows rows' e in
          rw after (IsUnique-append rows (new_row queue id msg now start opts) fresh unique)
      go (kept r found same e) = rw e unique
      go (reused r arg start found same e) =
          rw (e, ids-update_rows (reuse arg start) (λ s. refl) id rows) unique

  -- The rows with another id stand as before.
  pub find_row-add_other :
      (j : Text) (r : Row)
      → (id == j) ≡ false
      → find_row j rows ≡ some r
      → find_row j rows' ≡ some r
  unfolding reuse
  find_row-add_other j r other found = go added
    where
      go : Added queue opts now locked id rows rows' → find_row j rows' ≡ some r
      go (inserted msg start e) =
          let (fresh, after) = insert_row_inv (new_row queue id msg now start opts) rows rows' e in
          rw after (find_row-append j rows (new_row queue id msg now start opts) r found)
      go (kept s old same e) = rw e found
      go (reused s arg start old same e) =
          rw (e, find_row-update_other (reuse arg start) (λ s. refl) id j rows other) found

  id-add : (j : Text) (r : Row) → has locked j ≡ true → find_row j rows ≡ some r → (id == j) ≡ false
  id-add j r held found = elim (Bool-cases (id == j)) [
    | inr other ↦ other
    | inl same ↦ go ((==_iff id j).0 same) added
  ]
    where
      free :
          (s : Row)
          → existing queue opts.debounce_key locked rows ≡ some s
          → s.id ≡ j
          → (id == j) ≡ false
      free s old e =
          let (q, k, n, unheld) = existing-Pending queue opts.debounce_key locked rows s old in
          let clash : has locked j ≡ false = rw (← e) unheld in cc

      go : id ≡ j → Added queue opts now locked id rows rows' → (id == j) ≡ false
      go e (inserted msg start f) =
          let (fresh, after) = insert_row_inv (new_row queue id msg now start opts) rows rows' f in
          let none_there = find_row-has j rows (unfold new_row in (rw (← e) fresh)) in cc
      go e (kept s old same f) = free s old (same ∙ e)
      go e (reused s arg start old same f) = free s old (same ∙ e)

  -- A row that an open transaction holds stands as before.
  pub find_row-add_locked :
      (j : Text) (r : Row)
      → has locked j ≡ true
      → find_row j rows ≡ some r
      → find_row j rows' ≡ some r
  find_row-add_locked j r held found = find_row-add_other j r (id-add j r held found) found

  pub All-add {κ} :
      (P : Row → Type κ)
      → ((msg : Text) (now start : ℕ) → P (new_row queue id msg now start opts))
      → ((arg : Text) (start : ℕ) (r : Row) → P r → P (reuse arg start r))
      → All P rows
      → All P rows'
  All-add P at_new at_reuse all = go added
    where
      go : Added queue opts now locked id rows rows' → All P rows'
      go (inserted msg start e) =
          let (fresh, after) = insert_row_inv (new_row queue id msg now start opts) rows rows' e in
          rw after (
            All-append P rows (new_row queue id msg now start opts ∷ []) all
              (at_new msg now start, tt))
      go (kept r found same e) = rw e all
      go (reused r arg start found same e) = rw e (
          All-update_rows (reuse arg start) (λ s. unfold reuse in refl) P id rows
            (at_reuse arg start) all)

  -- The row behind the id that `add` returns.
  find_row-add :
      IsUnique (ids rows)
      → (r : Row) × (find_row id rows' ≡ some r)
        × (r.queue_name ≡ queue)
        × (r.debounce_key ≡ opts.debounce_key)
        × (r.started_at ≡ none)
  unfolding new_row reuse
  find_row-add unique = go added
    where
      old_row :
          (s : Row)
          → existing queue opts.debounce_key locked rows ≡ some s
          → s.id ≡ id
          → find_row id rows ≡ some s
      old_row s old e =
          rw (← e) (find_row-existing queue opts.debounce_key locked rows s unique old)

      go :
          Added queue opts now locked id rows rows'
          → (r : Row) × (find_row id rows' ≡ some r)
            × (r.queue_name ≡ queue)
            × (r.debounce_key ≡ opts.debounce_key)
            × (r.started_at ≡ none)
      go (inserted msg start e) =
          let (fresh, after) = insert_row_inv (new_row queue id msg now start opts) rows rows' e in
          (
            new_row queue id msg now start opts,
            rw after (find_row-append_new rows (new_row queue id msg now start opts) fresh),
            refl,
            refl,
            refl,
          )
      go (kept r old same e) =
          let (q, k, n, unheld) = existing-Pending queue opts.debounce_key locked rows r old in
          (r, rw e (old_row r old same), q, k, n)
      go (reused r arg start old same e) =
          let (q, k, n, unheld) = existing-Pending queue opts.debounce_key locked rows r old in
          (
            reuse arg start r,
            rw e
                (find_row-update_self (reuse arg start) (λ s. refl) id rows r (old_row r old same)),
            q,
            k,
            n,
          )

-- When `add` succeeds on a table with distinct ids, the id that it returns is that of a pending row
-- of the queue and the debounce key; every row with another id, and every row that an open
-- transaction holds, stands as before; and the ids are still distinct.
pub add_exact :
    (queue : Text) (opts : AddOption) (now : ℕ) (uuid msg : Option Text) (locked : List Text)
    (rows : List Row) (id : Text) (rows' : List Row)
    → IsUnique (ids rows)
    → add queue opts now uuid msg locked rows ≡ some (id, rows')
    → ((r : Row) × (find_row id rows' ≡ some r)
        × (r.queue_name ≡ queue)
        × (r.debounce_key ≡ opts.debounce_key)
        × (r.started_at ≡ none))
      × ((j : Text) (r : Row)
          → ((id == j) ≡ false) ⊎ (has locked j ≡ true)
          → find_row j rows ≡ some r
          → find_row j rows' ≡ some r)
      × IsUnique (ids rows')
add_exact queue opts now uuid msg locked rows id rows' unique h =
    let added = add-Added queue opts now uuid msg locked rows id rows' h in
    (
      find_row-add queue opts now locked id rows rows' added unique,
      (λ j r free found. elim free [
        | inl other ↦ find_row-add_other queue opts now locked id rows rows' added j r other found
        | inr held ↦ find_row-add_locked queue opts now locked id rows rows' added j r held found
      ]),
      IsUnique-add queue opts now locked id rows rows' added unique,
    )
