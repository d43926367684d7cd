-- ===== src/WorkQueue/Add/Cases.antt =====
-- The three ways in which a call of `add` succeeds.
use gobase.Base.{
  ℕ, ◌≡◌, refl, sym, ap, ◌∙◌, subst, inl, inr, Bool, true, false, Option, none, some, List,
  if◌then◌else◌, Bool-cases, nat_comparable, bool_comparable, list_comparable, keep,
}
use gobase.Base.{>>=-eq-some, some_pair}
use gobase.Base.Text.{Text, is_empty}
use gobase.WorkQueue.Table.{Row, insert_row, update_rows}
use gobase.WorkQueue.Add.{
  AddOption, new_row, existing, reuse, insert_new, add_merged, add_debounced, add_message, add,
}

pub data Added (queue : Text) (opts : AddOption) (now : ℕ) (locked : List Text) (id : Text)
    (rows rows' : List Row) : Type 0 where
  inserted :
      (msg : Text) (start : ℕ)
      → insert_row (new_row queue id msg now start opts) rows ≡ some rows'
      → Added queue opts now locked id rows rows'
  kept :
      (r : Row)
      → existing queue opts.debounce_key locked rows ≡ some r
      → r.id ≡ id
      → rows' ≡ rows
      → Added queue opts now locked id rows rows'
  reused :
      (r : Row) (arg : Text) (start : ℕ)
      → existing queue opts.debounce_key locked rows ≡ some r
      → r.id ≡ id
      → rows' ≡ update_rows id (reuse arg start) rows
      → Added queue opts now locked id rows rows'

module _ (queue : Text) (opts : AddOption) (locked : List Text) (rows : List Row) where
  insert_new-Added :
      (id' msg : Text) (now start : ℕ) (id : Text) (rows' : List Row)
      → insert_new (new_row queue id' msg now start opts) rows ≡ some (id, rows')
      → Added queue opts now locked id rows rows'
  unfolding insert_new new_row
  insert_new-Added id' msg now start id rows' h =
      let (after, e, f) =
        >>=-eq-some (insert_row (new_row queue id' msg now start opts) rows)
          (λ after. some (id', after)) h in
      let (same, same_rows) = some_pair id' id after rows' f in
      inserted msg start (
        subst (λ i. insert_row (new_row queue i msg now start opts) rows ≡ some rows') same
          (e ∙ ap some same_rows))

  add_debounced-Added :
      (keep : Bool) (id' msg : Text) (now start : ℕ) (found : Option Row) (id : Text)
      (rows' : List Row)
      → existing queue opts.debounce_key locked rows ≡ found
      → add_debounced keep msg start (new_row queue id' msg now start opts) rows found
        ≡ some (id, rows')
      → Added queue opts now locked id rows rows'
  unfolding add_debounced
  add_debounced-Added keep id' msg now start none id rows' found h =
      insert_new-Added id' msg now start id rows' h
  add_debounced-Added true id' msg now start (some r) id rows' found h =
      let (same, same_rows) = some_pair r.id id rows rows' h in kept r found same (sym same_rows)
  add_debounced-Added false id' msg now start (some r) id rows' found h =
      let (same, same_rows) = some_pair r.id id (update_rows r.id (reuse msg start) rows) rows' h in
      reused r msg start found same
        (sym same_rows ∙ ap (λ i. update_rows i (reuse msg start) rows) same)

  add_merged-Added :
      (merge : Text → Text → Option Text) (keep : Bool) (id' msg : Text) (now start : ℕ)
      (found : Option Row) (id : Text) (rows' : List Row)
      → existing queue opts.debounce_key locked rows ≡ found
      → add_merged merge keep msg start (new_row queue id' msg now start opts) rows found
        ≡ some (id, rows')
      → Added queue opts now locked id rows rows'
  unfolding add_merged
  add_merged-Added merge keep id' msg now start none id rows' found h =
      insert_new-Added id' msg now start id rows' h
  add_merged-Added merge keep id' msg now start (some r) id rows' found h =
      let at = if keep then r.start_after else start in
      let (merged, e, f) =
        >>=-eq-some (merge r.job_arg msg)
          (λ merged. some (r.id, update_rows r.id (reuse merged at) rows)) h in
      let (same, same_rows) = some_pair r.id id (update_rows r.id (reuse merged at) rows) rows' f in
      reused r merged at found same
        (sym same_rows ∙ ap (λ i. update_rows i (reuse merged at) rows) same)

  add_message-Added :
      (now : ℕ) (id' msg : Text) (id : Text) (rows' : List Row)
      → add_message queue opts now id' msg locked rows ≡ some (id, rows')
      → Added queue opts now locked id rows rows'
  unfolding add_message
  add_message-Added now id' msg id rows' h =
      let start : ℕ = elim opts.start_after [ none ↦ now | some t ↦ t ] in
      elim (Bool-cases (is_empty opts.debounce_key)) [
        | inl plain ↦ insert_new-Added id' msg now start id rows' (rw plain at h)
        | inr debounced ↦ by_merge opts.debounce_merge (rw debounced at h)
      ]
    where
      by_merge :
          (m : Option (Text → Text → Option Text))
          → (elim m [
            | none ↦
                add_debounced opts.keep_original_start msg
                  (elim opts.start_after [ none ↦ now | some t ↦ t ])
                  (new_row queue id' msg now
                    (elim opts.start_after [ none ↦ now | some t ↦ t ])
                    opts)
                  rows
                  (existing queue opts.debounce_key locked rows)
            | some merge ↦
                add_merged merge opts.keep_original_start msg
                  (elim opts.start_after [ none ↦ now | some t ↦ t ])
                  (new_row queue id' msg now
                    (elim opts.start_after [ none ↦ now | some t ↦ t ])
                    opts)
                  rows
                  (existing queue opts.debounce_key locked rows)
          ])
            ≡ some (id, rows')
          → Added queue opts now locked id rows rows'
      by_merge none e = add_debounced-Added opts.keep_original_start id' msg now _ _ id rows' refl e
      by_merge (some merge) e =
          add_merged-Added merge opts.keep_original_start id' msg now _ _ id rows' refl e

add_inv :
    (queue : Text) (opts : AddOption) (now : ℕ) (uuid msg : Option Text) (locked : List Text)
    (rows : List Row) (id : Text) (rows' : List Row)
    → add queue opts now uuid msg locked rows ≡ some (id, rows')
    → (m : Text) × (i : Text) × (add_message queue opts now i m locked rows ≡ some (id, rows'))
unfolding add
add_inv queue opts now uuid msg locked rows id rows' h =
    let (m, e, f) = >>=-eq-some msg _ h in let (i, e', g) = >>=-eq-some uuid _ f in (m, i, g)

pub add-Added :
    (queue : Text) (opts : AddOption) (now : ℕ) (uuid msg : Option Text) (locked : List Text)
    (rows : List Row) (id : Text) (rows' : List Row)
    → add queue opts now uuid msg locked rows ≡ some (id, rows')
    → Added queue opts now locked id rows rows'
add-Added queue opts now uuid msg locked rows id rows' h =
    let (m, i, e) = add_inv queue opts now uuid msg locked rows id rows' h in
    add_message-Added queue opts locked rows now i m id rows' e

-- Without a debounce key a row is inserted.
pub add_plain :
    (queue : Text) (opts : AddOption) (now : ℕ) (uuid msg : Option Text) (locked : List Text)
    (rows : List Row) (id : Text) (rows' : List Row)
    → is_empty opts.debounce_key ≡ true
    → add queue opts now uuid msg locked rows ≡ some (id, rows')
    → (m : Text) × (start : ℕ) × (insert_row (new_row queue id m now start opts) rows ≡ some rows')
unfolding add_message insert_new new_row
add_plain queue opts now uuid msg locked rows id rows' plain h =
    let (m, i, e) = add_inv queue opts now uuid msg locked rows id rows' h in message i m e
  where
    plain_insert :
        (i m : Text) (start : ℕ)
        → insert_new (new_row queue i m now start opts) rows ≡ some (id, rows')
        → (m' : Text) × (start' : ℕ) × (insert_row (new_row queue id m' now start' opts) rows
            ≡ some rows')
    plain_insert i m start g =
        let (after, e, f) =
          >>=-eq-some (insert_row (new_row queue i m now start opts) rows)
            (λ after. some (i, after)) g in
        let (same, same_rows) = some_pair i id after rows' f in
        (
          m,
          start,
          subst (λ j. insert_row (new_row queue j m now start opts) rows ≡ some rows') same
              (e ∙ ap some same_rows),
        )

    message :
        (i m : Text)
        → add_message queue opts now i m locked rows ≡ some (id, rows')
        → (m' : Text) × (start' : ℕ) × (insert_row (new_row queue id m' now start' opts) rows
            ≡ some rows')
    message i m e = plain_insert i m _ (rw plain at e)

-- With a debounce key and a pending job that has it, that job is taken.
pub data Taken (r : Row) (id : Text) (rows rows' : List Row) : Type 0 where
  as_is : r.id ≡ id → rows' ≡ rows → Taken r id rows rows'
  rewritten :
      (arg : Text) (start : ℕ)
      → r.id ≡ id
      → rows' ≡ update_rows id (reuse arg start) rows
      → Taken r id rows rows'

pub add-Taken :
    (queue : Text) (opts : AddOption) (now : ℕ) (uuid msg : Option Text) (locked : List Text)
    (rows : List Row) (id : Text) (rows' : List Row) (r : Row)
    → is_empty opts.debounce_key ≡ false
    → existing queue opts.debounce_key locked rows ≡ some r
    → add queue opts now uuid msg locked rows ≡ some (id, rows')
    → Taken r id rows rows'
unfolding add_message add_merged add_debounced
add-Taken queue opts now uuid msg locked rows id rows' r debounced found h =
    let (m, i, e) = add_inv queue opts now uuid msg locked rows id rows' h in message i m e
  where
    updated :
        (arg : Text) (start : ℕ)
        → ◌≡◌ {A = Option (Text × List Row)}
            (some (r.id, update_rows r.id (reuse arg start) rows))
            (some (id, rows'))
        → Taken r id rows rows'
    updated arg start h =
        let (same, same_rows) =
          some_pair r.id id (update_rows r.id (reuse arg start) rows) rows' h in
        rewritten arg start same
          (sym same_rows ∙ ap (λ i. update_rows i (reuse arg start) rows) same)

    unmerged :
        (keep : Bool) (m : Text) (start : ℕ) (new : Row)
        → add_debounced keep m start new rows (some r) ≡ some (id, rows')
        → Taken r id rows rows'
    unmerged true m start new h =
        let (same, same_rows) = some_pair r.id id rows rows' h in as_is same (sym same_rows)
    unmerged false m start new h = updated m start h

    by_merge :
        (m : Text) (start : ℕ) (new : Row) (merge : Option (Text → Text → Option Text))
        → (elim merge [
          | none ↦
              add_debounced opts.keep_original_start m start new rows
                (existing queue opts.debounce_key locked rows)
          | some f ↦
              add_merged f opts.keep_original_start m start new rows
                (existing queue opts.debounce_key locked rows)
        ])
          ≡ some (id, rows')
        → Taken r id rows rows'
    by_merge m start new none h = unmerged opts.keep_original_start m start new (rw found at h)
    by_merge m start new (some merge) h =
        let at = if opts.keep_original_start then r.start_after else start in
        let (merged, e, f) =
          >>=-eq-some (merge r.job_arg m)
            (λ merged. some (r.id, update_rows r.id (reuse merged at) rows)) (rw found at h) in
        updated merged at f

    message :
        (i m : Text)
        → add_message queue opts now i m locked rows ≡ some (id, rows')
        → Taken r id rows rows'
    message i m e =
        let start : ℕ = elim opts.start_after [ none ↦ now | some t ↦ t ] in
        by_merge m start (new_row queue i m now start opts) opts.debounce_merge (rw debounced at e)
