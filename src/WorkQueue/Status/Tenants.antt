-- ===== src/WorkQueue/Status/Tenants.antt =====
-- What the caller of `add` reads back by the id that it returned.
use gobase.Base.{
  ℕ, suc, ◌≡◌, refl, sym, inl, inr, true, false, Option, none, some, List, Bool-cases, ==-refl,
  nat_comparable, bool_comparable, list_comparable, IsUnique,
}
use gobase.Base.Text.{Text, is_empty}
use gobase.WorkQueue.Table.{Row, ids, find_row}
use gobase.WorkQueue.Table.Rows.{find_row-update_self, find_row-append_new}
use gobase.WorkQueue.Add.{AddOption, new_row, reuse, existing, add}
use gobase.WorkQueue.Add.Laws.{insert_row_inv, find_row-existing}
use gobase.WorkQueue.Watch.{locked}
use gobase.WorkQueue.Status.{rows_ahead, position, is_in_scope, find_scoped, get_status, get_result}
use gobase.WorkQueue.Add.Cases.{Taken, as_is, rewritten, add_plain, add-Taken}

in_scope_refl : (o : Option ℕ) → is_in_scope o o ≡ true
unfolding is_in_scope
in_scope_refl none = refl
in_scope_refl (some n) = ==-refl n

-- A job that is added without a debounce key has, for its user and company, the status of a job that
-- was created then and is not started, in the place behind the jobs that were created before it,
-- and it has no result.
pub get_status-add :
    (queue : Text) (opts : AddOption) (now : ℕ) (uuid msg : Option Text) (locked : List Text)
    (rows : List Row) (id : Text) (rows' : List Row)
    → is_empty opts.debounce_key ≡ true
    → add queue opts now uuid msg locked rows ≡ some (id, rows')
    → (get_status id opts.usr opts.company rows'
        ≡ some (record {
          id = id;
          position = suc (rows_ahead queue now rows');
          created_at = now;
          started_at = none;
          completed_at = none;
          user = opts.usr;
          company = opts.company;
        }))
      × (get_result id opts.usr opts.company rows' ≡ some none)
unfolding get_status get_result find_scoped position new_row
get_status-add queue opts now uuid msg locked rows id rows' plain h =
    let (m, start, e) = add_plain queue opts now uuid msg locked rows id rows' plain h in
    let new = new_row queue id m now start opts in
    let (fresh, after) = insert_row_inv new rows rows' e in
    let found : find_row id rows' ≡ some new = (rw after (find_row-append_new rows new fresh)) in
    (
      (rw (found, in_scope_refl opts.usr, in_scope_refl opts.company) refl),
      (rw (found, in_scope_refl opts.usr, in_scope_refl opts.company) refl),
    )

hidden :
    (r r' : Row) (id : Text) (user : Option ℕ) (c : ℕ) (rows' : List Row)
    → find_row id rows' ≡ some r'
    → r'.company ≡ r.company
    → is_in_scope (some c) r.company ≡ false
    → find_scoped id user (some c) rows' ≡ none
unfolding find_scoped
hidden r r' id user c rows' found same other =
    let out : is_in_scope (some c) r'.company ≡ false = (rw same other) in
    elim (Bool-cases (is_in_scope user r'.usr)) [
      | inl mine ↦ rw (found, mine, out) refl
      | inr theirs ↦ rw (found, theirs) refl
    ]

-- When the ids are distinct, the debounce key is not empty, and the pending job that the query
-- for the queue and the key picks is one of another company, an `add` that succeeds returns that
-- job's id, and by this id the caller's company finds neither a status nor a result.
pub get_status-add_taken :
    (queue : Text) (opts : AddOption) (now : ℕ) (uuid msg : Option Text) (locked : List Text)
    (rows : List Row) (id : Text) (rows' : List Row) (r : Row) (user : Option ℕ) (c : ℕ)
    → IsUnique (ids rows)
    → is_empty opts.debounce_key ≡ false
    → existing queue opts.debounce_key locked rows ≡ some r
    → is_in_scope (some c) r.company ≡ false
    → add queue opts now uuid msg locked rows ≡ some (id, rows')
    → (id ≡ r.id)
      × (get_status id user (some c) rows' ≡ none)
      × (get_result id user (some c) rows' ≡ none)
unfolding get_status get_result reuse
get_status-add_taken queue opts now uuid msg locked rows id rows' r user c unique key found other
      h =
    go (add-Taken queue opts now uuid msg locked rows id rows' r key found h)
  where
    both :
        (r' : Row)
        → r.id ≡ id
        → find_row id rows' ≡ some r'
        → r'.company ≡ r.company
        → (id ≡ r.id)
          × (get_status id user (some c) rows' ≡ none)
          × (get_result id user (some c) rows' ≡ none)
    both r' same at company =
        let gone = hidden r r' id user c rows' at company other in
        (sym same, (rw gone refl), (rw gone refl))

    old : r.id ≡ id → find_row id rows ≡ some r
    old same = rw (← same) (find_row-existing queue opts.debounce_key locked rows r unique found)

    go :
        Taken r id rows rows'
        → (id ≡ r.id)
          × (get_status id user (some c) rows' ≡ none)
          × (get_result id user (some c) rows' ≡ none)
    go (as_is same e) = both r same (rw e (old same)) refl
    go (rewritten arg start same e) =
        both (reuse arg start r) same
          (rw e (find_row-update_self (reuse arg start) (λ s. refl) id rows r (old same))) refl
