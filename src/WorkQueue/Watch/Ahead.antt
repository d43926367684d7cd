-- ===== src/WorkQueue/Watch/Ahead.antt =====
-- The waiting jobs ahead of a time of creation, while jobs are added, done and cleaned.
use gobase.Base.{
  ℕ, zero, suc, ◌≤◌, ◌≡◌, refl, inl, inr, Bool, true, false, Option, none, some, List, [], ◌∷◌,
  ◌++◌, arith, if◌then◌else◌, Bool-cases, get_elem?, ◌==◌, nat_comparable, bool_comparable,
  list_comparable, keep,
}
use gobase.Base.Text.{Text}
use gobase.WorkQueue.Table.{Row, update_rows, delete_rows, is_expired, complete, clean}
use gobase.WorkQueue.Add.{AddOption, new_row, reuse, add}
use gobase.WorkQueue.Add.Cases.{Added, inserted, kept, reused, add-Added}
use gobase.WorkQueue.Add.Laws.{insert_row_inv}
use gobase.WorkQueue.Watch.{
  Stage, starting, running, Slot, System, Event, locked, end_slot, claim_slot, finish_slot, at_slot,
  add_rows, step, listen, check, claim, finish, roll_back, add_job, clean_up,
}
use gobase.WorkQueue.Watch.History.{rows-check_queue, rows-claim_slot}
use gobase.WorkQueue.Status.{is_ahead, rows_ahead}

-- A job that is added is created no earlier than `created`.
abbrev pub IsLate : ℕ → Event → Type 0
IsLate created (add_job queue opts now uuid msg) = created ≤ now
IsLate created (listen w) = Unit
IsLate created (check queue) = Unit
IsLate created (claim i now started) = Unit
IsLate created (finish i now later result commit_error) = Unit
IsLate created (roll_back i) = Unit
IsLate created (clean_up now) = Unit

module _ (queue : Text) (created : ℕ) where
  rows_ahead-append :
      (rows : List Row) (r : Row)
      → is_ahead queue created r ≡ false
      → rows_ahead queue created (rows ++ r ∷ []) ≡ rows_ahead queue created rows
  rows_ahead-append [] r h = rw h refl
  rows_ahead-append (s ∷ rows) r h = rw (rows_ahead-append rows r h) refl

  -- A change that puts no row ahead.
  rows_ahead-update_rows :
      (j : Text) (change : Row → Row) (rows : List Row)
      → ((r : Row) → is_ahead queue created (change r) ≡ true → is_ahead queue created r ≡ true)
      → rows_ahead queue created (update_rows j change rows) ≤ rows_ahead queue created rows
  unfolding update_rows
  rows_ahead-update_rows j change [] h = omega arith
  rows_ahead-update_rows j change (r ∷ rows) h =
      let rest = rows_ahead-update_rows j change rows h in
      let fewer = one (change r) r (h r) in
      elim (Bool-cases (r.id == j)) [
        | inl same ↦ rw same (omega (arith, rest, fewer))
        | inr other ↦ rw other (omega (arith, rest))
      ]
    where
      one :
          (r' r : Row)
          → (is_ahead queue created r' ≡ true → is_ahead queue created r ≡ true)
          → (if is_ahead queue created r' then 1 else 0)
            ≤ (if is_ahead queue created r then 1 else 0)
      one r' r h = elim (Bool-cases (is_ahead queue created r')) [
        | inl ahead ↦ rw (ahead, h ahead) (omega arith)
        | inr behind ↦ rw behind (omega arith)
      ]

  rows_ahead-delete_rows :
      (limit : ℕ) (test : Row → Bool) (rows : List Row)
      → rows_ahead queue created (delete_rows limit test rows) ≤ rows_ahead queue created rows
  unfolding delete_rows
  rows_ahead-delete_rows limit test [] = omega arith
  rows_ahead-delete_rows zero test (r ∷ rows) = omega arith
  rows_ahead-delete_rows (suc limit) test (r ∷ rows) =
      ground (
        arith,
        rows_ahead-delete_rows (suc limit) test rows,
        rows_ahead-delete_rows limit test rows,
      )

  rows_ahead-finish_slot :
      (i now later : ℕ) (result commit_error : Option Text) (s : System) (slot : Slot)
      (stage : Stage)
      → rows_ahead queue created (finish_slot i now later result commit_error s slot stage).rows
        ≤ rows_ahead queue created s.rows
  unfolding finish_slot end_slot complete
  rows_ahead-finish_slot i now later result commit_error s slot starting = omega arith
  rows_ahead-finish_slot i now later result commit_error s slot (running r t) =
      rows_ahead-update_rows r.id _ s.rows (λ q h. cc)

  rows_ahead-add_rows :
      (queue' : Text) (opts : AddOption) (now : ℕ) (uuid msg : Option Text) (s : System)
      → created ≤ now
      → (o : Option (Text × List Row)) → add queue' opts now uuid msg (locked s.slots) s.rows ≡ o
      → rows_ahead queue created (add_rows s o).rows ≤ rows_ahead queue created s.rows
  unfolding add_rows new_row reuse
  rows_ahead-add_rows queue' opts now uuid msg s late none e = omega arith
  rows_ahead-add_rows queue' opts now uuid msg s late (some (id, rows)) e =
      go (add-Added queue' opts now uuid msg (locked s.slots) s.rows id rows e)
    where
      go :
          Added queue' opts now (locked s.slots) id s.rows rows
          → rows_ahead queue created rows ≤ rows_ahead queue created s.rows
      go (inserted msg' start e') =
          let (fresh, after) =
            insert_row_inv (new_row queue' id msg' now start opts) s.rows rows e' in
          let behind : is_ahead queue created (new_row queue' id msg' now start opts) ≡ false =
            ground arith in
          rw (after, rows_ahead-append s.rows (new_row queue' id msg' now start opts) behind)
            (omega arith)
      go (kept r found same e') = rw e' (omega arith)
      go (reused r arg start found same e') =
          rw e' (rows_ahead-update_rows id (reuse arg start) s.rows (λ q h. h))

  at_slot-ahead :
      (s : System) (act : Slot → System)
      → ((slot : Slot) → rows_ahead queue created (act slot).rows ≤ rows_ahead queue created s.rows)
      → (o : Option Slot)
      → rows_ahead queue created (elim o as (λ x. System) [ none ↦ s | some slot ↦ act slot ]).rows
        ≤ rows_ahead queue created s.rows
  at_slot-ahead s act keep none = omega arith
  at_slot-ahead s act keep (some slot) = keep slot

  pub rows_ahead-step :
      (event : Event) (s : System)
      → IsLate created event
      → rows_ahead queue created (step event s).rows ≤ rows_ahead queue created s.rows
  unfolding step at_slot end_slot clean
  rows_ahead-step (listen w) s late = omega arith
  rows_ahead-step (check queue') s late = rw (rows-check_queue queue' s) (omega arith)
  rows_ahead-step (claim i now started) s late =
      at_slot-ahead s (λ slot. claim_slot i now started s slot slot.stage)
        (λ slot. rw (rows-claim_slot i now started s slot slot.stage) (omega arith))
        (get_elem? s.slots i)
  rows_ahead-step (finish i now later result commit_error) s late =
      at_slot-ahead s (λ slot. finish_slot i now later result commit_error s slot slot.stage)
        (λ slot. rows_ahead-finish_slot i now later result commit_error s slot slot.stage)
        (get_elem? s.slots i)
  rows_ahead-step (roll_back i) s late =
      at_slot-ahead s (λ slot. end_slot i slot s) (λ slot. omega arith) (get_elem? s.slots i)
  rows_ahead-step (add_job queue' opts now uuid msg) s late =
      rows_ahead-add_rows queue' opts now uuid msg s late
        (add queue' opts now uuid msg (locked s.slots) s.rows) refl
  rows_ahead-step (clean_up now) s late =
      rows_ahead-delete_rows 1000 (is_expired now (locked s.slots)) s.rows
