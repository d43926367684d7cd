-- ===== src/WorkQueue/Watch/History.antt =====
-- What one step does to one row: no job is lost, and none is changed once it is completed.
use gobase.Base.{
  ℕ, ◌+◌, ◌≡◌, refl, sym, ap, ◌∙◌, subst, ◌⊎◌, inl, inr, true, false, Option, none, some, List,
  arith, Bool-cases, get_elem?, ◌==◌, ==_iff, nat_comparable, bool_comparable, list_comparable,
}
use gobase.Base.GoMap.{lookup}
use gobase.Base.Text.{Text}
use gobase.WorkQueue.Table.{Row, is_null, find_row, update_rows, is_expired, complete, clean}
use gobase.WorkQueue.Table.Rows.{
  find_row-All, find_row-update_other, find_row-update_self, find_row-delete_rows, find_row-append,
}
use gobase.WorkQueue.Add.{AddOption, new_row, reuse, add}
use gobase.WorkQueue.Add.Cases.{Added, inserted, kept, reused, add-Added}
use gobase.WorkQueue.Add.Laws.{
  insert_row_inv, existing-Pending, find_row-existing, find_row-add_other,
}
use gobase.WorkQueue.Watch.{
  WorkerInfo, Stage, starting, running, Slot, System, Event, locked, end_slot, hold, claim_slot,
  finish_slot, open_slot, at_limit, check_queue, at_slot, add_rows, step, listen, check, claim,
  finish, roll_back, add_job, clean_up,
}
use gobase.WorkQueue.Watch.Slots.{All-get_elem?}
use gobase.WorkQueue.Watch.Valid.{Holds, IsStored, IsValid}

-- The row stands as before, or it was still to do and a row with its id, in its queue and of its
-- time of creation, stands.
abbrev pub Survives : Text → Row → List Row → Type 0
Survives j r rows =
    (find_row j rows ≡ some r)
    ⊎ ((r.started_at ≡ none)
        × ((r' : Row) × (find_row j rows ≡ some r')
            × (r'.queue_name ≡ r.queue_name)
            × (r'.created_at ≡ r.created_at)))

rows-hold :
    (i : ℕ) (slot : Slot) (started : ℕ) (s : System) (o : Option Row)
    → (hold i slot started s o).rows ≡ s.rows
unfolding hold end_slot
rows-hold i slot started s none = refl
rows-hold i slot started s (some r) = refl

pub rows-claim_slot :
    (i now started : ℕ) (s : System) (slot : Slot) (stage : Stage)
    → (claim_slot i now started s slot stage).rows ≡ s.rows
unfolding claim_slot
rows-claim_slot i now started s slot starting = rows-hold i slot started s _
rows-claim_slot i now started s slot (running r t) = refl

rows-open_slot :
    (queue : Text) (p : ℕ) (s : System) (o : Option WorkerInfo)
    → (open_slot queue p s o).rows ≡ s.rows
unfolding open_slot
rows-open_slot queue p s none = refl
rows-open_slot queue p s (some info) = elim (Bool-cases (at_limit info)) [
  | inl full ↦ rw (full, open_slot) refl
  | inr room ↦ rw (room, open_slot) refl
]

pub rows-check_queue : (queue : Text) (s : System) → (check_queue queue s).rows ≡ s.rows
unfolding check_queue
rows-check_queue queue s = go (lookup queue s.listening_for)
  where
    go :
        (o : Option ℕ)
        → (elim o as (λ x. System) [
          | none ↦ s
          | some p ↦ open_slot queue p s (get_elem? s.infos p)
        ]).rows
          ≡ s.rows
    go none = refl
    go (some p) = rows-open_slot queue p s (get_elem? s.infos p)

module _ (s : System) (v : IsValid s) (j : Text) (r : Row)
    (found : find_row j s.rows ≡ some r) where
  Survives-finish :
      (i now later : ℕ) (result commit_error : Option Text) (slot : Slot)
      → get_elem? s.slots i ≡ some slot
      → (stage : Stage) → slot.stage ≡ stage
      → Survives j r (finish_slot i now later result commit_error s slot stage).rows
  unfolding finish_slot end_slot complete
  Survives-finish i now later result commit_error slot at starting stage = inl found
  Survives-finish i now later result commit_error slot at (running q t) stage =
      let holds : Holds s.rows (running q t) =
        subst (Holds s.rows) stage
          (All-get_elem? (λ (slot : Slot). Holds s.rows slot.stage) s.slots i slot v.held at) in
      let (there, todo) = holds in
      elim (Bool-cases (q.id == j)) [
        | inr other ↦ inl (find_row-update_other _ (λ x. refl) q.id j s.rows other ∙ found)
        | inl same ↦
            let e = (==_iff q.id j).0 same in
            let same_row : some r ≡ some q = sym found ∙ (rw (← e) there) in
            let f : r ≡ q = cc in
            let change : Row → Row = λ x. record x {
              started_at = some t;
              result = result;
              completed_at = some now;
              retain_until = some (later + slot.keeps_for);
              commit_error = commit_error;
            } in
            inr (
              (rw f todo),
              (
                change r,
                ap (λ k. find_row j (update_rows k change s.rows)) e
                    ∙ find_row-update_self change (λ x. refl) j s.rows r found,
                refl,
                refl,
              ),
            )
      ]

  Survives-add :
      (queue : Text) (opts : AddOption) (now : ℕ) (uuid msg : Option Text)
      → (o : Option (Text × List Row)) → add queue opts now uuid msg (locked s.slots) s.rows ≡ o
      → Survives j r (add_rows s o).rows
  unfolding add_rows
  Survives-add queue opts now uuid msg none e = inl found
  Survives-add queue opts now uuid msg (some (id, rows)) e = elim (Bool-cases (id == j)) [
    | inr other ↦
        inl
          (find_row-add_other queue opts now (locked s.slots) id s.rows rows added j r other found)
    | inl same ↦ go ((==_iff id j).0 same) added
  ]
    where
      added : Added queue opts now (locked s.slots) id s.rows rows
      added = add-Added queue opts now uuid msg (locked s.slots) s.rows id rows e

      go : id ≡ j → Added queue opts now (locked s.slots) id s.rows rows → Survives j r rows
      go f (inserted m t g) =
          let (fresh, after) = insert_row_inv (new_row queue id m now t opts) s.rows rows g in
          inl (rw after (find_row-append j s.rows (new_row queue id m now t opts) r found))
      go f (kept q old same g) = inl (rw g found)
      go f (reused q arg t old same g) =
          let (a, b, todo, free) =
            existing-Pending queue opts.debounce_key (locked s.slots) s.rows q old in
          let here =
            find_row-existing queue opts.debounce_key (locked s.slots) s.rows q v.unique old in
          let there : find_row j s.rows ≡ some q =
            subst (λ k. find_row k s.rows ≡ some q) (same ∙ f) here in
          let same_row : some r ≡ some q = sym found ∙ there in
          let e : r ≡ q = cc in
          inr (
            (rw e todo),
            (
              reuse arg t r,
              ap (find_row j) g
                  ∙ ap (λ k. find_row j (update_rows k (reuse arg t) s.rows)) f
                  ∙ find_row-update_self (reuse arg t) (λ x. unfold reuse in refl) j s.rows r found,
              unfold reuse in refl,
              unfold reuse in refl,
            ),
          )

  expired_done :
      (now : ℕ) → is_expired now (locked s.slots) r ≡ true → is_null r.completed_at ≡ false
  unfolding is_expired
  expired_done now gone =
      let (completed, retained) = find_row-All IsStored j s.rows r v.stored found in ground arith

  Survives-clean :
      (now : ℕ)
      → is_expired now (locked s.slots) r ≡ false
      → Survives j r (clean now (locked s.slots) s.rows)
  unfolding clean
  Survives-clean now h =
      inl (find_row-delete_rows (is_expired now (locked s.slots)) 1000 j s.rows r found h)

  -- From a valid state, one step of any worker, add or cleaning leaves a row as it is, or the
  -- row was still to do and its job stands in the table afterwards as well, in the same queue
  -- and with the same time of creation; unless the step is a cleaning, and the row was completed
  -- and is past the time to keep it.
  pub step-Survives :
      (event : Event)
      → Survives j r (step event s).rows
        ⊎ ((now : ℕ) × (event ≡ clean_up now)
            × (is_expired now (locked s.slots) r ≡ true)
            × (is_null r.completed_at ≡ false))
  unfolding step at_slot end_slot
  step-Survives (listen w) = inl (inl found)
  step-Survives (check queue) = inl (inl (rw (rows-check_queue queue s) found))
  step-Survives (claim i now started) = inl (inl (go (get_elem? s.slots i)))
    where
      go :
          (o : Option Slot)
          → find_row j
              (elim o as (λ x. System) [
                | none ↦ s
                | some slot ↦ claim_slot i now started s slot slot.stage
              ]).rows
            ≡ some r
      go none = found
      go (some slot) = rw (rows-claim_slot i now started s slot slot.stage) found
  step-Survives (finish i now later result commit_error) = inl (go (get_elem? s.slots i) refl)
    where
      go :
          (o : Option Slot)
          → get_elem? s.slots i ≡ o
          → Survives j r
              (elim o as (λ x. System) [
                | none ↦ s
                | some slot ↦ finish_slot i now later result commit_error s slot slot.stage
              ]).rows
      go none e = inl found
      go (some slot) e = Survives-finish i now later result commit_error slot e slot.stage refl
  step-Survives (roll_back i) = inl (inl (go (get_elem? s.slots i)))
    where
      go :
          (o : Option Slot)
          → find_row j (elim o as (λ x. System) [ none ↦ s | some slot ↦ end_slot i slot s ]).rows
            ≡ some r
      go none = found
      go (some slot) = found
  step-Survives (add_job queue opts now uuid msg) = inl (
      Survives-add queue opts now uuid msg (add queue opts now uuid msg (locked s.slots) s.rows)
        refl)
  step-Survives (clean_up now) = elim (Bool-cases (is_expired now (locked s.slots) r)) [
    | inr stays ↦ inl (Survives-clean now stays)
    | inl gone ↦ inr (now, refl, gone, expired_done now gone)
  ]
