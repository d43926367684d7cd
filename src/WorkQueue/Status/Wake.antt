-- ===== src/WorkQueue/Status/Wake.antt =====
-- When the scheduler wakes next, against the jobs that it would start.
use gobase.Base.{
  ℕ, ◌≤◌, ◌≡◌, refl, subst, inl, inr, Bool, true, false, Option, none, some, List, [], ◌∷◌, arith,
  Bool-cases, get_elem?, ◌==◌, nat_comparable, bool_comparable, list_comparable,
}
use gobase.Base.GoMap.{GoMap, lookup}
use gobase.Base.Text.{Text}
use gobase.WorkQueue.Table.{Row, has, find_row, first_by_start, is_claimable}
use gobase.WorkQueue.Table.Rows.{find_row-All}
use gobase.WorkQueue.Table.Claim.{first_by_start-IsFirst, first_by_start-none}
use gobase.WorkQueue.Watch.{WorkerInfo, running, Slot, System, locked, at_limit}
use gobase.WorkQueue.Watch.Valid.{Holds, IsValid}
use gobase.WorkQueue.Watch.Slots.{All-get_elem?, All-IsIn, IsIn}
use gobase.WorkQueue.Status.{with_free, valid_names, first_start, is_waiting, get_predicted_start}

has-with_free :
    (name wanted : Text) (o : Option WorkerInfo) (names : List Text)
    → has names wanted ≡ true
    → has (with_free name o names) wanted ≡ true
has-with_free name wanted none names h = h
has-with_free name wanted (some info) names h = ground arith

has-valid_names :
    (listening : GoMap Text ℕ) (infos : List WorkerInfo) (name : Text) (p : ℕ) (info : WorkerInfo)
    → lookup name listening ≡ some p
    → get_elem? infos p ≡ some info
    → at_limit info ≡ false
    → has (valid_names listening infos) name ≡ true
unfolding valid_names
has-valid_names [] infos name p info listed at free = cc
has-valid_names ((other, q) ∷ listening) infos name p info listed at free =
    elim (Bool-cases (other == name)) [
      | inl same ↦
          let here : some q ≡ some p = rw same at listed in
          let e : q ≡ p = cc in rw (e, valid_names, at, free, same) refl
      | inr differ ↦
          has-with_free other name (get_elem? infos q) (valid_names listening infos)
            (has-valid_names listening infos name p info (rw differ at listed) at free)
    ]

first_by_start-least :
    (test : Row → Bool) (j : Text) (rows : List Row) (r : Row)
    → find_row j rows ≡ some r
    → test r ≡ true
    → (o : Option Row) → first_by_start test rows ≡ o
    → (q : Row) × (o ≡ some q) × (q.start_after ≤ r.start_after)
first_by_start-least test j rows r found passes none e =
    let fails =
      find_row-All (λ s. test s ≡ false) j rows r (first_by_start-none test rows e) found in
    cc
first_by_start-least test j rows r found passes (some q) e =
    let least =
      find_row-All (λ s. test s ≡ true → q.start_after ≤ s.start_after) j rows r
        (first_by_start-IsFirst test rows q e).1 found in
    (q, refl, least passes)

-- What is predicted of some rows is no later than a time.
abbrev pub IsBefore : ℕ → Option (ℕ × Text) → Type 0
IsBefore limit none = ⊥
IsBefore limit (some (start, name)) = start ≤ limit

first_start-IsBefore :
    (rows : List Row) (j : Text) (r : Row) (names : List Text)
    → find_row j rows ≡ some r
    → r.started_at ≡ none
    → has names r.queue_name ≡ true
    → IsBefore r.start_after (first_start rows names)
unfolding is_waiting
first_start-IsBefore rows j r [] found todo h = cc
first_start-IsBefore rows j r (name ∷ names) found todo h =
    let waits : is_waiting (name ∷ names) r ≡ true = (rw (is_waiting, todo, h) refl) in
    let (q, e, le) =
      first_by_start-least (is_waiting (name ∷ names)) j rows r found waits
        (first_by_start (is_waiting (name ∷ names)) rows) refl in
    rw e le

-- For every job that is found in the table and is not seen to be started, if its queue has a
-- worker that is below its limit at that moment, `getPredictedStart` gives a time, and it is no
-- later than the job's own start.
pub get_predicted_start-IsBefore :
    (listening : GoMap Text ℕ) (infos : List WorkerInfo) (rows : List Row) (j : Text) (r : Row)
    (p : ℕ) (info : WorkerInfo)
    → find_row j rows ≡ some r
    → r.started_at ≡ none
    → lookup r.queue_name listening ≡ some p
    → get_elem? infos p ≡ some info
    → at_limit info ≡ false
    → IsBefore r.start_after (get_predicted_start listening infos rows)
unfolding get_predicted_start
get_predicted_start-IsBefore listening infos rows j r p info found todo listed at free =
    first_start-IsBefore rows j r (valid_names listening infos) found todo
      (has-valid_names listening infos r.queue_name p info listed at free)

-- In a valid state, while a job runs, if its queue's worker may take another one, the scheduler
-- is told to wake no later than the time from which the running job was due, though no one can
-- claim that job at any time.
pub running_wakes :
    (s : System) (i : ℕ) (slot : Slot) (r : Row) (t p : ℕ) (info : WorkerInfo)
    → IsValid s
    → get_elem? s.slots i ≡ some slot
    → slot.stage ≡ running r t
    → lookup r.queue_name s.listening_for ≡ some p
    → get_elem? s.infos p ≡ some info
    → at_limit info ≡ false
    → IsBefore r.start_after (get_predicted_start s.listening_for s.infos s.rows)
      × ((now : ℕ) → is_claimable r.queue_name now (locked s.slots) r ≡ false)
unfolding is_claimable
running_wakes s i slot r t p info v place stage listed at free =
    let (found, todo) =
      subst (Holds s.rows) stage
        (All-get_elem? (λ (x : Slot). Holds s.rows x.stage) s.slots i slot v.held place) in
    let inside : has (locked s.slots) r.id ≡ true = subst (IsIn (locked s.slots)) stage (
      All-get_elem? (λ (x : Slot). IsIn (locked s.slots) x.stage) s.slots i slot (All-IsIn s.slots)
        place) in
    (
      get_predicted_start-IsBefore s.listening_for s.infos s.rows r.id r p info found todo listed at
          free,
      (λ now. ground (arith, inside)),
    )
