-- ===== src/WorkQueue/Watch.antt =====
-- The workers of a queue. A slot is a goroutine of `processWork` between its `concurrencyCheck` and
-- its `done()`; a running slot is an open transaction of `startWork`, and holds its job's row. One
-- event is one step of one goroutine, or a transaction that others commit, so a list of events is
-- an interleaving. Delays, the callback and its own transaction are what happens between two events.
pub mod Slots
pub mod Valid
pub mod Jobs
pub mod Counts
pub mod Limits
pub mod History
pub mod Ahead
pub mod Position
use gobase.Base.{
  ℕ, zero, suc, ◌+◌, ◌-◌, Bool, true, false, List, [], ◌∷◌, ◌++◌, Option, none, some, if◌then◌else◌,
  length, get_elem?, set, eqb, list_comparable, nat_comparable,
}
use gobase.Base.GoMap.{GoMap, lookup, insert}
use gobase.Base.Int.{ℤ, pos, negsuc, leb_ℤ}
use gobase.Base.Text.{Text, is_empty}
use gobase.WorkQueue.Table.{Row, get_job, complete, clean}
use gobase.WorkQueue.Add.{AddOption, add}

pub record WorkerInfo : Type 0 where
  pub queue : Text
  pub n_concurrent : ℤ
  pub has_callback : Bool
  pub retain_for : ℕ
  pub n_active : ℕ

-- The checks of `StartWorkers`; `none` is a panic. The default to retain is five minutes.
unfoldable pub start_workers : ℕ → WorkerInfo → Option WorkerInfo
start_workers five_minutes info =
    let n : ℤ = elim info.n_concurrent [
      | pos k ↦ if eqb k 0 then pos 1 else pos k
      | negsuc k ↦ negsuc k
    ] in
    let keep = if eqb info.retain_for 0 then five_minutes else info.retain_for in
    if is_empty info.queue
    then none
    else if info.has_callback
    then some (record info { n_concurrent = n; retain_for = keep })
    else none

pub data Stage : Type 0 where
  starting : Stage
  -- The claimed row as it was read, and the time that the claim wrote.
  running : Row → ℕ → Stage

pub record Slot : Type 0 where
  -- The place of the `WorkerInfo` in `infos`, which stands for the pointer to it.
  pub info : ℕ
  pub of_queue : Text
  pub keeps_for : ℕ
  pub stage : Stage

pub record System : Type 0 where
  pub rows : List Row
  pub infos : List WorkerInfo
  pub listening_for : GoMap Text ℕ
  pub slots : List Slot

pub data Event : Type 0 where
  listen : WorkerInfo → Event
  check : Text → Event
  claim : ℕ → ℕ → ℕ → Event
  finish : ℕ → ℕ → ℕ → Option Text → Option Text → Event
  roll_back : ℕ → Event
  add_job : Text → AddOption → ℕ → Option Text → Option Text → Event
  clean_up : ℕ → Event

-- The ids of the rows that the running slots hold.
abbrev pub locked_by : Stage → List Text → List Text
locked_by starting rest = rest
locked_by (running r t) rest = r.id ∷ rest

abbrev pub locked : List Slot → List Text
locked [] = []
locked (slot ∷ slots) = locked_by slot.stage (locked slots)

unfoldable pub remove_at {ℓ} : {A : Type ℓ} → ℕ → List A → List A
remove_at i [] = []
remove_at zero (x ∷ xs) = xs
remove_at (suc i) (x ∷ xs) = x ∷ remove_at i xs

-- `isAtConcurrencyLimit`.
unfoldable pub at_limit : WorkerInfo → Bool
at_limit info = leb_ℤ info.n_concurrent (pos info.n_active)

unfoldable pub set_active : ℕ → WorkerInfo → WorkerInfo
set_active n info = record info { n_active = n }

-- `concurrencyCheck`, and the slot that it opens.
open_slot : Text → ℕ → System → Option WorkerInfo → System
unfolding at_limit set_active
open_slot queue p s none = s
open_slot queue p s (some info) = if at_limit info then s else record s {
  infos = set s.infos p (set_active (suc info.n_active) info);
  slots =
      s.slots
      ++ record { info = p; of_queue = queue; keeps_for = info.retain_for; stage = starting } ∷ [];
}

-- `startWorkConcurrencyCheck`.
pub check_queue : Text → System → System
unfolding open_slot
check_queue queue s = elim (lookup queue s.listening_for) [
  | none ↦ s
  | some p ↦ open_slot queue p s (get_elem? s.infos p)
]

-- `done()`.
release : ℕ → List WorkerInfo → List WorkerInfo
unfolding set_active
release p infos = elim (get_elem? infos p) [
  | none ↦ infos
  | some info ↦ set infos p (set_active (info.n_active - 1) info)
]

pub end_slot : ℕ → Slot → System → System
unfolding release remove_at
end_slot i slot s = record s { infos = release slot.info s.infos; slots = remove_at i s.slots }

-- `getAndClaimJob`: with no job the transaction and the slot end.
hold : ℕ → Slot → ℕ → System → Option Row → System
unfolding end_slot
hold i slot started s none = end_slot i slot s
hold i slot started s (some r) = record s {
  slots = set s.slots i (record slot { stage = running r started });
}

pub claim_slot : ℕ → ℕ → ℕ → System → Slot → Stage → System
unfolding hold
claim_slot i now started s slot starting =
    hold i slot started s (get_job slot.of_queue now (locked s.slots) s.rows)
claim_slot i now started s slot (running r t) = s

-- The commit of `startWork`: the result is stored and the slot ends.
finish_slot : ℕ → ℕ → ℕ → Option Text → Option Text → System → Slot → Stage → System
unfolding end_slot
finish_slot i now later result commit_error s slot starting = s
finish_slot i now later result commit_error s slot (running r t) = record (end_slot i slot s) {
  rows = complete r.id t now (later + slot.keeps_for) result commit_error s.rows;
}

at_slot : ℕ → System → (Slot → System) → System
at_slot i s act = elim (get_elem? s.slots i) [ none ↦ s | some slot ↦ act slot ]

add_rows : System → Option (Text × List Row) → System
add_rows s none = s
add_rows s (some (id, rows)) = record s { rows = rows }

unfoldable pub step : Event → System → System
unfolding check_queue claim_slot finish_slot at_slot end_slot add_rows
step (listen w) s = record s {
  infos = s.infos ++ set_active 0 w ∷ [];
  listening_for = insert w.queue (length s.infos) s.listening_for;
}
step (check queue) s = check_queue queue s
step (claim i now started) s = at_slot i s (λ slot. claim_slot i now started s slot slot.stage)
step (finish i now later result commit_error) s =
    at_slot i s (λ slot. finish_slot i now later result commit_error s slot slot.stage)
step (roll_back i) s = at_slot i s (λ slot. end_slot i slot s)
step (add_job queue opts now uuid msg) s =
    add_rows s (add queue opts now uuid msg (locked s.slots) s.rows)
step (clean_up now) s = record s { rows = clean now (locked s.slots) s.rows }

unfoldable pub run : List Event → System → System
unfolding step
run [] s = s
run (event ∷ events) s = run events (step event s)
