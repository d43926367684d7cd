-- ===== src/WorkQueue/Tests.antt =====
-- Runs of package pqworkqueue, and its theorems at concrete inputs.
use gobase.Base.{
  ℕ, suc, ◌≤◌, ◌≡◌, refl, ◌⊎◌, true, false, none, some, List, [], ◌∷◌, ◌++◌, arith, get_elem?, ◌==◌,
  nat_comparable, bool_comparable, list_comparable, IsUnique, All,
}
use gobase.Base.GoMap.{lookup}
use gobase.Base.Text.{Text}
use gobase.WorkQueue.Table.{
  Row, is_null, has, ids, find_row, insert_row, is_claimable, is_expired, get_job, complete, clean,
}
use gobase.WorkQueue.Table.Claim.{IsDue}
use gobase.WorkQueue.Add.{AddOption, new_row, existing, add}
use gobase.WorkQueue.Watch.{
  WorkerInfo, running, Slot, System, Event, locked, at_limit, step, run, listen, check, claim,
  finish, roll_back, add_job, clean_up,
}
use gobase.WorkQueue.Watch.Valid.{IsValid}
use gobase.WorkQueue.Status.{
  Status, rows_ahead, position, is_in_scope, get_status, get_result, get_predicted_start,
}
use gobase.Base.Int.{pos}
use gobase.WorkQueue.Add.{no_option}
use gobase.WorkQueue.Table.Claim.{get_job_exact}
use gobase.WorkQueue.Add.Laws.{add_exact}
use gobase.WorkQueue.Watch.Jobs.{run-IsValid}
use gobase.WorkQueue.Watch.Limits.{run-IsCounted}
use gobase.WorkQueue.Watch.Counts.{IsCounted}
use gobase.WorkQueue.Watch.History.{Survives, step-Survives}
use gobase.WorkQueue.Watch.Position.{run-position, IsPresent}
use gobase.WorkQueue.Status.Tenants.{get_status-add, get_status-add_taken}
use gobase.WorkQueue.Status.Wake.{IsBefore, get_predicted_start-IsBefore, running_wakes}

-- Queue "q", and ids "a", "b".
abbrev queue : Text
queue = 113 ∷ []

abbrev id_a : Text
id_a = 97 ∷ []

abbrev id_b : Text
id_b = 98 ∷ []

abbrev keyed : AddOption
keyed = record no_option { debounce_key = 107 ∷ []; company = some 7 }

abbrev row_a : Row
row_a = record {
  id = id_a;
  queue_name = queue;
  debounce_key = 107 ∷ [];
  job_arg = 49 ∷ [];
  result = none;
  created_at = 10;
  start_after = 12;
  started_at = none;
  completed_at = none;
  retain_until = none;
  commit_error = none;
  usr = none;
  company = some 3;
}

abbrev worker : WorkerInfo
worker = record {
  queue = queue;
  n_concurrent = pos 2;
  has_callback = true;
  retain_for = 300;
  n_active = 0;
}

abbrev idle : System
idle = record { rows = row_a ∷ []; infos = []; listening_for = []; slots = [] }

idle-IsValid : IsValid idle
idle-IsValid = record {
  unique = λ a. ground arith;
  single = λ a. omega arith;
  held = tt;
  stored = ((refl, refl), tt);
}

idle-IsCounted : IsCounted idle
idle-IsCounted = record { within = λ p w at. cc; known = tt }

abbrev start_events : List Event
start_events = listen worker ∷ check queue ∷ claim 0 20 21 ∷ []

abbrev later_events : List Event
later_events =
    add_job queue no_option 30 (some id_b) (some (50 ∷ []))
    ∷ check queue
    ∷ claim 1 31 32
    ∷ finish 0 40 41 (some []) none
    ∷ clean_up 400
    ∷ roll_back 0
    ∷ []

add_run : add queue keyed 30 (some id_b) (some (50 ∷ [])) [] (row_a ∷ []) ≡ some (id_a, row_a ∷ [])
unfolding add
add_run = refl

ids-run : ids (run start_events idle).rows ≡ id_a ∷ []
unfolding run get_job
ids-run = refl

locked-run : locked (run start_events idle).slots ≡ id_a ∷ []
unfolding run get_job
locked-run = refl

run_later : ids (run (start_events ++ later_events) idle).rows ≡ id_b ∷ []
unfolding run add insert_row get_job new_row clean complete
run_later = refl

abbrev other_job : Row
other_job = record row_a { id = id_b; start_after = 15 }

get_job_exact_example :
    ((r : Row)
      → get_job queue 20 (id_a ∷ []) (row_a ∷ other_job ∷ []) ≡ some r
      → ((i : ℕ) × (get_elem? (row_a ∷ other_job ∷ []) i ≡ some r))
        × IsDue queue 20 (id_a ∷ []) r
        × All
            (λ s. IsDue queue 20 (id_a ∷ []) s → r.start_after ≤ s.start_after)
            (row_a ∷ other_job ∷ []))
    × (get_job queue 20 (id_a ∷ []) (row_a ∷ other_job ∷ []) ≡ none
        → All (λ s. ¬ IsDue queue 20 (id_a ∷ []) s) (row_a ∷ other_job ∷ []))
get_job_exact_example = get_job_exact queue 20 (id_a ∷ []) (row_a ∷ other_job ∷ [])

add_exact_example :
    ((r : Row) × (find_row id_a (row_a ∷ []) ≡ some r)
      × (r.queue_name ≡ queue)
      × (r.debounce_key ≡ 107 ∷ [])
      × (r.started_at ≡ none))
    × ((j : Text) (r : Row)
        → ((id_a == j) ≡ false) ⊎ (has [] j ≡ true)
        → find_row j (row_a ∷ []) ≡ some r
        → find_row j (row_a ∷ []) ≡ some r)
    × IsUnique (ids (row_a ∷ []))
add_exact_example =
    add_exact queue keyed 30 (some id_b) (some (50 ∷ [])) [] (row_a ∷ []) id_a (row_a ∷ [])
      (λ a. ground arith) add_run

run-IsValid_example : IsValid (run (start_events ++ later_events) idle)
run-IsValid_example = run-IsValid (start_events ++ later_events) idle idle-IsValid

run-IsCounted_example : IsCounted (run (start_events ++ later_events) idle)
run-IsCounted_example = run-IsCounted (start_events ++ later_events) idle idle-IsCounted

found_a : find_row id_a (run start_events idle).rows ≡ some row_a
unfolding run find_row get_job
found_a = refl

step-Survives_example :
    Survives id_a row_a (step (finish 0 40 41 (some []) none) (run start_events idle)).rows
    ⊎ ((now : ℕ) × (finish 0 40 41 (some []) none ≡ clean_up now)
        × (is_expired now (locked (run start_events idle).slots) row_a ≡ true)
        × (is_null row_a.completed_at ≡ false))
step-Survives_example =
    step-Survives (run start_events idle) (run-IsValid start_events idle idle-IsValid) id_a row_a
      found_a (finish 0 40 41 (some []) none)

abbrev late_job : Row
late_job = record row_a { id = id_b; debounce_key = []; created_at = 20 }

abbrev waiting : System
waiting = record { rows = row_a ∷ late_job ∷ []; infos = []; listening_for = []; slots = [] }

waiting-IsValid : IsValid waiting
waiting-IsValid = record {
  unique = λ a. ground arith;
  single = λ a. omega arith;
  held = tt;
  stored = ((refl, refl), ((refl, refl), tt));
}

abbrev told_at : ℕ → Status
told_at position = record {
  id = id_b;
  position = position;
  created_at = 20;
  started_at = none;
  completed_at = none;
  user = none;
  company = some 3;
}

abbrev turn : List Event
turn = listen worker ∷ check queue ∷ claim 0 20 21 ∷ finish 0 40 41 (some []) none ∷ []

told_before : get_status id_b none (some 3) waiting.rows ≡ some (told_at 2)
unfolding get_status
told_before = refl

told_after : get_status id_b none (some 3) (run turn waiting).rows ≡ some (told_at 1)
unfolding get_status run get_job complete
told_after = refl

turn-IsPresent : IsPresent id_b turn waiting
unfolding step find_row get_job complete
turn-IsPresent = ((late_job, refl), ((late_job, refl), ((late_job, refl), ((late_job, refl), tt))))

run-position_example : (told_at 1).position ≤ (told_at 2).position
run-position_example =
    run-position id_b none (some 3) turn waiting (told_at 2) (told_at 1) waiting-IsValid
      (tt, (tt, (tt, (tt, tt)))) turn-IsPresent told_before told_after

added_rows : List Row
added_rows = row_a ∷ new_row queue id_b (50 ∷ []) 30 30 no_option ∷ []

add_plain_run :
    add queue no_option 30 (some id_b) (some (50 ∷ [])) [] (row_a ∷ []) ≡ some (id_b, added_rows)
unfolding add added_rows insert_row new_row
add_plain_run = refl

get_status-add_example :
    (get_status id_b none none added_rows
      ≡ some (record {
        id = id_b;
        position = suc (rows_ahead queue 30 added_rows);
        created_at = 30;
        started_at = none;
        completed_at = none;
        user = none;
        company = none;
      }))
    × (get_result id_b none none added_rows ≡ some none)
get_status-add_example =
    get_status-add queue no_option 30 (some id_b) (some (50 ∷ [])) [] (row_a ∷ []) id_b added_rows
      refl add_plain_run

existing_a : existing queue (107 ∷ []) [] (row_a ∷ []) ≡ some row_a
unfolding existing
existing_a = refl

other_company : is_in_scope (some 7) row_a.company ≡ false
unfolding is_in_scope
other_company = refl

get_status-add_taken_example :
    (id_a ≡ row_a.id)
    × (get_status id_a none (some 7) (row_a ∷ []) ≡ none)
    × (get_result id_a none (some 7) (row_a ∷ []) ≡ none)
get_status-add_taken_example =
    get_status-add_taken queue keyed 30 (some id_b) (some (50 ∷ [])) [] (row_a ∷ []) id_a
      (row_a ∷ []) row_a none 7 (λ a. ground arith) refl existing_a other_company add_run

abbrev busy : WorkerInfo
busy = record worker { n_active = 1 }

abbrev slot_a : Slot
slot_a = record { info = 0; of_queue = queue; keeps_for = 300; stage = running row_a 21 }

listed : lookup queue (run start_events idle).listening_for ≡ some 0
unfolding run get_job
listed = refl

info_run : get_elem? (run start_events idle).infos 0 ≡ some busy
unfolding run get_job
info_run = refl

slot_run : get_elem? (run start_events idle).slots 0 ≡ some slot_a
unfolding run get_job
slot_run = refl

not_full : at_limit busy ≡ false
unfolding at_limit
not_full = refl

get_predicted_start-IsBefore_example : IsBefore 12 (
    get_predicted_start
      (run start_events idle).listening_for
      (run start_events idle).infos
      (run start_events idle).rows)
get_predicted_start-IsBefore_example =
    get_predicted_start-IsBefore (run start_events idle).listening_for (run start_events idle).infos
      (run start_events idle).rows id_a row_a 0 busy found_a refl listed info_run not_full

running_wakes_example :
    IsBefore 12 (
      get_predicted_start
        (run start_events idle).listening_for
        (run start_events idle).infos
        (run start_events idle).rows)
    × ((now : ℕ) → is_claimable queue now (locked (run start_events idle).slots) row_a ≡ false)
running_wakes_example =
    running_wakes (run start_events idle) 0 slot_a row_a 21 0 busy
      (run-IsValid start_events idle idle-IsValid) slot_run refl listed info_run not_full
