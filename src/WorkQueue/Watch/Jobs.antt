-- ===== src/WorkQueue/Watch/Jobs.antt =====
-- What every step keeps of the jobs and of the slots that run them.
use gobase.Base.{
  ℕ, ◌+◌, ◌≤◌, ◌≡◌, refl, inl, inr, true, false, Option, none, some, List, [], ◌∷◌, arith,
  Bool-cases, get_elem?, set, ◌==◌, ==_iff, nat_comparable, bool_comparable, list_comparable, count,
  All-append, keep,
}
use gobase.Base.Text.{Text}
use gobase.Base.GoMap.{lookup}
use gobase.WorkQueue.Table.{Row, has, update_rows, is_expired, get_job, complete, clean}
use gobase.WorkQueue.Table.Rows.{
  id-find_row, has-count, count-has, ids-update_rows, find_row-update_other, find_row-delete_rows,
  count-delete_rows, All-delete_rows, All-update_rows,
}
use gobase.WorkQueue.Table.Claim.{get_job_claimable, find_row-get_job}
use gobase.WorkQueue.Add.{AddOption, new_row, reuse, add}
use gobase.WorkQueue.Add.Cases.{add-Added}
use gobase.WorkQueue.Add.Laws.{IsUnique-add, find_row-add_locked, All-add}
use gobase.WorkQueue.Watch.{
  Stage, starting, running, Slot, System, Event, locked, remove_at, end_slot, hold, claim_slot,
  finish_slot, open_slot, check_queue, at_slot, at_limit, WorkerInfo, add_rows, step, run, listen,
  check, claim, finish, roll_back, add_job, clean_up,
}
use gobase.WorkQueue.Watch.Slots.{count-locked-end, locked-open, count-locked-set, All-set}
use gobase.WorkQueue.Watch.Valid.{
  Holds, IsStored, IsValid, Holds-rows, end_slot-IsValid, claimable_inv,
}

hold-IsValid :
    (i : ℕ) (slot : Slot) (now started : ℕ) (s : System)
    → get_elem? s.slots i ≡ some slot
    → slot.stage ≡ starting
    → IsValid s
    → (found : Option Row) → get_job slot.of_queue now (locked s.slots) s.rows ≡ found
    → IsValid (hold i slot started s found)
unfolding hold
hold-IsValid i slot now started s at stage v none job = end_slot-IsValid i slot s v
hold-IsValid i slot now started s at stage v (some r) job =
    let right = get_job_claimable slot.of_queue now (locked s.slots) s.rows r job in
    let (todo, free) = claimable_inv slot.of_queue now (locked s.slots) r right in
    record {
      unique = v.unique;
      single = λ a. once a free;
      held =
          All-set (λ (slot : Slot). Holds s.rows slot.stage) s.slots i
            (record slot { stage = running r started })
            (find_row-get_job slot.of_queue now (locked s.slots) s.rows r v.unique job, todo)
            v.held;
      stored = v.stored;
    }
  where
    once :
        (a : Text)
        → has (locked s.slots) r.id ≡ false
        → count a (locked (set s.slots i (record slot { stage = running r started }))) ≤ 1
    once a free =
        let e =
          count-locked-set a i s.slots slot (record slot { stage = running r started }) r started at
            stage refl in
        let before = v.single a in
        elim (Bool-cases (r.id == a)) [
          | inr other ↦ ground (arith, e)
          | inl same ↦
              let f = (==_iff r.id a).0 same in
              let absent : count a (locked s.slots) ≡ 0 =
                has-count (locked s.slots) a (rw (← f) free) in
              ground (arith, e)
        ]

claim_slot-IsValid :
    (i now started : ℕ) (slot : Slot) (s : System)
    → get_elem? s.slots i ≡ some slot
    → IsValid s
    → (stage : Stage) → slot.stage ≡ stage
    → IsValid (claim_slot i now started s slot stage)
unfolding claim_slot
claim_slot-IsValid i now started slot s at v starting stage =
    hold-IsValid i slot now started s at stage v (get_job slot.of_queue now (locked s.slots) s.rows)
      refl
claim_slot-IsValid i now started slot s at v (running r t) stage = v

finish_slot-IsValid :
    (i now later : ℕ) (result commit_error : Option Text) (slot : Slot) (s : System)
    → get_elem? s.slots i ≡ some slot
    → IsValid s
    → (stage : Stage) → slot.stage ≡ stage
    → IsValid (finish_slot i now later result commit_error s slot stage)
unfolding finish_slot end_slot complete
finish_slot-IsValid i now later result commit_error slot s at v starting stage = v
finish_slot-IsValid i now later result commit_error slot s at v (running r t) stage =
    let rest = end_slot-IsValid i slot s v in
    let change : Row → Row = λ q. record q {
      started_at = some t;
      result = result;
      completed_at = some now;
      retain_until = some (later + slot.keeps_for);
      commit_error = commit_error;
    } in
    record {
      unique = rw (ids-update_rows change (λ q. refl) r.id s.rows) v.unique;
      single = rest.single;
      held =
          Holds-rows s.rows (update_rows r.id change s.rows) (remove_at i s.slots)
            (λ j q inside found.
              rw (find_row-update_other change (λ q. refl) r.id j s.rows (apart j inside)) found)
            rest.held;
      stored =
          All-update_rows change (λ q. refl) IsStored r.id s.rows (λ q h. (refl, refl)) v.stored;
    }
  where
    apart : (j : Text) → has (locked (remove_at i s.slots)) j ≡ true → (r.id == j) ≡ false
    apart j inside = elim (Bool-cases (r.id == j)) [
      | inr other ↦ other
      | inl same ↦
          let e = (==_iff r.id j).0 same in
          let once = v.single r.id in
          let ended = count-locked-end i s.slots slot r t at stage in
          let gone : count r.id (locked (remove_at i s.slots)) ≡ 0 = omega (arith, once, ended) in
          let out = count-has (locked (remove_at i s.slots)) r.id gone in
          let clash : has (locked (remove_at i s.slots)) j ≡ false = rw (← e) out in cc
    ]

add_rows-IsValid :
    (queue : Text) (opts : AddOption) (now : ℕ) (uuid msg : Option Text) (s : System)
    → IsValid s
    → (o : Option (Text × List Row)) → add queue opts now uuid msg (locked s.slots) s.rows ≡ o
    → IsValid (add_rows s o)
unfolding add_rows
add_rows-IsValid queue opts now uuid msg s v none e = v
add_rows-IsValid queue opts now uuid msg s v (some (id, rows)) e =
    let added = add-Added queue opts now uuid msg (locked s.slots) s.rows id rows e in
    record {
      unique = IsUnique-add queue opts now (locked s.slots) id s.rows rows added v.unique;
      single = v.single;
      held =
          Holds-rows s.rows rows s.slots
            (λ j r. find_row-add_locked queue opts now (locked s.slots) id s.rows rows added j r)
            v.held;
      stored =
          All-add queue opts now (locked s.slots) id s.rows rows added IsStored
            (λ msg now start. unfold new_row in (refl, refl)) (λ arg start r h. unfold reuse in h)
            v.stored;
    }

not_expired :
    (now : ℕ) (held : List Text) (r : Row) → has held r.id ≡ true → is_expired now held r ≡ false
unfolding is_expired
not_expired now held r h = ground arith

clean-IsValid :
    (now : ℕ) (s : System)
    → IsValid s
    → IsValid (record s { rows = clean now (locked s.slots) s.rows })
unfolding clean
clean-IsValid now s v = record {
  unique = λ a.
      (let once = v.unique a in
        omega (arith, count-delete_rows (is_expired now (locked s.slots)) 1000 a s.rows));
  single = v.single;
  held =
      Holds-rows s.rows _ s.slots
        (λ j r inside found.
          find_row-delete_rows (is_expired now (locked s.slots)) 1000 j s.rows r found
            (not_expired now (locked s.slots) r (rw (id-find_row j s.rows r found) inside)))
        v.held;
  stored = All-delete_rows (is_expired now (locked s.slots)) IsStored 1000 s.rows v.stored;
}

open_slot-IsValid :
    (queue : Text) (p : ℕ) (s : System)
    → IsValid s
    → (o : Option WorkerInfo) → IsValid (open_slot queue p s o)
unfolding open_slot
open_slot-IsValid queue p s v none = v
open_slot-IsValid queue p s v (some info) = elim (Bool-cases (at_limit info)) [
  | inl full ↦ rw (full, open_slot) v
  | inr room ↦
      let slot : Slot = record {
        info = p;
        of_queue = queue;
        keeps_for = info.retain_for;
        stage = starting;
      } in
      rw (room, open_slot)
        (record {
          unique = v.unique;
          single = rw (locked-open s.slots slot refl) v.single;
          held =
              All-append (λ (slot : Slot). Holds s.rows slot.stage) s.slots (slot ∷ []) v.held
                (tt, tt);
          stored = v.stored;
        })
]

at_slot-IsValid :
    (s : System) (act : Slot → System)
    → IsValid s
    → (o : Option Slot) → ((slot : Slot) → o ≡ some slot → IsValid (act slot))
    → IsValid (elim o [ none ↦ s | some slot ↦ act slot ])
at_slot-IsValid s act v none keep = v
at_slot-IsValid s act v (some slot) keep = keep slot refl

check_queue-IsValid : (queue : Text) (s : System) → IsValid s → IsValid (check_queue queue s)
unfolding check_queue
check_queue-IsValid queue s v = go (lookup queue s.listening_for)
  where
    go :
        (o : Option ℕ)
        → IsValid (elim o [ none ↦ s | some p ↦ open_slot queue p s (get_elem? s.infos p) ])
    go none = v
    go (some p) = open_slot-IsValid queue p s v (get_elem? s.infos p)

pub step-IsValid : (event : Event) (s : System) → IsValid s → IsValid (step event s)
unfolding step at_slot
step-IsValid (listen w) s v = record {
  unique = v.unique;
  single = v.single;
  held = v.held;
  stored = v.stored;
}
step-IsValid (check queue) s v = check_queue-IsValid queue s v
step-IsValid (claim i now started) s v =
    at_slot-IsValid s (λ slot. claim_slot i now started s slot slot.stage) v (get_elem? s.slots i)
      (λ slot at. claim_slot-IsValid i now started slot s at v slot.stage refl)
step-IsValid (finish i now later result commit_error) s v =
    at_slot-IsValid s (λ slot. finish_slot i now later result commit_error s slot slot.stage) v
      (get_elem? s.slots i)
      (λ slot at. finish_slot-IsValid i now later result commit_error slot s at v slot.stage refl)
step-IsValid (roll_back i) s v =
    at_slot-IsValid s (λ slot. end_slot i slot s) v (get_elem? s.slots i)
      (λ slot at. end_slot-IsValid i slot s v)
step-IsValid (add_job queue opts now uuid msg) s v =
    add_rows-IsValid queue opts now uuid msg s v
      (add queue opts now uuid msg (locked s.slots) s.rows) refl
step-IsValid (clean_up now) s v = clean-IsValid now s v

-- From a valid state every interleaving of workers, adds and cleaning leads to one: the ids in the
-- table stay distinct, no job is ever held by two workers, the job of each worker is to do and
-- unchanged in the table, and a row is completed as soon as it is seen to be started.
pub run-IsValid : (events : List Event) (s : System) → IsValid s → IsValid (run events s)
unfolding run
run-IsValid [] s v = v
run-IsValid (event ∷ events) s v = run-IsValid events (step event s) (step-IsValid event s v)
