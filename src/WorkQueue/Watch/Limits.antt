-- ===== src/WorkQueue/Watch/Limits.antt =====
-- The slots of a worker: `nActive` counts them, and stays within `NConcurrent`.
use gobase.Base.{
  ℕ, suc, ◌-◌, ◌<◌, ◌≡◌, refl, sym, ◌∙◌, inl, inr, Option, none, some, List, [], ◌∷◌, ◌++◌, arith,
  Bool-cases, length, get_elem?, set, length-append, nat_comparable, bool_comparable,
  list_comparable, All-append, keep,
}
use gobase.Base.{All-map, length-set}
use gobase.Base.GoMap.{lookup}
use gobase.Base.Text.{Text}
use gobase.WorkQueue.Table.{Row, get_job}
use gobase.WorkQueue.Add.{add}
use gobase.WorkQueue.Watch.{
  WorkerInfo, Stage, starting, running, Slot, System, Event, locked, remove_at, set_active, release,
  end_slot, hold, claim_slot, finish_slot, open_slot, at_limit, check_queue, at_slot, add_rows,
  step, run, listen, check, claim, finish, roll_back, add_job, clean_up,
}
use gobase.WorkQueue.Watch.Slots.{All-remove_at, All-set, All-get_elem?}
use gobase.WorkQueue.Watch.Counts.{
  slots_of-append, slots_of-remove_at, slots_of-set, slots_of_none, IsCounted, get_elem?-append,
  place_known, place_none, one_more, one_less, IsWithin-set,
}

listen-IsCounted : (w : WorkerInfo) (s : System) → IsCounted s → IsCounted (step (listen w) s)
unfolding step set_active
listen-IsCounted w s c = record {
  within = λ p x at. elim (get_elem?-append s.infos (set_active 0 w) x p at) [
    | inl e ↦ c.within p x e
    | inr (e, f) ↦
        let idle : x.n_active ≡ 0 = (rw f refl) in
        (idle ∙ sym (rw e (slots_of_none (length s.infos) s.slots c.known)), inl idle)
  ];
  known =
      All-map {P = λ (slot : Slot). slot.info < length s.infos}
        (λ slot lt. omega (arith, lt, length-append s.infos (set_active 0 w ∷ []))) s.slots c.known;
}

open_slot-IsCounted :
    (queue : Text) (p : ℕ) (s : System)
    → IsCounted s
    → (o : Option WorkerInfo) → get_elem? s.infos p ≡ o
    → IsCounted (open_slot queue p s o)
unfolding open_slot set_active at_limit
open_slot-IsCounted queue p s c none at = c
open_slot-IsCounted queue p s c (some info) at = elim (Bool-cases (at_limit info)) [
  | inl full ↦ rw (full, open_slot) c
  | inr room ↦
      let new = set_active (suc info.n_active) info in
      let slot : Slot = record {
        info = p;
        of_queue = queue;
        keeps_for = info.retain_for;
        stage = starting;
      } in
      let counted = (c.within p info at).0 in
      rw (room, open_slot)
        (record {
          within =
              IsWithin-set s.infos s.slots (s.slots ++ slot ∷ []) p new c.within
                (λ q other. ground (arith, slots_of-append q s.slots slot))
                (
                  ground (arith, slots_of-append p s.slots slot, counted),
                  inr (one_more info.n_active info.n_concurrent room),
                );
          known = rw (length-set s.infos p new) (
              All-append (λ (slot : Slot). slot.info < length s.infos) s.slots (slot ∷ []) c.known
                (place_known s.infos p info at, tt));
        })
]

release-IsCounted :
    (i : ℕ) (slot : Slot) (s : System)
    → get_elem? s.slots i ≡ some slot
    → IsCounted s
    → (o : Option WorkerInfo) → get_elem? s.infos slot.info ≡ o
    → IsCounted (end_slot i slot s)
unfolding end_slot release set_active
release-IsCounted i slot s at c none place =
    let out =
      All-get_elem? (λ (slot : Slot). slot.info < length s.infos) s.slots i slot c.known at in
    absurd (place_none s.infos slot.info out place)
release-IsCounted i slot s at c (some info) place =
    let new = set_active (info.n_active - 1) info in
    let (counted, most) = c.within slot.info info place in
    let stays : release slot.info s.infos ≡ set s.infos slot.info new =
      (rw (place, release) refl) in
    record {
      within = rw stays (
          IsWithin-set s.infos s.slots (remove_at i s.slots) slot.info new c.within
            (λ q other. ground (arith, slots_of-remove_at q i s.slots slot at))
            (
              ground (arith, slots_of-remove_at slot.info i s.slots slot at, counted),
              elim most [
                | inl idle ↦ inl (omega (arith, idle))
                | inr within ↦ inr (one_less info.n_active info.n_concurrent within)
              ],
            ));
      known =
          rw (stays, length-set s.infos slot.info new)
            (All-remove_at (λ (slot : Slot). slot.info < length s.infos) i s.slots c.known);
    }

end_slot-IsCounted :
    (i : ℕ) (slot : Slot) (s : System)
    → get_elem? s.slots i ≡ some slot
    → IsCounted s
    → IsCounted (end_slot i slot s)
end_slot-IsCounted i slot s at c =
    release-IsCounted i slot s at c (get_elem? s.infos slot.info) refl

-- Rows do not count.
rows-IsCounted : (rows : List Row) (s : System) → IsCounted s → IsCounted (record s { rows = rows })
rows-IsCounted rows s c = record { within = c.within; known = c.known }

hold-IsCounted :
    (i : ℕ) (slot : Slot) (started : ℕ) (s : System)
    → get_elem? s.slots i ≡ some slot
    → IsCounted s
    → (found : Option Row) → IsCounted (hold i slot started s found)
unfolding hold
hold-IsCounted i slot started s at c none = end_slot-IsCounted i slot s at c
hold-IsCounted i slot started s at c (some r) =
    let next : Slot = record slot { stage = running r started } in
    record {
      within = λ p w place.
          let (counted, most) = c.within p w place in
          (counted ∙ sym (slots_of-set p i s.slots slot next at refl), most);
      known =
          All-set (λ (slot : Slot). slot.info < length s.infos) s.slots i next
            (All-get_elem? (λ (slot : Slot). slot.info < length s.infos) s.slots i slot c.known at)
            c.known;
    }

at_slot-IsCounted :
    (s : System) (act : Slot → System)
    → IsCounted s
    → (o : Option Slot) → ((slot : Slot) → o ≡ some slot → IsCounted (act slot))
    → IsCounted (elim o [ none ↦ s | some slot ↦ act slot ])
at_slot-IsCounted s act c none keep = c
at_slot-IsCounted s act c (some slot) keep = keep slot refl

check_queue-IsCounted : (queue : Text) (s : System) → IsCounted s → IsCounted (check_queue queue s)
unfolding check_queue
check_queue-IsCounted queue s c = go (lookup queue s.listening_for)
  where
    go :
        (o : Option ℕ)
        → IsCounted (elim o [ none ↦ s | some p ↦ open_slot queue p s (get_elem? s.infos p) ])
    go none = c
    go (some p) = open_slot-IsCounted queue p s c (get_elem? s.infos p) refl

claim_slot-IsCounted :
    (i now started : ℕ) (slot : Slot) (s : System)
    → get_elem? s.slots i ≡ some slot
    → IsCounted s
    → (stage : Stage) → IsCounted (claim_slot i now started s slot stage)
unfolding claim_slot
claim_slot-IsCounted i now started slot s at c starting =
    hold-IsCounted i slot started s at c (get_job slot.of_queue now (locked s.slots) s.rows)
claim_slot-IsCounted i now started slot s at c (running r t) = c

finish_slot-IsCounted :
    (i now later : ℕ) (result commit_error : Option Text) (slot : Slot) (s : System)
    → get_elem? s.slots i ≡ some slot
    → IsCounted s
    → (stage : Stage) → IsCounted (finish_slot i now later result commit_error s slot stage)
unfolding finish_slot
finish_slot-IsCounted i now later result commit_error slot s at c starting = c
finish_slot-IsCounted i now later result commit_error slot s at c (running r t) =
    rows-IsCounted _ (end_slot i slot s) (end_slot-IsCounted i slot s at c)

add_rows-IsCounted :
    (s : System) → IsCounted s → (o : Option (Text × List Row)) → IsCounted (add_rows s o)
unfolding add_rows
add_rows-IsCounted s c none = c
add_rows-IsCounted s c (some (id, rows)) = rows-IsCounted rows s c

pub step-IsCounted : (event : Event) (s : System) → IsCounted s → IsCounted (step event s)
unfolding step at_slot
step-IsCounted (listen w) s c = listen-IsCounted w s c
step-IsCounted (check queue) s c = check_queue-IsCounted queue s c
step-IsCounted (claim i now started) s c =
    at_slot-IsCounted s (λ slot. claim_slot i now started s slot slot.stage) c (get_elem? s.slots i)
      (λ slot at. claim_slot-IsCounted i now started slot s at c slot.stage)
step-IsCounted (finish i now later result commit_error) s c =
    at_slot-IsCounted s (λ slot. finish_slot i now later result commit_error s slot slot.stage) c
      (get_elem? s.slots i)
      (λ slot at. finish_slot-IsCounted i now later result commit_error slot s at c slot.stage)
step-IsCounted (roll_back i) s c =
    at_slot-IsCounted s (λ slot. end_slot i slot s) c (get_elem? s.slots i)
      (λ slot at. end_slot-IsCounted i slot s at c)
step-IsCounted (add_job queue opts now uuid msg) s c =
    add_rows-IsCounted s c (add queue opts now uuid msg (locked s.slots) s.rows)
step-IsCounted (clean_up now) s c = rows-IsCounted _ s c

-- From a state in which each worker counts its slots, and has none or at most as many as it may
-- run at a time, every interleaving leads to one: a worker counts exactly the slots that point
-- to it, those that look for a job and those that run one, whether jobs are missing, finish or
-- are rolled back.
pub run-IsCounted : (events : List Event) (s : System) → IsCounted s → IsCounted (run events s)
unfolding run
run-IsCounted [] s c = c
run-IsCounted (event ∷ events) s c = run-IsCounted events (step event s) (step-IsCounted event s c)
