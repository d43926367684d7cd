-- ===== src/WorkQueue/Watch/Position.antt =====
-- The position that the caller of `GetStatus` is told, call after call.
use gobase.Base.{
  ℕ, zero, suc, ◌≤◌, ◌≡◌, refl, sym, ◌∙◌, subst, inl, inr, Bool, true, false, Option, none, some,
  List, [], ◌∷◌, arith, Bool-cases, ◌==◌, ◌&&◌, nat_comparable, bool_comparable, list_comparable,
  All, IsUnique,
}
use gobase.Base.Text.{Text}
use gobase.WorkQueue.Table.{Row, ids, is_null, find_row, delete_rows, is_expired, clean}
use gobase.WorkQueue.Table.Rows.{id-ne, id-find_row, unique_tail}
use gobase.WorkQueue.Watch.{System, Event, locked, step, run}
use gobase.WorkQueue.Watch.Ahead.{IsLate, rows_ahead-step}
use gobase.WorkQueue.Watch.History.{step-Survives}
use gobase.WorkQueue.Watch.Jobs.{step-IsValid}
use gobase.WorkQueue.Watch.Valid.{IsValid}
use gobase.WorkQueue.Status.{Status, rows_ahead, position, is_in_scope, find_scoped, get_status}

-- A cleaning puts no row in the place of one that it deletes.
find_row-delete_rows_back :
    (limit : ℕ) (test : Row → Bool) (j : Text) (rows : List Row) (r : Row)
    → IsUnique (ids rows)
    → find_row j (delete_rows limit test rows) ≡ some r
    → find_row j rows ≡ some r
unfolding delete_rows find_row
find_row-delete_rows_back limit test j [] r unique h = h
find_row-delete_rows_back zero test j (s ∷ rows) r unique h = h
find_row-delete_rows_back (suc limit) test j (s ∷ rows) r unique h = elim (Bool-cases (test s)) [
  | inl gone ↦
      let rest =
        find_row-delete_rows_back limit test j rows r (unique_tail s rows unique) (rw gone at h) in
      let here = id-find_row j rows r rest in
      let other : (s.id == j) ≡ false =
        subst (λ k. (s.id == k) ≡ false) here
          (id-ne s r rows unique (subst (λ k. find_row k rows ≡ some r) (sym here) rest)) in
      rw other rest
  | inr stays ↦ elim (Bool-cases (s.id == j)) [
    | inl same ↦ rw same (rw (stays, same) at h)
    | inr other ↦ rw other (
        find_row-delete_rows_back (suc limit) test j rows r (unique_tail s rows unique)
          (rw (stays, other) at h))
  ]
]

-- A job of the same queue and time of creation, with no more jobs ahead.
position-nearer :
    (r r' : Row) (rows rows' : List Row)
    → r'.queue_name ≡ r.queue_name
    → r'.created_at ≡ r.created_at
    → (is_null r'.started_at ≡ true → is_null r.started_at ≡ true)
    → rows_ahead r.queue_name r.created_at rows' ≤ rows_ahead r.queue_name r.created_at rows
    → position r' rows' ≤ position r rows
unfolding position
position-nearer r r' rows rows' queue created todo fewer =
    elim (Bool-cases (is_null r'.started_at)) [
      | inl waits ↦ rw (waits, todo waits, queue, created) (omega (arith, fewer))
      | inr starts ↦ rw starts (omega arith)
    ]

-- The row of a job after a step, of the same queue and time of creation and not started again.
abbrev IsKept : Row → Row → Type 0
IsKept r r' =
    (r'.queue_name ≡ r.queue_name)
    × (r'.created_at ≡ r.created_at)
    × (is_null r'.started_at ≡ true → is_null r.started_at ≡ true)

IsKept-found :
    (j : Text) (rows : List Row) (r q r' : Row)
    → find_row j rows ≡ some q
    → find_row j rows ≡ some r'
    → IsKept r q
    → IsKept r r'
IsKept-found j rows r q r' found after kept =
    let e : some q ≡ some r' = sym found ∙ after in let f : q ≡ r' = cc in subst (IsKept r) f kept

step-IsKept :
    (event : Event) (s : System) (j : Text) (r r' : Row)
    → IsValid s
    → find_row j s.rows ≡ some r
    → find_row j (step event s).rows ≡ some r'
    → IsKept r r'
unfolding step clean
step-IsKept event s j r r' v before after = elim (step-Survives s v j r before event) [
  | inl (inl stays) ↦ IsKept-found j (step event s).rows r r r' stays after (refl, refl, λ h. h)
  | inl (inr (todo, (q, found, queue, created))) ↦
      IsKept-found j (step event s).rows r q r' found after (queue, created, λ h. rw todo refl)
  | inr (now, e, gone, completed) ↦
      let cleaned = subst (λ event. find_row j (step event s).rows ≡ some r') e after in
      IsKept-found j s.rows r r r' before
        (find_row-delete_rows_back 1000 (is_expired now (locked s.slots)) j s.rows r' v.unique
          cleaned)
        (refl, refl, λ h. h)
]

-- After each of the events, the table has a row with the id.
abbrev pub IsPresent : Text → List Event → System → Type 0
IsPresent j [] s = Unit
IsPresent j (event ∷ events) s =
    ((r : Row) × (find_row j (step event s).rows ≡ some r)) × IsPresent j events (step event s)

position-run :
    (events : List Event) (s : System) (j : Text) (r r' : Row) (created : ℕ)
    → r.created_at ≡ created
    → IsValid s
    → All (IsLate created) events
    → IsPresent j events s
    → find_row j s.rows ≡ some r
    → find_row j (run events s).rows ≡ some r'
    → position r' (run events s).rows ≤ position r s.rows
unfolding run
position-run [] s j r r' created c v late present before after =
    let e : some r ≡ some r' = sym before ∙ after in
    let f : r ≡ r' = cc in subst (λ r'. position r' s.rows ≤ position r s.rows) f (omega arith)
position-run (event ∷ events) s j r r' created c v (late, rest) ((q, found), present) before after =
    let (queue, created', todo) = step-IsKept event s j r q v before found in
    omega (
      arith,
      position-run events (step event s) j q r' created (created' ∙ c) (step-IsValid event s v) rest
          present found after,
      position-nearer r q s.rows (step event s).rows queue created' todo (
          rows_ahead-step r.queue_name r.created_at event s
            (subst (λ created. IsLate created event) (sym c) late)),
    )

-- What `GetStatus` tells is read off a row of the table.
get_status_inv :
    (j : Text) (user company : Option ℕ) (rows : List Row) (told : Status)
    → get_status j user company rows ≡ some told
    → (r : Row) × (find_row j rows ≡ some r)
      × (told.position ≡ position r rows)
      × (told.created_at ≡ r.created_at)
unfolding get_status find_scoped
get_status_inv j user company rows told h = go (find_row j rows) refl
  where
    go :
        (o : Option Row)
        → find_row j rows ≡ o
        → (r : Row) × (find_row j rows ≡ some r)
          × (told.position ≡ position r rows)
          × (told.created_at ≡ r.created_at)
    go none e = let nothing : none ≡ some told = rw e at h in cc
    go (some r) e = elim (Bool-cases (is_in_scope user r.usr && is_in_scope company r.company)) [
      | inl mine ↦ let told_r = rw (e, mine) at h in (r, e, cc, cc)
      | inr hidden ↦ let nothing : none ≡ some told = rw (e, hidden) at h in cc
    ]

-- From a valid state, a caller that asks `GetStatus` for a job before and after any events, and
-- finds it both times, is told a position that is no higher than before, when a row with the job's
-- id stands in the table after each of the events, and each `add` among them is made at the job's
-- time of creation or later.
pub run-position :
    (j : Text) (user company : Option ℕ) (events : List Event) (s : System) (before after : Status)
    → IsValid s
    → All (IsLate before.created_at) events
    → IsPresent j events s
    → get_status j user company s.rows ≡ some before
    → get_status j user company (run events s).rows ≡ some after
    → after.position ≤ before.position
run-position j user company events s before after v late present told later =
    let (r, found, position_r, created) = get_status_inv j user company s.rows before told in
    let (r', found', position_r', created') =
      get_status_inv j user company (run events s).rows after later in
    let fewer =
      position-run events s j r r' before.created_at (sym created) v late present found found' in
    rw (position_r, position_r') fewer
