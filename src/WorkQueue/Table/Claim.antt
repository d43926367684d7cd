-- ===== src/WorkQueue/Table/Claim.antt =====
-- Which job a worker gets.
use gobase.Base.{
  ℕ, ◌≤◌, ◌≡◌, refl, ap, ◌⊎◌, inl, inr, Bool, true, false, Option, none, some, List, [], ◌∷◌, arith,
  leb, leb→le, Bool-cases, le→leb, ◌↔◌, get_elem?, ◌==◌, ==_iff, suc, ==-refl, nat_comparable,
  bool_comparable, list_comparable, IsUnique, All,
}
use gobase.Base.Text.{Text}
use gobase.Base.{All-map}
use gobase.WorkQueue.Table.Rows.{id-ne, unique_tail}
use gobase.WorkQueue.Table.{
  Row, is_null, has, ids, find_row, first_by_start, is_claimable, get_job, earlier,
}

module _ (test : Row → Bool) where
  -- `r` passes the test and starts no later than any row that passes it.
  abbrev pub IsFirst : Row → List Row → Type 0
  IsFirst r rows = (test r ≡ true) × All (λ s. test s ≡ true → r.start_after ≤ s.start_after) rows

  picked :
      (s : Row) (rest : Option Row) (r : Row)
      → some (earlier s rest) ≡ some r
      → ((r ≡ s)
          × ((rest ≡ none) ⊎ ((t : Row) × (rest ≡ some t) × (s.start_after ≤ t.start_after))))
        ⊎ ((rest ≡ some r) × (r.start_after ≤ s.start_after))
  picked s none r h = inl (cc, inl refl)
  picked s (some t) r h = elim (Bool-cases (leb s.start_after t.start_after)) [
    | inl le ↦ let e : some s ≡ some r = rw le at h in inl (cc, inr (t, refl, leb→le _ _ le))
    | inr gt ↦
        let e : some t ≡ some r = rw gt at h in
        let f : t ≡ r = cc in inr (e, (rw (← f) (ground arith)))
  ]

  pub first_by_start-none :
      (rows : List Row) → first_by_start test rows ≡ none → All (λ s. test s ≡ false) rows
  unfolding first_by_start
  first_by_start-none [] h = tt
  first_by_start-none (s ∷ rows) h = elim (Bool-cases (test s)) [
    | inl passes ↦ let e : some (earlier s (first_by_start test rows)) ≡ none = rw passes at h in cc
    | inr fails ↦ (fails, first_by_start-none rows (rw fails at h))
  ]

  pub first_by_start-IsFirst :
      (rows : List Row) (r : Row) → first_by_start test rows ≡ some r → IsFirst r rows
  unfolding first_by_start
  first_by_start-IsFirst [] r h = cc
  first_by_start-IsFirst (s ∷ rows) r h = elim (Bool-cases (test s)) [
    | inl passes ↦ elim (picked s (first_by_start test rows) r (rw passes at h)) [
      | inl (e, inl nothing) ↦ (
        (rw e passes),
        (
          (λ t. rw e (omega arith)),
          All-map (λ t fails passes'. cc) rows (first_by_start-none rows nothing),
        ),
      )
      | inl (e, inr (t, found, le)) ↦
          let (ok, all) = first_by_start-IsFirst rows t found in
          (
            (rw e passes),
            (
              (λ t. rw e (omega arith)),
              All-map {P = λ u. test u ≡ true → t.start_after ≤ u.start_after}
                  (λ u later pass. omega (arith, later pass, ap (λ (q : Row). q.start_after) e))
                  rows all,
            ),
          )
      | inr (found, le) ↦
          let (ok, all) = first_by_start-IsFirst rows r found in (ok, ((λ t. le), all))
    ]
    | inr fails ↦
        let (ok, all) = first_by_start-IsFirst rows r (rw fails at h) in (ok, ((λ t. cc), all))
  ]

  get_elem?-first_by_start :
      (rows : List Row) (r : Row)
      → first_by_start test rows ≡ some r
      → (i : ℕ) × (get_elem? rows i ≡ some r)
  unfolding first_by_start
  get_elem?-first_by_start [] r h = cc
  get_elem?-first_by_start (s ∷ rows) r h = elim (Bool-cases (test s)) [
    | inl passes ↦ elim (picked s (first_by_start test rows) r (rw passes at h)) [
      | inl (e, none_earlier) ↦ (0, cc)
      | inr (found, le) ↦ let (i, at) = get_elem?-first_by_start rows r found in (suc i, at)
    ]
    | inr fails ↦ let (i, at) = get_elem?-first_by_start rows r (rw fails at h) in (suc i, at)
  ]

  find_row-first_by_start :
      (rows : List Row) (r : Row)
      → IsUnique (ids rows)
      → first_by_start test rows ≡ some r
      → find_row r.id rows ≡ some r
  unfolding first_by_start find_row
  find_row-first_by_start [] r unique h = cc
  find_row-first_by_start (s ∷ rows) r unique h = elim (Bool-cases (test s)) [
    | inl passes ↦ elim (picked s (first_by_start test rows) r (rw passes at h)) [
      | inl (e, none_earlier) ↦ rw (e, ==-refl s.id) refl
      | inr (found, le) ↦
          let rest = find_row-first_by_start rows r (unique_tail s rows unique) found in
          rw (id-ne s r rows unique rest) rest
    ]
    | inr fails ↦
        let found : first_by_start test rows ≡ some r = rw fails at h in
        let rest = find_row-first_by_start rows r (unique_tail s rows unique) found in
        rw (id-ne s r rows unique rest) rest
  ]

-- A row that a worker of the queue may take.
abbrev pub IsDue : Text → ℕ → List Text → Row → Type 0
IsDue queue now locked r =
    (r.queue_name ≡ queue)
    × (r.start_after ≤ now)
    × (r.started_at ≡ none)
    × (has locked r.id ≡ false)

unstarted : (started_at : Option ℕ) → is_null started_at ≡ true → started_at ≡ none
unstarted none h = refl
unstarted (some t) h = cc

is_claimable-IsDue :
    (queue : Text) (now : ℕ) (locked : List Text) (r : Row)
    → is_claimable queue now locked r ≡ true ↔ IsDue queue now locked r
unfolding is_claimable
is_claimable-IsDue queue now locked r = (
  (λ h.
      let (q, due, todo, free) = parts h in
      ((==_iff r.queue_name queue).0 q, leb→le _ _ due, unstarted r.started_at todo, free)),
  (λ (q, due, todo, free). rw ((==_iff r.queue_name queue).1 q, le→leb _ _ due, todo, free) refl),
)
  where
    parts :
        is_claimable queue now locked r ≡ true
        → ((r.queue_name == queue) ≡ true)
          × (leb r.start_after now ≡ true)
          × (is_null r.started_at ≡ true)
          × (has locked r.id ≡ false)
    parts h = ground arith

pub get_job_claimable :
    (queue : Text) (now : ℕ) (locked : List Text) (rows : List Row) (r : Row)
    → get_job queue now locked rows ≡ some r
    → is_claimable queue now locked r ≡ true
unfolding get_job
get_job_claimable queue now locked rows r h =
    (first_by_start-IsFirst (is_claimable queue now locked) rows r h).0

-- What a worker gets is a row of the table of its queue that is due, not started and held by no
-- one else, and of all such rows it is one with the least time to start; it gets none only when
-- the table has no such row.
pub get_job_exact :
    (queue : Text) (now : ℕ) (locked : List Text) (rows : List Row)
    → ((r : Row)
        → get_job queue now locked rows ≡ some r
        → ((i : ℕ) × (get_elem? rows i ≡ some r))
          × IsDue queue now locked r
          × All (λ s. IsDue queue now locked s → r.start_after ≤ s.start_after) rows)
      × (get_job queue now locked rows ≡ none → All (λ s. ¬ IsDue queue now locked s) rows)
unfolding get_job
get_job_exact queue now locked rows = (
  (λ r h.
      let (passes, all) = first_by_start-IsFirst (is_claimable queue now locked) rows r h in
      (
        get_elem?-first_by_start (is_claimable queue now locked) rows r h,
        (is_claimable-IsDue queue now locked r).0 passes,
        All-map {P = λ s. (is_claimable queue now locked) s ≡ true → r.start_after ≤ s.start_after}
            (λ s least due. least ((is_claimable-IsDue queue now locked s).1 due)) rows all,
      )),
  (λ h.
      All-map (λ s fails due. let passes = (is_claimable-IsDue queue now locked s).1 due in cc) rows
        (first_by_start-none (is_claimable queue now locked) rows h)),
)

pub find_row-get_job :
    (queue : Text) (now : ℕ) (locked : List Text) (rows : List Row) (r : Row)
    → IsUnique (ids rows)
    → get_job queue now locked rows ≡ some r
    → find_row r.id rows ≡ some r
unfolding get_job
find_row-get_job queue now locked rows =
    find_row-first_by_start (is_claimable queue now locked) rows
