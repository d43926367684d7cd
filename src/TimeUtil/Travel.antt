-- ===== src/TimeUtil/Travel.antt =====
-- Where `AddDays` arrives, and how many steps that takes.
use gobase.Base.{
  Bool, ℕ, zero, suc, ◌+◌, ◌*◌, ◌≤◌, ◌<◌, ◌≡◌, refl, inl, inr, some, arith, if◌then◌else◌,
  Bool-cases, nat_comparable, bool_comparable, list_comparable,
}
use gobase.Base.Int.{ℤ}
use gobase.TimeUtil.{TimePackage, DateTraveler, contains_day, add_days_loop}

module _ (time : TimePackage) (counts : time.Time → Bool) (step : ℤ) where
  open time use {Time, add_date}

  -- `m` steps from a time.
  abbrev pub steps : ℕ → Time → Time
  steps zero when = when
  steps (suc m) when = steps m (add_date when step)

  -- How many of the next `m` days count.
  abbrev pub counted : ℕ → Time → ℕ
  counted zero when = 0
  counted (suc m) when =
      (if counts (add_date when step) then 1 else 0) + counted m (add_date when step)

  -- Of the next `gap + 1` days one counts, wherever the walk stands.
  abbrev pub HasGap : ℕ → Type 0
  HasGap gap = (when : Time) → 1 ≤ counted (suc gap) when

  -- Where a walk that counts `n` days ends: the `n`th day that counts, the last step being on it.
  abbrev pub IsNth : ℕ → Time → Time → Type 0
  IsNth n when arrival =
      (m : ℕ) × (arrival ≡ steps m when)
      × (counted m when ≡ n)
      × ((k : ℕ) → k < m → counted k when < n)

  counted-below :
      (m n : ℕ) (when : Time)
      → ((k : ℕ)
          → k < m
          → (if counts (add_date when step) then 1 else 0) + counted k (add_date when step) < n)
      → 0 < n
      → (k : ℕ) → k < suc m
      → counted k when < n
  counted-below m n when later some_day zero lt = some_day
  counted-below m n when later some_day (suc k) lt = later k (omega arith)

  loop-IsNth :
      (c : DateTraveler)
      → ((day : Time) → contains_day time c day ≡ counts day)
      → (fuel n : ℕ) (when : Time) → n ≤ counted fuel when
      → (arrival : Time) × (add_days_loop time fuel c step n when ≡ some arrival)
        × IsNth n when arrival
  unfolding add_days_loop
  loop-IsNth c same fuel zero when h = (when, refl, (0, refl, refl, λ k lt. ground arith))
  loop-IsNth c same zero (suc n) when h = ground arith
  loop-IsNth c same (suc fuel) (suc n) when h = elim (Bool-cases (counts (add_date when step))) [
    | inl counted_day ↦
        let (arrival, e, (m, at, total, fewer)) =
          loop-IsNth c same fuel n (add_date when step) (ground arith) in
        (
          arrival,
          rw (same (add_date when step), counted_day) e,
          (
            suc m,
            at,
            (rw counted_day (omega (arith, total))),
            counted-below m (suc n) when (λ k lt. rw counted_day (omega (arith, fewer k lt)))
                (omega arith),
          ),
        )
    | inr skips ↦
        let (arrival, e, (m, at, total, fewer)) =
          loop-IsNth c same fuel (suc n) (add_date when step) (ground arith) in
        (
          arrival,
          rw (same (add_date when step), skips) e,
          (
            suc m,
            at,
            (rw skips (omega (arith, total))),
            counted-below m (suc n) when (λ k lt. rw skips (omega (arith, fewer k lt)))
                (omega arith),
          ),
        )
  ]

  counted-append :
      (a b : ℕ) (when : Time) → counted (a + b) when ≡ counted a when + counted b (steps a when)
  counted-append zero b when = let e : 0 + b ≡ b = omega arith in rw e (omega arith)
  counted-append (suc a) b when =
      let e : suc a + b ≡ suc (a + b) = omega arith in
      let rest = counted-append a b (add_date when step) in rw e (omega (arith, rest))

  -- Each stretch of `gap + 1` days adds one at least.
  counted-HasGap : (gap n : ℕ) (when : Time) → HasGap gap → n ≤ counted (n * suc gap) when
  counted-HasGap gap zero when h = omega arith
  counted-HasGap gap (suc n) when h =
      let e : suc n * suc gap ≡ suc gap + n * suc gap = omega arith in
      let rest = counted-HasGap gap n (steps (suc gap) when) h in
      let here = h when in
      rw (e, counted-append (suc gap) (n * suc gap) when) (omega (arith, rest, here))

  -- For the days that a traveler contains, where of any `gap + 1` days in a row one counts, the loop of `AddDays` ends within `gap + 1`
  -- rounds for each day to count, exactly where the days that count first are `n`.
  pub add_days_loop-IsNth :
      (c : DateTraveler)
      → ((day : Time) → contains_day time c day ≡ counts day)
      → (gap n : ℕ) (when : Time) → HasGap gap
      → (arrival : Time) × (add_days_loop time (n * suc gap) c step n when ≡ some arrival)
        × IsNth n when arrival
  add_days_loop-IsNth c same gap n when h =
      loop-IsNth c same (n * suc gap) n when (counted-HasGap gap n when h)
