-- ===== src/TimeUtil/Business.antt =====
-- Business days: weekends are two days long, and weekdays repeat.
use gobase.Base.{
  Bool, ℕ, ◌+◌, ◌*◌, ◌%◌, ◌<◌, ◌≡◌, inl, inr, true, not, ◌&&◌, some, [], arith, ltb, eqb,
  Bool-cases, nat_comparable, bool_comparable, list_comparable,
}
use gobase.Base.Int.{ℤ, pos, negsuc}
use gobase.TimeUtil.{
  TimePackage, DateTraveler, contains_day, is_holiday, direction, days_to_count, add_days,
  add_business_days, days_until, next_weekday,
}
use gobase.TimeUtil.Travel.{HasGap, IsNth, add_days_loop-IsNth}

module _ (time : TimePackage) where
  open time use {Time, add_date, weekday}

  -- What package time documents of `AddDate(0, 0, n)` and `Weekday`.
  abbrev pub AdvancesWeekday : Type 0
  AdvancesWeekday =
      ((when : Time) (n : ℕ) → weekday (add_date when (pos n)) ≡ (weekday when + n) % 7)
      × ((when : Time) → weekday (add_date when (negsuc 0)) ≡ (weekday when + 6) % 7)

  abbrev pub business : DateTraveler
  business = record { holidays = []; business_days = true }

  -- A day that is no Sunday and no Saturday.
  abbrev pub is_business_day : Time → Bool
  is_business_day when = not (eqb (weekday when) 0) && not (eqb (weekday when) 6)

  contains_day-business : (when : Time) → contains_day time business when ≡ is_business_day when
  unfolding contains_day is_holiday
  contains_day-business when = ground arith

  business-HasGap : (n : ℤ) → AdvancesWeekday → HasGap time is_business_day (direction n) 2
  business-HasGap (pos n) (forth, back) when =
      let a = forth when 1 in
      let b = forth (add_date when (pos 1)) 1 in
      let d = forth (add_date (add_date when (pos 1)) (pos 1)) 1 in ground arith
  business-HasGap (negsuc n) (forth, back) when =
      let a = back when in
      let b = back (add_date when (negsuc 0)) in
      let d = back (add_date (add_date when (negsuc 0)) (negsuc 0)) in ground arith

  -- Without holidays, and with weekdays that repeat every seven days, `AddBusinessDays` ends
  -- within three rounds for each day to add, forwards or backwards, exactly on the
  -- day on which the days that are no Saturday and no Sunday, among those stepped on, first are as
  -- many as asked for.
  pub add_business_days-IsNth :
      (max_int : ℕ) (when : Time) (n : ℤ)
      → AdvancesWeekday
      → (arrival : Time) × (add_business_days time max_int (days_to_count max_int n * 3) when n []
          ≡ some arrival)
        × IsNth time is_business_day (direction n) (days_to_count max_int n) when arrival
  unfolding add_business_days add_days
  add_business_days-IsNth max_int when n laws =
      add_days_loop-IsNth time is_business_day (direction n) business contains_day-business 2
        (days_to_count max_int n) when (business-HasGap n laws)

  -- With weekdays that repeat every seven days, `NextWeekday` of a day and a wanted weekday below
  -- seven lands on that weekday, and less than a week ahead.
  pub weekday-next_weekday :
      (tm : Time) (desired : ℕ)
      → AdvancesWeekday
      → weekday tm < 7
      → desired < 7
      → (weekday (next_weekday time tm desired) ≡ desired) × (days_until (weekday tm) desired < 7)
  unfolding next_weekday days_until
  weekday-next_weekday tm desired (forth, back) is_day is_wanted =
      let e = forth tm (days_until (weekday tm) desired) in
      rw e (elim (Bool-cases (ltb desired (weekday tm))) [
        | inl wraps ↦ rw wraps (ground arith)
        | inr ahead ↦ rw ahead (ground arith)
      ])
