-- ===== src/TimeUtil/Tests.antt =====
-- Runs of package timeutil over a calendar of day numbers, and its theorems there.
use gobase.Base.{
  ℕ, suc, ◌+◌, ◌-◌, ◌*◌, ◌%◌, ◌≡◌, refl, false, none, some, [], ◌∷◌, arith, ltb, nat_comparable,
  bool_comparable, list_comparable,
}
use gobase.Base.Int.{ℤ, pos, negsuc, ◌+ℤ◌}
use gobase.TimeUtil.{
  TimePackage, contains_day, is_holiday, days_to_count, add_days, add_business_days,
  business_days_between,
}
use gobase.TimeUtil.Travel.{HasGap, IsNth}
use gobase.TimeUtil.Business.{AdvancesWeekday, is_business_day, add_business_days-IsNth}

-- A day's number and its weekday; a step back from day 0 keeps the number.
abbrev stepped : ℕ × ℕ → ℤ → ℕ × ℕ
stepped t (pos n) = (t.0 + n, (t.1 + n) % 7)
stepped t (negsuc n) = (t.0 - suc n, (t.1 + 6 * suc n) % 7)

abbrev days : TimePackage
days = record {
  Time = ℕ × ℕ;
  add_date = stepped;
  date_of = λ t. record { year = pos 2024; month = 1; day = t.0 };
  weekday = λ t. t.1;
  before = λ t u. ltb t.0 u.0;
}

days-AdvancesWeekday : AdvancesWeekday days
days-AdvancesWeekday = ((λ when n. refl), λ when. omega arith)

-- Friday the 5th.
abbrev friday : ℕ × ℕ
friday = (5, 5)

over_weekend : add_business_days days 100 6 friday (pos 2) [] ≡ some (9, 2)
unfolding add_business_days add_days contains_day
over_weekend = refl

over_holiday :
    add_business_days days 100 6 friday
      (pos 1)
      (record { year = pos 2024; month = 1; day = 8 } ∷ [])
    ≡ some (9, 2)
unfolding add_business_days add_days contains_day
over_holiday = refl

between : business_days_between days 100 5 10 friday (10, 3) [] ≡ some (pos 2)
unfolding business_days_between add_days contains_day ◌+ℤ◌
between = refl

out_of_fuel : add_business_days days 100 3 friday (pos 2) [] ≡ none
unfolding add_business_days add_days contains_day
out_of_fuel = refl

add_business_days-IsNth_example :
    (arrival : ℕ × ℕ) × (add_business_days days 100
        (days_to_count 100 (negsuc 1) * 3)
        friday
        (negsuc 1)
        []
      ≡ some arrival)
    × IsNth days (is_business_day days) (negsuc 0) (days_to_count 100 (negsuc 1)) friday arrival
add_business_days-IsNth_example =
    add_business_days-IsNth days 100 friday (negsuc 1) days-AdvancesWeekday

no_holidays_gap :
    HasGap days (contains_day days (record { holidays = []; business_days = false })) (pos 1) 0
unfolding contains_day is_holiday
no_holidays_gap when = omega arith
