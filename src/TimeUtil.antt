-- ===== src/TimeUtil.antt =====
-- Package timeutil: days that count (timeutil/main.go). Package time is the parameter
-- `TimePackage`. A loop without a bound of its own runs on fuel: `none` means that it ran out.
pub mod Travel
pub mod Business
mod Tests
use gobase.Base.{
  ℕ, zero, suc, ◌+◌, ◌-◌, ◌*◌, ◌/◌, ◌%◌, ◌^◌, ◌≤◌, ◌<◌, min, max, ◌≡◌, refl, sym, ap, ◌∙◌, subst,
  fun_ext, ◌≢◌, ◌↔◌, ◌⊎◌, inl, inr, Bool, true, false, not, ◌&&◌, ◌||◌, Option, none, some, List,
  [], ◌∷◌, ◌++◌, map, append_assoc, append-nil, arith, ltb, leb, eqb, if◌then◌else◌, ltb→lt, lt→ltb,
  leb→le, le→leb, eqb_iff, Bool-cases, Option-cases, ◌>>=◌, length, get_elem?, set, length-append,
  get_or, take, drop, replicate, take-append-drop, length-take, length-drop, length-map,
  length-reverse, get_elem?-reverse, get_or-get_elem?, Comparable, ◌==◌, ==_iff, ==-refl, ==-comm,
  nat_comparable, bool_comparable, list_comparable, count, count-append, IsUnique, All, All-append,
  keep, keep-append, count-keep,
}
use gobase.Base.Int.{ℤ, pos, negsuc, ◌+ℤ◌}

pub record Date : Type 0 where
  pub year : ℤ
  pub month : ℕ
  pub day : ℕ

pub record TimePackage : Type 1 where
  pub Time : Type 0
  -- `t.AddDate(0, 0, n)`, `t.Date()`, `t.Weekday()` (Sunday is 0), `t.Before(u)`.
  pub add_date : Time → ℤ → Time
  pub date_of : Time → Date
  pub weekday : Time → ℕ
  pub before : Time → Time → Bool

pub record DateTraveler : Type 0 where
  pub holidays : List Date
  pub business_days : Bool

eq_ℤ : ℤ → ℤ → Bool
eq_ℤ (pos a) (pos b) = eqb a b
eq_ℤ (negsuc a) (negsuc b) = eqb a b
eq_ℤ (pos a) (negsuc b) = false
eq_ℤ (negsuc a) (pos b) = false

-- `Date.Equals`.
equals : Date → Date → Bool
unfolding eq_ℤ
equals dt other = eq_ℤ other.year dt.year && eqb other.month dt.month && eqb other.day dt.day

is_holiday : List Date → Date → Bool
unfolding equals
is_holiday [] date = false
is_holiday (item ∷ rest) date = if equals item date then true else is_holiday rest date

-- `direction` and the `n` that the loop counts to, where `-1 * n` leaves the least int as it is.
abbrev direction : ℤ → ℤ
direction (pos n) = pos 1
direction (negsuc n) = negsuc 0

unfoldable pub days_to_count : ℕ → ℤ → ℕ
days_to_count max_int (pos n) = n
days_to_count max_int (negsuc n) = if eqb n max_int then 0 else suc n

-- `desired - current`, and 7 more when that is negative.
unfoldable pub days_until : ℕ → ℕ → ℕ
days_until current desired =
    if ltb desired current then desired + 7 - current else desired - current

-- `if ct == -1 { return 0 }`.
at_least_zero : ℤ → ℤ
at_least_zero (pos n) = pos n
at_least_zero (negsuc zero) = pos 0
at_least_zero (negsuc (suc n)) = negsuc (suc n)

module _ (time : TimePackage) where
  open time use {Time, add_date, date_of, weekday, before}

  unfoldable pub contains_day : DateTraveler → Time → Bool
  unfolding is_holiday
  contains_day c when =
      if c.business_days && eqb (weekday when) 0
      then false
      else if c.business_days && eqb (weekday when) 6
      then false
      else not (is_holiday c.holidays (date_of when))

  -- The loop of `AddDays`, with what is left to count.
  unfoldable pub add_days_loop : ℕ → DateTraveler → ℤ → ℕ → Time → Option Time
  add_days_loop fuel c step zero when = some when
  add_days_loop zero c step (suc n) when = none
  add_days_loop (suc fuel) c step (suc n) when =
      let counted = add_days_loop fuel c step n (add_date when step) in
      let skipped = add_days_loop fuel c step (suc n) (add_date when step) in
      if contains_day c (add_date when step) then counted else skipped

  unfoldable pub add_days : ℕ → ℕ → DateTraveler → Time → ℤ → Option Time
  unfolding add_days_loop days_to_count
  add_days max_int fuel c when n = add_days_loop fuel c (direction n) (days_to_count max_int n) when

  unfoldable pub add_business_days : ℕ → ℕ → Time → ℤ → List Date → Option Time
  unfolding add_days
  add_business_days max_int fuel when n holidays =
      add_days max_int fuel (record { holidays = holidays; business_days = true }) when n

  -- The loop of `BusinessDaysBetween`.
  between_loop : ℕ → ℕ → ℕ → DateTraveler → Time → Time → ℤ → Option ℤ
  unfolding add_days
  between_loop max_int steps zero dt when now ct = if before when now then none else some ct
  between_loop max_int steps (suc fuel) dt when now ct =
      let rest = λ (later : Time). between_loop max_int steps fuel dt later now (ct +ℤ pos 1) in
      if before when now then add_days max_int steps dt when (pos 1) >>= rest else some ct

  unfoldable pub business_days_between : ℕ → ℕ → ℕ → Time → Time → List Date → Option ℤ
  unfolding between_loop at_least_zero
  business_days_between max_int steps fuel when now holidays =
      between_loop max_int steps fuel (record { holidays = holidays; business_days = true }) when
        now (negsuc 0)
      >>= λ ct. some (at_least_zero ct)

  unfoldable pub next_weekday : Time → ℕ → Time
  unfolding days_until
  next_weekday tm desired = add_date tm (pos (days_until (weekday tm) desired))

  unfoldable pub date_equals : Time → Time → Bool
  unfolding equals
  date_equals a b = equals (date_of b) (date_of a)
