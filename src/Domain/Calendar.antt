-- ===== src/Domain/Calendar.antt =====
-- The civil dates of Go's time package, as backend/internal/domain uses them: a wall clock reading in
-- one location. Years are not negative, and months run from 1 to 12.
use whcms.Base.{
  ℕ, zero, suc, ◌+◌, ◌-◌, ◌*◌, ◌/◌, ◌%◌, ◌≤◌, Bool, ◌&&◌, ◌||◌, not, ◌==◌, ltb, if◌then◌else◌, ◌≡◌,
  refl, arith,
}
use whcms.Base.Int.{ℤ, pos, ◌-ℤ◌}

pub record Time : Type 0 where
  pub year : ℕ
  pub month : ℕ
  pub day : ℕ
  pub clock : ℕ  -- nanoseconds since midnight

unfoldable pub is_leap : ℕ → Bool
is_leap y = (y % 4 == 0 && not (y % 100 == 0)) || y % 400 == 0

-- `time.Date(year, month+1, 0, ...).Day()`: day 0 of the next month is the last of this one.
unfoldable pub days_in : ℕ → ℕ → ℕ
unfolding is_leap
days_in y m =
    if m == 2
    then (if is_leap y then 29 else 28)
    else (if m == 4 || m == 6 || m == 9 || m == 11 then 30 else 31)

days_before_month : ℕ → ℕ → ℕ
unfolding days_in
days_before_month y zero = 0
days_before_month y (suc zero) = 0
days_before_month y (suc (suc m)) = days_before_month y (suc m) + days_in y (suc m)

days_before_year : ℕ → ℕ
days_before_year y = 365 * y + (y + 3) / 4 - (y + 99) / 100 + (y + 399) / 400

-- The number of a calendar day, counted from the start of year 0.
unfoldable pub day_number : Time → ℕ
unfolding days_before_month days_before_year
day_number t = days_before_year t.year + days_before_month t.year t.month + t.day

-- `daysBetween`: whole calendar days from a to b, by the dates alone. (`Sub` saturates at 292
-- years, which no billing period reaches.)
unfoldable pub days_between : Time → Time → ℤ
unfolding day_number ◌-ℤ◌
days_between a b = pos (day_number b) -ℤ pos (day_number a)

-- `a.After(b)`
unfoldable pub after : Time → Time → Bool
unfolding day_number
after a b =
    if day_number a == day_number b then ltb b.clock a.clock else ltb (day_number b) (day_number a)

pub record IsDate (t : Time) : Type 0 where
  pub month_from_1 : 1 ≤ t.month
  pub month_to_12 : t.month ≤ 12
  pub day_from_1 : 1 ≤ t.day
  pub day_in_month : t.day ≤ days_in t.year t.month

pub days_in_bounds : (y m : ℕ) → (28 ≤ days_in y m) × (days_in y m ≤ 31)
unfolding days_in
days_in_bounds y m = ground arith

leap_day : days_in 2024 2 ≡ 29
unfolding days_in
leap_day = refl

century : days_in 1900 2 ≡ 28
unfolding days_in
century = refl

new_year :
    days_between
      (record { year = 2023; month = 12; day = 31; clock = 5 })
      (record { year = 2024; month = 3; day = 1; clock = 0 })
    ≡ pos 61
unfolding days_between
new_year = refl
