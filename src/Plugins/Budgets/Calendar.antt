-- ===== src/Plugins/Budgets/Calendar.antt =====
-- `daysInCurrentMonth` of plugins/budgets/plugin.go. A date is a year, a month from 1 to 12 and a day
-- from 1; `time.Date` takes any month and day 0, and normalises them.
use fin_guard.Prelude.{
  ℕ, ◌+◌, ◌-◌, ◌/◌, ◌%◌, ◌≤◌, ◌≡◌, Bool, not, ◌&&◌, ◌||◌, if◌then◌else◌, nat_eq, arith,
}

abbrev pub is_leap : ℕ → Bool
is_leap y = nat_eq (y % 4) 0 && (not (nat_eq (y % 100) 0) || nat_eq (y % 400) 0)

-- The days of the month, from 1 to 12.
unfoldable pub month_length : ℕ → ℕ → ℕ
month_length y m =
    if nat_eq m 2
    then (if is_leap y then 29 else 28)
    else if nat_eq m 4 || nat_eq m 6 || nat_eq m 9 || nat_eq m 11
    then 30
    else 31

-- The year and the month that `time.Date` makes of a month from 1 on.
abbrev pub normalised : ℕ → ℕ → ℕ × ℕ
normalised y m = (y + (m - 1) / 12, (m - 1) % 12 + 1)

-- The last day of the month before.
abbrev pub day_before : ℕ × ℕ → ℕ
day_before (y, m) = if nat_eq m 1 then month_length (y - 1) 12 else month_length y (m - 1)

-- `time.Date(y, m+1, 0, …).Day()`
unfoldable pub days_in_current_month : ℕ → ℕ → ℕ
days_in_current_month y m = day_before (normalised y (m + 1))

pub record IsDate (y m d : ℕ) : Type 0 where
  pub month_low : 1 ≤ m
  pub month_high : m ≤ 12
  pub day_low : 1 ≤ d
  pub day_high : d ≤ month_length y m

days_in_current_month_lem :
    (y m : ℕ) → 1 ≤ m → m ≤ 12 → days_in_current_month y m ≡ month_length y m
unfolding days_in_current_month month_length
days_in_current_month_lem y m h k = ground arith

-- On a date of the calendar, the day of the month is at least 1 and at most the number of days that
-- the check divides it by, and that number is 28 to 31.
pub days_in_current_month_bounds :
    (y m d : ℕ)
    → IsDate y m d
    → (1 ≤ d)
      × (d ≤ days_in_current_month y m)
      × (28 ≤ days_in_current_month y m)
      × (days_in_current_month y m ≤ 31)
unfolding month_length
days_in_current_month_bounds y m d h =
    let e = days_in_current_month_lem y m h.month_low h.month_high in
    rw e (h.day_low, h.day_high, ground arith, ground arith)
