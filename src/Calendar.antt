-- ===== src/Calendar.antt =====
-- The parts of Python's `datetime.date` and `calendar` that app/services/scheduling.py uses: the
-- proleptic Gregorian calendar. Years are unbounded (Python's end at 9999).
pub mod Ordinal
pub mod Months
use signal_map.Common.{
  ℕ, zero, suc, ◌+◌, ◌-◌, ◌*◌, ◌/◌, ◌%◌, ◌≤◌, min, Bool, not, ◌&&◌, ◌||◌, ltb, ◌==◌, if◌then◌else◌,
}

pub record Date : Type 0 where
  pub year : ℕ
  pub month : ℕ
  pub day : ℕ

unfoldable pub is_leap : ℕ → Bool
is_leap y = (y % 4 == 0) && (not (y % 100 == 0) || (y % 400 == 0))

-- calendar.monthrange(year, month)[1]
unfoldable pub days_in_month : ℕ → ℕ → ℕ
days_in_month y m =
    if m == 2
    then (if is_leap y then 29 else 28)
    else if (m == 4) || ((m == 6) || ((m == 9) || (m == 11)))
    then 30
    else 31

pub record IsDate (d : Date) : Type 0 where
  pub year_pos : 1 ≤ d.year
  pub month_pos : 1 ≤ d.month
  pub month_le : d.month ≤ 12
  pub day_pos : 1 ≤ d.day
  pub day_le : d.day ≤ days_in_month d.year d.month

-- d + timedelta(days=1)
unfoldable pub next_day : Date → Date
next_day d =
    if ltb d.day (days_in_month d.year d.month)
    then record d { day = d.day + 1 }
    else if ltb d.month 12
    then record { year = d.year; month = d.month + 1; day = 1 }
    else record { year = d.year + 1; month = 1; day = 1 }

-- d + timedelta(days=n)
unfoldable pub advance : ℕ → Date → Date
advance zero d = d
advance (suc n) d = advance n (next_day d)

days_before_year : ℕ → ℕ
days_before_year y = (y - 1) * 365 + (y - 1) / 4 - (y - 1) / 100 + (y - 1) / 400

days_before_month : ℕ → ℕ → ℕ
days_before_month y zero = 0
days_before_month y (suc zero) = 0
days_before_month y (suc (suc m)) = days_before_month y (suc m) + days_in_month y (suc m)

-- d.toordinal()
unfoldable pub ordinal : Date → ℕ
unfolding days_before_year days_before_month
ordinal d = days_before_year d.year + days_before_month d.year d.month + d.day

-- d.isoweekday(): Monday is 1 and Sunday is 7
unfoldable pub isoweekday : Date → ℕ
isoweekday d = if ordinal d % 7 == 0 then 7 else ordinal d % 7

-- `start` plus a whole number of months, the day clamped to the month it lands in
unfoldable pub add_months : Date → ℕ → Date
add_months start months =
    let month_index = start.month - 1 + months in
    let year = start.year + month_index / 12 in
    let month = month_index % 12 + 1 in
    record { year = year; month = month; day = min start.day (days_in_month year month) }
