-- ===== src/Calendar/Ordinal.antt =====
-- A day later is one ordinal later, and stays a date: so dates are compared by their ordinals.
use native.Mathlib.Numerals.{add-one}
use native.Mathlib.Nat.{zero-add, suc-add}
use signal_map.Common.{
  ℕ, zero, suc, ◌+◌, ◌-◌, ◌%◌, ◌≤◌, ◌<◌, ◌≡◌, refl, inl, inr, false, arith, if◌then◌else◌, ltb,
  Bool-cases, ltb-false→le,
}
use signal_map.Calendar.{
  Date, IsDate, is_leap, days_in_month, next_day, advance, days_before_year, days_before_month,
  ordinal, isoweekday,
}

pub days_in_month_bounds : (y m : ℕ) → (28 ≤ days_in_month y m) × (days_in_month y m ≤ 31)
unfolding days_in_month
days_in_month_bounds y m = ground arith

pub next_day-IsDate : (d : Date) → IsDate d → IsDate (next_day d)
unfolding next_day
next_day-IsDate d v =
    ground (arith, days_in_month_bounds d.year (d.month + 1), days_in_month_bounds (d.year + 1) 1)

leap_days : ℕ → ℕ
leap_days y = if is_leap y then 1 else 0

days_before_month_step :
    (y m : ℕ) → 1 ≤ m → days_before_month y (m + 1) ≡ days_before_month y m + days_in_month y m
unfolding days_before_month
days_before_month_step y zero h = elim h [ ]
days_before_month_step y (suc m) h = rw add-one refl

days_before_year_step :
    (y : ℕ) → 1 ≤ y → days_before_year (y + 1) ≡ days_before_year y + 365 + leap_days y
unfolding days_before_year leap_days is_leap
days_before_year_step y h = ground arith

year_length : (y : ℕ) → days_before_month y 12 + days_in_month y 12 ≡ 365 + leap_days y
unfolding days_before_month days_in_month leap_days
year_length y = ground arith

year_end : (y m : ℕ) → m ≡ 12 → days_before_month y m + days_in_month y m ≡ 365 + leap_days y
year_end y m e = rw e (year_length y)

first_month : (y : ℕ) → days_before_month y 1 ≡ 0
unfolding days_before_month
first_month y = refl

-- The day after a date has the next ordinal: `next_day` is `+ timedelta(days=1)`.
pub ordinal-next_day : (d : Date) → IsDate d → ordinal (next_day d) ≡ ordinal d + 1
unfolding ordinal next_day
ordinal-next_day d v = elim (Bool-cases (ltb d.day (days_in_month d.year d.month))) [
  | inl before ↦ rw before (omega arith)
  | inr last ↦ rw last (elim (Bool-cases (ltb d.month 12)) [
    | inl earlier ↦ rw earlier (
        omega (
          arith,
          ltb-false→le _ _ last,
          days_before_month_step d.year d.month v.month_pos,
          v.day_le,
        ))
    | inr december ↦ rw december (
        omega (
          arith,
          ltb-false→le _ _ last,
          first_month (d.year + 1),
          v.day_le,
          days_before_year_step d.year v.year_pos,
          year_end d.year d.month (month_twelve december),
        ))
  ])
]
  where
    month_twelve : ltb d.month 12 ≡ false → d.month ≡ 12
    month_twelve h = omega (arith, ltb-false→le _ _ h, v.month_le)

pub advance-IsDate : (n : ℕ) (d : Date) → IsDate d → IsDate (advance n d)
unfolding advance
advance-IsDate zero d v = v
advance-IsDate (suc n) d v = advance-IsDate n (next_day d) (next_day-IsDate d v)

pub ordinal-advance : (n : ℕ) (d : Date) → IsDate d → ordinal (advance n d) ≡ ordinal d + n
unfolding advance
ordinal-advance zero d v = omega arith
ordinal-advance (suc n) d v =
    omega (arith, ordinal-next_day d v, ordinal-advance n (next_day d) (next_day-IsDate d v))

pub advance-advance : (m n : ℕ) (d : Date) → advance n (advance m d) ≡ advance (m + n) d
unfolding advance
advance-advance zero n d = rw zero-add
advance-advance (suc m) n d = rw suc-add (advance-advance m n (next_day d))

-- Every weekday comes within a week.
pub weekday_within_week :
    (d : Date) (w : ℕ)
    → IsDate d
    → 1 ≤ w
    → w ≤ 7
    → (k : ℕ) × (k < 7) × (isoweekday (advance k d) ≡ w)
unfolding isoweekday
weekday_within_week d w v lo hi = (wait, omega arith, ground (arith, ordinal-advance wait d v))
  where
    wait : ℕ
    wait = (w + 7 - ordinal d % 7) % 7
