-- ===== src/Calendar/Months.antt =====
-- Months: every day of a month comes within 31 days of any date, clamped to the month's length,
-- and adding months lands on a date of the right month.
use native.Mathlib.Decide.{dec_le}
use signal_map.Common.{ℕ, zero, suc, ◌+◌, ◌-◌, ◌*◌, ◌≤◌, ◌≡◌, refl, true, arith, ltb, min}
use signal_map.Calendar.{Date, IsDate, days_in_month, next_day, advance, add_months}
use signal_map.Calendar.Ordinal.{days_in_month_bounds, advance-advance}

-- the day of the month that a monthly rule fires on: `min(day_of_month, last day)`
abbrev pub clamped : ℕ → Date → ℕ
clamped n d = min n (days_in_month d.year d.month)

-- Within a month, the date moves day by day.
advance_in_month :
    (n : ℕ) (d : Date)
    → d.day + n ≤ days_in_month d.year d.month
    → advance n d ≡ record d { day = d.day + n }
unfolding advance next_day
advance_in_month zero d h = ground arith
advance_in_month (suc n) d h =
    rw before (ground (arith, advance_in_month n (record d { day = d.day + 1 })))
  where
    before : ltb d.day (days_in_month d.year d.month) ≡ true
    before = ground arith

first_of_next : (d : Date) → d.day ≡ days_in_month d.year d.month → (next_day d).day ≡ 1
unfolding next_day
first_of_next d h = ground arith

advance-suc : (n : ℕ) (d : Date) → advance (suc n) d ≡ next_day (advance n d)
unfolding advance
advance-suc zero d = refl
advance-suc (suc n) d = advance-suc n (next_day d)

-- In a month whose clamped day is still ahead, it comes by counting the days.
clamped_ahead :
    (d : Date) (n : ℕ)
    → d.day ≤ clamped n d
    → (advance (clamped n d - d.day) d).day ≡ clamped n (advance (clamped n d - d.day) d)
clamped_ahead d n h = rw (advance_in_month (clamped n d - d.day) d (omega arith)) (omega arith)

-- From the last day of a month the next day is the first.
to_month_end : Date → ℕ
to_month_end d = suc (days_in_month d.year d.month - d.day)

next_month_first :
    (d : Date) → d.day ≤ days_in_month d.year d.month → (advance (to_month_end d) d).day ≡ 1
unfolding to_month_end
next_month_first d h =
    rw (advance-suc, advance_in_month (days_in_month d.year d.month - d.day) d (omega arith))
      (first_of_next _ (omega arith))

-- The clamped day of some month comes within 61 days.
pub clamped_within_months :
    (d : Date) (n : ℕ)
    → IsDate d
    → 1 ≤ n
    → (k : ℕ) × (k ≤ 61) × ((advance k d).day ≡ clamped n (advance k d))
clamped_within_months d n v h = elim (dec_le d.day (clamped n d)) [
  | yes ahead ↦ (
    clamped n d - d.day,
    omega (arith, days_in_month_bounds d.year d.month),
    clamped_ahead d n ahead,
  )
  | no passed ↦
      let e = advance (to_month_end d) d in
      let first = next_month_first d v.day_le in
      (
        to_month_end d + (clamped n e - e.day),
        unfold to_month_end in
            omega (
              arith,
              days_in_month_bounds d.year d.month,
              days_in_month_bounds e.year e.month,
              v.day_pos,
              first,
            ),
        rw (← advance-advance (to_month_end d) (clamped n e - e.day) d)
            (clamped_ahead e n (omega (arith, first, days_in_month_bounds e.year e.month))),
      )
]

-- The result of adding months is a date, and lies exactly that many months later.
pub add_months-IsDate :
    (d : Date) (m : ℕ)
    → IsDate d
    → IsDate (add_months d m)
      × ((add_months d m).year * 12 + (add_months d m).month ≡ d.year * 12 + d.month + m)
unfolding add_months
add_months-IsDate d m v = omega (arith, v, days_in_month_bounds)
