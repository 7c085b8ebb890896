-- ===== src/Recurrence/Examples.antt =====
-- Tests and instances for app/services/scheduling.py, in a zone with no offset: days count from
-- 2026-01-01, which is a Thursday.
use signal_map.Common.{
  take, ℕ, ◌+◌, ◌*◌, ◌/◌, ◌%◌, ◌<◌, ◌-◌, ◌≡◌, refl, String, true, none, some, List, arith, ok,
  length, if◌then◌else◌,
}
use signal_map.Calendar.{
  Date, IsDate, advance, ordinal, isoweekday, days_in_month, add_months, next_day, is_leap,
}
use signal_map.Calendar.Ordinal.{advance-IsDate, ordinal-advance}
use signal_map.Calendar.Months.{add_months-IsDate}
use signal_map.Recurrence.{
  monthly, ScheduleOccurrenceInput, Zone, Wall, wall_lt, compute_next_run_at, upcoming_occurrences,
  search_dates, is_matching_date, is_exhausted, is_past_end,
}
use signal_map.Recurrence.Search.{IsFirst}
use signal_map.Recurrence.Next.{compute_next_run_at-IsFirst, compute_next_run_at-after, first_day}
use signal_map.Recurrence.Upcoming.{Follows, upcoming_occurrences-counts}

abbrev pub day0 : Date
day0 = record { year = 2026; month = 1; day = 1 }

abbrev jan31 : Date
jan31 = record { year = 2026; month = 1; day = 31 }

pub day0-IsDate : IsDate day0
unfolding days_in_month
day0-IsDate = omega arith

jan31-IsDate : IsDate jan31
unfolding days_in_month
jan31-IsDate = omega arith

thursday : isoweekday day0 ≡ 4
unfolding isoweekday ordinal days_in_month is_leap
thursday = refl

clamps : add_months jan31 1 ≡ record { year = 2026; month = 2; day = 28 }
unfolding add_months days_in_month is_leap
clamps = refl

-- instants are microseconds; the zone's wall clock is that of UTC
abbrev pub day_length : ℕ
day_length = 86400000000

abbrev pub utc : Zone
utc = record {
  to_local = λ a. record { date = advance (a / 86400000000) day0; time = a % 86400000000 };
  from_local = λ w. (ordinal w.date - ordinal day0) * 86400000000 + w.time;
}

abbrev pub zones : String → Zone
zones name = utc

-- at six on the 31st, or the last day, of each month, twice
abbrev month_end : ScheduleOccurrenceInput
month_end = record {
  frequency = monthly;
  days_of_week = none;
  day_of_month = some 31;
  time_of_day = 21600000000;
  timezone = "UTC";
  starts_on = day0;
  ends_on = none;
  max_occurrences = some 2;
  occurrences_count = 0;
}

first_at_month_end :
    compute_next_run_at zones month_end 0 ≡ ok (some (30 * day_length + 21600000000))
unfolding compute_next_run_at search_dates is_matching_date wall_lt ordinal days_in_month is_leap
    next_day advance is_exhausted is_past_end
first_at_month_end = refl

pub utc_dates : (a : ℕ) → IsDate (utc.to_local a).date
utc_dates a = advance-IsDate (a / 86400000000) day0 day0-IsDate

compute_next_run_at-IsFirst_example :
    (d : Date) × IsFirst 63 month_end (utc.to_local 0) (first_day zones month_end 0) d
    × (compute_next_run_at zones month_end 0
        ≡ ok (
            if is_exhausted month_end
            then none
            else if is_past_end month_end d
            then none
            else some (utc.from_local (record { date = d; time = 21600000000 }))))
compute_next_run_at-IsFirst_example =
    compute_next_run_at-IsFirst zones month_end 0 (omega arith) day0-IsDate (utc_dates 0)

upcoming_occurrences-counts_example :
    (ts : List ℕ) × Follows zones month_end 0 0 ts
    × (length ts ≡ 2)
    × (upcoming_occurrences zones month_end 0 5 ≡ ok (take 5 ts, some 2))
upcoming_occurrences-counts_example =
    upcoming_occurrences-counts zones month_end 2 (omega arith) day0-IsDate utc_dates refl refl 0 5
      (omega arith)

add_months-IsDate_example :
    IsDate (add_months jan31 1)
    × ((add_months jan31 1).year * 12 + (add_months jan31 1).month ≡ 2026 * 12 + 1 + 1)
add_months-IsDate_example = add_months-IsDate jan31 1 jan31-IsDate

pub utc_forward : (a : ℕ) (w : Wall) → wall_lt (utc.to_local a) w ≡ true → a < utc.from_local w
unfolding wall_lt
utc_forward a w h = ground (arith, h, ordinal-advance (a / 86400000000) day0 day0-IsDate)

compute_next_run_at-after_example : 0 < 30 * day_length + 21600000000
compute_next_run_at-after_example =
    compute_next_run_at-after zones month_end 0 (30 * day_length + 21600000000) utc_forward
      first_at_month_end
