-- ===== src/Recurrence/Next.antt =====
-- `compute_next_run_at`: what it returns for a valid rule, and when that is later than `after`.
use native.Mathlib.Decide.{dec_lt}
use signal_map.Common.{
  ℕ, suc, ◌≤◌, ◌<◌, ◌≡◌, refl, true, none, some, String, arith, if◌then◌else◌, ok, >>=-eq-ok,
}
use signal_map.Calendar.{Date, IsDate, advance, ordinal}
use signal_map.Recurrence.{
  ScheduleOccurrenceInput, Wall, Zone, wall_lt, is_exhausted, is_past_end, search_dates, later_date,
  compute_next_run_at, max_search_days,
}
use signal_map.Recurrence.Search.{Fires, IsFirst, search_dates_sound, search_dates_complete}
use signal_map.Recurrence.Rule.{
  IsRule, IsRule-Matches, Fires-within, later_date_bounds, later_date-IsDate,
}

-- The earliest local date that the search looks at.
abbrev pub first_day : (String → Zone) → ScheduleOccurrenceInput → ℕ → Date
first_day zones s after = later_date ((zones s.timezone).to_local after).date s.starts_on

IsFirst-within :
    (n k : ℕ) (s : ScheduleOccurrenceInput) (w : Wall) (start d : Date)
    → Fires s w (advance k start)
    → IsFirst n s w start d
    → IsFirst (suc k) s w start d
IsFirst-within n k s w start d f (i, lt, e, fires, least) = elim (dec_lt k i) [
  | yes before ↦ absurd (least k before f)
  | no within ↦ (i, omega arith, e, fires, least)
]

IsFirst-widen :
    (m n : ℕ) (s : ScheduleOccurrenceInput) (w : Wall) (start d : Date)
    → m ≤ n
    → IsFirst m s w start d
    → IsFirst n s w start d
IsFirst-widen m n s w start d h (i, lt, e, fires, least) = (i, omega arith, e, fires, least)

-- The search finds the first firing date of a valid rule, at most 62 days ahead.
search_finds :
    (n : ℕ) (s : ScheduleOccurrenceInput) (w : Wall) (start : Date)
    → 62 < n
    → IsRule s
    → IsDate start
    → ordinal w.date ≤ ordinal start
    → (d : Date) × (search_dates n s w start ≡ ok d) × IsFirst 63 s w start d
search_finds n s w start big h v le =
    let (k, bound, fires) = Fires-within s w start h v le in
    let (d, e) = search_dates_complete n k s w start (IsRule-Matches s h) (omega arith) fires in
    (
      d,
      e,
      IsFirst-widen (suc k) 63 s w start d (omega arith)
          (IsFirst-within n k s w start d fires (search_dates_sound n s w start e)),
    )

-- For a valid rule the search never runs out of days: there is a first date from
-- max(local date of `after`, starts_on) on, at most 62 days ahead, that the rule matches and whose
-- time of day is later than `after` on the wall clock; the result is None if the rule is exhausted
-- or that date is past `ends_on`, and otherwise the instant of that date and time of day.
pub compute_next_run_at-IsFirst :
    (zones : String → Zone) (s : ScheduleOccurrenceInput) (after : ℕ)
    → IsRule s
    → IsDate s.starts_on
    → IsDate ((zones s.timezone).to_local after).date
    → (d : Date) × IsFirst 63 s ((zones s.timezone).to_local after) (first_day zones s after) d
      × (compute_next_run_at zones s after
          ≡ ok (
              if is_exhausted s
              then none
              else if is_past_end s d
              then none
              else some
                  ((zones s.timezone).from_local (record { date = d; time = s.time_of_day }))))
unfolding compute_next_run_at
compute_next_run_at-IsFirst zones s after h v vl =
    let w = (zones s.timezone).to_local after in
    let found =
      search_finds max_search_days s w (first_day zones s after) (omega arith) h
        (later_date-IsDate w.date s.starts_on vl v) (later_date_bounds w.date s.starts_on).0 in
    (found.0, found.2, rw found.1 refl)

-- In a zone where a later wall clock time is a later instant, the next run is strictly later than
-- `after`, for every rule.
pub compute_next_run_at-after :
    (zones : String → Zone) (s : ScheduleOccurrenceInput) (after t : ℕ)
    → ((a : ℕ) (w : Wall)
        → wall_lt ((zones s.timezone).to_local a) w ≡ true
        → a < (zones s.timezone).from_local w)
    → compute_next_run_at zones s after ≡ ok (some t)
    → after < t
unfolding compute_next_run_at
compute_next_run_at-after zones s after t law h =
    let w = (zones s.timezone).to_local after in
    let (d, e, last) = >>=-eq-ok (search_dates max_search_days s w (first_day zones s after)) _ h in
    let (k, lt, eq, fires, least) = search_dates_sound max_search_days s w _ e in
    ground (arith, law after (record { date = d; time = s.time_of_day }) fires.1, last)

-- A next run is given only while occurrences are left.
pub compute_next_run_at-count :
    (zones : String → Zone) (s : ScheduleOccurrenceInput) (after t m : ℕ)
    → compute_next_run_at zones s after ≡ ok (some t)
    → s.max_occurrences ≡ some m
    → s.occurrences_count < m
unfolding compute_next_run_at
compute_next_run_at-count zones s after t m h cap =
    let w = (zones s.timezone).to_local after in
    let (d, e, last) = >>=-eq-ok (search_dates max_search_days s w (first_day zones s after)) _ h in
    ground (arith, last, cap)
