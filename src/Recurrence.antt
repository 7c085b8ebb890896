-- ===== src/Recurrence.antt =====
-- app/services/scheduling.py: the next occurrence of a schedule's rule. A UTC instant is a number
-- of microseconds; `ZoneInfo` is a parameter, since the time zone data is not in the repository.
-- `OverflowError` at the ends of Python's calendar is not modelled.
pub mod Search
pub mod Rule
pub mod Next
pub mod Upcoming
pub mod Examples
use signal_map.Common.{
  ℕ, zero, suc, ◌+◌, ◌*◌, String, Bool, true, false, ◌&&◌, not, Option, none, some, List, [], ◌∷◌,
  ◌++◌, ltb, leb, ◌==◌, if◌then◌else◌, length, any, min, Result, ok, raised, value_error,
  type_error, runtime_error, ◌>>=◌,
}
use signal_map.Calendar.{Date, days_in_month, next_day, advance, ordinal, isoweekday, add_months}

pub data Frequency : Type 0 where
  daily weekly monthly other_frequency : Frequency

pub record ScheduleOccurrenceInput : Type 0 where
  pub frequency : Frequency
  pub days_of_week : Option (List ℕ)
  pub day_of_month : Option ℕ
  pub time_of_day : ℕ
  pub timezone : String
  pub starts_on : Date
  pub ends_on : Option Date
  pub max_occurrences : Option ℕ
  pub occurrences_count : ℕ

-- A naive local date and time of day; two datetimes of one zone compare as such a pair.
pub record Wall : Type 0 where
  pub date : Date
  pub time : ℕ

-- A time zone: `astimezone` of a UTC instant, and the instant of a wall clock time at `fold=0`.
pub record Zone : Type 0 where
  pub to_local : ℕ → Wall
  pub from_local : Wall → ℕ

unfoldable pub date_lt : Date → Date → Bool
date_lt a b = ltb (ordinal a) (ordinal b)

unfoldable pub wall_lt : Wall → Wall → Bool
unfolding date_lt
wall_lt a b =
    if date_lt a.date b.date
    then true
    else if date_lt b.date a.date
    then false
    else ltb a.time b.time

-- `_is_matching_date`; `in None` and `min(None, …)` raise `TypeError`
unfoldable pub is_matching_date : ScheduleOccurrenceInput → Date → Result Bool
is_matching_date s candidate = elim s.frequency [
  | daily ↦ ok true
  | weekly ↦ elim s.days_of_week [
    | none ↦ raised type_error
    | some days ↦ ok (any (λ w. isoweekday candidate == w) days)
  ]
  | monthly ↦ elim s.day_of_month [
    | none ↦ raised type_error
    | some n ↦ ok (candidate.day == min n (days_in_month candidate.year candidate.month))
  ]
  | other_frequency ↦ raised value_error
]

-- the loop over `range(_MAX_SEARCH_DAYS)`, and its `else: raise RuntimeError`
unfoldable pub search_dates : ℕ → ScheduleOccurrenceInput → Wall → Date → Result Date
search_dates zero s after_local candidate = raised runtime_error
search_dates (suc n) s after_local candidate =
    let rest = search_dates n s after_local (next_day candidate) in
    elim (is_matching_date s candidate) [
      | raised e ↦ raised e
      | ok hit ↦
          if hit && wall_lt after_local (record { date = candidate; time = s.time_of_day })
          then ok candidate
          else rest
    ]

abbrev pub max_search_days : ℕ
max_search_days = 400

unfoldable pub later_date : Date → Date → Date
unfolding date_lt
later_date a b = if date_lt a b then b else a

-- `occurrences_count >= max_occurrences`
unfoldable pub is_exhausted : ScheduleOccurrenceInput → Bool
is_exhausted s = elim s.max_occurrences [ none ↦ false | some m ↦ leb m s.occurrences_count ]

-- `candidate_date > ends_on`
unfoldable pub is_past_end : ScheduleOccurrenceInput → Date → Bool
unfolding date_lt
is_past_end s candidate = elim s.ends_on [ none ↦ false | some e ↦ date_lt e candidate ]

-- what `compute_next_run_at` returns for the date that the search found
unfoldable pub finish : Zone → ScheduleOccurrenceInput → Date → Option ℕ
unfolding is_exhausted is_past_end
finish tz s candidate =
    if is_exhausted s
    then none
    else if is_past_end s candidate
    then none
    else some (tz.from_local (record { date = candidate; time = s.time_of_day }))

unfoldable pub compute_next_run_at :
    (String → Zone) → ScheduleOccurrenceInput → ℕ → Result (Option ℕ)
unfolding finish later_date
compute_next_run_at zone_info s after =
    let tz = zone_info s.timezone in
    let after_local = tz.to_local after in
    do
      found ← search_dates max_search_days s after_local (later_date after_local.date s.starts_on)
      ok (finish tz s found)

-- `max_end_date`
unfoldable pub max_end_date : Frequency → Date → Result Date
max_end_date daily starts_on = ok (advance 30 starts_on)
max_end_date weekly starts_on = ok (add_months starts_on 6)
max_end_date monthly starts_on = ok (add_months starts_on 12)
max_end_date other_frequency starts_on = raised value_error

abbrev pub max_simulated_occurrences : ℕ
max_simulated_occurrences = 2000

-- the loop of `upcoming_occurrences`
unfoldable pub simulate :
    (String → Zone)
    → ScheduleOccurrenceInput
    → ℕ
    → ℕ
    → ℕ
    → ℕ
    → List ℕ
    → ℕ
    → Result (List ℕ × Option ℕ)
simulate zones s preview_count zero occurrences_count cursor upcoming total = ok (upcoming, none)
simulate zones s preview_count (suc n) occurrences_count cursor upcoming total =
    elim (compute_next_run_at zones (record s { occurrences_count = occurrences_count }) cursor) [
      | raised e ↦ raised e
      | ok none ↦ ok (upcoming, some total)
      | ok (some next_at) ↦
          simulate zones s preview_count n (occurrences_count + 1) next_at
            (if ltb (length upcoming) preview_count then upcoming ++ (next_at ∷ []) else upcoming)
            (total + 1)
    ]

unfoldable pub upcoming_occurrences :
    (String → Zone) → ScheduleOccurrenceInput → ℕ → ℕ → Result (List ℕ × Option ℕ)
unfolding simulate
upcoming_occurrences zones s after preview_count =
    simulate zones s preview_count max_simulated_occurrences s.occurrences_count after [] 0
