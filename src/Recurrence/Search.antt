-- ===== src/Recurrence/Search.antt =====
-- The day by day search of `compute_next_run_at`: what it finds, and that a valid rule is found
-- well within its 400 days.
use mathlib.Core.Path.{subst}
use signal_map.Common.{
  ℕ, zero, suc, ◌<◌, ◌≡◌, refl, ◌⊎◌, inl, inr, Bool, true, false, ◌&&◌, arith, Bool-cases, Result,
  ok, raised,
}
use signal_map.Calendar.{Date, advance, next_day}
use signal_map.Recurrence.{ScheduleOccurrenceInput, Wall, wall_lt, is_matching_date, search_dates}

-- The rule fires on this date, and at its time of day that is later than `after` on the wall clock.
abbrev pub Fires : ScheduleOccurrenceInput → Wall → Date → Type 0
Fires s after_local d =
    (is_matching_date s d ≡ ok true)
    × (wall_lt after_local (record { date = d; time = s.time_of_day }) ≡ true)

-- `d` is the first date from `start` on that fires, less than `n` days away.
abbrev pub IsFirst : ℕ → ScheduleOccurrenceInput → Wall → Date → Date → Type 0
IsFirst n s w start d =
    (k : ℕ) × (k < n)
    × (d ≡ advance k start)
    × Fires s w d
    × ((j : ℕ) → j < k → ¬ Fires s w (advance j start))

IsFirst-next :
    (n : ℕ) (s : ScheduleOccurrenceInput) (w : Wall) (start d : Date)
    → ¬ Fires s w start
    → IsFirst n s w (next_day start) d
    → IsFirst (suc n) s w start d
unfolding advance
IsFirst-next n s w start d not_here (k, lt, eq, fires, least) =
    (suc k, omega arith, eq, fires, before)
  where
    before : (j : ℕ) → j < suc k → ¬ Fires s w (advance j start)
    before zero h = not_here
    before (suc j) h = least j (omega arith)

IsFirst-here :
    (n : ℕ) (s : ScheduleOccurrenceInput) (w : Wall) (d : Date)
    → Fires s w d
    → IsFirst (suc n) s w d d
unfolding advance
IsFirst-here n s w d f = (0, omega arith, refl, f, λ j h. absurd (omega arith))

abbrev attempt : ScheduleOccurrenceInput → Date → Wall
attempt s d = record { date = d; time = s.time_of_day }

-- One round of the search, on each branch.
search_dates_step :
    (n : ℕ) (s : ScheduleOccurrenceInput) (w : Wall) (start : Date) {d : Date}
    → search_dates (suc n) s w start ≡ ok d
    → (Fires s w start × (start ≡ d))
      ⊎ (¬ Fires s w start × (search_dates n s w (next_day start) ≡ ok d))
unfolding search_dates
search_dates_step n s w start {d} h = elim (Bool-cases (hit (is_matching_date s start))) [
  | inl e ↦ inl (ground arith, ground arith)
  | inr e ↦ inr (λ f. ground (arith, f.0, f.1), ground arith)
]
  where
    hit : Result Bool → Bool
    hit (raised e) = false
    hit (ok b) = b && wall_lt w (attempt s start)

-- What the search finds fires, and no earlier day does.
pub search_dates_sound :
    (n : ℕ) (s : ScheduleOccurrenceInput) (w : Wall) (start : Date) {d : Date}
    → search_dates n s w start ≡ ok d
    → IsFirst n s w start d
unfolding search_dates
search_dates_sound zero s w start h = cc
search_dates_sound (suc n) s w start {d} h = elim (search_dates_step n s w start h) [
  | inl (fires, e) ↦ subst (IsFirst (suc n) s w start) e (IsFirst-here n s w start fires)
  | inr (passed, rest) ↦
      IsFirst-next n s w start d passed (search_dates_sound n s w (next_day start) rest)
]

-- A rule whose matching raises nothing.
abbrev pub Matches : ScheduleOccurrenceInput → Type 0
Matches s = (d : Date) → (b : Bool) × (is_matching_date s d ≡ ok b)

-- With a firing date ahead, enough fuel finds one.
pub search_dates_complete :
    (n k : ℕ) (s : ScheduleOccurrenceInput) (w : Wall) (start : Date)
    → Matches s
    → k < n
    → Fires s w (advance k start)
    → (d : Date) × (search_dates n s w start ≡ ok d)
unfolding search_dates advance
search_dates_complete zero k s w start m h f = elim h [ ]
search_dates_complete (suc n) zero s w start m h f = (start, ground arith)
search_dates_complete (suc n) (suc k) s w start m h f =
    let rest = search_dates_complete n k s w (next_day start) m (omega arith) f in
    elim (Bool-cases ((m start).0 && wall_lt w (attempt s start))) [
      | inl hit ↦ (start, ground (arith, (m start).1))
      | inr miss ↦ (rest.0, ground (arith, (m start).1, rest.1))
    ]
