-- ===== src/Recurrence/Rule.antt =====
-- Valid rules: what the schedule form lets through, and that such a rule fires within 62 days.

use signal_map.Common.{
  ℕ, suc, ◌≤◌, ◌<◌, ◌≡◌, refl, inl, inr, Bool, true, Option, none, some, List, [], ◌∷◌, arith, any,
  ◌==◌, In, ok,
}
use signal_map.Calendar.{Date, IsDate, advance, next_day, ordinal, isoweekday}
use signal_map.Calendar.Ordinal.{
  next_day-IsDate, ordinal-next_day, ordinal-advance, weekday_within_week,
}
use signal_map.Calendar.Months.{clamped_within_months}
use signal_map.Recurrence.{
  Frequency, daily, weekly, monthly, other_frequency, ScheduleOccurrenceInput, Wall, wall_lt,
  later_date, is_matching_date,
}
use signal_map.Recurrence.Search.{Fires, Matches}

-- Weekly rules name an ISO weekday, monthly ones a day of the month.
abbrev pub HasDays : Frequency → Option (List ℕ) → Option ℕ → Type 0
HasDays daily days n = Unit
HasDays weekly none n = ⊥
HasDays weekly (some days) n = (w : ℕ) × In w days × (1 ≤ w) × (w ≤ 7)
HasDays monthly days none = ⊥
HasDays monthly days (some n) = 1 ≤ n
HasDays other_frequency days n = ⊥

abbrev pub IsRule : ScheduleOccurrenceInput → Type 0
IsRule s = HasDays s.frequency s.days_of_week s.day_of_month

any_of_In : (p : ℕ → Bool) (w : ℕ) (xs : List ℕ) → In w xs → p w ≡ true → any p xs ≡ true
any_of_In p w [] m h = absurd m
any_of_In p w (x ∷ xs) (inl e) h = rw (← e, h)
any_of_In p w (x ∷ xs) (inr m) h = ground (arith, any_of_In p w xs m h)

-- The fields of a rule, so that a proof can split on them.
abbrev with_days :
    ScheduleOccurrenceInput → Frequency → Option (List ℕ) → Option ℕ → ScheduleOccurrenceInput
with_days s f days n = record s { frequency = f; days_of_week = days; day_of_month = n }

Matches-of :
    (s : ScheduleOccurrenceInput) (f : Frequency) (days : Option (List ℕ)) (n : Option ℕ)
    → HasDays f days n
    → Matches (with_days s f days n)
unfolding is_matching_date
Matches-of s daily days n h d = (true, refl)
Matches-of s weekly none n h d = absurd h
Matches-of s weekly (some days) n h d = (any (λ w. isoweekday d == w) days, refl)
Matches-of s monthly days none h d = absurd h
Matches-of s monthly days (some n) h d = (_, refl)
Matches-of s other_frequency days n h d = absurd h

-- Matching raises nothing for a valid rule.
pub IsRule-Matches : (s : ScheduleOccurrenceInput) → IsRule s → Matches s
IsRule-Matches s h = Matches-of s s.frequency s.days_of_week s.day_of_month h

match_of :
    (s : ScheduleOccurrenceInput) (f : Frequency) (days : Option (List ℕ)) (n : Option ℕ) (d : Date)
    → HasDays f days n
    → IsDate d
    → (k : ℕ) × (k ≤ 61) × (is_matching_date (with_days s f days n) (advance k d) ≡ ok true)
unfolding is_matching_date
match_of s daily days n d h v = (0, omega arith, refl)
match_of s weekly none n d h v = absurd h
match_of s weekly (some days) n d (w, m, lo, hi) v =
    let (k, lt, e) = weekday_within_week d w v lo hi in
    (
      k,
      omega arith,
      rw (any_of_In (λ w. isoweekday (advance k d) == w) w days m (ground (arith, e))),
    )
match_of s monthly days none d h v = absurd h
match_of s monthly days (some n) d h v =
    let (k, le, e) = clamped_within_months d n v h in (k, le, ground (arith, e))
match_of s other_frequency days n d h v = absurd h

-- A valid rule matches within 61 days of any date.
pub match_within :
    (s : ScheduleOccurrenceInput) (d : Date)
    → IsRule s
    → IsDate d
    → (k : ℕ) × (k ≤ 61) × (is_matching_date s (advance k d) ≡ ok true)
match_within s d h v = match_of s s.frequency s.days_of_week s.day_of_month d h v

pub wall_lt_of_date : (a b : Wall) → ordinal a.date < ordinal b.date → wall_lt a b ≡ true
unfolding wall_lt
wall_lt_of_date a b h = ground arith

pub later_date_bounds :
    (a b : Date) → (ordinal a ≤ ordinal (later_date a b)) × (ordinal b ≤ ordinal (later_date a b))
unfolding later_date
later_date_bounds a b = ground arith

pub later_date-IsDate : (a b : Date) → IsDate a → IsDate b → IsDate (later_date a b)
unfolding later_date
later_date-IsDate a b va vb = ground arith

-- It fires within 62 days of any date that is not before the local date of `after`.
pub Fires-within :
    (s : ScheduleOccurrenceInput) (w : Wall) (start : Date)
    → IsRule s
    → IsDate start
    → ordinal w.date ≤ ordinal start
    → (k : ℕ) × (k ≤ 62) × Fires s w (advance k start)
unfolding advance
Fires-within s w start h v le =
    let (k, bound, matched) = match_within s (next_day start) h (next_day-IsDate start v) in
    let tomorrow : IsDate (next_day start) = next_day-IsDate start v in
    (
      suc k,
      omega arith,
      (
        matched,
        wall_lt_of_date w _
            (omega (arith, ordinal-next_day start v, ordinal-advance k (next_day start) tomorrow)),
      ),
    )
