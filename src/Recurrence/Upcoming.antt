-- ===== src/Recurrence/Upcoming.antt =====
-- `upcoming_occurrences`: the count through to a schedule's end, and `max_end_date`.
use signal_map.Common.{
  ℕ, zero, suc, ◌+◌, ◌-◌, ◌*◌, ◌≤◌, ◌<◌, ◌≡◌, refl, Option, none, some, String, List, [], ◌∷◌, ◌++◌,
  arith, if◌then◌else◌, ◌≢◌, sym, ap, ◌∙◌, Result, ok, length, length-append, take, ltb, Bool-cases,
  inl, inr,
}
use mathlib.Core.List.{append-nil, append_assoc}
use signal_map.Calendar.{Date, IsDate, advance, ordinal, add_months}
use signal_map.Calendar.Ordinal.{advance-IsDate, ordinal-advance}
use signal_map.Calendar.Months.{add_months-IsDate}
use signal_map.Recurrence.{
  Frequency, daily, weekly, monthly, other_frequency, ScheduleOccurrenceInput, Zone, is_exhausted,
  is_past_end, compute_next_run_at, simulate, upcoming_occurrences, max_simulated_occurrences,
  max_end_date,
}
use signal_map.Recurrence.Rule.{IsRule}
use signal_map.Recurrence.Next.{compute_next_run_at-IsFirst}

-- The instants from `cursor` and `c` occurrences on: each is the next run after the one before.
abbrev pub Follows : (String → Zone) → ScheduleOccurrenceInput → ℕ → ℕ → List ℕ → Type 0
Follows zones s c cursor [] = Unit
Follows zones s c cursor (t ∷ ts) =
    (compute_next_run_at zones (record s { occurrences_count = c }) cursor ≡ ok (some t))
    × Follows zones s (c + 1) t ts

nothing_more : (n : ℕ) (xs : List ℕ) → xs ≡ xs ++ take n []
nothing_more zero xs = sym (append-nil xs)
nothing_more (suc n) xs = sym (append-nil xs)

simulate_stops :
    (zones : String → Zone) (s : ScheduleOccurrenceInput) (preview n c cursor total : ℕ)
    (xs : List ℕ)
    → compute_next_run_at zones (record s { occurrences_count = c }) cursor ≡ ok none
    → simulate zones s preview (suc n) c cursor xs total ≡ ok (xs, some total)
unfolding simulate
simulate_stops zones s preview n c cursor total xs e = rw (simulate, e) refl

module _ (zones : String → Zone) (s : ScheduleOccurrenceInput) (m : ℕ) (rule : IsRule s)
    (start : IsDate s.starts_on) (dates : (a : ℕ) → IsDate ((zones s.timezone).to_local a).date)
    (open_end : s.ends_on ≡ none) (capped : s.max_occurrences ≡ some m) where
  abbrev at_count : ℕ → ScheduleOccurrenceInput
  at_count c = record s { occurrences_count = c }

  next_before_cap :
      (c cursor : ℕ)
      → c < m
      → (t : ℕ) × (compute_next_run_at zones (at_count c) cursor ≡ ok (some t))
  unfolding is_exhausted is_past_end
  next_before_cap c cursor h =
      let (d, first, e) =
        compute_next_run_at-IsFirst zones (at_count c) cursor rule start (dates cursor) in
      (
        (zones s.timezone).from_local (record { date = d; time = s.time_of_day }),
        ground (arith, e, capped, open_end),
      )

  next_at_cap : (c cursor : ℕ) → m ≤ c → compute_next_run_at zones (at_count c) cursor ≡ ok none
  unfolding is_exhausted
  next_at_cap c cursor h =
      let (d, first, e) =
        compute_next_run_at-IsFirst zones (at_count c) cursor rule start (dates cursor) in
      ground (arith, e, capped)

  abbrev Counts : Result (List ℕ × Option ℕ) → ℕ → ℕ → ℕ → ℕ → List ℕ → ℕ → Type 0
  Counts r total preview c cursor xs left =
      (ts : List ℕ) × Follows zones s c cursor ts
      × (length ts ≡ left)
      × (r ≡ ok (xs ++ take (preview - length xs) ts, some total))

  shown :
      (preview t : ℕ) (xs ts : List ℕ)
      → length xs ≤ preview
      → let ys = if ltb (length xs) preview then xs ++ (t ∷ []) else xs in
        ys ++ take (preview - length ys) ts ≡ xs ++ take (preview - length xs) (t ∷ ts)
  shown preview t xs ts fit = elim (Bool-cases (ltb (length xs) preview)) [
    | inl room ↦
        let one = length-append xs (t ∷ []) in
        let e : preview - length xs ≡ suc (preview - length (xs ++ (t ∷ []))) = ground arith in
        rw (room, e, append_assoc) refl
    | inr full ↦ let e : preview - length xs ≡ 0 = ground arith in rw (full, e) refl
  ]

  simulate-Counts :
      (n preview c cursor : ℕ) (xs : List ℕ) (total : ℕ)
      → m - c < n
      → length xs ≤ preview
      → Counts
          (simulate zones s preview n c cursor xs total)
          (total + (m - c))
          preview
          c
          cursor
          xs
          (m - c)
  unfolding simulate
  simulate-Counts zero preview c cursor xs total h fit = elim h [ ]
  simulate-Counts (suc n) preview c cursor xs total h fit = elim (Bool-cases (ltb c m)) [
    | inl before ↦
        let (t, e) = next_before_cap c cursor (ground arith) in
        let ys : List ℕ = if ltb (length xs) preview then xs ++ (t ∷ []) else xs in
        let one = length-append xs (t ∷ []) in
        let (ts, chain, len, f) =
          simulate-Counts n preview (c + 1) t ys (total + 1) (ground arith) (ground arith) in
        (t ∷ ts, (e, chain), ground (arith, len), ground (arith, e, f, shown preview t xs ts fit))
    | inr done ↦
        let e = next_at_cap c cursor (ground arith) in
        let over : m ≤ c = ground arith in
        (
          [],
          tt,
          ground arith,
          simulate_stops zones s preview n c cursor total xs e
              ∙ ap (λ ys. ok (ys, some total)) (nothing_more (preview - length xs) xs)
              ∙ ap (λ k. ok (xs ++ take (preview - length xs) [], some k)) (omega (arith, over)),
        )
  ]

  -- For a valid rule over real dates with a limit of `m` occurrences and no end date, with fewer than
  -- 2000 occurrences left: there are instants as many as the occurrences left, the first the next run
  -- after `after` and each other the next run after the one before, with the count one further on; the
  -- total is their number, and the preview is the first of them, as many as asked for and available.
  pub upcoming_occurrences-counts :
      (after preview : ℕ)
      → m - s.occurrences_count < 2000
      → (ts : List ℕ) × Follows zones s s.occurrences_count after ts
        × (length ts ≡ m - s.occurrences_count)
        × (upcoming_occurrences zones s after preview
            ≡ ok (take preview ts, some (m - s.occurrences_count)))
  unfolding upcoming_occurrences
  upcoming_occurrences-counts after preview h =
      let (ts, chain, len, e) =
        simulate-Counts max_simulated_occurrences preview s.occurrences_count after [] 0 h
          (omega arith) in
      (ts, chain, len, ground (arith, e))

-- The end date of each frequency: in days for a daily rule, and in calendar months for the others.
abbrev pub EndsAfter : Frequency → Date → Date → Type 0
EndsAfter daily start e = ordinal e ≡ ordinal start + 30
EndsAfter weekly start e = e.year * 12 + e.month ≡ start.year * 12 + start.month + 6
EndsAfter monthly start e = e.year * 12 + e.month ≡ start.year * 12 + start.month + 12
EndsAfter other_frequency start e = ⊥

-- For a known frequency `max_end_date` is a date: 30 days after the start for a daily rule, and in
-- the calendar month 6 or 12 months after the start's for a weekly or monthly one.
pub max_end_date-EndsAfter :
    (f : Frequency) (start : Date)
    → IsDate start
    → f ≢ other_frequency
    → (e : Date) × (max_end_date f start ≡ ok e) × IsDate e × EndsAfter f start e
unfolding max_end_date
max_end_date-EndsAfter daily start v h =
    (advance 30 start, refl, advance-IsDate 30 start v, ordinal-advance 30 start v)
max_end_date-EndsAfter weekly start v h =
    let (valid, later) = add_months-IsDate start 6 v in (add_months start 6, refl, valid, later)
max_end_date-EndsAfter monthly start v h =
    let (valid, later) = add_months-IsDate start 12 v in (add_months start 12, refl, valid, later)
max_end_date-EndsAfter other_frequency start v h = absurd (h refl)
