-- ===== src/Queue/Enqueue/Windows.antt =====
-- The loop over due windows ends: for a schedule with an occurrence limit in any time zone, and
-- for every schedule in a zone where a later wall clock time is a later instant.
use signal_map.Common.{
  ℕ, zero, suc, ◌+◌, ◌-◌, ◌≤◌, ◌<◌, ◌≡◌, ap, ◌∙◌, refl, true, Option, none, some, arith, ok, inl,
  inr, Option-cases,
}
use signal_map.Calendar.{IsDate}
use signal_map.Recurrence.{Wall, wall_lt, ScheduleOccurrenceInput, compute_next_run_at}
use signal_map.Recurrence.Rule.{IsRule}
use signal_map.Recurrence.Next.{
  compute_next_run_at-IsFirst, compute_next_run_at-after, compute_next_run_at-count,
}
use signal_map.Store.{RunSchedule}
use signal_map.Queue.Due.{
  Settings, Plan, Pass, handle_window, due_window, set_next, count_occurrence, advance_schedule,
  enqueue_windows,
}

-- A loop whose every due window leads to a smaller measure ends, and leaves no window due.
module _ (P : RunSchedule → Type 0) (μ : RunSchedule → ℕ) (set : Settings) (plan : Plan)
    (step : (s : RunSchedule) (window : ℕ)
      → P s
      → due_window set.now s ≡ some window
      → (s' : RunSchedule) × (advance_schedule set s window ≡ ok s') × P s' × (μ s' < μ s)) where
  enqueue_windows_ends :
      (fuel : ℕ) (p : Pass)
      → μ p.schedule < fuel
      → P p.schedule
      → (p' : Pass) × (enqueue_windows fuel set plan p ≡ ok p')
        × (due_window set.now p'.schedule ≡ none)
        × P p'.schedule
  unfolding enqueue_windows
  enqueue_windows_ends zero p h inv = elim h [ ]
  enqueue_windows_ends (suc fuel) p h inv = elim (Option-cases (due_window set.now p.schedule)) [
    | inl e ↦ (p, ground (arith, e), e, inv)
    | inr (window, e) ↦
        let (s, adv, inv', less) = step p.schedule window inv e in
        let (p', ran, last, inv'') =
          enqueue_windows_ends fuel (record (handle_window set plan window p) { schedule = s })
            (omega arith) inv' in
        (p', ground (arith, e, adv, ran), last, inv'')
  ]

-- What the tick needs of a schedule: a valid rule over real dates.
abbrev pub IsValid : Settings → RunSchedule → Type 0
IsValid set s =
    IsRule s.rule
    × IsDate s.rule.starts_on
    × ((a : ℕ) → IsDate ((set.zones s.rule.timezone).to_local a).date)

IsValid-advance :
    (set : Settings) (s : RunSchedule) (o : Option ℕ)
    → IsValid set s
    → IsValid set (set_next (count_occurrence s) o)
unfolding set_next
IsValid-advance set s none v = v
IsValid-advance set s (some t) v = v

advance_ok :
    (set : Settings) (s : RunSchedule) (window : ℕ)
    → IsValid set s
    → (o : Option ℕ) × (compute_next_run_at set.zones (count_occurrence s).rule window ≡ ok o)
      × (advance_schedule set s window ≡ ok (set_next (count_occurrence s) o))
unfolding advance_schedule
advance_ok set s window (rule, start, dates) =
    let (d, first, e) =
      compute_next_run_at-IsFirst set.zones (count_occurrence s).rule window rule start
        (dates window) in
    (_, e, rw e refl)

due_some :
    (now window : ℕ) (s : RunSchedule)
    → due_window now s ≡ some window
    → (s.next_run_at ≡ some window) × (window ≤ now)
unfolding due_window
due_some now window s h = ground arith

set_next_rule : (s : RunSchedule) (o : Option ℕ) → (set_next s o).rule ≡ s.rule
unfolding set_next
set_next_rule s none = refl
set_next_rule s (some t) = refl

-- With an occurrence limit each window uses up one occurrence.
module _ (set : Settings) (plan : Plan) (m : ℕ) where
  abbrev pub IsCapped : RunSchedule → Type 0
  IsCapped s = IsValid set s × (s.rule.max_occurrences ≡ some m)

  left : RunSchedule → ℕ
  left s = elim s.next_run_at [ none ↦ 0 | some t ↦ suc (m - s.rule.occurrences_count) ]

  left_falls :
      (s : RunSchedule) (window : ℕ) (o : Option ℕ)
      → s.rule.max_occurrences ≡ some m
      → s.next_run_at ≡ some window
      → compute_next_run_at set.zones (count_occurrence s).rule window ≡ ok o
      → left (set_next (count_occurrence s) o) < left s
  unfolding left set_next
  left_falls s window none cap due next = ground (arith, due)
  left_falls s window (some t) cap due next = ground (
    arith,
    due,
    compute_next_run_at-count set.zones (count_occurrence s).rule window t m next cap,
  )

  IsCapped-step :
      (s : RunSchedule) (window : ℕ)
      → IsCapped s
      → due_window set.now s ≡ some window
      → (s' : RunSchedule) × (advance_schedule set s window ≡ ok s')
        × IsCapped s'
        × (left s' < left s)
  IsCapped-step s window (v, cap) due =
      let (o, next, adv) = advance_ok set s window v in
      (
        set_next (count_occurrence s) o,
        adv,
        (
          IsValid-advance set s o v,
          ap (λ (r : ScheduleOccurrenceInput). r.max_occurrences)
                (set_next_rule (count_occurrence s) o)
              ∙ cap,
        ),
        left_falls s window o cap (due_some set.now window s due).0 next,
      )

  -- The loop over the due windows of a valid schedule with an occurrence limit ends, in any time
  -- zone, within one round more than the occurrences left, and no window is due afterwards.
  pub enqueue_windows_ends-IsCapped :
      (p : Pass) (fuel : ℕ)
      → IsValid set p.schedule
      → p.schedule.rule.max_occurrences ≡ some m
      → m - p.schedule.rule.occurrences_count + 1 < fuel
      → (p' : Pass) × (enqueue_windows fuel set plan p ≡ ok p')
        × (due_window set.now p'.schedule ≡ none)
        × IsCapped p'.schedule
  unfolding left
  enqueue_windows_ends-IsCapped p fuel v cap h =
      enqueue_windows_ends IsCapped left set plan IsCapped-step fuel p (ground arith) (v, cap)

-- Where a later wall clock time is a later instant, each window is later than the one before.
module _ (set : Settings) (plan : Plan) where
  abbrev pub IsForward : RunSchedule → Type 0
  IsForward s =
      IsValid set s
      × ((a : ℕ) (w : Wall)
          → wall_lt ((set.zones s.rule.timezone).to_local a) w ≡ true
          → a < (set.zones s.rule.timezone).from_local w)

  ahead : RunSchedule → ℕ
  ahead s = elim s.next_run_at [ none ↦ 0 | some t ↦ set.now + 1 - t ]

  ahead_falls :
      (s : RunSchedule) (window : ℕ) (o : Option ℕ)
      → IsForward s
      → due_window set.now s ≡ some window
      → compute_next_run_at set.zones (count_occurrence s).rule window ≡ ok o
      → ahead (set_next (count_occurrence s) o) < ahead s
  unfolding ahead set_next
  ahead_falls s window none f due next = ground (arith, due_some set.now window s due)
  ahead_falls s window (some t) f due next = ground (
    arith,
    due_some set.now window s due,
    compute_next_run_at-after set.zones (count_occurrence s).rule window t f.1 next,
  )

  IsForward-advance :
      (s : RunSchedule) (o : Option ℕ) → IsForward s → IsForward (set_next (count_occurrence s) o)
  unfolding set_next
  IsForward-advance s none f = f
  IsForward-advance s (some t) f = f

  IsForward-step :
      (s : RunSchedule) (window : ℕ)
      → IsForward s
      → due_window set.now s ≡ some window
      → (s' : RunSchedule) × (advance_schedule set s window ≡ ok s')
        × IsForward s'
        × (ahead s' < ahead s)
  IsForward-step s window f due =
      let (o, next, adv) = advance_ok set s window f.0 in
      (
        set_next (count_occurrence s) o,
        adv,
        IsForward-advance s o f,
        ahead_falls s window o f due next,
      )

  -- In a zone where a later wall clock time is a later instant the loop over the due windows of a
  -- valid schedule ends, whether it ends by a date or a count, and no window is due afterwards.
  pub enqueue_windows_ends-IsForward :
      (p : Pass) (fuel : ℕ)
      → IsForward p.schedule
      → set.now + 1 < fuel
      → (p' : Pass) × (enqueue_windows fuel set plan p ≡ ok p')
        × (due_window set.now p'.schedule ≡ none)
        × IsForward p'.schedule
  unfolding ahead
  enqueue_windows_ends-IsForward p fuel f h =
      enqueue_windows_ends IsForward ahead set plan IsForward-step fuel p (ground arith) f
