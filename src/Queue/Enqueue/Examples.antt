-- ===== src/Queue/Enqueue/Examples.antt =====
-- Tests and instances for the ticker: a daily schedule at six with two occurrences, a minute late.
use signal_map.Common.{◌+◌, ◌≤◌, ◌≡◌, refl, none, arith, Result, ok, raised, max}
use signal_map.Calendar.{ordinal, days_in_month, is_leap, next_day, advance}
use signal_map.Recurrence.{
  compute_next_run_at, search_dates, is_matching_date, wall_lt, is_exhausted, is_past_end,
}
use signal_map.Recurrence.Examples.{utc_dates, utc_forward, day0-IsDate}
use signal_map.Queue.Samples.{tick, daily_twice, empty_db, settings, plan}
use signal_map.Queue.Due.{
  Pass, enqueue_windows, due_window, target_prompts, current_prompt_version, advance_schedule,
  set_next,
}
use signal_map.Queue.Enqueue.{EnqueueResult, enqueue_one_schedule, start_pass, waiting_depth}
use signal_map.Queue.Enqueue.Depth.{enqueue_one_schedule-depth}
use signal_map.Queue.Enqueue.Windows.{
  enqueue_windows_ends-IsCapped, enqueue_windows_ends-IsForward, IsValid, IsCapped, IsForward,
}

abbrev result_or : EnqueueResult → Result EnqueueResult → EnqueueResult
result_or r (ok x) = x
result_or r (raised e) = r

abbrev result : EnqueueResult
result =
    result_or (record { db = empty_db; worker_down_windows = 0; queue_depth_windows = 0 })
      (enqueue_one_schedule 4 settings empty_db daily_twice)

ran : enqueue_one_schedule 4 settings empty_db daily_twice ≡ ok result
unfolding enqueue_one_schedule enqueue_windows target_prompts current_prompt_version due_window
    advance_schedule set_next compute_next_run_at search_dates is_matching_date wall_lt ordinal
    days_in_month is_leap next_day advance is_exhausted is_past_end
ran = refl

enqueue_one_schedule-depth_example :
    waiting_depth 7 result.db.queue ≤ max (waiting_depth 7 empty_db.queue) 5
enqueue_one_schedule-depth_example = enqueue_one_schedule-depth 4 settings empty_db daily_twice ran

valid : IsValid settings daily_twice
valid = (tt, day0-IsDate, utc_dates)

enqueue_windows_ends-IsCapped_example :
    (p' : Pass) × (enqueue_windows 4 settings plan (start_pass empty_db daily_twice) ≡ ok p')
    × (due_window tick p'.schedule ≡ none)
    × IsCapped settings plan 2 p'.schedule
enqueue_windows_ends-IsCapped_example =
    enqueue_windows_ends-IsCapped settings plan 2 (start_pass empty_db daily_twice) 4 valid refl
      (omega arith)

enqueue_windows_ends-IsForward_example :
    (p' : Pass) × (enqueue_windows (tick + 2) settings plan (start_pass empty_db daily_twice)
      ≡ ok p')
    × (due_window tick p'.schedule ≡ none)
    × IsForward settings plan p'.schedule
enqueue_windows_ends-IsForward_example =
    enqueue_windows_ends-IsForward settings plan (start_pass empty_db daily_twice) (tick + 2)
      (valid, utc_forward) (omega arith)
