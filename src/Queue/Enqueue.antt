-- ===== src/Queue/Enqueue.antt =====
-- `_enqueue_one_schedule` as a whole, and `enqueue_due_schedules`: the ticker.
pub mod Passes
pub mod Depth
pub mod Windows
mod Examples
use signal_map.Common.{
  ℕ, zero, suc, ◌+◌, ◌*◌, ◌-◌, Bool, true, false, ◌&&◌, ◌||◌, not, Option, none, some, List, [],
  ◌∷◌, ◌++◌, String, any, select, find_first, map, if◌then◌else◌, ltb, leb, ◌==◌, is_id, count,
  length, Result, ok, raised, not_implemented, out_of_fuel, ◌>>=◌,
}
use mathlib.Core.List.{flat_map}
use text.Mathlib.Text.{◌==◌ as str_eq}
use signal_map.Recurrence.{Zone, ScheduleOccurrenceInput, compute_next_run_at}
use signal_map.Store.{
  Status, queued, skipped, SkipReason, worker_down, queue_depth_exceeded, extra_missed,
  RunQueueItem, RunSchedule, TargetType, prompt_target, prompt_set_target, other_target, Prompt,
  Client, Db, Event, window_skipped, queue_depth, quota_alert, minutes, get_client, save_schedule,
  is_waiting, notify,
}
use signal_map.Queue.Insert.{Combo, Window, insert_queue_item, insert_fanout}
use signal_map.Notifications.{notify_quota_exceeded}
use signal_map.Queue.Due.{
  client_priority_weight, max_missed_window_rows, current_prompt_version, target_prompts, is_batch,
  market_or, fanout, client_priority, client_name, is_waiting_for, Settings, Plan, Pass, new_batch,
  take_uuid, insert_window, has_rows, miss_window, miss_extra_window, refuse_window, queue_window,
  is_late, is_full, handle_window, set_next, count_occurrence, advance_schedule, due_window,
  enqueue_windows,
}

-- `select count(*) … where client_id = … and status in ('queued', 'deferred')`
unfoldable pub waiting_depth : ℕ → List RunQueueItem → ℕ
waiting_depth client_id rows = count (is_waiting_for client_id) rows

unfoldable pub make_plan : Db → RunSchedule → List Prompt → Plan
unfolding fanout
make_plan db s prompts = record {
  combos = fanout s prompts;
  priority = client_priority (get_client db s.client_id) * client_priority_weight + s.priority;
  batch = is_batch s;
}

abbrev start_pass : Db → RunSchedule → Pass
start_pass db s = record {
  db = db;
  schedule = s;
  queued_depth = waiting_depth s.client_id db.queue;
  missed_window_rows_written = 0;
  extra_missed_windows = 0;
  last_extra_window = none;
  queue_depth_skipped_windows = 0;
}

-- one summary row for the missed windows beyond the first thirty
unfoldable pub summarize : Settings → Plan → Pass → List Combo → Option ℕ → Db
summarize set plan p [] last = p.db
summarize set plan p (c ∷ cs) none = p.db
summarize set plan p (c ∷ cs) (some window) =
    insert_queue_item (take_uuid plan p.db) p.schedule
      (record {
        scheduled_for = window;
        priority = plan.priority;
        status = skipped;
        skip_reason = some worker_down;
        now = set.now;
        batch_id = new_batch plan p.db;
        last_error = some (extra_missed p.extra_missed_windows);
      })
      c

-- `_EnqueueResult`, with the database
pub record EnqueueResult : Type 0 where
  pub db : Db
  pub worker_down_windows : ℕ
  pub queue_depth_windows : ℕ

unfoldable pub finish_pass : Settings → Plan → Pass → EnqueueResult
unfolding summarize
finish_pass set plan p = record {
  db =
      save_schedule (summarize set plan p plan.combos p.last_extra_window)
        (record p.schedule { last_enqueued_at = some set.now });
  worker_down_windows = p.missed_window_rows_written + p.extra_missed_windows;
  queue_depth_windows = p.queue_depth_skipped_windows;
}

unfoldable pub enqueue_one_schedule : ℕ → Settings → Db → RunSchedule → Result EnqueueResult
enqueue_one_schedule fuel set db s = do
  prompts ← target_prompts db s
  p ← enqueue_windows fuel set (make_plan db s prompts) (start_pass db s)
  ok (finish_pass set (make_plan db s prompts) p)

-- the rows that the ticker selects
unfoldable pub is_due : ℕ → RunSchedule → Bool
unfolding due_window
is_due now s = s.is_active && elim (due_window now s) [ none ↦ false | some t ↦ true ]

-- what the loop over the schedules adds up for its notifications
pub record Tally : Type 0 where
  pub db : Db
  pub total_skipped_windows : ℕ
  pub affected_schedule_ids : List ℕ
  pub affected_client_names : List String
  pub queue_full_clients : List ℕ

abbrev add_name : String → List String → List String
add_name n names = if any (λ m. str_eq m n) names then names else names ++ (n ∷ [])

-- the keys of the dict `queue_full_clients`
abbrev add_client : ℕ → List ℕ → List ℕ
add_client i ids = if any (λ j. j == i) ids then ids else ids ++ (i ∷ [])

unfoldable pub tally_schedule : Tally → RunSchedule → EnqueueResult → Tally
tally_schedule t s r =
    let name = client_name (get_client r.db s.client_id) in
    let missed = ltb 0 r.worker_down_windows in
    record {
      db = r.db;
      total_skipped_windows = t.total_skipped_windows + r.worker_down_windows;
      affected_schedule_ids =
          if missed then t.affected_schedule_ids ++ (s.id ∷ []) else t.affected_schedule_ids;
      affected_client_names =
          if missed then add_name name t.affected_client_names else t.affected_client_names;
      queue_full_clients =
          if ltb 0 r.queue_depth_windows
          then add_client s.client_id t.queue_full_clients
          else t.queue_full_clients;
    }

unfoldable pub enqueue_each : ℕ → Settings → Tally → List RunSchedule → Result Tally
unfolding tally_schedule
enqueue_each fuel set t [] = ok t
enqueue_each fuel set t (s ∷ ss) = elim (enqueue_one_schedule fuel set t.db s) [
  | raised e ↦ raised e
  | ok r ↦ enqueue_each fuel set (tally_schedule t s r) ss
]

unfoldable pub notify_full : ℕ → Db → List ℕ → Db
notify_full now db [] = db
notify_full now db (i ∷ is) = notify_full now (notify_quota_exceeded db i queue_depth now) is

unfoldable pub notify_skipped : Tally → Db
notify_skipped t =
    if ltb 0 t.total_skipped_windows
    then notify t.db
        (window_skipped t.total_skipped_windows t.affected_schedule_ids t.affected_client_names)
        t.db.server_now
    else t.db

unfoldable pub enqueue_due_schedules : ℕ → Settings → Db → Result Db
unfolding notify_full notify_skipped
enqueue_due_schedules fuel set db = do
  t ←
      enqueue_each fuel set
        (record {
          db = db;
          total_skipped_windows = 0;
          affected_schedule_ids = [];
          affected_client_names = [];
          queue_full_clients = [];
        })
        (select (is_due set.now) db.schedules)
  ok (notify_full set.now (notify_skipped t) t.queue_full_clients)
