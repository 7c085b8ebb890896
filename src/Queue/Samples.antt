-- ===== src/Queue/Samples.antt =====
-- A small database for the tests: one client, prompt and model, and a daily schedule at six, twice.
use signal_map.Common.{ℕ, ◌+◌, true, false, none, some, List, [], ◌∷◌}
use signal_map.Recurrence.{daily}
use signal_map.Recurrence.Examples.{day0, zones}
use signal_map.Store.{
  queued, leased, error, schedule, RunQueueItem, Run, failed, RunSchedule, prompt_target, Db,
  minutes,
}
use signal_map.Queue.Insert.{Combo, Window}
use signal_map.Queue.Due.{Settings, Plan}

-- six o'clock on the first day, and a minute later
abbrev pub six : ℕ
six = 21600000000

abbrev pub tick : ℕ
tick = six + minutes 1

abbrev pub item : RunQueueItem
item = record {
  id = 1;
  schedule_id = some 5;
  source = schedule;
  batch_id = none;
  client_id = 7;
  prompt_id = 2;
  model_id = 3;
  market_id = 1;
  persona_id = 1;
  scheduled_for = six;
  priority = 10;
  status = queued;
  skip_reason = none;
  attempts = 0;
  transport_attempts = 0;
  last_error = none;
  leased_by = none;
  leased_until = none;
  run_id = none;
  retry_of_id = none;
  queued_at = six;
  started_at = none;
  finished_at = none;
}

abbrev pub second_item : RunQueueItem
second_item = record item { id = 2; persona_id = 2; priority = 20 }

-- failures of the same target on two days
abbrev pub failed_item_1 : RunQueueItem
failed_item_1 = record item { id = 3; status = error; scheduled_for = 100 }

abbrev pub failed_item_2 : RunQueueItem
failed_item_2 = record item { id = 4; status = error; scheduled_for = 200 }

-- a lease that has expired, and one whose run is over
abbrev pub abandoned_item : RunQueueItem
abandoned_item = record item {
  id = 1;
  status = leased;
  leased_by = some "w";
  leased_until = some six;
}

abbrev pub stuck_item : RunQueueItem
stuck_item = record abandoned_item { run_id = some 9 }

abbrev pub over_run : Run
over_run = record {
  id = 9;
  prompt_id = 2;
  model_id = 3;
  market_id = 1;
  persona_id = 1;
  status = failed;
  started_at = 0;
  finished_at = some 1;
  error_message = none;
}

abbrev pub daily_twice : RunSchedule
daily_twice = record {
  rule = record {
    frequency = daily;
    days_of_week = none;
    day_of_month = none;
    time_of_day = six;
    timezone = "UTC";
    starts_on = day0;
    ends_on = none;
    max_occurrences = some 2;
    occurrences_count = 0;
  };
  id = 5;
  client_id = 7;
  target_type = prompt_target;
  target_id = 2;
  model_ids = 3 ∷ [];
  market_id = none;
  persona_ids = 1 ∷ 2 ∷ [];
  priority = 0;
  is_active = true;
  is_completed = false;
  next_run_at = some six;
  last_enqueued_at = none;
}

abbrev pub empty_db : Db
empty_db = record {
  queue = [];
  runs = [];
  schedules = daily_twice ∷ [];
  prompts =
      (record {
        id = 2;
        root_prompt_id = none;
        prompt_set_id = 4;
        client_id = 7;
        market_id = 1;
        is_current_version = true;
        is_active = true;
        text = "text";
      }
        ∷ []);
  models = (record { id = 3; provider_code = "p"; is_active = true } ∷ []);
  clients = (record { id = 7; name = "client"; priority = 1; daily_run_limit = some 2 } ∷ []);
  outbox = [];
  responses = [];
  jobs = [];
  next_response_id = 1;
  next_job_id = 1;
  next_item_id = 10;
  next_run_id = 10;
  next_uuid = 1;
  server_now = tick;
}

abbrev pub with_queue : List RunQueueItem → Db
with_queue q = record empty_db { queue = q }

abbrev pub settings : Settings
settings = record {
  zones = zones;
  now = tick;
  grace_period_minutes = 60;
  max_queue_depth_per_client = 5;
}

abbrev pub combos : List Combo
combos =
    record { prompt_id = 2; model_id = 3; market_id = 1; persona_id = 1 }
    ∷ record { prompt_id = 2; model_id = 3; market_id = 1; persona_id = 2 }
    ∷ []

abbrev pub plan : Plan
plan = record { combos = combos; priority = 1000; batch = false }

abbrev pub window : Window
window = record {
  scheduled_for = six;
  priority = 1000;
  status = queued;
  skip_reason = none;
  now = tick;
  batch_id = none;
  last_error = none;
}
