-- ===== src/Queue/Due.antt =====
-- `_target_prompts` and the loop of `_enqueue_one_schedule` over the due windows. The `while` loop takes
-- fuel, and stops with an error of its own where that runs out.
use signal_map.Common.{
  ℕ, zero, suc, ◌+◌, ◌-◌, Bool, true, false, ◌&&◌, ◌||◌, Option, none, some, List, [], ◌∷◌, String,
  select, find_first, map, if◌then◌else◌, ltb, leb, ◌==◌, is_id, length, Result, ok, raised,
  not_implemented, out_of_fuel, ◌>>=◌,
}
use mathlib.Core.List.{flat_map}
use signal_map.Recurrence.{Zone, compute_next_run_at}
use signal_map.Store.{
  Status, queued, skipped, SkipReason, worker_down, queue_depth_exceeded, RunQueueItem, RunSchedule,
  prompt_target, prompt_set_target, other_target, Prompt, Client, Db, minutes, is_waiting,
}
use signal_map.Queue.Insert.{Combo, insert_fanout}

abbrev pub client_priority_weight : ℕ
client_priority_weight = 1000

abbrev pub max_missed_window_rows : ℕ
max_missed_window_rows = 30

-- current_prompt_version (app/utils.py)
unfoldable pub current_prompt_version : Db → ℕ → Option Prompt
current_prompt_version db root =
    find_first
      (λ (p : Prompt). ((p.id == root) || is_id p.root_prompt_id root) && p.is_current_version)
      db.prompts

unfoldable pub target_prompts : Db → RunSchedule → Result (List Prompt)
unfolding current_prompt_version
target_prompts db s = elim s.target_type [
  | prompt_target ↦
      ok (elim (current_prompt_version db s.target_id) [ none ↦ [] | some p ↦ p ∷ [] ])
  | prompt_set_target ↦ ok (
      select
        (λ (p : Prompt). (p.prompt_set_id == s.target_id) && (p.is_current_version && p.is_active))
        db.prompts)
  | other_target ↦ raised not_implemented
]

abbrev pub is_batch : RunSchedule → Bool
is_batch s = elim s.target_type [ prompt_set_target ↦ true | _ ↦ false ]

-- `schedule.market_id or prompt.market_id`
abbrev pub market_or : Option ℕ → ℕ → ℕ
market_or none m = m
market_or (some zero) m = m
market_or (some (suc k)) m = suc k

-- every (prompt, model, persona) of the schedule
unfoldable pub fanout : RunSchedule → List Prompt → List Combo
fanout s prompts =
    flat_map
      (λ (p : Prompt).
        flat_map
          (λ (m : ℕ).
            map
              (λ (u : ℕ). record {
                prompt_id = p.id;
                model_id = m;
                market_id = market_or s.market_id p.market_id;
                persona_id = u;
              })
              s.persona_ids)
          s.model_ids)
      prompts

-- `schedule.client.priority`; the foreign key makes the client exist
abbrev pub client_priority : Option Client → ℕ
client_priority none = 0
client_priority (some c) = c.priority

abbrev pub client_name : Option Client → String
client_name none = ""
client_name (some c) = c.name

-- the client's rows that wait: queued or deferred
unfoldable pub is_waiting_for : ℕ → RunQueueItem → Bool
unfolding is_waiting
is_waiting_for client_id row = (row.client_id == client_id) && is_waiting row.status

-- the settings, and what stays the same over the windows of one schedule
pub record Settings : Type 0 where
  pub zones : String → Zone
  pub now : ℕ
  pub grace_period_minutes : ℕ
  pub max_queue_depth_per_client : ℕ

pub record Plan : Type 0 where
  pub combos : List Combo
  pub priority : ℕ
  pub batch : Bool

-- the local variables of the loop
pub record Pass : Type 0 where
  pub db : Db
  pub schedule : RunSchedule
  pub queued_depth : ℕ
  pub missed_window_rows_written : ℕ
  pub extra_missed_windows : ℕ
  pub last_extra_window : Option ℕ
  pub queue_depth_skipped_windows : ℕ

-- uuid.uuid4() for a batch
abbrev pub new_batch : Plan → Db → Option ℕ
new_batch plan db = if plan.batch then some db.next_uuid else none

abbrev pub take_uuid : Plan → Db → Db
take_uuid plan db = if plan.batch then record db { next_uuid = db.next_uuid + 1 } else db

-- inserts the rows of one due window
unfoldable pub insert_window : Settings → Plan → ℕ → Status → Option SkipReason → Pass → Db
insert_window set plan window status reason p =
    insert_fanout (take_uuid plan p.db) p.schedule
      (record {
        scheduled_for = window;
        priority = plan.priority;
        status = status;
        skip_reason = reason;
        now = set.now;
        batch_id = new_batch plan p.db;
        last_error = none;
      })
      plan.combos

abbrev pub has_rows : List Combo → Bool
has_rows [] = false
has_rows (c ∷ cs) = true

-- the four branches of the loop body: missed by the worker (a row each, for the first thirty, and
-- a count of the others), no room in the queue, and queued
unfoldable pub miss_window : Settings → Plan → ℕ → Pass → Pass
unfolding insert_window
miss_window set plan window p = record p {
  db = insert_window set plan window skipped (some worker_down) p;
  missed_window_rows_written = p.missed_window_rows_written + 1;
}

unfoldable pub miss_extra_window : Settings → Plan → ℕ → Pass → Pass
miss_extra_window set plan window p = record p {
  db = take_uuid plan p.db;
  extra_missed_windows = p.extra_missed_windows + 1;
  last_extra_window = some window;
}

unfoldable pub refuse_window : Settings → Plan → ℕ → Pass → Pass
unfolding insert_window
refuse_window set plan window p = record p {
  db = insert_window set plan window skipped (some queue_depth_exceeded) p;
  queue_depth_skipped_windows = p.queue_depth_skipped_windows + 1;
}

unfoldable pub queue_window : Settings → Plan → ℕ → Pass → Pass
unfolding insert_window
queue_window set plan window p = record p {
  db = insert_window set plan window queued none p;
  queued_depth = p.queued_depth + length plan.combos;
}

-- `late_by > grace_period`
abbrev pub is_late : Settings → ℕ → Bool
is_late set window = ltb (minutes set.grace_period_minutes) (set.now - window)

-- `fanout and queued_depth + len(fanout) > max_queue_depth_per_client`
abbrev pub is_full : Settings → Plan → Pass → Bool
is_full set plan p =
    has_rows plan.combos && ltb set.max_queue_depth_per_client (p.queued_depth + length plan.combos)

unfoldable pub handle_window : Settings → Plan → ℕ → Pass → Pass
handle_window set plan window p =
    if is_late set window
    then (if ltb p.missed_window_rows_written max_missed_window_rows
        then miss_window set plan window p
        else miss_extra_window set plan window p)
    else if is_full set plan p
    then refuse_window set plan window p
    else queue_window set plan window p

-- the schedule after a window: one more occurrence, the next due time, and its end if there is none
unfoldable pub set_next : RunSchedule → Option ℕ → RunSchedule
set_next s none = record s { next_run_at = none; is_active = false; is_completed = true }
set_next s (some t) = record s { next_run_at = some t }

abbrev pub count_occurrence : RunSchedule → RunSchedule
count_occurrence s = record s {
  rule = record s.rule { occurrences_count = s.rule.occurrences_count + 1 };
}

unfoldable pub advance_schedule : Settings → RunSchedule → ℕ → Result RunSchedule
unfolding set_next
advance_schedule set s window = do
  next ← compute_next_run_at set.zones (count_occurrence s).rule window
  ok (set_next (count_occurrence s) next)

-- `while schedule.next_run_at is not None and schedule.next_run_at <= now`
unfoldable pub due_window : ℕ → RunSchedule → Option ℕ
due_window now s = elim s.next_run_at [ none ↦ none | some t ↦ if leb t now then some t else none ]

unfoldable pub enqueue_windows : ℕ → Settings → Plan → Pass → Result Pass
enqueue_windows zero set plan p = raised out_of_fuel
enqueue_windows (suc fuel) set plan p = elim (due_window set.now p.schedule) [
  | none ↦ ok p
  | some window ↦ elim (advance_schedule set p.schedule window) [
    | raised e ↦ raised e
    | ok s ↦
        enqueue_windows fuel set plan (record (handle_window set plan window p) { schedule = s })
  ]
]
