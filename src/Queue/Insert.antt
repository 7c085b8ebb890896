-- ===== src/Queue/Insert.antt =====
-- `_insert_queue_item`, and the loop that inserts one row for each member of a window's fanout.
pub mod Keys
pub mod Growth
use signal_map.Common.{
  ℕ, ◌+◌, Bool, true, false, Option, none, some, List, [], ◌∷◌, ◌++◌, any, if◌then◌else◌,
}
use signal_map.Store.{
  Status, queued, leased, done, error, skipped, deferred, cancelled, SkipReason, Source, schedule,
  Reason, RunQueueItem, RunSchedule, Db, same_occurrence,
}

-- one member of `fanout`
pub record Combo : Type 0 where
  pub prompt_id : ℕ
  pub model_id : ℕ
  pub market_id : ℕ
  pub persona_id : ℕ

-- the arguments that the rows of one window share
pub record Window : Type 0 where
  pub scheduled_for : ℕ
  pub priority : ℕ
  pub status : Status
  pub skip_reason : Option SkipReason
  pub now : ℕ
  pub batch_id : Option ℕ
  pub last_error : Option Reason

-- `now if status == "skipped" else None`
unfoldable pub finished_if_skipped : Status → ℕ → Option ℕ
finished_if_skipped skipped now = some now
finished_if_skipped _ now = none

-- the values of the INSERT, the columns left out at their defaults
unfoldable pub queue_row : Db → RunSchedule → Window → Combo → RunQueueItem
unfolding finished_if_skipped
queue_row db s w c = record {
  id = db.next_item_id;
  schedule_id = some s.id;
  source = schedule;
  batch_id = w.batch_id;
  client_id = s.client_id;
  prompt_id = c.prompt_id;
  model_id = c.model_id;
  market_id = c.market_id;
  persona_id = c.persona_id;
  scheduled_for = w.scheduled_for;
  priority = w.priority;
  status = w.status;
  skip_reason = w.skip_reason;
  attempts = 0;
  transport_attempts = 0;
  last_error = w.last_error;
  leased_by = none;
  leased_until = none;
  run_id = none;
  retry_of_id = none;
  queued_at = db.server_now;
  started_at = none;
  finished_at = finished_if_skipped w.status w.now;
}

-- INSERT … ON CONFLICT DO NOTHING; the sequence moves on in both cases
unfoldable pub insert_row : Db → RunQueueItem → Db
insert_row db row =
    if any (same_occurrence row) db.queue
    then record db { next_item_id = db.next_item_id + 1 }
    else record db { queue = db.queue ++ (row ∷ []); next_item_id = db.next_item_id + 1 }

unfoldable pub insert_queue_item : Db → RunSchedule → Window → Combo → Db
unfolding queue_row insert_row
insert_queue_item db s w c = insert_row db (queue_row db s w c)

-- `for prompt_id, model_id, market_id, persona_id in fanout: _insert_queue_item(…)`
unfoldable pub insert_fanout : Db → RunSchedule → Window → List Combo → Db
insert_fanout db s w [] = db
insert_fanout db s w (c ∷ cs) = insert_fanout (insert_queue_item db s w c) s w cs
