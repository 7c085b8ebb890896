-- ===== src/Queue/Retry.antt =====
-- `create_retry`, `cancel_queued_item` and `retry_all_errors`: what the History page does by hand.
pub mod Single
pub mod Bulk
use signal_map.Common.{
  ℕ, ◌+◌, String, Bool, true, false, ◌&&◌, ◌||◌, Option, none, some, List, [], ◌∷◌, ◌++◌, any,
  select, if◌then◌else◌, length, Result, ok, raised, value_error, integrity_error, ◌>>=◌,
}
use text.Mathlib.Text.{◌==◌ as str_eq}
use signal_map.Store.{
  Status, queued, error, skipped, cancelled, RunQueueItem, Prompt, Client, Db, get_prompt,
  get_client, save_item, same_occurrence,
}

-- status in RETRYABLE_STATUSES
unfoldable pub is_retryable : Status → Bool
is_retryable error = true
is_retryable skipped = true
is_retryable cancelled = true
is_retryable _ = false

unfoldable pub is_error : Status → Bool
is_error error = true
is_error _ = false

unfoldable pub is_queued : Status → Bool
is_queued queued = true
is_queued _ = false

-- the new row: the original's target and priority, due now, and what it retries
unfoldable pub retry_row : Db → RunQueueItem → ℕ → RunQueueItem
retry_row db original now = record {
  id = db.next_item_id;
  schedule_id = original.schedule_id;
  source = original.source;
  batch_id = none;
  client_id = original.client_id;
  prompt_id = original.prompt_id;
  model_id = original.model_id;
  market_id = original.market_id;
  persona_id = original.persona_id;
  scheduled_for = now;
  priority = original.priority;
  status = queued;
  skip_reason = none;
  attempts = 0;
  transport_attempts = 0;
  last_error = none;
  leased_by = none;
  leased_until = none;
  run_id = none;
  retry_of_id = some original.id;
  queued_at = db.server_now;
  started_at = none;
  finished_at = none;
}

-- a plain INSERT: the unique occurrence index raises IntegrityError
unfoldable pub add_row : Db → RunQueueItem → Result Db
add_row db row =
    if any (same_occurrence row) db.queue
    then raised integrity_error
    else ok (record db { queue = db.queue ++ (row ∷ []); next_item_id = db.next_item_id + 1 })

unfoldable pub create_retry : Db → RunQueueItem → ℕ → Result Db
unfolding retry_row add_row
create_retry db original now =
    if is_retryable original.status
    then add_row db (retry_row db original now)
    else raised value_error

unfoldable pub cancel_queued_item : Db → RunQueueItem → ℕ → Result Db
cancel_queued_item db item now =
    if is_queued item.status
    then ok (save_item db (record item { status = cancelled; finished_at = some now }))
    else raised value_error

-- the filter of the bulk retry; ILIKE is the database's, and the joins want the rows to exist
unfoldable pub matches_search : (String → String → Bool) → Db → String → RunQueueItem → Bool
unfolding is_error
matches_search ilike db search item = is_error item.status && elim (get_prompt db item.prompt_id) [
  | none ↦ false
  | some p ↦ elim (get_client db item.client_id) [
    | none ↦ false
    | some c ↦ str_eq search "" || (ilike search p.text || ilike search c.name)
  ]
]

-- Each retry is committed by itself: what was added before an error stays.
unfoldable pub retry_each : Db → List RunQueueItem → ℕ → Db × Result (Unit {0})
retry_each db [] now = (db, ok tt)
retry_each db (i ∷ is) now = elim (create_retry db i now) [
  | raised e ↦ (db, raised e)
  | ok db' ↦ retry_each db' is now
]

-- the database, and how many items were retried
unfoldable pub retry_all_errors : (String → String → Bool) → Db → String → ℕ → Db × Result ℕ
retry_all_errors ilike db search now =
    let items = select (matches_search ilike db search) db.queue in
    let (db', r) = retry_each db items now in (db', r >>= λ _. ok (length items))
