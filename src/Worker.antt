-- ===== src/Worker.antt =====
-- app/worker.py: `process_claimed_item`, in two halves: what happens before the adapter is called
-- (`admit_item`), and what its outcome leads to (`conclude_item`).
pub mod Branches
pub mod Conclusion
pub mod Settled
pub mod Runs
pub mod Failure
mod Examples
use signal_map.Common.{
  ℕ, zero, suc, ◌+◌, ◌-◌, ◌*◌, ◌<◌, String, Bool, true, false, ◌&&◌, not, Option, none, some, List,
  [], ◌∷◌, ◌++◌, any, min, ltb, leb, ◌==◌, if◌then◌else◌, Result, ok, raised, attribute_error,
  ◌>>=◌,
}
use signal_map.Store.{
  Status, queued, leased, done, error, skipped, deferred, SkipReason, grace_expired,
  inactive_prompt, inactive_model, quota_exceeded, dry_run, daily_run_limit, run_failed,
  ErrorCategory, billing, rate_limit, auth, transient, invalid_request, unknown, Reason,
  provider_failure, RunQueueItem, Run, RunStatus, pending, Db, Prompt, AiModel, minutes, get_prompt,
  get_model, save_item, is_pending, notify,
}
use signal_map.Notifications.{notify_quota_exceeded, notify_provider_billing_exhausted}
use signal_map.ProviderErrors.{ProviderError, classify_provider_error}
use signal_map.Execution.{exceeds_daily_quota, execute_run, Outcome, answered, failed_with}

-- `_BACKOFF_MINUTES[min(max(attempts - 1, 0), 2)]`
abbrev backoff_at : ℕ → ℕ
backoff_at zero = 1
backoff_at (suc zero) = 5
backoff_at (suc (suc n)) = 25

unfoldable pub backoff_minutes : ℕ → ℕ
backoff_minutes attempts = backoff_at (attempts - 1)

abbrev pub max_transport_attempts : ℕ
max_transport_attempts = 4

abbrev pub billing_retry_minutes : ℕ
billing_retry_minutes = 30

-- the categories of `_is_retryable_error`
unfoldable pub is_retryable_category : ErrorCategory → Bool
is_retryable_category rate_limit = true
is_retryable_category transient = true
is_retryable_category unknown = true
is_retryable_category _ = false

-- `now - min(scheduled_for, queued_at) > timedelta(minutes=grace_period_minutes)`
unfoldable pub is_expired : RunQueueItem → ℕ → ℕ → Bool
is_expired item now grace = ltb (min item.scheduled_for item.queued_at + minutes grace) now

unfoldable pub skip_item : RunQueueItem → SkipReason → ℕ → RunQueueItem
skip_item item reason now = record item {
  status = skipped;
  skip_reason = some reason;
  finished_at = some now;
}

-- a pending run of the same prompt and model
unfoldable pub has_collision : Db → RunQueueItem → Bool
unfolding is_pending
has_collision db item =
    any
      (λ (r : Run).
        (r.prompt_id == item.prompt_id) && ((r.model_id == item.model_id) && is_pending r.status))
      db.runs

unfoldable pub new_run : Db → RunQueueItem → Run
new_run db item = record {
  id = db.next_run_id;
  prompt_id = item.prompt_id;
  model_id = item.model_id;
  market_id = item.market_id;
  persona_id = item.persona_id;
  status = pending;
  started_at = db.server_now;
  finished_at = none;
  error_message = none;
}

abbrev pub with_run : RunQueueItem → Run → RunQueueItem
with_run item run = record item { run_id = some run.id }

-- The item is settled without a provider call, or its run is committed and the call comes next.
pub data Admission : Type 0 where
  settled : Db → RunQueueItem → Admission
  admitted : Db → RunQueueItem → Run → AiModel → Admission

abbrev settle : Db → RunQueueItem → Admission
settle db item = settled (save_item db item) item

-- lines 321 to 342: the run's row, and its id on the item
unfoldable pub start_run : Db → RunQueueItem → AiModel → Admission
unfolding new_run
start_run db item model =
    let run = new_run db item in
    admitted
      (save_item (record db { runs = db.runs ++ (run ∷ []); next_run_id = db.next_run_id + 1 })
        (with_run item run))
      (with_run item run) run model

-- the settings that the worker passes
pub record Limits : Type 0 where
  pub dry : Bool
  pub grace_period_minutes : ℕ
  pub default_daily_run_limit : ℕ

unfoldable pub admit_loaded : Limits → Db → RunQueueItem → ℕ → Prompt → AiModel → Admission
unfolding skip_item start_run
admit_loaded limits db item now prompt model =
    if not prompt.is_active
    then settle db (skip_item item inactive_prompt now)
    else if not model.is_active
    then settle db (skip_item item inactive_model now)
    else if exceeds_daily_quota db item.client_id now limits.default_daily_run_limit
    then settled
        (notify_quota_exceeded (save_item db (skip_item item quota_exceeded now)) item.client_id
          daily_run_limit now)
        (skip_item item quota_exceeded now)
    else if has_collision db item
    then settle db (record item {
      status = deferred;
      scheduled_for = now + minutes (backoff_minutes item.attempts);
    })
    else if limits.dry
    then settle db (skip_item item dry_run now)
    else start_run db item model

-- the first half; a row that does not exist is an AttributeError on None
unfoldable pub admit_item : Limits → Db → RunQueueItem → ℕ → Result Admission
unfolding skip_item
admit_item limits db item now =
    if is_expired item now limits.grace_period_minutes
    then ok (settle db (skip_item item grace_expired now))
    else elim (get_prompt db item.prompt_id) [
      | none ↦ raised attribute_error
      | some prompt ↦ elim (get_model db item.model_id) [
        | none ↦
            if not prompt.is_active
            then ok (settle db (skip_item item inactive_prompt now))
            else raised attribute_error
        | some model ↦ ok (admit_loaded limits db item now prompt model)
      ]
    ]

-- what the item becomes by a failure of the adapter
unfoldable pub failed_item : RunQueueItem → ErrorCategory → String → ℕ → RunQueueItem
failed_item item category message now =
    let told : RunQueueItem = record item {
      last_error = some (provider_failure category message);
    } in
    let tries = item.transport_attempts + 1 in
    elim category [
      | billing ↦ record told {
        status = deferred;
        scheduled_for = now + minutes billing_retry_minutes;
      }
      | other ↦
          if is_retryable_category other && ltb tries max_transport_attempts
          then record told {
            transport_attempts = tries;
            status = queued;
            scheduled_for = now + minutes (backoff_minutes tries);
          }
          else record told { transport_attempts = tries; status = error; finished_at = some now }
    ]

abbrev pub is_error_status : Status → Bool
is_error_status error = true
is_error_status _ = false

-- the notification that follows a failure: of the provider's empty account, or of the final error
unfoldable pub notify_failure : Db → RunQueueItem → Run → AiModel → ErrorCategory → ℕ → Db
notify_failure db item run model billing now =
    notify_provider_billing_exhausted db model.provider_code now
notify_failure db item run model category now =
    if is_error_status item.status then notify db (run_failed item.id run.id) db.server_now else db

abbrev done_item : RunQueueItem → ℕ → RunQueueItem
done_item item now = record item { status = done; finished_at = some now }

module _ (lower : String → String) (show : ℕ → String) where
  -- the second half: the adapter's outcome on the run and on the item
  unfoldable pub conclude_item : Db → RunQueueItem → Run → AiModel → ℕ → Outcome → Db × RunQueueItem
  unfolding failed_item notify_failure
  conclude_item db item run model now (answered finished) =
      (save_item (execute_run db run (answered finished)) (done_item item now), done_item item now)
  conclude_item db item run model now (failed_with exc finished) =
      let category = classify_provider_error lower show exc in
      let item' = failed_item item category exc.message now in
      (
        notify_failure (save_item (execute_run db run (failed_with exc finished)) item') item' run
            model category now,
        item',
      )

  -- `provider` is what the adapter would do for a run
  unfoldable pub process_claimed_item :
      (Run → Outcome) → Limits → Db → RunQueueItem → ℕ → Result (Db × RunQueueItem)
  unfolding conclude_item
  process_claimed_item provider limits db item now = elim (admit_item limits db item now) [
    | raised e ↦ raised e
    | ok (settled db' item') ↦ ok (db', item')
    | ok (admitted db' item' run model) ↦ ok (conclude_item db' item' run model now (provider run))
  ]
