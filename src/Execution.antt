-- ===== src/Execution.antt =====
-- app/services/run_execution.py: the daily quota, and `execute_run` on a run that the worker has
-- already created. The adapter is not in the repository's control: its answer is a parameter. The
-- citations, search queries and analysis results that a successful run stores are not modelled, and
-- no statement of the database fails: neither those that store the answer nor the INSERT of
-- `enqueue_capture`, which `execute_run` would only log.
use signal_map.Common.{
  ℕ, ◌+◌, Bool, false, ◌&&◌, Option, none, some, [], ◌∷◌, ◌++◌, count, leb, ◌==◌,
}
use signal_map.Store.{
  save_run, Run, success, failed, provider_message, Db, Client, capture, job_queued, get_prompt,
  get_client, minutes,
}
use signal_map.ProviderErrors.{ProviderError}

-- `limit = client.daily_run_limit if … is not None else default_limit`
abbrev limit_of : Option Client → ℕ → ℕ
limit_of none d = d
limit_of (some c) d = elim c.daily_run_limit [ none ↦ d | some n ↦ n ]

-- a run of the client in the last 24 hours, through its prompt's set
unfoldable pub is_counted : Db → ℕ → ℕ → Run → Bool
is_counted db client_id now run = elim (get_prompt db run.prompt_id) [
  | none ↦ false
  | some p ↦ (p.client_id == client_id) && leb now (run.started_at + minutes 1440)
]

-- `daily_quota_usage`: (used, limit)
unfoldable pub daily_quota_usage : Db → ℕ → ℕ → ℕ → ℕ × ℕ
unfolding is_counted
daily_quota_usage db client_id now default_limit =
    (count (is_counted db client_id now) db.runs, limit_of (get_client db client_id) default_limit)

-- `check_daily_quota` raises QuotaExceededError
unfoldable pub exceeds_daily_quota : Db → ℕ → ℕ → ℕ → Bool
exceeds_daily_quota db client_id now default_limit =
    let (used, limit) = daily_quota_usage db client_id now default_limit in leb limit used

-- what the provider's adapter did, and when it was over
pub data Outcome : Type 0 where
  answered : ℕ → Outcome
  failed_with : ProviderError → ℕ → Outcome

-- enqueue_capture (app/services/verification_queue.py)
unfoldable pub enqueue_capture : Db → ℕ → ℕ → Db
enqueue_capture db raw_response_id now = record db {
  jobs =
      db.jobs
      ++ (record {
        id = db.next_job_id;
        raw_response_id = raw_response_id;
        kind = capture;
        status = job_queued;
        priority = 0;
        attempts = 0;
        scheduled_for = now;
        leased_by = none;
        lease_expires_at = none;
        requested_by_user_id = none;
        last_error = none;
        created_at = db.server_now;
        finished_at = none;
      }
          ∷ []);
  next_job_id = db.next_job_id + 1;
}

-- the run's own row, its raw response and the capture job
unfoldable pub execute_run : Db → Run → Outcome → Db
unfolding save_run enqueue_capture
execute_run db run (failed_with exc finished) = record db {
  runs =
      save_run
        (record run {
          status = failed;
          error_message = some (provider_message exc.message);
          finished_at = some finished;
        })
        db.runs;
}
execute_run db run (answered finished) =
    enqueue_capture
      (record db {
        runs = save_run (record run { status = success; finished_at = some finished }) db.runs;
        responses = db.responses ++ (record { id = db.next_response_id; run_id = run.id } ∷ []);
        next_response_id = db.next_response_id + 1;
      })
      db.next_response_id finished
