-- ===== src/Worker/Examples.antt =====
-- Tests and instances for app/worker.py: an item whose provider answers, and one that is out of credit.
use signal_map.Common.{
  All, In, inl, ℕ, ◌+◌, ◌≤◌, ◌≡◌, ◌≢◌, refl, String, Bool, false, [], ◌∷◌, arith, count, Result, ok,
  raised,
}
use signal_map.Store.{
  leased, rate_limit, billing, RunQueueItem, Run, Db, is_pending, get_prompt, get_model, get_client,
}
use signal_map.Queue.Claim.{is_candidate, lease_row}
use signal_map.Queue.Samples.{tick, item, second_item, with_queue}
use signal_map.Execution.{Outcome, answered, daily_quota_usage, exceeds_daily_quota, is_counted}
use signal_map.Worker.{
  failed_item, Limits, process_claimed_item, admit_item, admit_loaded, is_expired, has_collision,
  conclude_item, start_run,
}
use signal_map.Worker.Failure.{FollowsFailure, failed_item_outcome}
use signal_map.ProviderErrors.{ProviderError, int, absent, classify_provider_error}
use signal_map.ProviderErrors.Billing.{IsBilling, classify_provider_error-IsBilling}
use signal_map.Worker.Branches.{IsSettled}
use signal_map.Worker.Settled.{
  IsBounded, process_claimed_item_settles, process_claimed_item_attempts,
}
use signal_map.Worker.Runs.{process_claimed_item_leaves_no_run, process_claimed_item_within_quota}

abbrev same : String → String
same s = s

abbrev no_number : ℕ → String
no_number n = ""

abbrev answers : Run → Outcome
answers run = answered (tick + 1)

abbrev limits : Limits
limits = record { dry = false; grace_period_minutes = 60; default_daily_run_limit = 9 }

abbrev db : Db
db = with_queue (item ∷ second_item ∷ [])

abbrev pair_or : Db × RunQueueItem → Result (Db × RunQueueItem) → Db × RunQueueItem
pair_or p (ok q) = q
pair_or p (raised e) = p

abbrev result : Db × RunQueueItem
result = pair_or (db, item) (process_claimed_item same no_number answers limits db item tick)

ran : process_claimed_item same no_number answers limits db item tick ≡ ok (result.0, result.1)
unfolding process_claimed_item admit_item admit_loaded is_expired has_collision exceeds_daily_quota
    daily_quota_usage is_counted start_run get_prompt get_model get_client conclude_item
ran = refl

process_claimed_item_settles_example :
    In result.1 result.0.queue
    × (result.1.id ≡ 1)
    × IsSettled tick result.1
    × ((y : RunQueueItem)
        → In y result.0.queue
        → y.id ≡ 1
        → (y ≡ result.1) × ((is_locked : ℕ → Bool) → is_candidate is_locked tick y ≡ false))
    × ((y : RunQueueItem) → In y db.queue → y.id ≢ 1 → In y result.0.queue)
process_claimed_item_settles_example =
    process_claimed_item_settles same no_number answers limits db result.0 item result.1 tick
      (inl refl) ran

-- the same item, leased
abbrev leased_item : RunQueueItem
leased_item = lease_row "w" tick 10 item

abbrev leased_db : Db
leased_db = with_queue (leased_item ∷ second_item ∷ [])

abbrev leased_result : Db × RunQueueItem
leased_result =
    pair_or (leased_db, leased_item)
      (process_claimed_item same no_number answers limits leased_db leased_item tick)

leased_ran :
    process_claimed_item same no_number answers limits leased_db leased_item tick
    ≡ ok (leased_result.0, leased_result.1)
unfolding process_claimed_item admit_item admit_loaded is_expired has_collision exceeds_daily_quota
    daily_quota_usage is_counted start_run get_prompt get_model get_client conclude_item lease_row
leased_ran = refl

leased_db-IsBounded : All IsBounded leased_db.queue
unfolding lease_row
leased_db-IsBounded = ground arith

leased_status : leased_item.status ≡ leased
unfolding lease_row
leased_status = refl

process_claimed_item_attempts_example : All IsBounded leased_result.0.queue
process_claimed_item_attempts_example =
    process_claimed_item_attempts same no_number answers limits leased_db leased_result.0
      leased_item leased_result.1 tick (inl refl) leased_status leased_ran leased_db-IsBounded

other_id : second_item.id ≢ item.id
other_id e = ground (arith, e)

process_claimed_item_leaves_no_run_example :
    count (λ (r : Run). is_pending r.status) result.0.runs
    ≡ count (λ (r : Run). is_pending r.status) db.runs
process_claimed_item_leaves_no_run_example =
    process_claimed_item_leaves_no_run same no_number answers limits db result.0 item result.1 tick
      tt ran

within : (daily_quota_usage db 7 tick 9).0 ≤ (daily_quota_usage db 7 tick 9).1
unfolding daily_quota_usage get_client
within = omega arith

process_claimed_item_within_quota_example :
    (daily_quota_usage result.0 7 tick 9).0 ≤ (daily_quota_usage result.0 7 tick 9).1
process_claimed_item_within_quota_example =
    process_claimed_item_within_quota same no_number answers limits db result.0 item result.1 tick
      tt ran within

-- rate-limited for the fourth time
abbrev tried_item : RunQueueItem
tried_item = record item { transport_attempts = 3 }

failed_item_outcome_example :
    FollowsFailure tried_item rate_limit tick (failed_item tried_item rate_limit "429" tick)
failed_item_outcome_example = failed_item_outcome tried_item rate_limit "429" tick

-- an empty account that answers with 403
abbrev no_credit : ProviderError
no_credit = record {
  message = "your credit balance is too low";
  status_code = int 403;
  code = absent;
  fields = [];
  is_transport_failure = false;
}

classify_provider_error-IsBilling_example :
    (classify_provider_error same no_number no_credit ≡ billing
      → IsBilling same no_number no_credit)
    × (IsBilling same no_number no_credit
        → classify_provider_error same no_number no_credit ≡ billing)
classify_provider_error-IsBilling_example =
    classify_provider_error-IsBilling same no_number no_credit
