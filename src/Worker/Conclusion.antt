-- ===== src/Worker/Conclusion.antt =====
-- What the second half of `process_claimed_item` leaves, for every answer of the provider.
use signal_map.Common.{
  ℕ, ◌+◌, ◌-◌, ◌≤◌, ◌<◌, ◌≡◌, refl, ap, ◌∙◌, String, true, false, some, arith, if◌then◌else◌, ltb,
  inl, inr, if_both, if_split,
}
use signal_map.Store.{
  save_run, queued, error, ErrorCategory, billing, rate_limit, auth, transient, invalid_request,
  unknown, RunQueueItem, Run, success, Db, AiModel, run_failed, provider_failure, is_waiting,
  is_pending, save_item, save_row, minutes, notify,
}
use signal_map.Notifications.{notify_provider_billing_exhausted, already_notified, is_billing_alert}
use signal_map.ProviderErrors.{classify_provider_error}
use signal_map.Execution.{Outcome, answered, failed_with, execute_run, enqueue_capture}
use signal_map.Worker.{
  failed_item, done_item, notify_failure, conclude_item, backoff_minutes, is_error_status,
  is_retryable_category, max_transport_attempts,
}
use signal_map.Worker.Branches.{IsSettled, SameRuns, backoff-positive}

billing_alert_keeps :
    (db : Db) (code : String) (now : ℕ)
    → let db' = notify_provider_billing_exhausted db code now in
      SameRuns db' db × (db'.queue ≡ db.queue)
unfolding notify_provider_billing_exhausted notify
billing_alert_keeps db code now =
    if_both (λ (d : Db). SameRuns d db × (d.queue ≡ db.queue))
      (already_notified db (is_billing_alert code) (now - minutes 360)) ((refl, refl, refl), refl)
      ((refl, refl, refl), refl)

failure_alert_keeps :
    (db : Db) (item : RunQueueItem) (run : Run) (now : ℕ)
    → let db' =
        if is_error_status item.status
        then notify db (run_failed item.id run.id) db.server_now
        else db in
      SameRuns db' db × (db'.queue ≡ db.queue)
unfolding notify
failure_alert_keeps db item run now =
    if_both (λ (d : Db). SameRuns d db × (d.queue ≡ db.queue)) (is_error_status item.status)
      ((refl, refl, refl), refl) ((refl, refl, refl), refl)

notify_failure_keeps :
    (db : Db) (item : RunQueueItem) (run : Run) (model : AiModel) (c : ErrorCategory) (now : ℕ)
    → let db' = notify_failure db item run model c now in SameRuns db' db × (db'.queue ≡ db.queue)
unfolding notify_failure
notify_failure_keeps db item run model billing now = billing_alert_keeps db model.provider_code now
notify_failure_keeps db item run model rate_limit now = failure_alert_keeps db item run now
notify_failure_keeps db item run model auth now = failure_alert_keeps db item run now
notify_failure_keeps db item run model transient now = failure_alert_keeps db item run now
notify_failure_keeps db item run model invalid_request now = failure_alert_keeps db item run now
notify_failure_keeps db item run model unknown now = failure_alert_keeps db item run now

-- Four counted calls at most: an item with fewer than four that is to wait again has fewer than four.
abbrev pub IsCounted : RunQueueItem → RunQueueItem → Type 0
IsCounted before after =
    (before.transport_attempts ≤ after.transport_attempts)
    × (after.transport_attempts ≤ before.transport_attempts + 1)
    × (before.transport_attempts < max_transport_attempts
        → is_waiting after.status ≡ true
        → after.transport_attempts < max_transport_attempts)

-- A settled item that is the same row, with its provider calls counted.
abbrev pub IsConcluded : ℕ → RunQueueItem → RunQueueItem → Type 0
IsConcluded now before after = IsSettled now after × (after.id ≡ before.id) × IsCounted before after

-- a failure that counts: tried again with a backoff, or the end
retried_or_ended :
    (item told : RunQueueItem) (now : ℕ)
    → told.id ≡ item.id
    → let tries = item.transport_attempts + 1 in
      IsConcluded now item (
        if ltb tries max_transport_attempts
        then record told {
          transport_attempts = tries;
          status = queued;
          scheduled_for = now + minutes (backoff_minutes tries);
        }
        else record told { transport_attempts = tries; status = error; finished_at = some now })
unfolding is_waiting
retried_or_ended item told now same =
    if_split (IsConcluded now item) (ltb (item.transport_attempts + 1) max_transport_attempts)
      (λ few. (
        inr (refl, omega (arith, backoff-positive (item.transport_attempts + 1))),
        same,
        (omega arith, omega arith, (λ _ _. ground (arith, few))),
      ))
      (λ _.
        (inl (inr (inl refl), refl), same, (omega arith, omega arith, (λ _ e. ground (arith, e)))))

-- the item after the adapter's failure
failed_item-IsConcluded :
    (item : RunQueueItem) (c : ErrorCategory) (message : String) (now : ℕ)
    → IsConcluded now item (failed_item item c message now)
unfolding failed_item is_waiting is_retryable_category
failed_item-IsConcluded item billing message now =
    (inr (refl, omega arith), refl, (omega arith, omega arith, (λ few _. few)))
failed_item-IsConcluded item auth message now =
    (inl (inr (inl refl), refl), refl, (omega arith, omega arith, (λ _ e. ground (arith, e))))
failed_item-IsConcluded item invalid_request message now =
    (inl (inr (inl refl), refl), refl, (omega arith, omega arith, (λ _ e. ground (arith, e))))
failed_item-IsConcluded item rate_limit message now =
    retried_or_ended item (record item { last_error = some (provider_failure rate_limit message) })
      now refl
failed_item-IsConcluded item transient message now =
    retried_or_ended item (record item { last_error = some (provider_failure transient message) })
      now refl
failed_item-IsConcluded item unknown message now =
    retried_or_ended item (record item { last_error = some (provider_failure unknown message) }) now
      refl

done_item-IsConcluded : (item : RunQueueItem) (now : ℕ) → IsConcluded now item (done_item item now)
unfolding is_waiting
done_item-IsConcluded item now =
    (inl (inl refl, refl), refl, (omega arith, omega arith, (λ _ e. ground (arith, e))))

-- The run that is saved is the same run, and no longer pending.
abbrev pub IsFinished : Run → Run → Type 0
IsFinished run after =
    (after.id ≡ run.id)
    × (after.prompt_id ≡ run.prompt_id)
    × (after.started_at ≡ run.started_at)
    × (is_pending after.status ≡ false)

abbrev pub FinishesRun : Db → Run → Db → Type 0
FinishesRun db run db' =
    (run' : Run) × IsFinished run run'
    × (db'.runs ≡ save_run run' db.runs)
    × (db'.prompts ≡ db.prompts)
    × (db'.clients ≡ db.clients)

execute_run-FinishesRun :
    (db : Db) (run : Run) (out : Outcome)
    → FinishesRun db run (execute_run db run out) × ((execute_run db run out).queue ≡ db.queue)
unfolding execute_run enqueue_capture is_pending
execute_run-FinishesRun db run (answered finished) = (
  (
    record run { status = success; finished_at = some finished },
    (refl, refl, refl, refl),
    refl,
    refl,
    refl,
  ),
  refl,
)
execute_run-FinishesRun db run (failed_with exc finished) =
    ((_, (refl, refl, refl, refl), refl, refl, refl), refl)

module _ (lower : String → String) (show : ℕ → String) where
  pub conclude_item-IsConcluded :
      (db : Db) (item : RunQueueItem) (run : Run) (model : AiModel) (now : ℕ) (out : Outcome)
      → let (db', item') = conclude_item lower show db item run model now out in
        IsConcluded now item item' × FinishesRun db run db' × (db'.queue ≡ save_row item' db.queue)
  unfolding conclude_item save_item
  conclude_item-IsConcluded db item run model now (answered finished) =
      let (f, q) = execute_run-FinishesRun db run (answered finished) in
      (done_item-IsConcluded item now, f, ap (save_row (done_item item now)) q)
  conclude_item-IsConcluded db item run model now (failed_with exc finished) =
      let c = classify_provider_error lower show exc in
      let item' = failed_item item c exc.message now in
      let ((run', e, er, ep, ec), q) = execute_run-FinishesRun db run (failed_with exc finished) in
      let ((nr, np, nc), nq) =
        notify_failure_keeps (save_item (execute_run db run (failed_with exc finished)) item') item'
          run model c now in
      (
        failed_item-IsConcluded item c exc.message now,
        (run', e, nr ∙ er, np ∙ ep, nc ∙ ec),
        nq ∙ ap (save_row item') q,
      )
