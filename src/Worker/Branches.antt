-- ===== src/Worker/Branches.antt =====
-- What the first half of `process_claimed_item` leaves, on each of its branches.
use mathlib.Core.Path.{subst}
use signal_map.Common.{
  ℕ, ◌+◌, ◌≤◌, ◌<◌, ◌≡◌, ◌⊎◌, refl, true, false, not, some, arith, inl, inr, Bool-cases,
  Option-cases, if_both, if_split, ok, [], ◌∷◌, ◌++◌, ok_injective,
}
use signal_map.Store.{
  done, error, skipped, deferred, SkipReason, grace_expired, inactive_prompt, inactive_model,
  quota_exceeded, dry_run, QuotaReason, daily_run_limit, RunQueueItem, Db, AiModel, Prompt,
  is_waiting, save_item, save_row, minutes, notify, get_prompt, get_model,
}
use signal_map.Notifications.{notify_quota_exceeded, already_notified, is_quota_alert, day_start}
use signal_map.Execution.{exceeds_daily_quota}
use signal_map.Worker.{
  Limits, Admission, settled, admitted, settle, admit_item, admit_loaded, start_run, skip_item,
  backoff_minutes, has_collision, new_run, with_run, is_expired,
}

-- Done, in error or skipped at `now`, or waiting with a due time after `now`.
abbrev pub IsSettled : ℕ → RunQueueItem → Type 0
IsSettled now item =
    (((item.status ≡ done) ⊎ (item.status ≡ error) ⊎ (item.status ≡ skipped))
      × (item.finished_at ≡ some now))
    ⊎ ((is_waiting item.status ≡ true) × (now < item.scheduled_for))

pub backoff-positive : (n : ℕ) → 1 ≤ backoff_minutes n
unfolding backoff_minutes
backoff-positive n = ground arith

skip-IsSettled :
    (item : RunQueueItem) (r : SkipReason) (now : ℕ) → IsSettled now (skip_item item r now)
unfolding skip_item
skip-IsSettled item r now = inl (inr (inr refl), refl)

deferred-IsSettled :
    (item : RunQueueItem) (now n : ℕ)
    → IsSettled now
        (record item { status = deferred; scheduled_for = now + minutes (backoff_minutes n) })
unfolding is_waiting
deferred-IsSettled item now n = inr (refl, omega (arith, backoff-positive n))

-- Two states that have the same runs, prompts and clients.
abbrev pub SameRuns : Db → Db → Type 0
SameRuns a b = (a.runs ≡ b.runs) × (a.prompts ≡ b.prompts) × (a.clients ≡ b.clients)

-- What the first half leaves: the item settled and the runs unchanged, or one new pending run that
-- the saved item names, and every guard passed.
abbrev pub Admits : Limits → Db → RunQueueItem → ℕ → Admission → Type 0
Admits limits db item now (settled db' i) =
    IsSettled now i
    × SameRuns db' db
    × (db'.queue ≡ save_row i db.queue)
    × (i.id ≡ item.id)
    × (i.transport_attempts ≡ item.transport_attempts)
Admits limits db item now (admitted db' i run model) =
    ((run ≡ new_run db item) × (i ≡ with_run item run))
    × ((db'.runs ≡ db.runs ++ (run ∷ [])) × (db'.prompts ≡ db.prompts) × (db'.clients ≡ db.clients))
    × (db'.queue ≡ save_row i db.queue)
    × (exceeds_daily_quota db item.client_id now limits.default_daily_run_limit ≡ false)
    × (has_collision db item ≡ false)
    × (limits.dry ≡ false)
    × (model.is_active ≡ true)

settle-Admits :
    (limits : Limits) (db : Db) (item i : RunQueueItem) (now : ℕ)
    → IsSettled now i
    → i.id ≡ item.id
    → i.transport_attempts ≡ item.transport_attempts
    → Admits limits db item now (settle db i)
unfolding save_item
settle-Admits limits db item i now s e t = (s, (refl, refl, refl), refl, e, t)

quota_alert_keeps :
    (db : Db) (c now : ℕ) (r : QuotaReason)
    → let db' = notify_quota_exceeded db c r now in SameRuns db' db × (db'.queue ≡ db.queue)
unfolding notify_quota_exceeded notify
quota_alert_keeps db c now r =
    if_both (λ (d : Db). SameRuns d db × (d.queue ≡ db.queue))
      (already_notified db (is_quota_alert c) (day_start now)) ((refl, refl, refl), refl)
      ((refl, refl, refl), refl)

skip_id : (item : RunQueueItem) (r : SkipReason) (now : ℕ) → (skip_item item r now).id ≡ item.id
unfolding skip_item
skip_id item r now = refl

skip_tries :
    (item : RunQueueItem) (r : SkipReason) (now : ℕ)
    → (skip_item item r now).transport_attempts ≡ item.transport_attempts
unfolding skip_item
skip_tries item r now = refl

quota-Admits :
    (limits : Limits) (db : Db) (item : RunQueueItem) (now : ℕ)
    → Admits limits db item now (
        settled
          (notify_quota_exceeded
            (save_item db (skip_item item quota_exceeded now))
            item.client_id
            daily_run_limit
            now)
          (skip_item item quota_exceeded now))
unfolding save_item
quota-Admits limits db item now =
    let (same, q) =
      quota_alert_keeps (save_item db (skip_item item quota_exceeded now)) item.client_id now
        daily_run_limit in
    (
      skip-IsSettled item quota_exceeded now,
      same,
      q,
      skip_id item quota_exceeded now,
      skip_tries item quota_exceeded now,
    )

skip-Admits :
    (limits : Limits) (db : Db) (item : RunQueueItem) (r : SkipReason) (now : ℕ)
    → Admits limits db item now (settle db (skip_item item r now))
unfolding skip_item
skip-Admits limits db item r now =
    settle-Admits limits db item (skip_item item r now) now (skip-IsSettled item r now) refl refl

start-Admits :
    (limits : Limits) (db : Db) (item : RunQueueItem) (now : ℕ) (model : AiModel)
    → exceeds_daily_quota db item.client_id now limits.default_daily_run_limit ≡ false
    → has_collision db item ≡ false
    → limits.dry ≡ false
    → model.is_active ≡ true
    → Admits limits db item now (start_run db item model)
unfolding start_run save_item
start-Admits limits db item now model q c d m = ((refl, refl), (refl, refl, refl), refl, q, c, d, m)

admit_loaded-Admits :
    (limits : Limits) (db : Db) (item : RunQueueItem) (now : ℕ) (prompt : Prompt) (model : AiModel)
    → Admits limits db item now (admit_loaded limits db item now prompt model)
unfolding admit_loaded
admit_loaded-Admits limits db item now prompt model =
    if_both P (not prompt.is_active) (skip-Admits limits db item inactive_prompt now) (
      if_split P (not model.is_active) (λ _. skip-Admits limits db item inactive_model now)
        (λ m.
          if_split P (exceeds_daily_quota db item.client_id now limits.default_daily_run_limit)
            (λ _. quota-Admits limits db item now)
            (λ q.
              if_split P (has_collision db item)
                (λ _.
                  settle-Admits limits db item _ now (deferred-IsSettled item now item.attempts)
                    refl refl)
                (λ c.
                  if_split P limits.dry (λ _. skip-Admits limits db item dry_run now)
                    (λ d. start-Admits limits db item now model q c d (ground (arith, m)))))))
  where
    P : Admission → Type 0
    P = Admits limits db item now

pub admit_item-Admits :
    (limits : Limits) (db : Db) (item : RunQueueItem) (now : ℕ) {a : Admission}
    → admit_item limits db item now ≡ ok a
    → Admits limits db item now a
unfolding admit_item
admit_item-Admits limits db item now {a} h =
    elim (Bool-cases (is_expired item now limits.grace_period_minutes)) [
      | inl old ↦
          subst (Admits limits db item now) (ok_injective (rw old at h))
            (skip-Admits limits db item grace_expired now)
      | inr fresh ↦ elim (Option-cases (get_prompt db item.prompt_id)) [
        | inl gone ↦ absurd (ground (arith, h, fresh, gone))
        | inr (prompt, ep) ↦ elim (Option-cases (get_model db item.model_id)) [
          | inl gone ↦ elim (Bool-cases (not prompt.is_active)) [
            | inl off ↦
                subst (Admits limits db item now)
                  {x = settle db (skip_item item inactive_prompt now)}
                  (ok_injective (ground (arith, h, fresh, ep, gone, off)))
                  (skip-Admits limits db item inactive_prompt now)
            | inr on ↦ absurd (ground (arith, h, fresh, ep, gone, on))
          ]
          | inr (model, em) ↦
              subst (Admits limits db item now) (ok_injective (ground (arith, h, fresh, ep, em)))
                (admit_loaded-Admits limits db item now prompt model)
        ]
      ]
    ]
