-- ===== src/Worker/Failure.antt =====
-- Which failures of the adapter end an item, and which wait.
use signal_map.Common.{
  ℕ, ◌+◌, ◌≤◌, ◌≡◌, ◌≢◌, ◌⊎◌, refl, inl, inr, String, true, some, arith, if◌then◌else◌, if_split,
  ltb,
}
use signal_map.Store.{
  queued, error, deferred, ErrorCategory, billing, rate_limit, auth, transient, invalid_request,
  unknown, RunQueueItem, minutes, provider_failure,
}
use signal_map.Worker.{
  failed_item, backoff_minutes, is_retryable_category, max_transport_attempts,
  billing_retry_minutes,
}

-- The item's end: a category that is never tried again, or the last provider call.
abbrev pub Ends : RunQueueItem → ErrorCategory → Type 0
Ends item c =
    (c ≢ billing)
    × (((c ≡ auth) ⊎ (c ≡ invalid_request))
        ⊎ (max_transport_attempts ≤ item.transport_attempts + 1))

-- What the failure of a category makes of the item.
abbrev pub FollowsFailure : RunQueueItem → ErrorCategory → ℕ → RunQueueItem → Type 0
FollowsFailure item c now item' =
    (item'.status ≡ error → Ends item c)
    × (Ends item c → item'.status ≡ error)
    × (c ≡ billing
        → (item'.status ≡ deferred)
          × (item'.scheduled_for ≡ now + minutes billing_retry_minutes)
          × (item'.transport_attempts ≡ item.transport_attempts))
    × (c ≢ billing → item'.transport_attempts ≡ item.transport_attempts + 1)

retryable_FollowsFailure :
    (item told : RunQueueItem) (c : ErrorCategory) (now : ℕ)
    → c ≢ billing
    → c ≢ auth
    → c ≢ invalid_request
    → let tries = item.transport_attempts + 1 in
      FollowsFailure item c now (
        if ltb tries max_transport_attempts
        then record told {
          transport_attempts = tries;
          status = queued;
          scheduled_for = now + minutes (backoff_minutes tries);
        }
        else record told { transport_attempts = tries; status = error; finished_at = some now })
retryable_FollowsFailure item told c now nb na ni =
    if_split (FollowsFailure item c now) (ltb (item.transport_attempts + 1) max_transport_attempts)
      (λ few. (
        (λ h. absurd (ground (arith, h))),
        (λ e. absurd (never few e.1)),
        (λ b. absurd (nb b)),
        (λ _. refl),
      ))
      (λ many.
        ((λ h. (nb, inr (ground (arith, many)))), (λ _. refl), (λ b. absurd (nb b)), (λ _. refl)))
  where
    never :
        ltb (item.transport_attempts + 1) max_transport_attempts ≡ true
        → ((c ≡ auth) ⊎ (c ≡ invalid_request))
          ⊎ (max_transport_attempts ≤ item.transport_attempts + 1)
        → ⊥
    never few (inl (inl h)) = na h
    never few (inl (inr h)) = ni h
    never few (inr h) = ground (arith, few, h)

-- A failure ends the item in error exactly when it is not a billing failure and either the category
-- is auth or invalid_request or the counted calls reach four. A billing failure defers the item by
-- 30 minutes and is not counted; every other failure is counted.
pub failed_item_outcome :
    (item : RunQueueItem) (c : ErrorCategory) (message : String) (now : ℕ)
    → FollowsFailure item c now (failed_item item c message now)
unfolding failed_item is_retryable_category
failed_item_outcome item billing message now = (
  (λ h. absurd (ground (arith, h))),
  (λ e. absurd (e.0 refl)),
  (λ _. (refl, refl, refl)),
  (λ n. absurd (n refl)),
)
failed_item_outcome item auth message now = (
  (λ _. ((λ e. ground (arith, e)), inl (inl refl))),
  (λ _. refl),
  (λ e. absurd (ground (arith, e))),
  (λ _. refl),
)
failed_item_outcome item invalid_request message now = (
  (λ _. ((λ e. ground (arith, e)), inl (inr refl))),
  (λ _. refl),
  (λ e. absurd (ground (arith, e))),
  (λ _. refl),
)
failed_item_outcome item rate_limit message now =
    retryable_FollowsFailure item
      (record item { last_error = some (provider_failure rate_limit message) }) rate_limit now
      (λ e. ground (arith, e)) (λ e. ground (arith, e)) (λ e. ground (arith, e))
failed_item_outcome item transient message now =
    retryable_FollowsFailure item
      (record item { last_error = some (provider_failure transient message) }) transient now
      (λ e. ground (arith, e)) (λ e. ground (arith, e)) (λ e. ground (arith, e))
failed_item_outcome item unknown message now =
    retryable_FollowsFailure item
      (record item { last_error = some (provider_failure unknown message) }) unknown now
      (λ e. ground (arith, e)) (λ e. ground (arith, e)) (λ e. ground (arith, e))
