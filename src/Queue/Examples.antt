-- ===== src/Queue/Examples.antt =====
-- Tests and instances for app/services/queue.py.
use signal_map.Common.{
  ℕ, ◌+◌, ◌≡◌, ◌≢◌, ◌≤◌, ◌⊎◌, refl, inl, inr, String, List, All, Bool, true, false, Option, none,
  some, [], ◌∷◌, ◌++◌, arith, In, count, ok, raised, integrity_error, length, value_error,
}
use signal_map.Store.{
  queued, leased, deferred, done, error, skipped, cancelled, schedule, RunQueueItem, Db, is_pending,
  minutes, RunStatus, same_occurrence, is_waiting, get_prompt, get_client, save_item, save_row,
}
use signal_map.Store.Rows.{IsKeyed}
use signal_map.Queue.Samples.{
  tick, item, second_item, failed_item_1, failed_item_2, abandoned_item, stuck_item, over_run,
  daily_twice, empty_db, with_queue, combos, window,
}
use signal_map.Queue.Insert.{insert_fanout, insert_queue_item, insert_row, queue_row}
use signal_map.Queue.Insert.Keys.{IsUnique}
use signal_map.Queue.Insert.Growth.{SameKey, insert_fanout_again}
use signal_map.Queue.Claim.{
  claim_next, first_ordered, is_candidate, comes_before, earlier_of, lease_row,
}
use signal_map.Queue.Claim.Best.{Claims, Precedes, claim_next-best}
use signal_map.Queue.Claim.Exclusive.{claim_next_exclusive}
use signal_map.Queue.Lease.{
  is_abandoned, is_stale, is_over, release_expired_leases, reconcile_interrupted_runs,
}
use signal_map.Queue.Lease.Release.{freed, release_then_claim}
use signal_map.Queue.Lease.Reconcile.{no_stale_run_left}
use signal_map.Queue.Lease.Stuck.{stuck_lease}
use signal_map.Queue.Retry.{
  create_retry, cancel_queued_item, retry_all_errors, matches_search, is_error, is_retryable,
  retry_row, add_row,
}
use signal_map.Queue.Retry.Single.{
  create_retry_appends, create_retry_outcome, HasKey, cancel_queued_item_outcome, ended,
}
use signal_map.Queue.Retry.Bulk.{retry_all_errors_collides}

inserts_two : length (insert_fanout empty_db daily_twice window combos).queue ≡ 2
unfolding insert_fanout insert_queue_item insert_row queue_row same_occurrence
inserts_two = refl

-- the window's rows, both claimed since
abbrev db_inserted : Db
db_inserted = insert_fanout empty_db daily_twice window combos

abbrev lease_all : List RunQueueItem → List RunQueueItem
lease_all [] = []
lease_all (x ∷ xs) = lease_row "w" tick 10 x ∷ lease_all xs

abbrev db_claimed : Db
db_claimed = record db_inserted { queue = lease_all db_inserted.queue }

keys_kept : All (λ x. (y : RunQueueItem) × In y db_claimed.queue × SameKey x y) db_inserted.queue
unfolding insert_fanout insert_queue_item insert_row queue_row same_occurrence lease_row
keys_kept = (
  (_, inl refl, (refl, refl, refl, refl, refl)),
  ((_, inr (inl refl), (refl, refl, refl, refl, refl)), tt),
)

insert_fanout_again_example :
    (insert_fanout db_claimed daily_twice window combos).queue ≡ db_claimed.queue
insert_fanout_again_example =
    insert_fanout_again empty_db db_claimed daily_twice daily_twice window window combos keys_kept
      refl refl

abbrev none_locked : ℕ → Bool
none_locked i = false

abbrev claimed : Db × Option RunQueueItem
claimed = claim_next none_locked (with_queue (item ∷ second_item ∷ [])) "w" tick 10

claims_second : claimed ≡ (
  save_item (with_queue (item ∷ second_item ∷ [])) (lease_row "w" tick 10 second_item),
  some (lease_row "w" tick 10 second_item),
)
unfolding claim_next first_ordered is_candidate is_waiting comes_before earlier_of
claims_second = refl

abbrev db_1 : Db
db_1 = save_item (with_queue (item ∷ second_item ∷ [])) (lease_row "w" tick 10 second_item)

claims_first :
    claim_next none_locked db_1 "v" tick 10
    ≡ (save_item db_1 (lease_row "v" tick 10 item), some (lease_row "v" tick 10 item))
unfolding claim_next first_ordered is_candidate is_waiting comes_before earlier_of save_item
    save_row lease_row
claims_first = refl

claim_next-best_example :
    Claims none_locked
      (with_queue (item ∷ second_item ∷ []))
      "w"
      tick
      10
      (claim_next none_locked (with_queue (item ∷ second_item ∷ [])) "w" tick 10)
claim_next-best_example =
    claim_next-best none_locked (with_queue (item ∷ second_item ∷ [])) "w" tick 10

claim_next_exclusive_example :
    (lease_row "w" tick 10 second_item).id ≢ (lease_row "v" tick 10 item).id
claim_next_exclusive_example =
    claim_next_exclusive none_locked none_locked (with_queue (item ∷ second_item ∷ [])) db_1
      (save_item db_1 (lease_row "v" tick 10 item)) "w" "v" tick tick 10 10
      (lease_row "w" tick 10 second_item) (lease_row "v" tick 10 item) claims_second claims_first

other_id : item.id ≢ (lease_row "w" tick 10 second_item).id
unfolding lease_row
other_id e = ground (arith, e)

abandoned : is_abandoned tick abandoned_item ≡ true
unfolding is_abandoned
abandoned = refl

abbrev db_released : Db
db_released = (release_expired_leases (with_queue (abandoned_item ∷ [])) tick).0

release_then_claim_example :
    (count (is_abandoned tick) db_released.queue ≡ 0)
    × ((y : RunQueueItem)
        → In y (abandoned_item ∷ [])
        → is_abandoned tick y ≡ true
        → In (freed y) db_released.queue
          × (y.scheduled_for ≤ tick
              → none_locked y.id ≡ false
              → (is_candidate none_locked tick (freed y) ≡ true)
                × (a : RunQueueItem) × In a db_released.queue
                × ((claim_next none_locked db_released "v" tick 10).1
                    ≡ some (lease_row "v" tick 10 a))
                × Precedes a (freed y)))
release_then_claim_example =
    release_then_claim none_locked (with_queue (abandoned_item ∷ [])) "v" tick 10

abbrev db_stale : Db
db_stale = record empty_db {
  queue = stuck_item ∷ failed_item_1 ∷ [];
  runs = (record over_run { status = RunStatus.pending } ∷ []);
}

no_stale_run_left_example :
    count (is_stale (minutes 31)) (reconcile_interrupted_runs db_stale (minutes 31)).0.runs ≡ 0
no_stale_run_left_example = no_stale_run_left db_stale (minutes 31)

IsKeyed-stale : IsKeyed (stuck_item ∷ failed_item_1 ∷ [])
IsKeyed-stale x y mx my e = ground (arith, mx, my, e)

failed_over : is_over failed_item_1.status ≡ true
unfolding is_over
failed_over = refl

IsKeyed-stuck : IsKeyed (stuck_item ∷ [])
IsKeyed-stuck x y mx my e = ground (arith, mx, my, e)

abbrev db_stuck : Db
db_stuck = record (with_queue (stuck_item ∷ [])) { runs = over_run ∷ [] }

over_is_not_pending : is_pending over_run.status ≡ false
unfolding is_pending
over_is_not_pending = refl

stuck_lease_example :
    In stuck_item (reconcile_interrupted_runs (release_expired_leases db_stuck tick).0 tick).0.queue
    × (is_candidate none_locked (tick + tick) stuck_item ≡ false)
stuck_lease_example =
    stuck_lease db_stuck stuck_item 9 tick none_locked (tick + tick) IsKeyed-stuck (inl refl) refl
      refl ((λ _. over_is_not_pending), tt)

abbrev db_failed : Db
db_failed = with_queue (failed_item_1 ∷ failed_item_2 ∷ [])

IsUnique-failed : IsUnique db_failed.queue
unfolding same_occurrence
IsUnique-failed = ((refl, tt), (tt, tt))

retried :
    create_retry db_failed failed_item_1 tick
    ≡ ok (record db_failed {
      queue = db_failed.queue ++ (retry_row db_failed failed_item_1 tick ∷ []);
      next_item_id = 11;
    })
unfolding create_retry is_retryable add_row same_occurrence retry_row
retried = refl

create_retry_appends_example :
    (row : RunQueueItem) × (db_failed.queue ++ (retry_row db_failed failed_item_1 tick ∷ [])
      ≡ db_failed.queue ++ (row ∷ []))
    × (row.status ≡ queued)
    × (row.scheduled_for ≡ tick)
    × (row.retry_of_id ≡ some 3)
    × (row.schedule_id ≡ some 5)
    × (row.source ≡ schedule)
    × (row.client_id ≡ 7)
    × (row.prompt_id ≡ 2)
    × (row.model_id ≡ 3)
    × (row.market_id ≡ 1)
    × (row.persona_id ≡ 1)
    × (row.priority ≡ 10)
    × (row.batch_id ≡ none)
    × (row.run_id ≡ none)
    × (row.leased_by ≡ none)
    × (row.attempts ≡ 0)
    × (row.transport_attempts ≡ 0)
    × IsUnique (db_failed.queue ++ (retry_row db_failed failed_item_1 tick ∷ []))
create_retry_appends_example =
    create_retry_appends db_failed failed_item_1 tick IsUnique-failed retried

create_retry_outcome_example :
    (((error ≡ queued) ⊎ (error ≡ leased) ⊎ (error ≡ deferred) ⊎ (error ≡ done))
      → create_retry db_failed failed_item_1 tick ≡ raised value_error)
    × (((error ≡ error) ⊎ (error ≡ skipped) ⊎ (error ≡ cancelled))
        → ((y : RunQueueItem)
            → In y db_failed.queue
            → HasKey failed_item_1 tick y
            → create_retry db_failed failed_item_1 tick ≡ raised integrity_error)
          × (((y : RunQueueItem) → In y db_failed.queue → ¬ HasKey failed_item_1 tick y)
              → (db' : Db) × (create_retry db_failed failed_item_1 tick ≡ ok db')))
create_retry_outcome_example = create_retry_outcome db_failed failed_item_1 tick

cancel_queued_item_outcome_example :
    ((item.status ≡ queued)
      × (db' : Db) × (cancel_queued_item (with_queue (item ∷ [])) item tick ≡ ok db')
      × (In item (item ∷ []) → In (ended item tick) db'.queue)
      × ((y : RunQueueItem) → In y (item ∷ []) → y.id ≢ item.id → In y db'.queue))
    ⊎ ((item.status ≢ queued)
        × (cancel_queued_item (with_queue (item ∷ [])) item tick ≡ raised value_error))
cancel_queued_item_outcome_example = cancel_queued_item_outcome (with_queue (item ∷ [])) item tick

-- an ILIKE that matches nothing, and the empty search, which matches everything
abbrev no_match : String → String → Bool
no_match a b = false

failed_1_matches : matches_search no_match db_failed "" failed_item_1 ≡ true
unfolding matches_search is_error get_prompt get_client
failed_1_matches = refl

failed_2_matches : matches_search no_match db_failed "" failed_item_2 ≡ true
unfolding matches_search is_error get_prompt get_client
failed_2_matches = refl

retry_all_errors_collides_example :
    (retry_all_errors no_match db_failed "" tick).1 ≡ raised integrity_error
retry_all_errors_collides_example =
    retry_all_errors_collides tick no_match db_failed "" failed_item_1 failed_item_2
      (inl (refl, inl refl)) failed_1_matches failed_2_matches (5, refl, refl, refl, refl, refl)
