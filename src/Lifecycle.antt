-- ===== src/Lifecycle.antt =====
-- The life of a row of run_queue, abstractly: which status follows which, whatever else the row holds.
-- The operations of app/services/queue.py and app/worker.py are the steps; that each of them moves every
-- row along this machine is in Refines.
pub mod View
pub mod Refines
pub mod Worker
pub mod Over
mod Examples
use signal_map.Common.{
  ℕ, String, ◌≡◌, ◌⊎◌, Bool, true, false, Option, none, some, In, Result, ok, List, [], ◌∷◌,
}
use signal_map.Store.{
  Status, queued, leased, done, error, skipped, deferred, cancelled, RunQueueItem, Run, RunSchedule,
  Db, is_waiting,
}
use signal_map.Queue.Due.{Settings}
use signal_map.Queue.Enqueue.{enqueue_one_schedule, EnqueueResult}
use signal_map.Queue.Claim.{claim_next}
use signal_map.Queue.Lease.{release_expired_leases, reconcile_interrupted_runs, is_over}
use signal_map.Queue.Retry.{create_retry, cancel_queued_item}
use signal_map.Execution.{Outcome}
use signal_map.Worker.{Limits, process_claimed_item}

-- the operations, for what each may do to a row
pub data Operation : Type 0 where
  ticking claiming releasing reconciling processing cancelling retrying : Operation

-- where a worker's pass puts its row
abbrev pub IsResult : Status → Type 0
IsResult t = (t ≡ done) ⊎ (t ≡ error) ⊎ (t ≡ skipped) ⊎ (t ≡ queued) ⊎ (t ≡ deferred)

-- the one move that an operation may make of a row
pub data Move (o : Operation) (s t : Status) : Type 0 where
  claimed : o ≡ claiming → is_waiting s ≡ true → t ≡ leased → Move o s t
  freed : o ≡ releasing → s ≡ leased → t ≡ queued → Move o s t
  interrupted : o ≡ reconciling → is_over s ≡ false → t ≡ error → Move o s t
  finished : o ≡ processing → s ≡ leased → IsResult t → Move o s t
  called_off : o ≡ cancelling → s ≡ queued → t ≡ cancelled → Move o s t

-- the status of a row that an operation creates
pub data Birth (o : Operation) (s : Status) : Type 0 where
  enqueued : o ≡ ticking → (s ≡ queued) ⊎ (s ≡ skipped) → Birth o s
  retried : o ≡ retrying → s ≡ queued → Birth o s

-- a row over one operation: it stays, is created, or makes one move of that operation
pub data Evolves (o : Operation) (a b : Option Status) : Type 0 where
  stays : b ≡ a → Evolves o a b
  created : (s : Status) → a ≡ none → Birth o s → b ≡ some s → Evolves o a b
  moves : (s t : Status) → a ≡ some s → Move o s t → b ≡ some t → Evolves o a b

-- One operation on the database. The worker's item is a leased row; a cancellation's is a row.
pub data Step (db db' : Db) : Type 0 where
  ticks :
      (fuel : ℕ) (set : Settings) (s : RunSchedule) (r : EnqueueResult)
      → enqueue_one_schedule fuel set db s ≡ ok r
      → db' ≡ r.db
      → Step db db'
  claims :
      (is_locked : ℕ → Bool) (worker_name : String) (now lease_minutes : ℕ)
      → db' ≡ (claim_next is_locked db worker_name now lease_minutes).0
      → Step db db'
  releases : (now : ℕ) → db' ≡ (release_expired_leases db now).0 → Step db db'
  reconciles : (now : ℕ) → db' ≡ (reconcile_interrupted_runs db now).0 → Step db db'
  processes :
      (lower : String → String) (show : ℕ → String) (provider : Run → Outcome) (limits : Limits)
      (item item' : RunQueueItem) (now : ℕ)
      → In item db.queue
      → item.status ≡ leased
      → process_claimed_item lower show provider limits db item now ≡ ok (db', item')
      → Step db db'
  cancels :
      (item : RunQueueItem) (now : ℕ)
      → In item db.queue
      → cancel_queued_item db item now ≡ ok db'
      → Step db db'
  retries : (item : RunQueueItem) (now : ℕ) → create_retry db item now ≡ ok db' → Step db db'

-- the operation of a step
abbrev pub operation : {db db' : Db} → Step db db' → Operation
operation (ticks fuel set s r e f) = ticking
operation (claims is_locked worker_name now lease_minutes e) = claiming
operation (releases now e) = releasing
operation (reconciles now e) = reconciling
operation (processes lower show provider limits item item' now m l e) = processing
operation (cancels item now m e) = cancelling
operation (retries item now e) = retrying
