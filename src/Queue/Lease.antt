-- ===== src/Queue/Lease.antt =====
-- `release_expired_leases` and `reconcile_interrupted_runs`: what the tick does about dead workers.
pub mod Release
pub mod Reconcile
pub mod Stuck
use signal_map.Common.{
  ℕ, ◌+◌, ◌-◌, Bool, true, false, ◌&&◌, not, Option, none, some, List, [], ◌∷◌, ltb, ◌==◌,
  if◌then◌else◌, is_before, is_none, is_id, count, select, find_first, length,
}
use signal_map.Store.{
  save_run, Status, queued, leased, done, error, skipped, deferred, cancelled, Reason, interrupted,
  RunQueueItem, RunStatus, pending, failed, Run, Db, minutes, save_item, is_leased, is_pending,
}

-- the WHERE clause: a lease that has expired with no run started
unfoldable pub is_abandoned : ℕ → RunQueueItem → Bool
unfolding is_leased
is_abandoned now row =
    is_leased row.status && (is_before row.leased_until now && is_none row.run_id)

unfoldable pub release_row : ℕ → RunQueueItem → RunQueueItem
release_row now row =
    if is_abandoned now row
    then record row { status = queued; leased_by = none; leased_until = none }
    else row

unfoldable pub release_rows : ℕ → List RunQueueItem → List RunQueueItem
release_rows now [] = []
release_rows now (x ∷ xs) = release_row now x ∷ release_rows now xs

-- the table and the number of rows updated
unfoldable pub release_expired_leases : Db → ℕ → Db × ℕ
release_expired_leases db now =
    (record db { queue = release_rows now db.queue }, count (is_abandoned now) db.queue)

-- Run.status == 'pending' and Run.started_at < now - 30 minutes
unfoldable pub is_stale : ℕ → Run → Bool
unfolding is_pending
is_stale now run = is_pending run.status && ltb (run.started_at + minutes 30) now

unfoldable pub is_over : Status → Bool
is_over done = true
is_over error = true
is_over cancelled = true
is_over _ = false

unfoldable pub fail_run : ℕ → Run → Run
fail_run now run = record run {
  status = failed;
  finished_at = some now;
  error_message = some interrupted;
}

unfoldable pub fail_item : ℕ → RunQueueItem → RunQueueItem
unfolding is_over
fail_item now item =
    if is_over item.status
    then item
    else record item { status = error; last_error = some interrupted; finished_at = some now }

-- the body of the loop for one stale run and the item that points at it
unfoldable pub reconcile_run : ℕ → Db → Run → Db
unfolding fail_run save_run fail_item save_item
reconcile_run now db run =
    let db' : Db = record db { runs = save_run (fail_run now run) db.runs } in
    elim (find_first (λ (i : RunQueueItem). is_id i.run_id run.id) db.queue) [
      | none ↦ db'
      | some item ↦ save_item db' (fail_item now item)
    ]

unfoldable pub reconcile_each : ℕ → Db → List Run → Db
unfolding reconcile_run
reconcile_each now db [] = db
reconcile_each now db (r ∷ rs) = reconcile_each now (reconcile_run now db r) rs

unfoldable pub reconcile_interrupted_runs : Db → ℕ → Db × ℕ
unfolding reconcile_each
reconcile_interrupted_runs db now =
    let stale = select (is_stale now) db.runs in (reconcile_each now db stale, length stale)
