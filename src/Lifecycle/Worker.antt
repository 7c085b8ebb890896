-- ===== src/Lifecycle/Worker.antt =====
-- A pass of the worker refines the machine of statuses; and so does any operation.
use mathlib.Core.Path.{subst}
use signal_map.Common.{
  ℕ, String, ◌≡◌, refl, sym, ap, ◌∙◌, some, arith, inl, inr, In, ok, Result-cases, ok_injective,
  select,
}
use signal_map.Store.{leased, RunQueueItem, Run, Db, is_waiting, save_row}
use signal_map.Store.Rows.{IsKeyed, save_row-IsKeyed, saved_self}
use signal_map.Queue.Enqueue.Passes.{enqueue_one_schedule-AddsNew}
use signal_map.Queue.Lease.{release_expired_leases, reconcile_interrupted_runs, is_stale}
use signal_map.Execution.{Outcome}
use signal_map.Worker.{Limits, settled, admitted, admit_item, conclude_item, process_claimed_item}
use signal_map.Worker.Branches.{IsSettled, admit_item-Admits}
use signal_map.Worker.Conclusion.{conclude_item-IsConcluded}
use signal_map.Lifecycle.{
  Move, processing, finished, operation, Evolves, Step, ticks, claims, releases, reconciles,
  processes, cancels, retries,
}
use signal_map.Lifecycle.View.{view, Simulates, view-In, save-view}
use signal_map.Lifecycle.Refines.{
  save-Move, claim-Simulates, release-Simulates, reconcile-Simulates, cancel-Simulates,
  retry-Simulates, tick-Simulates,
}

-- a settled item is a result of the pass
settled-Move :
    (now : ℕ) (x y : RunQueueItem)
    → x.status ≡ leased
    → IsSettled now y
    → Move processing x.status y.status
unfolding is_waiting
settled-Move now x y l (inl (inl out, end)) = finished refl l (inl out)
settled-Move now x y l (inl (inr (inl out), end)) = finished refl l (inr (inl out))
settled-Move now x y l (inl (inr (inr out), end)) = finished refl l (inr (inr (inl out)))
settled-Move now x y l (inr (waits, later)) = finished refl l (ground (arith, waits))

module _ (lower : String → String) (show : ℕ → String) (provider : Run → Outcome)
    (limits : Limits) where
  process-Simulates :
      (db db' : Db) (item item' : RunQueueItem) (now : ℕ)
      → IsKeyed db.queue
      → In item db.queue
      → item.status ≡ leased
      → process_claimed_item lower show provider limits db item now ≡ ok (db', item')
      → Simulates processing db db'
  unfolding process_claimed_item
  process-Simulates db db' item item' now keyed m l h id =
      elim (Result-cases (admit_item limits db item now)) [
        | inl (e, stopped) ↦ absurd (ground (arith, rw (process_claimed_item, stopped) at h))
        | inr (settled d i, ends) ↦
            let (s, runs, q, same, tries) = admit_item-Admits limits db item now ends in
            let e : d ≡ db' =
              ap (λ (p : Db × RunQueueItem). p.0)
                (ok_injective (rw (process_claimed_item, ends) at h)) in
            subst (λ xs. Evolves processing (view db.queue id) (view xs id))
              (sym q ∙ ap (λ (x : Db). x.queue) e)
              (save-Move processing i db.queue item keyed m (sym same) (settled-Move now item i l s)
                id)
        | inr (admitted d i run model, starts) ↦
            let ((er, ei), runs, q, fits, alone, wet, on) =
              admit_item-Admits limits db item now starts in
            let ((s, same, counted), finishes, q') =
              conclude_item-IsConcluded lower show d i run model now (provider run) in
            let e : (conclude_item lower show d i run model now (provider run)).0 ≡ db' =
              ap (λ (p : Db × RunQueueItem). p.0)
                (ok_injective (rw (process_claimed_item, starts) at h)) in
            let out : RunQueueItem =
              (conclude_item lower show d i run model now (provider run)).1 in
            let kept : i.id ≡ item.id = ap (λ (x : RunQueueItem). x.id) ei in
            let busy : i.status ≡ item.status = ap (λ (x : RunQueueItem). x.status) ei in
            let first : view (save_row i db.queue) id ≡ view db.queue id =
              save-view i db.queue
                (ap (view db.queue) kept ∙ view-In db.queue item keyed m ∙ ap some (sym busy)) id in
            let second : Evolves processing (view (save_row i db.queue) id)
                (view (save_row out (save_row i db.queue)) id) =
              save-Move processing out (save_row i db.queue) i (save_row-IsKeyed i db.queue keyed)
                (saved_self i db.queue item m (sym kept)) (sym same)
                (settled-Move now i out (busy ∙ l) s) id in
            subst (λ xs. Evolves processing (view db.queue id) (view xs id))
              (ap (save_row out) (sym q) ∙ sym q' ∙ ap (λ (x : Db). x.queue) e)
              (subst (λ v. Evolves processing v (view (save_row out (save_row i db.queue)) id))
                first second)
      ]

-- Every operation on the queue makes at most one move of each row, where ids are unique, and only its
-- own: a ticker's pass over a schedule creates rows that are queued or skipped, and a retry one that is
-- queued; a claim leases a row that waits; a release queues a leased row; a reconciliation puts a row in
-- error that is not over; a worker's pass puts its leased row to done, error, skipped, queued or
-- deferred; a cancellation cancels a queued row. No row is removed.
pub Step-Simulates :
    (db db' : Db) → IsKeyed db.queue → (step : Step db db') → Simulates (operation step) db db'
unfolding release_expired_leases reconcile_interrupted_runs
Step-Simulates db db' keyed (ticks fuel set s r e f) =
    rw f (tick-Simulates db r.db (enqueue_one_schedule-AddsNew fuel set db s e))
Step-Simulates db db' keyed (claims is_locked worker_name now lease_minutes e) =
    rw e (claim-Simulates is_locked db worker_name now lease_minutes keyed)
Step-Simulates db db' keyed (releases now e) = rw e (release-Simulates now db.queue)
Step-Simulates db db' keyed (reconciles now e) =
    rw e (reconcile-Simulates now (select (is_stale now) db.runs) db keyed)
Step-Simulates db db' keyed (processes lower show provider limits item item' now m l e) =
    process-Simulates lower show provider limits db db' item item' now keyed m l e
Step-Simulates db db' keyed (cancels item now m e) = cancel-Simulates db db' item now keyed m e
Step-Simulates db db' keyed (retries item now e) = retry-Simulates db db' item now e
