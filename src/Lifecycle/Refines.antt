-- ===== src/Lifecycle/Refines.antt =====
-- Each operation refines the machine of statuses.
use mathlib.Core.Path.{subst}
use signal_map.Common.{
  ℕ, String, ◌≡◌, refl, sym, ap, Bool, true, Option, none, some, List, [], ◌∷◌, arith, Bool-cases,
  inl, inr, In, ok, any, All, ◌++◌, ◌∙◌,
}
use signal_map.Store.{
  Status, queued, error, cancelled, RunQueueItem, Run, Db, is_leased, save_row, save_item,
  same_occurrence,
}
use signal_map.Store.Rows.{IsKeyed, save_row-IsKeyed, find_first_found}
use signal_map.Queue.Enqueue.Passes.{IsNew, AddsNew}
use signal_map.Queue.Claim.{claim_next, first_ordered, is_candidate, lease_row}
use signal_map.Queue.Claim.Best.{Answers, first_ordered-Answers}
use signal_map.Queue.Lease.{
  is_abandoned, release_row, release_rows, is_over, fail_item, reconcile_run, reconcile_each,
}
use signal_map.Queue.Lease.Reconcile.{pointing, rows_after, queue-reconcile_run}
use signal_map.Queue.Retry.{
  create_retry, cancel_queued_item, is_queued, add_row, retry_row, is_retryable,
}
use signal_map.Lifecycle.{
  Operation, ticking, claiming, releasing, reconciling, cancelling, retrying, Move, claimed, freed,
  interrupted, finished, called_off, Birth, enqueued, retried, Evolves, stays, created, moves,
}
use signal_map.Lifecycle.View.{view, Simulates, view-In, view-append, cons-Evolves, save-Evolves}

-- a save of a row of the table, by one move
pub save-Move :
    (o : Operation) (item : RunQueueItem) (xs : List RunQueueItem) (x : RunQueueItem)
    → IsKeyed xs
    → In x xs
    → x.id ≡ item.id
    → Move o x.status item.status
    → (id : ℕ) → Evolves o (view xs id) (view (save_row item xs) id)
save-Move o item xs x keyed m e h = save-Evolves o item xs (
    subst (λ i. Evolves o (view xs i) (some item.status)) e
      (moves x.status item.status (view-In xs x keyed m) h refl))

leased_id :
    (worker_name : String) (now lease_minutes : ℕ) (item : RunQueueItem)
    → item.id ≡ (lease_row worker_name now lease_minutes item).id
unfolding lease_row
leased_id worker_name now lease_minutes item = refl

leases :
    (is_locked : ℕ → Bool) (worker_name : String) (now lease_minutes : ℕ) (item : RunQueueItem)
    → is_candidate is_locked now item ≡ true
    → Move claiming item.status (lease_row worker_name now lease_minutes item).status
unfolding is_candidate lease_row
leases is_locked worker_name now lease_minutes item h = claimed refl (ground (arith, h)) refl

pub claim-Simulates :
    (is_locked : ℕ → Bool) (db : Db) (worker_name : String) (now lease_minutes : ℕ)
    → IsKeyed db.queue
    → Simulates claiming db (claim_next is_locked db worker_name now lease_minutes).0
unfolding claim_next save_item
claim-Simulates is_locked db worker_name now lease_minutes keyed =
    go (first_ordered (is_candidate is_locked now) db.queue)
      (first_ordered-Answers (is_candidate is_locked now) db.queue) refl
  where
    go :
        (o : Option RunQueueItem)
        → Answers (is_candidate is_locked now) db.queue o
        → first_ordered (is_candidate is_locked now) db.queue ≡ o
        → Simulates claiming db (claim_next is_locked db worker_name now lease_minutes).0
    go none a e =
        let same : (claim_next is_locked db worker_name now lease_minutes).0 ≡ db =
          ground (arith, e) in
        (λ id. stays (ap (λ (d : Db). view d.queue id) same))
    go (some item) (m, p, best) e =
        let lease : RunQueueItem = lease_row worker_name now lease_minutes item in
        let same : (claim_next is_locked db worker_name now lease_minutes).0.queue
            ≡ save_row lease db.queue =
          ground (arith, e) in
        (λ id.
          subst (λ q. Evolves claiming (view db.queue id) (view q id)) (sym same)
            (save-Move claiming lease db.queue item keyed m
              (leased_id worker_name now lease_minutes item)
              (leases is_locked worker_name now lease_minutes item p) id))

release_row-Evolves :
    (now : ℕ) (x : RunQueueItem)
    → (x.id ≡ (release_row now x).id)
      × Evolves releasing (some x.status) (some (release_row now x).status)
unfolding release_row is_abandoned is_leased
release_row-Evolves now x = elim (Bool-cases (is_abandoned now x)) [
  | inl old ↦ (
    ground arith,
    moves x.status queued refl (freed refl (ground (arith, old)) refl) (ground (arith, old)),
  )
  | inr kept ↦ (ground arith, stays (ground (arith, kept)))
]

pub release-Simulates :
    (now : ℕ) (xs : List RunQueueItem) (id : ℕ)
    → Evolves releasing (view xs id) (view (release_rows now xs) id)
unfolding release_rows
release-Simulates now [] id = stays refl
release-Simulates now (x ∷ xs) id =
    let (same, h) = release_row-Evolves now x in
    cons-Evolves releasing x (release_row now x) xs (release_rows now xs) id same h
      (release-Simulates now xs id)

fail_item-Evolves :
    (now : ℕ) (xs : List RunQueueItem) (i : RunQueueItem)
    → IsKeyed xs
    → In i xs
    → (id : ℕ) → Evolves reconciling (view xs id) (view (save_row (fail_item now i) xs) id)
unfolding fail_item
fail_item-Evolves now xs i keyed m =
    save-Evolves reconciling (fail_item now i) xs (elim (Bool-cases (is_over i.status)) [
      | inl over ↦ stays (ground (arith, over, view-In xs i keyed m))
      | inr active ↦
          moves i.status error (ground (arith, active, view-In xs i keyed m))
            (interrupted refl active refl) (ground (arith, active))
    ])

reconcile_row :
    (now : ℕ) (xs : List RunQueueItem) (r : Run) (o : Option RunQueueItem)
    → pointing r xs ≡ o
    → IsKeyed xs
    → IsKeyed (rows_after now o xs)
      × ((id : ℕ) → Evolves reconciling (view xs id) (view (rows_after now o xs) id))
unfolding pointing rows_after
reconcile_row now xs r none e keyed = (keyed, (λ id. stays refl))
reconcile_row now xs r (some i) e keyed = (
  save_row-IsKeyed (fail_item now i) xs keyed,
  fail_item-Evolves now xs i keyed (find_first_found _ xs i e).0,
)

-- A row that is put in error is over, so that it is not moved again.
reconciled_twice :
    {a b c : Option Status}
    → Evolves reconciling a b
    → Evolves reconciling b c
    → Evolves reconciling a c
unfolding is_over
reconciled_twice v (stays e) = subst (Evolves reconciling _) (sym e) v
reconciled_twice v (created s e (enqueued o n) f) = absurd (ground (arith, o))
reconciled_twice v (created s e (retried o n) f) = absurd (ground (arith, o))
reconciled_twice (stays e) (moves s t f m g) = moves s t (sym e ∙ f) m g
reconciled_twice (created r e (enqueued o n) k) (moves s t f m g) = absurd (ground (arith, o))
reconciled_twice (created r e (retried o n) k) (moves s t f m g) = absurd (ground (arith, o))
reconciled_twice (moves r q e (interrupted o v w) k) (moves s t f (interrupted p x y) g) =
    absurd (ground (arith, k, f, w, x))
reconciled_twice (moves r q e (claimed o v w) k) (moves s t f m g) = absurd (ground (arith, o))
reconciled_twice (moves r q e (freed o v w) k) (moves s t f m g) = absurd (ground (arith, o))
reconciled_twice (moves r q e (finished o v w) k) (moves s t f m g) = absurd (ground (arith, o))
reconciled_twice (moves r q e (called_off o v w) k) (moves s t f m g) = absurd (ground (arith, o))
reconciled_twice (moves r q e n k) (moves s t f (claimed o v w) g) = absurd (ground (arith, o))
reconciled_twice (moves r q e n k) (moves s t f (freed o v w) g) = absurd (ground (arith, o))
reconciled_twice (moves r q e n k) (moves s t f (finished o v w) g) = absurd (ground (arith, o))
reconciled_twice (moves r q e n k) (moves s t f (called_off o v w) g) = absurd (ground (arith, o))

pub reconcile-Simulates :
    (now : ℕ) (rs : List Run) (db : Db)
    → IsKeyed db.queue
    → Simulates reconciling db (reconcile_each now db rs)
unfolding reconcile_each
reconcile-Simulates now [] db keyed id = stays refl
reconcile-Simulates now (r ∷ rs) db keyed id =
    let (keyed', h) = reconcile_row now db.queue r (pointing r db.queue) refl keyed in
    let q = queue-reconcile_run now db r in
    reconciled_twice
      (subst (λ xs. Evolves reconciling (view db.queue id) (view xs id)) (sym q) (h id))
      (reconcile-Simulates now rs (reconcile_run now db r) (subst IsKeyed (sym q) keyed') id)

pub cancel-Simulates :
    (db db' : Db) (item : RunQueueItem) (now : ℕ)
    → IsKeyed db.queue
    → In item db.queue
    → cancel_queued_item db item now ≡ ok db'
    → Simulates cancelling db db'
unfolding cancel_queued_item save_item is_queued
cancel-Simulates db db' item now keyed m h id = elim (Bool-cases (is_queued item.status)) [
  | inr other ↦ absurd (ground (arith, h, other))
  | inl waits ↦
      let off : RunQueueItem = record item { status = cancelled; finished_at = some now } in
      let same : db'.queue ≡ save_row off db.queue = ground (arith, h, waits) in
      subst (λ q. Evolves cancelling (view db.queue id) (view q id)) (sym same)
        (save-Move cancelling off db.queue item keyed m refl
          (called_off refl (ground (arith, waits)) refl) id)
]

-- a ticker's pass or a retry: rows are appended
appends-Simulates :
    (o : Operation) (db db' : Db) (new : List RunQueueItem)
    → db'.queue ≡ db.queue ++ new
    → All (λ x. Birth o x.status) new
    → Simulates o db db'
appends-Simulates o db db' new e all id = rw e (view-append o db.queue new id all)

All-enqueued :
    (xs : List RunQueueItem) → All (λ x. IsNew x.status) xs → All (λ x. Birth ticking x.status) xs
All-enqueued [] all = tt
All-enqueued (x ∷ xs) (h, all) = (enqueued refl h, All-enqueued xs all)

pub tick-Simulates : (db db' : Db) → AddsNew db db' → Simulates ticking db db'
tick-Simulates db db' (new, e, all) = appends-Simulates ticking db db' new e (All-enqueued new all)

pub retry-Simulates :
    (db db' : Db) (item : RunQueueItem) (now : ℕ)
    → create_retry db item now ≡ ok db'
    → Simulates retrying db db'
unfolding create_retry add_row retry_row
retry-Simulates db db' item now h = elim (Bool-cases (is_retryable item.status)) [
  | inr over ↦ absurd (ground (arith, h, over))
  | inl again ↦ elim (Bool-cases (any (same_occurrence (retry_row db item now)) db.queue)) [
    | inl taken ↦ absurd (ground (arith, h, again, taken))
    | inr free ↦
        appends-Simulates retrying db db' (retry_row db item now ∷ [])
          (ground (arith, h, again, free)) (retried refl refl, tt)
  ]
]
