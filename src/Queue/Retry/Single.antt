-- ===== src/Queue/Retry/Single.antt =====
-- One retry or cancellation: a new row beside the original, which stays; never a leased item.
use mathlib.Core.Path.{subst}
use signal_map.Common.{
  any-In, ℕ, ◌+◌, ◌≡◌, ◌≢◌, ◌⊎◌, refl, true, false, none, some, List, [], ◌∷◌, ◌++◌, arith, inl,
  inr, ap, ◌∙◌, Option-cases, Bool, Bool-cases, In, any, ok, raised, value_error, integrity_error,
}
use signal_map.Store.{
  queued, leased, deferred, done, error, skipped, cancelled, RunQueueItem, Db, same_occurrence,
  save_item,
}
use signal_map.Store.Rows.{saved_others, saved_self}
use signal_map.Queue.Insert.Keys.{IsUnique, insert_row-IsUnique}
use signal_map.Queue.Insert.{insert_row}
use signal_map.Queue.Retry.{
  is_retryable, is_queued, retry_row, add_row, create_retry, cancel_queued_item,
}

-- A row that is added keeps the occurrence keys unique, as an insert that meets no conflict.
add_row-IsUnique :
    (db : Db) (row : RunQueueItem) {db' : Db}
    → IsUnique db.queue
    → add_row db row ≡ ok db'
    → IsUnique db'.queue
unfolding add_row insert_row
add_row-IsUnique db row {db'} u h = elim (Bool-cases (any (same_occurrence row) db.queue)) [
  | inl there ↦ absurd (ground (arith, h, there))
  | inr fresh ↦
      let e : insert_row db row ≡ db' = ground (arith, h, fresh) in
      subst (λ (d : Db). IsUnique d.queue) e (insert_row-IsUnique db row u)
]

-- A retry that succeeds appends exactly one queued row, due now, that names the original as what it
-- retries and has its schedule, source, client, prompt, model, market, persona and priority, with no
-- batch, no run, no lease and no attempt made; every row before it is unchanged, and the keys stay
-- unique.
pub create_retry_appends :
    (db : Db) (original : RunQueueItem) (now : ℕ) {db' : Db}
    → IsUnique db.queue
    → create_retry db original now ≡ ok db'
    → (row : RunQueueItem) × (db'.queue ≡ db.queue ++ (row ∷ []))
      × (row.status ≡ queued)
      × (row.scheduled_for ≡ now)
      × (row.retry_of_id ≡ some original.id)
      × (row.schedule_id ≡ original.schedule_id)
      × (row.source ≡ original.source)
      × (row.client_id ≡ original.client_id)
      × (row.prompt_id ≡ original.prompt_id)
      × (row.model_id ≡ original.model_id)
      × (row.market_id ≡ original.market_id)
      × (row.persona_id ≡ original.persona_id)
      × (row.priority ≡ original.priority)
      × (row.batch_id ≡ none)
      × (row.run_id ≡ none)
      × (row.leased_by ≡ none)
      × (row.attempts ≡ 0)
      × (row.transport_attempts ≡ 0)
      × IsUnique db'.queue
unfolding create_retry retry_row add_row
create_retry_appends db original now {db'} u h = elim (Bool-cases (is_retryable original.status)) [
  | inr final ↦ absurd (ground (arith, h, final))
  | inl again ↦
      let added : add_row db (retry_row db original now) ≡ ok db' = ground (arith, h, again) in
      (
        retry_row db original now,
        appended (retry_row db original now) added,
        refl,
        refl,
        refl,
        refl,
        refl,
        refl,
        refl,
        refl,
        refl,
        refl,
        refl,
        refl,
        refl,
        refl,
        refl,
        refl,
        add_row-IsUnique db (retry_row db original now) u added,
      )
]
  where
    appended : (row : RunQueueItem) → add_row db row ≡ ok db' → db'.queue ≡ db.queue ++ (row ∷ [])
    appended row e = ground arith

retry_key :
    (db : Db) (original : RunQueueItem) (now : ℕ) (xs : List RunQueueItem)
    → any (same_occurrence (retry_row db original now)) xs
      ≡ any (same_occurrence (record original { scheduled_for = now })) xs
unfolding same_occurrence retry_row
retry_key db original now xs = refl

abbrev with_row : Db → RunQueueItem → Db
with_row db row = record db { queue = db.queue ++ (row ∷ []); next_item_id = db.next_item_id + 1 }

pub create_retry_branches :
    (db : Db) (original : RunQueueItem) (now : ℕ)
    → (is_retryable original.status ≡ false → create_retry db original now ≡ raised value_error)
      × (is_retryable original.status ≡ true
          → any (same_occurrence (record original { scheduled_for = now })) db.queue ≡ true
          → create_retry db original now ≡ raised integrity_error)
      × (is_retryable original.status ≡ true
          → any (same_occurrence (record original { scheduled_for = now })) db.queue ≡ false
          → (db' : Db) × (create_retry db original now ≡ ok db'))
unfolding create_retry
create_retry_branches db original now = (
  (λ r. rw r refl),
  (λ r taken. ground (arith, r, taken, retry_key db original now db.queue)),
  (λ r free. (
    with_row db (retry_row db original now),
    ground (arith, r, free, retry_key db original now db.queue),
  )),
)

-- The row is of the original's schedule, prompt, model and persona, and due at `now`.
abbrev pub HasKey : RunQueueItem → ℕ → RunQueueItem → Type 0
HasKey original now y =
    (i : ℕ) × (original.schedule_id ≡ some i)
    × (y.schedule_id ≡ some i)
    × (y.scheduled_for ≡ now)
    × (y.prompt_id ≡ original.prompt_id)
    × (y.model_id ≡ original.model_id)
    × (y.persona_id ≡ original.persona_id)

HasKey-same :
    (original : RunQueueItem) (now : ℕ) (y : RunQueueItem)
    → HasKey original now y
    → same_occurrence (record original { scheduled_for = now }) y ≡ true
unfolding same_occurrence
HasKey-same original now y (i, e, f, d, p, m, q) = rw e (ground (arith, f, d, p, m, q))

same-HasKey :
    (original : RunQueueItem) (now : ℕ) (y : RunQueueItem)
    → same_occurrence (record original { scheduled_for = now }) y ≡ true
    → HasKey original now y
unfolding same_occurrence
same-HasKey original now y h = elim (Option-cases original.schedule_id) [
  | inl e ↦ absurd (ground (arith, h, e))
  | inr (i, e) ↦ elim (Option-cases y.schedule_id) [
    | inl f ↦ absurd (ground (arith, h, e, f))
    | inr (j, f) ↦ (
      i,
      e,
      f ∙ ap some (ground (arith, h, e, f)),
      ground (arith, h, e),
      ground (arith, h, e),
      ground (arith, h, e),
      ground (arith, h, e),
    )
  ]
]

any_none :
    (p : RunQueueItem → Bool) (xs : List RunQueueItem)
    → ((y : RunQueueItem) → In y xs → p y ≢ true)
    → any p xs ≡ false
any_none p [] h = refl
any_none p (x ∷ xs) h = elim (Bool-cases (p x)) [
  | inl same ↦ absurd (h x (inl refl) same)
  | inr other ↦ ground (arith, other, any_none p xs (λ y m. h y (inr m)))
]

-- Retrying a queued, leased, deferred or done item is a ValueError. Of an item in error, skipped or
-- cancelled it is an IntegrityError if a row of its schedule, prompt, model and persona is due at
-- `now`, and otherwise succeeds.
pub create_retry_outcome :
    (db : Db) (original : RunQueueItem) (now : ℕ)
    → (((original.status ≡ queued)
          ⊎ (original.status ≡ leased)
          ⊎ (original.status ≡ deferred)
          ⊎ (original.status ≡ done))
        → create_retry db original now ≡ raised value_error)
      × (((original.status ≡ error) ⊎ (original.status ≡ skipped) ⊎ (original.status ≡ cancelled))
          → ((y : RunQueueItem)
              → In y db.queue
              → HasKey original now y
              → create_retry db original now ≡ raised integrity_error)
            × (((y : RunQueueItem) → In y db.queue → ¬ HasKey original now y)
                → (db' : Db) × (create_retry db original now ≡ ok db')))
unfolding is_retryable
create_retry_outcome db original now =
    let (never, full, free) = create_retry_branches db original now in
    let same = same_occurrence (record original { scheduled_for = now }) in
    (
      (λ s. never (ground (arith, s))),
      λ s.
          let again : is_retryable original.status ≡ true = ground (arith, s) in
          (
            (λ y m k. full again (any-In same db.queue y m (HasKey-same original now y k))),
            λ none_has.
                free again
                  (any_none same db.queue (λ y m e. none_has y m (same-HasKey original now y e))),
          ),
    )

abbrev pub ended : RunQueueItem → ℕ → RunQueueItem
ended item now = record item { status = cancelled; finished_at = some now }

-- A cancellation of a queued item saves it as cancelled at `now` and keeps every other row; of any
-- other item it is a ValueError.
pub cancel_queued_item_outcome :
    (db : Db) (item : RunQueueItem) (now : ℕ)
    → ((item.status ≡ queued)
        × (db' : Db) × (cancel_queued_item db item now ≡ ok db')
        × (In item db.queue → In (ended item now) db'.queue)
        × ((y : RunQueueItem) → In y db.queue → y.id ≢ item.id → In y db'.queue))
      ⊎ ((item.status ≢ queued) × (cancel_queued_item db item now ≡ raised value_error))
unfolding cancel_queued_item is_queued save_item
cancel_queued_item_outcome db item now = elim (Bool-cases (is_queued item.status)) [
  | inl waits ↦ inl (
    ground (arith, waits),
    save_item db (ended item now),
    rw waits refl,
    (λ m. saved_self (ended item now) db.queue item m refl),
    λ y m ne. saved_others (ended item now) db.queue y m ne,
  )
  | inr other ↦ inr ((λ e. ground (arith, other, e)), rw other refl)
]
