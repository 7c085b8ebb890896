-- ===== src/Queue/Enqueue/Passes.antt =====
-- What an enqueue pass does to the table: rows are only appended, under unique occurrence keys.
use mathlib.Core.Path.{subst}
use signal_map.Common.{
  ℕ, zero, suc, ◌≡◌, ◌⊎◌, Option-cases, Result-cases, Option, none, some, List, [], ◌∷◌, arith,
  if_both, ltb, ok, ok_injective, >>=-eq-ok, inl, inr, refl, sym, ◌++◌, All, All-append, any,
}
use mathlib.Core.List.{append-nil, append_assoc}
use signal_map.Store.{
  Status, queued, skipped, RunQueueItem, same_occurrence, Db, RunSchedule, save_schedule,
}
use signal_map.Queue.Insert.{Combo, Window, insert_fanout, insert_queue_item, insert_row, queue_row}
use signal_map.Queue.Insert.Keys.{IsUnique, insert_fanout-IsUnique}
use signal_map.Queue.Due.{
  Settings, Plan, take_uuid, Pass, miss_window, miss_extra_window, refuse_window, queue_window,
  is_late, is_full, handle_window, advance_schedule, due_window, enqueue_windows, target_prompts,
}
use signal_map.Queue.Enqueue.{
  make_plan, start_pass, summarize, finish_pass, EnqueueResult, enqueue_one_schedule,
}

-- One round of the loop: it stops, or handles the due window and goes on with the next due time.
pub enqueue_windows_step :
    (fuel : ℕ) (set : Settings) (plan : Plan) (p : Pass) {p' : Pass}
    → enqueue_windows (suc fuel) set plan p ≡ ok p'
    → ((due_window set.now p.schedule ≡ none) × (p ≡ p'))
      ⊎ ((window : ℕ) × (s : RunSchedule) × (due_window set.now p.schedule ≡ some window)
          × (advance_schedule set p.schedule window ≡ ok s)
          × (enqueue_windows fuel set plan
                (record (handle_window set plan window p) { schedule = s })
              ≡ ok p'))
unfolding enqueue_windows
enqueue_windows_step fuel set plan p h = elim (Option-cases (due_window set.now p.schedule)) [
  | inl e ↦ inl (e, ground (arith, e))
  | inr (window, e) ↦ elim (Result-cases (advance_schedule set p.schedule window)) [
    | inl (x, f) ↦ absurd (ground (arith, e, f))
    | inr (s, f) ↦ inr (window, s, e, f, ground (arith, e, f))
  ]
]

-- An invariant of the loop: kept by each due window, it holds at the end. The schedule is free.
module _ (P : Pass → Type 0) (set : Settings) (plan : Plan)
    (keep : (window : ℕ) (s : RunSchedule) (p : Pass)
      → P p
      → P (record (handle_window set plan window p) { schedule = s })) where
  pub enqueue_windows_inv :
      (fuel : ℕ) (p : Pass) {p' : Pass} → P p → enqueue_windows fuel set plan p ≡ ok p' → P p'
  unfolding enqueue_windows
  enqueue_windows_inv zero p h e = absurd (ground arith)
  enqueue_windows_inv (suc fuel) p h e = elim (enqueue_windows_step fuel set plan p e) [
    | inl (d, eq) ↦ subst P eq h
    | inr (window, s, d, a, rest) ↦ enqueue_windows_inv fuel _ (keep window s p h) rest
  ]

-- the statuses that the ticker gives to a row
abbrev pub IsNew : Status → Type 0
IsNew s = (s ≡ queued) ⊎ (s ≡ skipped)

module _ (Q : Db → Type 0) (set : Settings) (plan : Plan)
    (fanout_keeps : (db : Db) (s : RunSchedule) (w : Window) (cs : List Combo)
      → IsNew w.status
      → Q db
      → Q (insert_fanout db s w cs))
    (uuid_keeps : (db : Db) (n : ℕ) → Q db → Q (record db { next_uuid = n })) where
  take_uuid_keeps : (db : Db) → Q db → Q (take_uuid plan db)
  take_uuid_keeps db q = if_both Q plan.batch (uuid_keeps db _ q) q

  -- What inserts keep, a window keeps: on every branch it inserts its fanout or nothing.
  pub handle_window_keeps :
      (window : ℕ) (p : Pass) → Q p.db → Q (handle_window set plan window p).db
  unfolding handle_window miss_window miss_extra_window refuse_window queue_window
  handle_window_keeps window p q =
      let q' = take_uuid_keeps p.db q in
      let R : Pass → Type 0 = λ r. Q r.db in
      if_both R (is_late set window)
        (if_both R (ltb p.missed_window_rows_written 30) {x = miss_window set plan window p}
          (fanout_keeps _ _ _ _ (inr refl) q') q')
        (if_both R (is_full set plan p) (fanout_keeps _ _ _ _ (inr refl) q')
          (fanout_keeps _ _ _ _ (inl refl) q'))

  summarize_keeps :
      (p : Pass) (cs : List Combo) (last : Option ℕ) → Q p.db → Q (summarize set plan p cs last)
  unfolding summarize insert_fanout
  summarize_keeps p [] last q = q
  summarize_keeps p (c ∷ cs) none q = q
  summarize_keeps p (c ∷ cs) (some window) q =
      fanout_keeps (take_uuid plan p.db) _ _ (c ∷ []) (inr refl) (take_uuid_keeps p.db q)

-- What every insert keeps, and what no other column matters to, holds after a whole pass.
module _ (Q : Db → Type 0)
    (fanout_keeps : (db : Db) (s : RunSchedule) (w : Window) (cs : List Combo)
      → IsNew w.status
      → Q db
      → Q (insert_fanout db s w cs))
    (uuid_keeps : (db : Db) (n : ℕ) → Q db → Q (record db { next_uuid = n }))
    (schedules_keep : (db : Db) (ss : List RunSchedule)
      → Q db
      → Q (record db { schedules = ss })) where
  pub enqueue_one_schedule_keeps :
      (fuel : ℕ) (set : Settings) (db : Db) (s : RunSchedule) {r : EnqueueResult}
      → Q db
      → enqueue_one_schedule fuel set db s ≡ ok r
      → Q r.db
  unfolding enqueue_one_schedule finish_pass save_schedule
  enqueue_one_schedule_keeps fuel set db s q e =
      let (prompts, found, rest) = >>=-eq-ok (target_prompts db s) _ e in
      let plan = make_plan db s prompts in
      let (p, ran, last) = >>=-eq-ok (enqueue_windows fuel set plan (start_pass db s)) _ rest in
      let inv : Q p.db =
        enqueue_windows_inv (λ (p : Pass). Q p.db) set plan
          (λ window s' p' h. handle_window_keeps Q set plan fanout_keeps uuid_keeps window p' h)
          fuel (start_pass db s) q ran in
      subst (λ (r : EnqueueResult). Q r.db) (ok_injective last)
        (schedules_keep _ _
          (summarize_keeps Q set plan fanout_keeps uuid_keeps p plan.combos _ inv))

-- The rows of `db` are the first rows of `db'`, unchanged, and each row behind them is queued or skipped.
abbrev pub AddsNew : Db → Db → Type 0
AddsNew db db' =
    (new : List RunQueueItem) × (db'.queue ≡ db.queue ++ new) × All (λ x. IsNew x.status) new

AddsNew-refl : (db : Db) → AddsNew db db
AddsNew-refl db = ([], sym (append-nil _), tt)

AddsNew-trans : (a b c : Db) → AddsNew a b → AddsNew b c → AddsNew a c
AddsNew-trans a b c (xs, p, h) (ys, q, k) =
    (xs ++ ys, rw (q, p, append_assoc) refl, All-append (λ x. IsNew x.status) xs ys h k)

insert_fanout-AddsNew :
    (db : Db) (s : RunSchedule) (w : Window) (cs : List Combo)
    → IsNew w.status
    → AddsNew db (insert_fanout db s w cs)
unfolding insert_fanout insert_queue_item insert_row queue_row
insert_fanout-AddsNew db s w [] n = AddsNew-refl db
insert_fanout-AddsNew db s w (c ∷ cs) n =
    AddsNew-trans db (insert_queue_item db s w c)
      (insert_fanout (insert_queue_item db s w c) s w cs)
      (if_both (AddsNew db) (any (same_occurrence (queue_row db s w c)) db.queue)
        ([], sym (append-nil _), tt) (queue_row db s w c ∷ [], refl, (n, tt)))
      (insert_fanout-AddsNew (insert_queue_item db s w c) s w cs n)

-- A pass over a schedule that succeeds only appends to the queue, rows that are queued or skipped: the
-- rows that were there are unchanged, in their order.
pub enqueue_one_schedule-AddsNew :
    (fuel : ℕ) (set : Settings) (db : Db) (s : RunSchedule) {r : EnqueueResult}
    → enqueue_one_schedule fuel set db s ≡ ok r
    → AddsNew db r.db
enqueue_one_schedule-AddsNew fuel set db s e =
    enqueue_one_schedule_keeps (AddsNew db)
      (λ d s' w cs n h.
        AddsNew-trans db d (insert_fanout d s' w cs) h (insert_fanout-AddsNew d s' w cs n))
      (λ d n h. h) (λ d ss h. h) fuel set db s (AddsNew-refl db) e

-- A pass over a schedule that succeeds keeps the occurrence keys unique.
pub enqueue_one_schedule-IsUnique :
    (fuel : ℕ) (set : Settings) (db : Db) (s : RunSchedule) {r : EnqueueResult}
    → IsUnique db.queue
    → enqueue_one_schedule fuel set db s ≡ ok r
    → IsUnique r.db.queue
enqueue_one_schedule-IsUnique fuel set db s u e =
    enqueue_one_schedule_keeps (λ (d : Db). IsUnique d.queue)
      (λ d s' w cs n h. insert_fanout-IsUnique d s' w cs h) (λ d n h. h) (λ d ss h. h) fuel set db s
      u e
