-- ===== src/Queue/Enqueue/Depth.antt =====
-- The queue depth of a client: a pass never queues past the limit.
use signal_map.Common.{
  ℕ, ◌+◌, ◌≤◌, ◌≡◌, refl, false, ◌&&◌, Option, none, some, List, [], ◌∷◌, arith, ltb, length, max,
  ok, >>=-eq-ok, ok_injective, if_both, ltb-false→le, if_split, ◌∙◌,
}
use mathlib.Core.Path.{subst}
use signal_map.Store.{Db, RunSchedule, skipped, save_schedule}
use signal_map.Queue.Insert.{Combo, Window, insert_fanout, queue_row}
use signal_map.Queue.Insert.Growth.{count-insert_fanout-le, count-insert_fanout-eq}
use signal_map.Queue.Due.{
  Settings, Plan, Pass, miss_window, miss_extra_window, refuse_window, queue_window, is_late,
  is_full, handle_window, has_rows, take_uuid, enqueue_windows, target_prompts, is_waiting_for,
}
use signal_map.Queue.Enqueue.{
  make_plan, start_pass, summarize, finish_pass, EnqueueResult, enqueue_one_schedule, waiting_depth,
}
use signal_map.Queue.Enqueue.Passes.{enqueue_windows_inv}

-- The tracked depth covers the rows that wait, and stays below the bound.
abbrev IsTracked : ℕ → ℕ → ℕ → Pass → Type 0
IsTracked client limit start p =
    (waiting_depth client p.db.queue ≤ p.queued_depth) × (p.queued_depth ≤ max start limit)

skipped_row :
    (client : ℕ) (s : RunSchedule) (w : Window) (db : Db) (c : Combo)
    → w.status ≡ skipped
    → is_waiting_for client (queue_row db s w c) ≡ false
unfolding is_waiting_for queue_row
skipped_row client s w db c h = ground arith

-- A skipped row does not wait.
skipped_window :
    (client : ℕ) (db : Db) (s : RunSchedule) (w : Window) (cs : List Combo)
    → w.status ≡ skipped
    → waiting_depth client (insert_fanout db s w cs).queue ≡ waiting_depth client db.queue
unfolding waiting_depth
skipped_window client db s w cs h =
    count-insert_fanout-eq (is_waiting_for client) db s w cs (λ e c. skipped_row client s w e c h)

queued_window :
    (client : ℕ) (db : Db) (s : RunSchedule) (w : Window) (cs : List Combo)
    → waiting_depth client (insert_fanout db s w cs).queue
      ≤ waiting_depth client db.queue + length cs
unfolding waiting_depth
queued_window client db s w cs = count-insert_fanout-le (is_waiting_for client) db s w cs

take_uuid_depth :
    (client : ℕ) (plan : Plan) (db : Db)
    → waiting_depth client (take_uuid plan db).queue ≡ waiting_depth client db.queue
take_uuid_depth client plan db = ground arith

module _ (client start : ℕ) (set : Settings) (plan : Plan) (window : ℕ) (p : Pass)
    (h : IsTracked client set.max_queue_depth_per_client start p) where
  abbrev Tracked : Pass → Type 0
  Tracked = IsTracked client set.max_queue_depth_per_client start

  skipped_depth :
      (w : Window)
      → w.status ≡ skipped
      → waiting_depth client (insert_fanout (take_uuid plan p.db) p.schedule w plan.combos).queue
        ≡ waiting_depth client p.db.queue
  skipped_depth w e =
      skipped_window client (take_uuid plan p.db) p.schedule w plan.combos e
      ∙ take_uuid_depth client plan p.db

  miss_window-Tracked : Tracked (miss_window set plan window p)
  unfolding miss_window
  miss_window-Tracked = (omega (arith, h, skipped_depth _ refl), h.1)

  miss_extra_window-Tracked : Tracked (miss_extra_window set plan window p)
  unfolding miss_extra_window
  miss_extra_window-Tracked = (omega (arith, h, take_uuid_depth client plan p.db), h.1)

  refuse_window-Tracked : Tracked (refuse_window set plan window p)
  unfolding refuse_window
  refuse_window-Tracked = (omega (arith, h, skipped_depth _ refl), h.1)

  queue_window-Tracked : is_full set plan p ≡ false → Tracked (queue_window set plan window p)
  unfolding queue_window
  queue_window-Tracked room = (
    omega (
      arith,
      h,
      queued_window client (take_uuid plan p.db) p.schedule _ plan.combos,
      take_uuid_depth client plan p.db,
    ),
    within plan.combos room,
  )
    where
      within :
          (cs : List Combo)
          → (has_rows cs && ltb set.max_queue_depth_per_client (p.queued_depth + length cs)) ≡ false
          → p.queued_depth + length cs ≤ max start set.max_queue_depth_per_client
      within [] e = omega (arith, h)
      within (c ∷ cs) e = omega (arith, ltb-false→le _ _ e)

  handle_window-Tracked : Tracked (handle_window set plan window p)
  unfolding handle_window
  handle_window-Tracked =
      if_both Tracked (is_late set window)
        (if_both Tracked (ltb p.missed_window_rows_written 30) miss_window-Tracked
          miss_extra_window-Tracked)
        (if_split Tracked (is_full set plan p) (λ full. refuse_window-Tracked) queue_window-Tracked)

summarize_depth :
    (client : ℕ) (set : Settings) (plan : Plan) (p : Pass) (cs : List Combo) (last : Option ℕ)
    → waiting_depth client (summarize set plan p cs last).queue ≡ waiting_depth client p.db.queue
unfolding summarize insert_fanout
summarize_depth client set plan p [] last = refl
summarize_depth client set plan p (c ∷ cs) none = refl
summarize_depth client set plan p (c ∷ cs) (some window) =
    skipped_window client (take_uuid plan p.db) p.schedule _ (c ∷ []) refl
    ∙ take_uuid_depth client plan p.db

-- After a pass over a schedule that succeeds the rows of the schedule's client that wait, queued or deferred, are no more than
-- before it or than the client's limit.
pub enqueue_one_schedule-depth :
    (fuel : ℕ) (set : Settings) (db : Db) (s : RunSchedule) {r : EnqueueResult}
    → enqueue_one_schedule fuel set db s ≡ ok r
    → waiting_depth s.client_id r.db.queue
      ≤ max (waiting_depth s.client_id db.queue) set.max_queue_depth_per_client
unfolding enqueue_one_schedule finish_pass save_schedule
enqueue_one_schedule-depth fuel set db s e =
    let start = waiting_depth s.client_id db.queue in
    let (prompts, found, rest) = >>=-eq-ok (target_prompts db s) _ e in
    let plan = make_plan db s prompts in
    let (p, ran, last) = >>=-eq-ok (enqueue_windows fuel set plan (start_pass db s)) _ rest in
    let inv =
      enqueue_windows_inv (IsTracked s.client_id set.max_queue_depth_per_client start) set plan
        (λ window s' p' h. handle_window-Tracked s.client_id start set plan window p' h) fuel
        (start_pass db s) (omega arith, omega arith) ran in
    subst
      (λ (r : EnqueueResult).
        waiting_depth s.client_id r.db.queue ≤ max start set.max_queue_depth_per_client)
      (ok_injective last)
      (omega (arith, inv, summarize_depth s.client_id set plan p plan.combos p.last_extra_window))
