-- ===== src/Worker/Runs.antt =====
-- The runs table over one pass of the worker: nothing stays pending, and the daily limit holds.
use signal_map.Common.{
  ℕ, ◌+◌, ◌≤◌, ◌<◌, ◌≡◌, refl, sym, ap, ◌∙◌, String, Bool, false, arith, if◌then◌else◌, ◌==◌, inl,
  inr, ok, List, [], ◌∷◌, ◌++◌, count, count-append, All,
}
use signal_map.Store.{save_run, RunQueueItem, Run, Db, is_pending, get_prompt, get_client}
use signal_map.Execution.{Outcome, is_counted, daily_quota_usage, exceeds_daily_quota}
use signal_map.Worker.{Limits, new_run, process_claimed_item}
use signal_map.Worker.Settled.{OneRunMore, process_claimed_item-Processes}

-- The sequence has not given an id that a run has.
abbrev pub IsFresh : ℕ → List Run → Type 0
IsFresh next runs = All (λ (r : Run). r.id < next) runs

-- Saving a run that is not in the table changes no row.
save_run-fresh : (run : Run) (xs : List Run) → IsFresh run.id xs → save_run run xs ≡ xs
unfolding save_run
save_run-fresh run [] h = refl
save_run-fresh run (x ∷ xs) (here, rest) = ground (arith, here, save_run-fresh run xs rest)

save_run-append :
    (run : Run) (xs ys : List Run) → save_run run (xs ++ ys) ≡ save_run run xs ++ save_run run ys
unfolding save_run
save_run-append run [] ys = refl
save_run-append run (x ∷ xs) ys =
    ap (λ zs. (if x.id == run.id then run else x) ∷ zs) (save_run-append run xs ys)

save_run-one : (run x : Run) → x.id ≡ run.id → save_run run (x ∷ []) ≡ run ∷ []
unfolding save_run
save_run-one run x e = ground (arith, e)

-- The new run, saved, is the last row.
saved_last :
    (run new : Run) (xs : List Run)
    → run.id ≡ new.id
    → IsFresh new.id xs
    → save_run run (xs ++ (new ∷ [])) ≡ xs ++ (run ∷ [])
saved_last run new xs e fresh =
    rw (save_run-append, save_run-fresh run xs (rw e fresh), save_run-one run new (sym e)) refl

-- Counting the rows after one more is added.
count_one_more :
    (p : Run → Bool) (xs : List Run) (r : Run) → count p (xs ++ (r ∷ [])) ≤ count p xs + 1
count_one_more p xs r = ground (arith, count-append p xs (r ∷ []))

count_one_fails :
    (p : Run → Bool) (xs : List Run) (r : Run) → p r ≡ false → count p (xs ++ (r ∷ [])) ≡ count p xs
count_one_fails p xs r h = ground (arith, count-append p xs (r ∷ []), h)

is_counted-same :
    (a b : Db) (c now : ℕ) (r : Run)
    → a.prompts ≡ b.prompts
    → is_counted a c now r ≡ is_counted b c now r
unfolding is_counted get_prompt
is_counted-same a b c now r e = rw e refl

count-same :
    (a b : Db) (c now : ℕ) (xs : List Run)
    → a.prompts ≡ b.prompts
    → count (is_counted a c now) xs ≡ count (is_counted b c now) xs
count-same a b c now [] e = refl
count-same a b c now (x ∷ xs) e =
    ground (arith, is_counted-same a b c now x e, count-same a b c now xs e)

limit-same :
    (a b : Db) (c now d : ℕ)
    → a.clients ≡ b.clients
    → (daily_quota_usage a c now d).1 ≡ (daily_quota_usage b c now d).1
unfolding daily_quota_usage get_client
limit-same a b c now d e = rw e refl

-- the runs that count against the limit
used-count :
    (db : Db) (c now d : ℕ) → (daily_quota_usage db c now d).0 ≡ count (is_counted db c now) db.runs
unfolding daily_quota_usage
used-count db c now d = refl

has_room :
    (db : Db) (c now d : ℕ)
    → exceeds_daily_quota db c now d ≡ false
    → (daily_quota_usage db c now d).0 < (daily_quota_usage db c now d).1
unfolding exceeds_daily_quota
has_room db c now d h = ground (arith, h)

-- The state of the runs after a pass, where the sequence is ahead of every id.
runs_after :
    (limits : Limits) (db db' : Db) (item : RunQueueItem) (now : ℕ)
    → IsFresh db.next_run_id db.runs
    → OneRunMore limits db item now db'
    → (run' : Run) × (db'.runs ≡ db.runs ++ (run' ∷ [])) × (is_pending run'.status ≡ false)
unfolding new_run
runs_after limits db db' item now fresh (run', (e, _, _, fin), rs, _, _, _) =
    (run', rs ∙ saved_last run' (new_run db item) db.runs e fresh, fin)

used_le_limit :
    (limits : Limits) (db db' : Db) (item : RunQueueItem) (now : ℕ)
    → IsFresh db.next_run_id db.runs
    → OneRunMore limits db item now db'
    → let d = limits.default_daily_run_limit in
      (daily_quota_usage db' item.client_id now d).0
      ≤ (daily_quota_usage db' item.client_id now d).1
used_le_limit limits db db' item now fresh more =
    let d = limits.default_daily_run_limit in
    let c = item.client_id in
    let (run', e, fin) = runs_after limits db db' item now fresh more in
    let (_, _, _, ps, cs, room) = more in
    let grown : count (is_counted db' c now) db'.runs ≤ count (is_counted db c now) db.runs + 1 =
      rw (count-same db' db c now db'.runs ps, e)
        (count_one_more (is_counted db c now) db.runs run') in
    omega (
      arith,
      grown,
      used-count db' c now d,
      used-count db c now d,
      limit-same db' db c now d cs,
      has_room db c now d room,
    )

module _ (lower : String → String) (show : ℕ → String) where
  -- Where the sequence of run ids is ahead of every run, a pass that returns leaves as many runs
  -- pending as there were before it.
  pub process_claimed_item_leaves_no_run :
      (provider : Run → Outcome) (limits : Limits) (db db' : Db) (item item' : RunQueueItem)
      (now : ℕ)
      → IsFresh db.next_run_id db.runs
      → process_claimed_item lower show provider limits db item now ≡ ok (db', item')
      → count (λ (r : Run). is_pending r.status) db'.runs
        ≡ count (λ (r : Run). is_pending r.status) db.runs
  process_claimed_item_leaves_no_run provider limits db db' item item' now fresh h =
      let (_, _, _, _, _, _, _, c) =
        process_claimed_item-Processes lower show provider limits db item now h in
      elim c [
        | inl (same, _, _) ↦ ap (count (λ (r : Run). is_pending r.status)) same
        | inr more ↦
            let (run', e, fin) = runs_after limits db db' item now fresh more in
            rw e (count_one_fails (λ (r : Run). is_pending r.status) db.runs run' fin)
      ]

  -- Where the sequence of run ids is ahead of every run, a pass that returns does not take the item's
  -- client past its daily limit: if the runs of the 24 hours before `now` were within the limit before
  -- the pass, they are within it afterwards.
  pub process_claimed_item_within_quota :
      (provider : Run → Outcome) (limits : Limits) (db db' : Db) (item item' : RunQueueItem)
      (now : ℕ)
      → IsFresh db.next_run_id db.runs
      → process_claimed_item lower show provider limits db item now ≡ ok (db', item')
      → let usage =
          λ (d : Db). daily_quota_usage d item.client_id now limits.default_daily_run_limit in
        (usage db).0 ≤ (usage db).1 → (usage db').0 ≤ (usage db').1
  process_claimed_item_within_quota provider limits db db' item item' now fresh h before =
      let (_, _, _, _, _, _, _, c) =
        process_claimed_item-Processes lower show provider limits db item now h in
      let d = limits.default_daily_run_limit in
      let i = item.client_id in
      elim c [
        | inl (same, ps, cs) ↦
            let eq : count (is_counted db' i now) db'.runs ≡ count (is_counted db i now) db.runs =
              count-same db' db i now db'.runs ps ∙ ap (count (is_counted db i now)) same in
            omega (
              arith,
              before,
              eq,
              used-count db' i now d,
              used-count db i now d,
              limit-same db' db i now d cs,
            )
        | inr more ↦ used_le_limit limits db db' item now fresh more
      ]
