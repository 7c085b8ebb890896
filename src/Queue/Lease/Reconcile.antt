-- ===== src/Queue/Lease/Reconcile.antt =====
-- Reconciling interrupted runs: no stale run stays pending, and finished items are not rewritten.
use mathlib.Core.Path.{subst}
use native.Mathlib.Decide.{ℕ_discrete}
use signal_map.Common.{
  ℕ, ◌≡◌, ◌⊎◌, refl, sym, ◌∙◌, true, false, Option, none, some, List, [], ◌∷◌, arith, if◌then◌else◌,
  ◌==◌, inl, inr, Bool-cases, All, In, count, any, select, find_first, is_id,
}
use signal_map.Store.{save_run, RunQueueItem, Run, Db, save_row}
use signal_map.Store.Rows.{IsKeyed, saved_others, saved_self, save_row-IsKeyed, find_first_found}
use signal_map.Queue.Lease.{
  is_stale, is_over, fail_run, fail_item, reconcile_run, reconcile_each, reconcile_interrupted_runs,
}

-- Every run that is still stale is on the list of runs to go.
Covered : ℕ → List Run → List Run → Type 0
Covered now rs runs =
    All (λ (x : Run). is_stale now x ≡ true → any (λ (r : Run). r.id == x.id) rs ≡ true) runs

fail_run_not_stale : (now : ℕ) (r : Run) → is_stale now (fail_run now r) ≡ false
unfolding is_stale fail_run
fail_run_not_stale now r = refl

fail_run_id : (now : ℕ) (r : Run) → (fail_run now r).id ≡ r.id
unfolding fail_run
fail_run_id now r = refl

-- the row that a save leaves at a place
abbrev saved : Run → Run → Run
saved run x = if x.id == run.id then run else x

covered_head :
    (now : ℕ) (r x : Run) (rs : List Run)
    → (is_stale now x ≡ true → any (λ (r' : Run). r'.id == x.id) (r ∷ rs) ≡ true)
    → is_stale now (saved (fail_run now r) x) ≡ true
    → any (λ (r' : Run). r'.id == (saved (fail_run now r) x).id) rs ≡ true
covered_head now r x rs h stale = elim (Bool-cases (x.id == (fail_run now r).id)) [
  | inl same ↦ ground (arith, same, stale, fail_run_not_stale now r)
  | inr other ↦
      let old : is_stale now x ≡ true = rw other at stale in
      rw other (ground (arith, h old, fail_run_id now r, other))
]

Covered-save :
    (now : ℕ) (r : Run) (rs runs : List Run)
    → Covered now (r ∷ rs) runs
    → Covered now rs (save_run (fail_run now r) runs)
unfolding Covered save_run
Covered-save now r rs [] h = tt
Covered-save now r rs (x ∷ runs) (here, rest) =
    (covered_head now r x rs here, Covered-save now r rs runs rest)

-- Saving an item leaves the runs alone.
runs-reconcile_run :
    (now : ℕ) (db : Db) (r : Run)
    → (reconcile_run now db r).runs ≡ save_run (fail_run now r) db.runs
unfolding reconcile_run
runs-reconcile_run now db r = ground arith

Covered-to_end :
    (now : ℕ) (rs : List Run) (db : Db)
    → Covered now rs db.runs
    → Covered now [] (reconcile_each now db rs).runs
unfolding reconcile_each
Covered-to_end now [] db h = h
Covered-to_end now (r ∷ rs) db h =
    Covered-to_end now rs (reconcile_run now db r)
      (rw runs-reconcile_run (Covered-save now r rs db.runs h))

count_zero : (now : ℕ) (runs : List Run) → Covered now [] runs → count (is_stale now) runs ≡ 0
unfolding Covered
count_zero now [] h = refl
count_zero now (x ∷ runs) (here, rest) = elim (Bool-cases (is_stale now x)) [
  | inl stale ↦ ground (arith, here stale)
  | inr fresh ↦ rw fresh (count_zero now runs rest)
]

any-select :
    (now : ℕ) (i : ℕ) (xs : List Run) (x : Run)
    → In x xs
    → is_stale now x ≡ true
    → any (λ (r : Run). r.id == x.id) (select (is_stale now) xs) ≡ true
any-select now i [] x m h = absurd m
any-select now i (y ∷ xs) x (inl e) h = rw (← e, h) (ground arith)
any-select now i (y ∷ xs) x (inr m) h = ground (arith, any-select now i xs x m h)

All-of-In : (P : Run → Type 0) (xs : List Run) → ((x : Run) → In x xs → P x) → All P xs
All-of-In P [] f = tt
All-of-In P (x ∷ xs) f = (f x (inl refl), All-of-In P xs (λ y m. f y (inr m)))

-- After reconciliation no run that has been pending for more than 30 minutes is left.
pub no_stale_run_left :
    (db : Db) (now : ℕ) → count (is_stale now) (reconcile_interrupted_runs db now).0.runs ≡ 0
unfolding reconcile_interrupted_runs Covered
no_stale_run_left db now = count_zero now _ (
    Covered-to_end now (select (is_stale now) db.runs) db
      (All-of-In _ db.runs (λ x m stale. any-select now 0 db.runs x m stale)))

-- An item that is over is not failed again.
fail_item_over : (now : ℕ) (i : RunQueueItem) → is_over i.status ≡ true → fail_item now i ≡ i
unfolding fail_item
fail_item_over now i h = rw h refl

pub fail_item_id : (now : ℕ) (i : RunQueueItem) → (fail_item now i).id ≡ i.id
unfolding fail_item
fail_item_id now i = ground arith

-- A row that no stale run points at, or that is over, stays.
abbrev pub IsSafe : RunQueueItem → Run → Type 0
IsSafe y r = (is_over y.status ≡ true) ⊎ (is_id y.run_id r.id ≡ false)

-- the item that points at the run, and the rows after it has been failed
unfoldable pub pointing : Run → List RunQueueItem → Option RunQueueItem
pointing r xs = find_first (λ (i : RunQueueItem). is_id i.run_id r.id) xs

unfoldable pub rows_after : ℕ → Option RunQueueItem → List RunQueueItem → List RunQueueItem
rows_after now none xs = xs
rows_after now (some i) xs = save_row (fail_item now i) xs

pub queue-reconcile_run :
    (now : ℕ) (db : Db) (r : Run)
    → (reconcile_run now db r).queue ≡ rows_after now (pointing r db.queue) db.queue
unfolding reconcile_run pointing rows_after
queue-reconcile_run now db r = ground arith

rows_after_keep :
    (now : ℕ) (xs : List RunQueueItem) (r : Run) (y : RunQueueItem) (o : Option RunQueueItem)
    → pointing r xs ≡ o
    → IsKeyed xs
    → In y xs
    → IsSafe y r
    → In y (rows_after now o xs) × IsKeyed (rows_after now o xs)
unfolding rows_after pointing
rows_after_keep now xs r y none e keyed m safe = (m, keyed)
rows_after_keep now xs r y (some i) e keyed m safe = (
  elim (ℕ_discrete y.id i.id) [
    | yes same ↦
        let y_is_i : y ≡ i = keyed y i m (find_first_found _ xs i e).0 same in
        elim safe [
          | inl over ↦
              let kept : fail_item now i ≡ y =
                fail_item_over now i (ground (arith, over, y_is_i)) ∙ sym y_is_i in
              subst (λ (z : RunQueueItem). In z (save_row (fail_item now i) xs)) kept
                (saved_self (fail_item now i) xs i (find_first_found _ xs i e).0
                  (sym (fail_item_id now i)))
          | inr elsewhere ↦ ground (arith, elsewhere, y_is_i, (find_first_found _ xs i e).1)
        ]
    | no other ↦ saved_others (fail_item now i) xs y m (λ same. other (same ∙ fail_item_id now i))
  ],
  save_row-IsKeyed (fail_item now i) xs keyed,
)

reconcile_run_keeps :
    (now : ℕ) (db : Db) (r : Run) (y : RunQueueItem)
    → IsKeyed db.queue
    → In y db.queue
    → IsSafe y r
    → In y (reconcile_run now db r).queue × IsKeyed (reconcile_run now db r).queue
reconcile_run_keeps now db r y keyed m safe =
    rw queue-reconcile_run (rows_after_keep now db.queue r y _ refl keyed m safe)

pub reconcile_each_keeps :
    (now : ℕ) (rs : List Run) (db : Db) (y : RunQueueItem)
    → IsKeyed db.queue
    → In y db.queue
    → All (IsSafe y) rs
    → In y (reconcile_each now db rs).queue
unfolding reconcile_each
reconcile_each_keeps now [] db y keyed m safe = m
reconcile_each_keeps now (r ∷ rs) db y keyed m (here, rest) =
    let (m', keyed') = reconcile_run_keeps now db r y keyed m here in
    reconcile_each_keeps now rs (reconcile_run now db r) y keyed' m' rest

-- History is not rewritten: an item that is done, in error or cancelled stays exactly as it is, even
-- if a stale run points at it.
pub reconcile_keeps_over :
    (db : Db) (now : ℕ) (y : RunQueueItem)
    → IsKeyed db.queue
    → In y db.queue
    → is_over y.status ≡ true
    → In y (reconcile_interrupted_runs db now).0.queue
unfolding reconcile_interrupted_runs
reconcile_keeps_over db now y keyed m over =
    reconcile_each_keeps now (select (is_stale now) db.runs) db y keyed m
      (All-of-In (IsSafe y) (select (is_stale now) db.runs) (λ r _. inl over))
