-- ===== src/Queue/Claim.antt =====
-- `claim_next`. `FOR UPDATE SKIP LOCKED` skips the rows that another transaction holds: which these
-- are is the parameter `is_locked`. Among equal rows the query may give any; the model gives the first.
pub mod Best
pub mod Exclusive
use signal_map.Common.{
  ℕ, ◌+◌, String, Bool, true, false, ◌&&◌, ◌||◌, not, Option, none, some, List, [], ◌∷◌, ltb, leb,
  ◌==◌, if◌then◌else◌,
}
use signal_map.Store.{Status, leased, RunQueueItem, Db, save_item, is_waiting, minutes}

-- the WHERE clause
unfoldable pub is_candidate : (ℕ → Bool) → ℕ → RunQueueItem → Bool
unfolding is_waiting
is_candidate is_locked now row =
    is_waiting row.status && (leb row.scheduled_for now && not (is_locked row.id))

-- ORDER BY priority DESC, scheduled_for ASC
unfoldable pub comes_before : RunQueueItem → RunQueueItem → Bool
comes_before a b =
    ltb b.priority a.priority || ((a.priority == b.priority) && ltb a.scheduled_for b.scheduled_for)

unfoldable pub earlier_of : RunQueueItem → Option RunQueueItem → RunQueueItem
unfolding comes_before
earlier_of x none = x
earlier_of x (some y) = if comes_before y x then y else x

-- ORDER BY … LIMIT 1 of the rows that pass
unfoldable pub first_ordered : (RunQueueItem → Bool) → List RunQueueItem → Option RunQueueItem
unfolding earlier_of
first_ordered p [] = none
first_ordered p (x ∷ xs) =
    let rest = first_ordered p xs in if p x then some (earlier_of x rest) else rest

abbrev or_now : Option ℕ → ℕ → Option ℕ
or_now none now = some now
or_now (some t) now = some t

-- the claimed row: leased by the worker, one more attempt
unfoldable pub lease_row : String → ℕ → ℕ → RunQueueItem → RunQueueItem
lease_row worker_name now lease_minutes item = record item {
  status = leased;
  leased_by = some worker_name;
  leased_until = some (now + minutes lease_minutes);
  attempts = item.attempts + 1;
  started_at = or_now item.started_at now;
}

unfoldable pub claim_next : (ℕ → Bool) → Db → String → ℕ → ℕ → Db × Option RunQueueItem
claim_next is_locked db worker_name now lease_minutes =
    elim (first_ordered (is_candidate is_locked now) db.queue) [
      | none ↦ (db, none)
      | some item ↦ (
        save_item db (lease_row worker_name now lease_minutes item),
        some (lease_row worker_name now lease_minutes item),
      )
    ]
