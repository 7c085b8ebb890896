-- ===== src/Queue/Lease/Release.antt =====
-- Releasing a dead worker's leases: all of them, once, and never a started item.
use mathlib.Core.Path.{subst}
use signal_map.Common.{
  All-In, ℕ, ◌≤◌, ◌≡◌, refl, ap, String, Bool, true, false, Option, none, some, List, [], ◌∷◌,
  arith, inl, inr, In, count,
}
use signal_map.Store.{queued, RunQueueItem, Db}
use signal_map.Queue.Claim.{is_candidate, lease_row, claim_next}
use signal_map.Queue.Claim.Best.{Precedes, Claims, claim_next-best}
use signal_map.Queue.Lease.{is_abandoned, release_row, release_rows, release_expired_leases}

release_row_released : (now : ℕ) (x : RunQueueItem) → is_abandoned now (release_row now x) ≡ false
unfolding is_abandoned release_row
release_row_released now x = ground arith

release_rows_none :
    (now : ℕ) (xs : List RunQueueItem) → count (is_abandoned now) (release_rows now xs) ≡ 0
unfolding release_rows
release_rows_none now [] = refl
release_rows_none now (x ∷ xs) =
    ground (arith, release_row_released now x, release_rows_none now xs)

release_row_again :
    (now : ℕ) (x : RunQueueItem) → release_row now (release_row now x) ≡ release_row now x
unfolding is_abandoned release_row
release_row_again now x = ground arith

release_rows_again :
    (now : ℕ) (xs : List RunQueueItem)
    → release_rows now (release_rows now xs) ≡ release_rows now xs
unfolding release_rows
release_rows_again now [] = refl
release_rows_again now (x ∷ xs) = ground (arith, release_row_again now x, release_rows_again now xs)

-- After a release no expired lease without a run is left, and a second release at the same time
-- updates no row.
pub release_expired_leases_idempotent :
    (db : Db) (now : ℕ)
    → let db' = (release_expired_leases db now).0 in
      (count (is_abandoned now) db'.queue ≡ 0) × (release_expired_leases db' now ≡ (db', 0))
unfolding release_expired_leases
release_expired_leases_idempotent db now = (
  release_rows_none now db.queue,
  ground (arith, release_rows_none now db.queue, release_rows_again now db.queue),
)

pub release_rows-In :
    (now : ℕ) (xs : List RunQueueItem) (y : RunQueueItem)
    → In y xs
    → In (release_row now y) (release_rows now xs)
unfolding release_rows
release_rows-In now [] y m = absurd m
release_rows-In now (x ∷ xs) y (inl e) = inl (ap (release_row now) e)
release_rows-In now (x ∷ xs) y (inr m) = inr (release_rows-In now xs y m)

released_is_candidate :
    (l : ℕ → Bool) (now : ℕ) (y : RunQueueItem)
    → is_abandoned now y ≡ true
    → y.scheduled_for ≤ now
    → l y.id ≡ false
    → is_candidate l now (release_row now y) ≡ true
unfolding is_candidate release_row
released_is_candidate l now y ab due free = ground arith

-- the row as a release leaves it
abbrev pub freed : RunQueueItem → RunQueueItem
freed y = record y { status = queued; leased_by = none; leased_until = none }

freed_row : (now : ℕ) (y : RunQueueItem) → is_abandoned now y ≡ true → release_row now y ≡ freed y
unfolding release_row
freed_row now y h = rw h refl

-- After the release no expired lease without a run is left. Every row that had one stands in the table
-- as queued, with no owner; if it is due and not locked, a claim by any worker at that time can take
-- it, and gives an item of the table that is it, or has a higher priority, or the same priority and
-- no later due time.
pub release_then_claim :
    (l : ℕ → Bool) (db : Db) (worker : String) (now mins : ℕ)
    → let db' = (release_expired_leases db now).0 in
      (count (is_abandoned now) db'.queue ≡ 0)
      × ((y : RunQueueItem)
          → In y db.queue
          → is_abandoned now y ≡ true
          → In (freed y) db'.queue
            × (y.scheduled_for ≤ now
                → l y.id ≡ false
                → (is_candidate l now (freed y) ≡ true)
                  × (a : RunQueueItem) × In a db'.queue
                  × ((claim_next l db' worker now mins).1 ≡ some (lease_row worker now mins a))
                  × Precedes a (freed y)))
unfolding release_expired_leases
release_then_claim l db worker now mins = (
  release_rows_none now db.queue,
  λ y m ab.
      let e = freed_row now y ab in
      let there =
        subst (λ z. In z (release_rows now db.queue)) e (release_rows-In now db.queue y m) in
      (
        there,
        λ due free.
            let can =
              subst (λ z. is_candidate l now z ≡ true) e
                (released_is_candidate l now y ab due free) in
            let (a, m', e', first) =
              by_claim (freed y) there can _ (claim_next-best l db' worker now mins) in
            (can, a, m', e', first),
      ),
)
  where
    db' : Db
    db' = record db { queue = release_rows now db.queue }

    by_claim :
        (z : RunQueueItem)
        → In z db'.queue
        → is_candidate l now z ≡ true
        → (r : Db × Option RunQueueItem) → Claims l db' worker now mins r
        → (a : RunQueueItem) × In a db'.queue
          × (r.1 ≡ some (lease_row worker now mins a))
          × Precedes a z
    by_claim z m can (d, none) (e, all) = absurd (ground (arith, All-In _ _ z all m, can))
    by_claim z m can (d, some i) (a, (there, is_due, first), e, saved) =
        (a, there, ap some e, All-In _ _ z first m can)
