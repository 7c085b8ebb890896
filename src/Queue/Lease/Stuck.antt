-- ===== src/Queue/Lease/Stuck.antt =====
-- A lease that nothing ever returns: the item of an earlier failed run, claimed again by a worker
-- that died before it created the next run. `run_id` still names the earlier run, so the release
-- skips the item; that run is not pending, so the reconciliation skips it too.
use mathlib.Core.Path.{subst}
use native.Mathlib.Decide.{ℕ_discrete}
use signal_map.Common.{
  ℕ, ◌≡◌, refl, sym, ap, ◌∙◌, Bool, true, false, some, List, [], ◌∷◌, arith, if_split, inl, inr,
  All, In, select, is_id,
}
use signal_map.Store.{leased, RunQueueItem, Run, Db, is_pending}
use signal_map.Store.Rows.{IsKeyed}
use signal_map.Queue.Claim.{is_candidate}
use signal_map.Queue.Lease.{
  is_abandoned, is_stale, release_row, release_rows, release_expired_leases,
  reconcile_interrupted_runs,
}
use signal_map.Queue.Lease.Release.{release_rows-In}
use signal_map.Queue.Lease.Reconcile.{IsSafe, reconcile_each_keeps}

started_stays : (now i : ℕ) (y : RunQueueItem) → y.run_id ≡ some i → release_row now y ≡ y
unfolding release_row is_abandoned
started_stays now i y h = ground arith

IsSafe-runs :
    (now i : ℕ) (y : RunQueueItem) (runs : List Run)
    → y.run_id ≡ some i
    → All (λ (r : Run). r.id ≡ i → is_pending r.status ≡ false) runs
    → All (IsSafe y) (select (is_stale now) runs)
unfolding is_stale
IsSafe-runs now i y [] h ended = tt
IsSafe-runs now i y (r ∷ runs) h (here, rest) =
    if_split (All (IsSafe y)) (is_stale now r)
      (λ stale. (inr (other stale), IsSafe-runs now i y runs h rest))
      (λ fresh. IsSafe-runs now i y runs h rest)
  where
    other : is_stale now r ≡ true → is_id y.run_id r.id ≡ false
    other stale = elim (ℕ_discrete r.id i) [
      | yes same ↦ absurd (ground (arith, here same, stale))
      | no ne ↦ ground (arith, h, ne)
    ]

released_from :
    (now : ℕ) (xs : List RunQueueItem) (x : RunQueueItem)
    → In x (release_rows now xs)
    → (a : RunQueueItem) × In a xs × (x ≡ release_row now a)
unfolding release_rows
released_from now [] x m = absurd m
released_from now (a ∷ xs) x (inl e) = (a, inl refl, e)
released_from now (a ∷ xs) x (inr m) = let (b, mb, e) = released_from now xs x m in (b, inr mb, e)

release_row_id : (now : ℕ) (x : RunQueueItem) → (release_row now x).id ≡ x.id
unfolding release_row
release_row_id now x = ground arith

release_rows-IsKeyed :
    (now : ℕ) (xs : List RunQueueItem) → IsKeyed xs → IsKeyed (release_rows now xs)
release_rows-IsKeyed now xs keyed x y mx my e =
    let (a, ma, ea) = released_from now xs x mx in
    let (b, mb, eb) = released_from now xs y my in
    ea
    ∙ ap (release_row now)
        (keyed a b ma mb (ground (arith, ea, eb, e, release_row_id now a, release_row_id now b)))
    ∙ sym eb

-- A leased item whose `run_id` names a run that is no longer pending is left exactly as it is by a
-- tick's release and reconciliation, at any time and however long the lease has expired; and it is
-- no candidate for a claim, at any time.
pub stuck_lease :
    (db : Db) (y : RunQueueItem) (i now : ℕ) (l : ℕ → Bool) (later : ℕ)
    → IsKeyed db.queue
    → In y db.queue
    → y.status ≡ leased
    → y.run_id ≡ some i
    → All (λ (r : Run). r.id ≡ i → is_pending r.status ≡ false) db.runs
    → In y (reconcile_interrupted_runs (release_expired_leases db now).0 now).0.queue
      × (is_candidate l later y ≡ false)
unfolding release_expired_leases reconcile_interrupted_runs is_candidate
stuck_lease db y i now l later keyed m held started ended = (
  reconcile_each_keeps now (select (is_stale now) db.runs) (release_expired_leases db now).0 y
      (release_rows-IsKeyed now db.queue keyed)
      (subst (λ z. In z (release_rows now db.queue)) (started_stays now i y started)
        (release_rows-In now db.queue y m))
      (IsSafe-runs now i y db.runs started ended),
  ground (arith, held),
)
