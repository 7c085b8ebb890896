-- ===== src/Queue/Claim/Exclusive.antt =====
-- A claimed item is in one worker's hands: no later claim gives it again while it is leased, and no
-- other row changes.
use mathlib.Core.Path.{subst}
use signal_map.Common.{ℕ, ◌≡◌, ◌≢◌, sym, String, Bool, some, arith, inl, inr, In}
use signal_map.Store.{RunQueueItem, Db, save_item}
use signal_map.Store.Rows.{save_row_cases, saved_others}
use signal_map.Queue.Claim.{is_candidate, lease_row, claim_next}
use signal_map.Queue.Claim.Best.{Claims, claim_next-best}

claim_of_Claims :
    (is_locked : ℕ → Bool) (db db' : Db) (worker : String) (now mins : ℕ) (item : RunQueueItem)
    → claim_next is_locked db worker now mins ≡ (db', some item)
    → Claims is_locked db worker now mins (db', some item)
claim_of_Claims is_locked db db' worker now mins item e =
    subst (Claims is_locked db worker now mins) e (claim_next-best is_locked db worker now mins)

-- Of two claims in a row, by any workers at any times, the second never gives the item of the first.
pub claim_next_exclusive :
    (l l' : ℕ → Bool) (db db1 db2 : Db) (w w' : String) (now now' mins mins' : ℕ)
    (a b : RunQueueItem)
    → claim_next l db w now mins ≡ (db1, some a)
    → claim_next l' db1 w' now' mins' ≡ (db2, some b)
    → a.id ≢ b.id
unfolding save_item is_candidate lease_row
claim_next_exclusive l l' db db1 db2 w w' now now' mins mins' a b ea eb same =
    let (x, best, made, saved) = claim_of_Claims l db db1 w now mins a ea in
    let (y, (m, passes, rest), made', saved') = claim_of_Claims l' db1 db2 w' now' mins' b eb in
    let in_saved = subst (λ (d : Db). In y d.queue) saved m in
    elim (save_row_cases a db.queue y in_saved) [
      | inl y_is_a ↦ ground (arith, y_is_a, made, passes)
      | inr (old, ne) ↦ ne (ground (arith, made', same))
    ]

-- A claim changes no row but the one it leases.
pub claim_next_others :
    (l : ℕ → Bool) (db db' : Db) (w : String) (now mins : ℕ) (a y : RunQueueItem)
    → claim_next l db w now mins ≡ (db', some a)
    → In y db.queue
    → y.id ≢ a.id
    → In y db'.queue
unfolding save_item
claim_next_others l db db' w now mins a y e m ne =
    let (x, best, made, saved) = claim_of_Claims l db db' w now mins a e in
    subst (λ (d : Db). In y d.queue) (sym saved) (saved_others a db.queue y m ne)
