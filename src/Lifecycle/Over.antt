-- ===== src/Lifecycle/Over.antt =====
-- What is over stays over.

use signal_map.Common.{ℕ, ◌≡◌, ap, ◌∙◌, true, Option, some, arith}
use signal_map.Store.{Status, Db, is_waiting}
use signal_map.Store.Rows.{IsKeyed}
use signal_map.Queue.Lease.{is_over}
use signal_map.Lifecycle.{
  Operation, operation, Move, claimed, freed, interrupted, finished, called_off, Evolves, stays,
  created, moves, Step,
}
use signal_map.Lifecycle.View.{view}
use signal_map.Lifecycle.Worker.{Step-Simulates}

no_move : (o : Operation) (s t : Status) → is_over s ≡ true → Move o s t → ⊥
unfolding is_over is_waiting
no_move o s t h (claimed k e f) = ground (arith, h, e)
no_move o s t h (freed k e f) = ground (arith, h, e)
no_move o s t h (interrupted k e f) = ground (arith, h, e)
no_move o s t h (finished k e f) = ground (arith, h, e)
no_move o s t h (called_off k e f) = ground (arith, h, e)

Evolves-is_over :
    (o : Operation) {a b : Option Status} (s : Status)
    → a ≡ some s
    → is_over s ≡ true
    → Evolves o a b
    → b ≡ some s
Evolves-is_over o s e h (stays f) = f ∙ e
Evolves-is_over o s e h (created t f k g) = absurd (ground (arith, e, f))
Evolves-is_over o s e h (moves t u f m g) = absurd (no_move o t u (ground (arith, e, f, h)) m)

-- Any number of operations, one after the other; `id` is the primary key before each.
pub data Steps (db : Db) : Db → Type 0 where
  none_yet : {db' : Db} → db' ≡ db → Steps db db'
  then_one :
      {db'' : Db} (db' : Db) → Steps db db' → IsKeyed db'.queue → Step db' db'' → Steps db db''

-- A row whose status is done, error or cancelled has that status after any number of operations, where
-- ids are unique before each: it is never claimed, freed, failed or cancelled again, and never removed.
pub Steps-over :
    (db db' : Db) (id : ℕ) (s : Status)
    → view db.queue id ≡ some s
    → is_over s ≡ true
    → Steps db db'
    → view db'.queue id ≡ some s
Steps-over db db' id s e h (none_yet same) = ap (λ (d : Db). view d.queue id) same ∙ e
Steps-over db db' id s e h (then_one mid steps keyed step) =
    Evolves-is_over (operation step) s (Steps-over db mid id s e h steps) h
      (Step-Simulates mid db' keyed step id)
