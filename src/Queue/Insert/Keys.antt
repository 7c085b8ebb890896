-- ===== src/Queue/Insert/Keys.antt =====
-- The unique occurrence key, over inserts.
use signal_map.Common.{
  ◌≡◌, false, List, [], ◌∷◌, ◌++◌, any, All, All-append, arith, Bool-cases, inl, inr,
}
use signal_map.Store.{RunQueueItem, RunSchedule, Db, same_occurrence}
use signal_map.Queue.Insert.{Combo, Window, queue_row, insert_row, insert_queue_item, insert_fanout}

-- No two rows of the table have the same occurrence key.
abbrev pub IsUnique : List RunQueueItem → Type 0
IsUnique [] = Unit
IsUnique (x ∷ xs) = All (λ y. same_occurrence x y ≡ false) xs × IsUnique xs

pub same_occurrence_comm : (a b : RunQueueItem) → same_occurrence a b ≡ same_occurrence b a
unfolding same_occurrence
same_occurrence_comm a b = ground arith

none_of_any :
    (row : RunQueueItem) (xs : List RunQueueItem)
    → any (same_occurrence row) xs ≡ false
    → All (λ x. same_occurrence x row ≡ false) xs
none_of_any row [] h = tt
none_of_any row (x ∷ xs) h =
    (ground (arith, same_occurrence_comm x row), none_of_any row xs (ground arith))

IsUnique-append :
    (row : RunQueueItem) (xs : List RunQueueItem)
    → IsUnique xs
    → All (λ x. same_occurrence x row ≡ false) xs
    → IsUnique (xs ++ (row ∷ []))
IsUnique-append row [] u h = (tt, tt)
IsUnique-append row (x ∷ xs) u h = (
  All-append (λ y. same_occurrence x y ≡ false) xs (row ∷ []) u.0 (h.0, tt),
  IsUnique-append row xs u.1 h.1,
)

pub insert_row-IsUnique :
    (db : Db) (row : RunQueueItem) → IsUnique db.queue → IsUnique (insert_row db row).queue
unfolding insert_row
insert_row-IsUnique db row u = elim (Bool-cases (any (same_occurrence row) db.queue)) [
  | inl there ↦ rw there u
  | inr fresh ↦ rw fresh (IsUnique-append row db.queue u (none_of_any row db.queue fresh))
]

pub insert_fanout-IsUnique :
    (db : Db) (s : RunSchedule) (w : Window) (cs : List Combo)
    → IsUnique db.queue
    → IsUnique (insert_fanout db s w cs).queue
unfolding insert_fanout insert_queue_item
insert_fanout-IsUnique db s w [] u = u
insert_fanout-IsUnique db s w (c ∷ cs) u =
    insert_fanout-IsUnique (insert_queue_item db s w c) s w cs
      (insert_row-IsUnique db (queue_row db s w c) u)
