-- ===== src/Queue/Insert/Growth.antt =====
-- How the table grows by inserts, and what a window that is inserted again does.
use signal_map.Common.{
  any-append_left, any-In, ◌+◌, ◌≤◌, ◌≡◌, refl, sym, Bool, true, false, List, [], ◌∷◌, ◌++◌, any,
  All, arith, Bool-cases, inl, inr, Option-cases, In, count, count-append, length, ap, ◌∙◌,
}
use mathlib.Core.Path.{fun_ext}
use mathlib.Core.List.{append-nil, append_assoc}
use signal_map.Store.{RunQueueItem, RunSchedule, Db, same_occurrence}
use signal_map.Queue.Insert.{Combo, Window, queue_row, insert_row, insert_queue_item, insert_fanout}

-- The rows of `db` are the first rows of `db'`, unchanged.
abbrev Extends : Db → Db → Type 0
Extends db db' = (new : List RunQueueItem) × (db'.queue ≡ db.queue ++ new)

Extends-refl : (db : Db) → Extends db db
Extends-refl db = ([], sym (append-nil _))

Extends-trans : (a b c : Db) → Extends a b → Extends b c → Extends a c
Extends-trans a b c (xs, p) (ys, q) = (xs ++ ys, rw (q, p, append_assoc) refl)

insert_row-Extends : (db : Db) (row : RunQueueItem) → Extends db (insert_row db row)
unfolding insert_row
insert_row-Extends db row = elim (Bool-cases (any (same_occurrence row) db.queue)) [
  | inl there ↦ ([], rw there (sym (append-nil _)))
  | inr fresh ↦ (row ∷ [], rw fresh refl)
]

insert_fanout-Extends :
    (db : Db) (s : RunSchedule) (w : Window) (cs : List Combo)
    → Extends db (insert_fanout db s w cs)
unfolding insert_fanout insert_queue_item
insert_fanout-Extends db s w [] = Extends-refl db
insert_fanout-Extends db s w (c ∷ cs) =
    Extends-trans db (insert_queue_item db s w c)
      (insert_fanout (insert_queue_item db s w c) s w cs)
      (insert_row-Extends db (queue_row db s w c))
      (insert_fanout-Extends (insert_queue_item db s w c) s w cs)

-- At most one row for each member of the fanout passes a test.
pub count-insert_fanout-le :
    (p : RunQueueItem → Bool) (db : Db) (s : RunSchedule) (w : Window) (cs : List Combo)
    → count p (insert_fanout db s w cs).queue ≤ count p db.queue + length cs
unfolding insert_fanout insert_queue_item insert_row
count-insert_fanout-le p db s w [] = omega arith
count-insert_fanout-le p db s w (c ∷ cs) = ground (
  arith,
  count-insert_fanout-le p (insert_queue_item db s w c) s w cs,
  count-append p db.queue (queue_row db s w c ∷ []),
)

-- A test that no row of the window passes counts the same rows as before.
pub count-insert_fanout-eq :
    (p : RunQueueItem → Bool) (db : Db) (s : RunSchedule) (w : Window) (cs : List Combo)
    → ((e : Db) (c : Combo) → p (queue_row e s w c) ≡ false)
    → count p (insert_fanout db s w cs).queue ≡ count p db.queue
unfolding insert_fanout insert_queue_item insert_row
count-insert_fanout-eq p db s w [] h = refl
count-insert_fanout-eq p db s w (c ∷ cs) h = ground (
  arith,
  count-insert_fanout-eq p (insert_queue_item db s w c) s w cs h,
  count-append p db.queue (queue_row db s w c ∷ []),
  h db c,
)

-- The table has a row with the occurrence key of each member of the fanout.
abbrev HasAll : Db → RunSchedule → Window → List RunQueueItem → List Combo → Type 0
HasAll db s w xs cs = All (λ c. any (same_occurrence (queue_row db s w c)) xs ≡ true) cs

same_key :
    (db db' : Db) (s s' : RunSchedule) (w w' : Window) (c : Combo)
    → s.id ≡ s'.id
    → w.scheduled_for ≡ w'.scheduled_for
    → (x : RunQueueItem)
    → same_occurrence (queue_row db s w c) x ≡ same_occurrence (queue_row db' s' w' c) x
unfolding same_occurrence queue_row
same_key db db' s s' w w' c e f x = ground arith

-- The key of a row does not depend on the database, nor on the window's status.
HasAll-key :
    (db db' : Db) (s s' : RunSchedule) (w w' : Window) (xs : List RunQueueItem) (cs : List Combo)
    → s.id ≡ s'.id
    → w.scheduled_for ≡ w'.scheduled_for
    → HasAll db s w xs cs
    → HasAll db' s' w' xs cs
HasAll-key db db' s s' w w' xs [] e f h = tt
HasAll-key db db' s s' w w' xs (c ∷ cs) e f (here, rest) = (
  rw (fun_ext (same_key db db' s s' w w' c e f)) at here,
  HasAll-key db db' s s' w w' xs cs e f rest,
)

any-last :
    (p : RunQueueItem → Bool) (xs : List RunQueueItem) (x : RunQueueItem)
    → p x ≡ true
    → any p (xs ++ (x ∷ [])) ≡ true
any-last p [] x h = ground arith
any-last p (y ∷ xs) x h = ground (arith, any-last p xs x h)

same_occurrence_self :
    (db : Db) (s : RunSchedule) (w : Window) (c : Combo)
    → same_occurrence (queue_row db s w c) (queue_row db s w c) ≡ true
unfolding same_occurrence queue_row
same_occurrence_self db s w c = ground arith

key_after_insert :
    (db : Db) (s : RunSchedule) (w : Window) (c : Combo)
    → any (same_occurrence (queue_row db s w c)) (insert_queue_item db s w c).queue ≡ true
unfolding insert_queue_item insert_row
key_after_insert db s w c =
    elim (Bool-cases (any (same_occurrence (queue_row db s w c)) db.queue)) [
      | inl there ↦ rw there there
      | inr fresh ↦ rw fresh (
          any-last (same_occurrence (queue_row db s w c)) db.queue (queue_row db s w c)
            (same_occurrence_self db s w c))
    ]

-- Each row's occurrence key is the key of a row of the other table.
abbrev pub KeepsKeys : List RunQueueItem → List RunQueueItem → Type 0
KeepsKeys xs ys =
    (p : RunQueueItem) → any (same_occurrence p) xs ≡ true → any (same_occurrence p) ys ≡ true

HasAll-keys :
    (db : Db) (s : RunSchedule) (w : Window) (xs ys : List RunQueueItem) (cs : List Combo)
    → KeepsKeys xs ys
    → HasAll db s w xs cs
    → HasAll db s w ys cs
HasAll-keys db s w xs ys [] k h = tt
HasAll-keys db s w xs ys (c ∷ cs) k (here, rest) =
    (k (queue_row db s w c) here, HasAll-keys db s w xs ys cs k rest)

-- the columns of the occurrence key
abbrev pub SameKey : RunQueueItem → RunQueueItem → Type 0
SameKey x y =
    (x.schedule_id ≡ y.schedule_id)
    × (x.scheduled_for ≡ y.scheduled_for)
    × (x.prompt_id ≡ y.prompt_id)
    × (x.model_id ≡ y.model_id)
    × (x.persona_id ≡ y.persona_id)

SameKey-same :
    (p x y : RunQueueItem) → SameKey x y → same_occurrence p x ≡ true → same_occurrence p y ≡ true
unfolding same_occurrence
SameKey-same p x y (i, f, r, m, q) h = elim (Option-cases p.schedule_id) [
  | inl e ↦ absurd (ground (arith, h, e))
  | inr (j, e) ↦ ground (arith, h, e, i, f, r, m, q)
]

SameKey-KeepsKeys :
    (xs ys : List RunQueueItem)
    → All (λ x. (y : RunQueueItem) × In y ys × SameKey x y) xs
    → KeepsKeys xs ys
SameKey-KeepsKeys [] ys all p h = absurd (ground (arith, h))
SameKey-KeepsKeys (x ∷ xs) ys ((y, m, k), all) p h = elim (Bool-cases (same_occurrence p x)) [
  | inl here ↦ any-In (same_occurrence p) ys y m (SameKey-same p x y k here)
  | inr other ↦ SameKey-KeepsKeys xs ys all p (ground (arith, h, other))
]

insert_there :
    (db : Db) (s : RunSchedule) (w : Window) (c : Combo)
    → any (same_occurrence (queue_row db s w c)) db.queue ≡ true
    → insert_queue_item db s w c ≡ record db { next_item_id = db.next_item_id + 1 }
unfolding insert_queue_item insert_row
insert_there db s w c h = rw h refl

insert_present :
    (db : Db) (s : RunSchedule) (w : Window) (cs : List Combo)
    → HasAll db s w db.queue cs
    → (insert_fanout db s w cs).queue ≡ db.queue
unfolding insert_fanout
insert_present db s w [] h = refl
insert_present db s w (c ∷ cs) (here, rest) =
    let db' : Db = record db { next_item_id = db.next_item_id + 1 } in
    ap (λ (d : Db). (insert_fanout d s w cs).queue) (insert_there db s w c here)
    ∙ insert_present db' s w cs (HasAll-key db db' s s w w db.queue cs refl refl rest)

all_after_insert :
    (db : Db) (s : RunSchedule) (w : Window) (cs : List Combo)
    → HasAll db s w (insert_fanout db s w cs).queue cs
unfolding insert_fanout
all_after_insert db s w [] = tt
all_after_insert db s w (c ∷ cs) =
    let db' = insert_queue_item db s w c in
    let (new, e) = insert_fanout-Extends db' s w cs in
    (
      rw e (any-append_left _ db'.queue new (key_after_insert db s w c)),
      HasAll-key db' db s s w w _ cs refl refl (all_after_insert db' s w cs),
    )

-- Once a window's fanout has been inserted, inserting it again for the same schedule and due time
-- adds no row, whatever status the rows would have, in any later table where each row still has a row
-- of its schedule, due time, prompt, model and persona: rows may have been added and have changed
-- status, but none has been moved to another due time.
pub insert_fanout_again :
    (db db' : Db) (s s' : RunSchedule) (w w' : Window) (cs : List Combo)
    → All (λ x. (y : RunQueueItem) × In y db'.queue × SameKey x y) (insert_fanout db s w cs).queue
    → s.id ≡ s'.id
    → w.scheduled_for ≡ w'.scheduled_for
    → (insert_fanout db' s' w' cs).queue ≡ db'.queue
insert_fanout_again db db' s s' w w' cs kept i f =
    let queue = (insert_fanout db s w cs).queue in
    insert_present db' s' w' cs (
      HasAll-key db db' s s' w w' db'.queue cs i f (
        HasAll-keys db s w queue db'.queue cs (SameKey-KeepsKeys queue db'.queue kept)
          (all_after_insert db s w cs)))
