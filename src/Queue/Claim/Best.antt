-- ===== src/Queue/Claim/Best.antt =====
-- Which item is claimed: a due one that waits, of the highest priority, the longest due first.
use signal_map.Common.{
  ◌⊎◌, ◌<◌, ◌≤◌, ℕ, ◌≡◌, refl, String, Bool, true, false, Option, none, some, List, [], ◌∷◌, arith,
  if_split, inl, inr, All, In,
}
use signal_map.Store.{RunQueueItem, Db, save_item}
use signal_map.Queue.Claim.{
  is_candidate, comes_before, earlier_of, first_ordered, lease_row, claim_next,
}

-- `a` is among the rows, passes the test, and no row that passes comes before it.
abbrev pub IsBest : (RunQueueItem → Bool) → List RunQueueItem → RunQueueItem → Type 0
IsBest p xs a = In a xs × (p a ≡ true) × All (λ x. p x ≡ true → comes_before x a ≡ false) xs

-- What `first_ordered` gives: nothing if no row passes, and the best row otherwise.
abbrev pub Answers : (RunQueueItem → Bool) → List RunQueueItem → Option RunQueueItem → Type 0
Answers p xs none = All (λ x. p x ≡ false) xs
Answers p xs (some a) = IsBest p xs a

comes_before_irrefl : (a : RunQueueItem) → comes_before a a ≡ false
unfolding comes_before
comes_before_irrefl a = ground arith

comes_before_asymm : (a b : RunQueueItem) → comes_before a b ≡ true → comes_before b a ≡ false
unfolding comes_before
comes_before_asymm a b h = ground arith

-- what does not come before `b` does not come before what is not after `b`
comes_before_trans :
    (x b a : RunQueueItem)
    → comes_before x b ≡ false
    → comes_before b a ≡ false
    → comes_before x a ≡ false
unfolding comes_before
comes_before_trans x b a h k = ground arith

All-weaken :
    (p : RunQueueItem → Bool) (a b : RunQueueItem) (xs : List RunQueueItem)
    → comes_before b a ≡ false
    → All (λ x. p x ≡ true → comes_before x b ≡ false) xs
    → All (λ x. p x ≡ true → comes_before x a ≡ false) xs
All-weaken p a b [] h all = tt
All-weaken p a b (x ∷ xs) h (here, rest) =
    ((λ px. comes_before_trans x b a (here px) h), All-weaken p a b xs h rest)

All-vacuous :
    (p : RunQueueItem → Bool) (a : RunQueueItem) (xs : List RunQueueItem)
    → All (λ x. p x ≡ false) xs
    → All (λ x. p x ≡ true → comes_before x a ≡ false) xs
All-vacuous p a [] all = tt
All-vacuous p a (x ∷ xs) (here, rest) = ((λ px. ground (arith, px, here)), All-vacuous p a xs rest)

Answers-cons :
    (p : RunQueueItem → Bool) (x : RunQueueItem) (xs : List RunQueueItem) (o : Option RunQueueItem)
    → p x ≡ true
    → Answers p xs o
    → IsBest p (x ∷ xs) (earlier_of x o)
unfolding earlier_of
Answers-cons p x xs none px all =
    (inl refl, px, ((λ q. comes_before_irrefl x), All-vacuous p x xs all))
Answers-cons p x xs (some y) px (m, py, all) =
    if_split (IsBest p (x ∷ xs)) (comes_before y x)
      (λ sooner. (inr m, py, ((λ q. comes_before_asymm y x sooner), all)))
      (λ later. (inl refl, px, ((λ q. comes_before_irrefl x), All-weaken p x y xs later all)))

Answers-skip :
    (p : RunQueueItem → Bool) (x : RunQueueItem) (xs : List RunQueueItem) (o : Option RunQueueItem)
    → p x ≡ false
    → Answers p xs o
    → Answers p (x ∷ xs) o
Answers-skip p x xs none h all = (h, all)
Answers-skip p x xs (some a) h (m, pa, all) = (inr m, pa, ((λ q. ground (arith, q, h)), all))

pub first_ordered-Answers :
    (p : RunQueueItem → Bool) (xs : List RunQueueItem) → Answers p xs (first_ordered p xs)
unfolding first_ordered
first_ordered-Answers p [] = tt
first_ordered-Answers p (x ∷ xs) =
    if_split (Answers p (x ∷ xs)) (p x)
      (λ px. Answers-cons p x xs (first_ordered p xs) px (first_ordered-Answers p xs))
      (λ px. Answers-skip p x xs (first_ordered p xs) px (first_ordered-Answers p xs))

-- `a` is claimed before `x` or stands level with it: by priority first, then by due time.
abbrev pub Precedes : RunQueueItem → RunQueueItem → Type 0
Precedes a x =
    (x.priority < a.priority) ⊎ ((x.priority ≡ a.priority) × (a.scheduled_for ≤ x.scheduled_for))

not_before-Precedes : (x a : RunQueueItem) → comes_before x a ≡ false → Precedes a x
unfolding comes_before
not_before-Precedes x a h = ground (arith, h)

All-Precedes :
    (p : RunQueueItem → Bool) (a : RunQueueItem) (xs : List RunQueueItem)
    → All (λ x. p x ≡ true → comes_before x a ≡ false) xs
    → All (λ x. p x ≡ true → Precedes a x) xs
All-Precedes p a [] all = tt
All-Precedes p a (x ∷ xs) (here, rest) =
    ((λ px. not_before-Precedes x a (here px)), All-Precedes p a xs rest)

-- The claim of an item, or of none: what it answers and how the table changes.
abbrev pub Claims : (ℕ → Bool) → Db → String → ℕ → ℕ → Db × Option RunQueueItem → Type 0
Claims is_locked db worker now mins (db', none) =
    (db' ≡ db) × All (λ x. is_candidate is_locked now x ≡ false) db.queue
Claims is_locked db worker now mins (db', some item) =
    (a : RunQueueItem) × (In a db.queue
      × (is_candidate is_locked now a ≡ true)
      × All (λ x. is_candidate is_locked now x ≡ true → Precedes a x) db.queue)
    × (item ≡ lease_row worker now mins a)
    × (db' ≡ save_item db item)

Claims-of :
    (is_locked : ℕ → Bool) (db : Db) (worker : String) (now mins : ℕ) (o : Option RunQueueItem)
    → Answers (is_candidate is_locked now) db.queue o
    → Claims is_locked db worker now mins (elim o [
      | none ↦ (db, none)
      | some a ↦ (save_item db (lease_row worker now mins a), some (lease_row worker now mins a))
    ])
Claims-of is_locked db worker now mins none all = (refl, all)
Claims-of is_locked db worker now mins (some a) (m, due, all) =
    (a, (m, due, All-Precedes (is_candidate is_locked now) a db.queue all), refl, refl)

-- `claim_next` gives none, and changes nothing, only if no unlocked row that waits is due. Otherwise
-- it leases such a row and saves it: one of the highest priority and, among those, of the earliest
-- due time.
pub claim_next-best :
    (is_locked : ℕ → Bool) (db : Db) (worker : String) (now mins : ℕ)
    → Claims is_locked db worker now mins (claim_next is_locked db worker now mins)
unfolding claim_next
claim_next-best is_locked db worker now mins =
    Claims-of is_locked db worker now mins _
      (first_ordered-Answers (is_candidate is_locked now) db.queue)
