-- ===== src/Queue/Retry/Bulk.antt =====
-- The bulk retry: it fails whenever two failed occurrences of one schedule target the same prompt,
-- model and persona, since both retries are due at the same instant.
use mathlib.Core.Path.{subst}
use signal_map.Common.{
  any-append_left, ℕ, ◌≡◌, ◌⊎◌, refl, String, Bool, true, some, List, [], ◌∷◌, ◌++◌, arith,
  if_split, if_both, inl, inr, Bool-cases, All, In, any, select, ok, raised, integrity_error,
}
use signal_map.Store.{RunQueueItem, Db, Status, same_occurrence}
use signal_map.Queue.Retry.Single.{create_retry_branches}
use signal_map.Queue.Retry.{
  is_retryable, is_error, retry_row, create_retry, retry_each, matches_search, retry_all_errors,
}

-- The two would be the same occurrence at one due time.
abbrev pub SameTarget : RunQueueItem → RunQueueItem → Type 0
SameTarget x y =
    (i : ℕ) × (x.schedule_id ≡ some i)
    × (y.schedule_id ≡ some i)
    × (x.prompt_id ≡ y.prompt_id)
    × (x.model_id ≡ y.model_id)
    × (x.persona_id ≡ y.persona_id)

-- A retry of `y` at `now` would meet a row of the table.
abbrev IsTaken : Db → RunQueueItem → ℕ → Type 0
IsTaken db y now = any (same_occurrence (record y { scheduled_for = now })) db.queue ≡ true

any-append_right :
    (p : RunQueueItem → Bool) (xs ys : List RunQueueItem)
    → any p ys ≡ true
    → any p (xs ++ ys) ≡ true
any-append_right p [] ys h = h
any-append_right p (x ∷ xs) ys h = ground (arith, any-append_right p xs ys)

create_retry_db :
    (db : Db) (i : RunQueueItem) (now : ℕ) {db' : Db}
    → create_retry db i now ≡ ok db'
    → db'.queue ≡ db.queue ++ (retry_row db i now ∷ [])
unfolding create_retry
create_retry_db db i now h = ground arith

error_is_retryable : (s : Status) → is_error s ≡ true → is_retryable s ≡ true
unfolding is_error is_retryable
error_is_retryable s h = ground arith

-- Of error items, a retry can only fail by the unique index.
create_retry_error :
    (db : Db) (i : RunQueueItem) (now : ℕ)
    → is_error i.status ≡ true
    → (create_retry db i now ≡ raised integrity_error)
      ⊎ ((db' : Db) × (create_retry db i now ≡ ok db'))
create_retry_error db i now h =
    let (never, full, free) = create_retry_branches db i now in
    let again = error_is_retryable i.status h in
    elim (Bool-cases (any (same_occurrence (record i { scheduled_for = now })) db.queue)) [
      | inl t ↦ inl (full again t)
      | inr f ↦ inr (free again f)
    ]

retried_takes :
    (db : Db) (x y : RunQueueItem) (now : ℕ)
    → SameTarget x y
    → same_occurrence (record y { scheduled_for = now }) (retry_row db x now) ≡ true
unfolding same_occurrence retry_row
retried_takes db x y now same = ground arith

matched_is_error :
    (ilike : String → String → Bool) (db : Db) (search : String) (i : RunQueueItem)
    → matches_search ilike db search i ≡ true
    → is_error i.status ≡ true
unfolding matches_search
matched_is_error ilike db search i h = ground arith

module _ (now : ℕ) where
  -- A row in the way of one of the items stops the retries.
  retry_each_taken :
      (items : List RunQueueItem) (db : Db) (y : RunQueueItem)
      → All (λ (i : RunQueueItem). is_error i.status ≡ true) items
      → In y items
      → IsTaken db y now
      → (retry_each db items now).1 ≡ raised integrity_error
  unfolding retry_each
  retry_each_taken [] db y errs m t = absurd m
  retry_each_taken (i ∷ items) db y (err, errs) (inl e) t =
      let stop =
        (create_retry_branches db i now).1 (error_is_retryable i.status err)
          (subst (λ z. IsTaken db z now) e t) in
      ground (arith, stop)
  retry_each_taken (i ∷ items) db y (err, errs) (inr m) t = elim (create_retry_error db i now err) [
    | inl stop ↦ ground (arith, stop)
    | inr (db', more) ↦
        let t' : IsTaken db' y now =
          rw (create_retry_db db i now more) (any-append_left _ db.queue _ t) in
        ground (arith, more, retry_each_taken items db' y errs m t')
  ]

  -- `x` stands before `y` among the items
  abbrev pub Before : RunQueueItem → RunQueueItem → List RunQueueItem → Type 0
  Before x y [] = ⊥
  Before x y (z ∷ zs) = ((x ≡ z) × In y zs) ⊎ Before x y zs

  retry_each_collides :
      (items : List RunQueueItem) (db : Db) (x y : RunQueueItem)
      → All (λ (i : RunQueueItem). is_error i.status ≡ true) items
      → Before x y items
      → SameTarget x y
      → (retry_each db items now).1 ≡ raised integrity_error
  unfolding retry_each
  retry_each_collides [] db x y errs b same = absurd b
  retry_each_collides (i ∷ items) db x y (err, errs) (inl (e, m)) same =
      elim (create_retry_error db i now err) [
        | inl stop ↦ ground (arith, stop)
        | inr (db', more) ↦
            let t : IsTaken db' y now =
              rw (create_retry_db db i now more, ← e)
                (any-append_right _ db.queue _ (any_single (retried_takes db x y now same))) in
            ground (arith, more, retry_each_taken items db' y errs m t)
      ]
    where
      any_single :
          same_occurrence (record y { scheduled_for = now }) (retry_row db x now) ≡ true
          → any (same_occurrence (record y { scheduled_for = now })) (retry_row db x now ∷ [])
            ≡ true
      any_single h = ground (arith, h)
  retry_each_collides (i ∷ items) db x y (err, errs) (inr b) same =
      elim (create_retry_error db i now err) [
        | inl stop ↦ ground (arith, stop)
        | inr (db', more) ↦ ground (arith, more, retry_each_collides items db' x y errs b same)
      ]

  In-select :
      (p : RunQueueItem → Bool) (xs : List RunQueueItem) (y : RunQueueItem)
      → In y xs
      → p y ≡ true
      → In y (select p xs)
  In-select p [] y m h = absurd m
  In-select p (x ∷ xs) y (inl e) h =
      let px : p x ≡ true = subst (λ z. p z ≡ true) e h in rw px (inl e)
  In-select p (x ∷ xs) y (inr m) h =
      if_both (In y) (p x) (inr (In-select p xs y m h)) (In-select p xs y m h)

  Before-select :
      (p : RunQueueItem → Bool) (xs : List RunQueueItem) (x y : RunQueueItem)
      → Before x y xs
      → p x ≡ true
      → p y ≡ true
      → Before x y (select p xs)
  Before-select p [] x y b hx hy = absurd b
  Before-select p (z ∷ xs) x y (inl (e, m)) hx hy =
      let pz : p z ≡ true = subst (λ u. p u ≡ true) e hx in rw pz (inl (e, In-select p xs y m hy))
  Before-select p (z ∷ xs) x y (inr b) hx hy =
      if_both (Before x y) (p z) (inr (Before-select p xs x y b hx hy))
        (Before-select p xs x y b hx hy)

  selected_errors :
      (ilike : String → String → Bool) (db : Db) (search : String) (xs : List RunQueueItem)
      → All
          (λ (i : RunQueueItem). is_error i.status ≡ true)
          (select (matches_search ilike db search) xs)
  selected_errors ilike db search [] = tt
  selected_errors ilike db search (x ∷ xs) =
      if_split (All (λ (i : RunQueueItem). is_error i.status ≡ true))
        (matches_search ilike db search x)
        (λ h. (matched_is_error ilike db search x h, selected_errors ilike db search xs))
        (λ h. selected_errors ilike db search xs)

  -- The bulk retry of errors raises IntegrityError whenever two of the items that it selects were
  -- occurrences of one schedule for the same prompt, model and persona, whatever their due times.
  pub retry_all_errors_collides :
      (ilike : String → String → Bool) (db : Db) (search : String) (x y : RunQueueItem)
      → Before x y db.queue
      → matches_search ilike db search x ≡ true
      → matches_search ilike db search y ≡ true
      → SameTarget x y
      → (retry_all_errors ilike db search now).1 ≡ raised integrity_error
  unfolding retry_all_errors
  retry_all_errors_collides ilike db search x y b hx hy same =
      let stop =
        retry_each_collides (select (matches_search ilike db search) db.queue) db x y
          (selected_errors ilike db search db.queue)
          (Before-select (matches_search ilike db search) db.queue x y b hx hy) same in
      rw stop refl
