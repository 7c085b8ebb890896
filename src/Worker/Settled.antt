-- ===== src/Worker/Settled.antt =====
-- One pass of the worker over a claimed item, from the claim to the committed result.
use mathlib.Core.Path.{subst}
use signal_map.Common.{
  All, All-In, All-each, ℕ, ◌≤◌, ◌<◌, ◌≡◌, ◌≢◌, ◌⊎◌, sym, ap, ◌∙◌, String, Bool, true, false, arith,
  inl, inr, In, ok, Result-cases, List, [], ◌∷◌, ◌++◌, ok_injective,
}
use signal_map.Store.{save_run, leased, RunQueueItem, Run, Db, AiModel, is_waiting, save_row}
use signal_map.Store.Rows.{saved_others, saved_self, save_row_cases}
use signal_map.Queue.Claim.{is_candidate}
use signal_map.Execution.{Outcome, exceeds_daily_quota}
use signal_map.Worker.{
  Limits, settled, admitted, admit_item, conclude_item, process_claimed_item, new_run,
  max_transport_attempts,
}
use signal_map.Worker.Branches.{IsSettled, SameRuns, Admits, admit_item-Admits}
use signal_map.Worker.Conclusion.{IsFinished, conclude_item-IsConcluded}

-- The runs of a pass: as before, or one more, which is over, and then the quota had room for it.
abbrev pub OneRunMore : Limits → Db → RunQueueItem → ℕ → Db → Type 0
OneRunMore limits db item now db' =
    (run' : Run) × IsFinished (new_run db item) run'
    × (db'.runs ≡ save_run run' (db.runs ++ (new_run db item ∷ [])))
    × (db'.prompts ≡ db.prompts)
    × (db'.clients ≡ db.clients)
    × (exceeds_daily_quota db item.client_id now limits.default_daily_run_limit ≡ false)

abbrev pub Processes : Limits → Db → RunQueueItem → ℕ → Db × RunQueueItem → Type 0
Processes limits db item now (db', item') =
    IsSettled now item'
    × (item'.id ≡ item.id)
    × (item.transport_attempts < max_transport_attempts
        → item'.transport_attempts ≤ max_transport_attempts)
    × (item.transport_attempts < max_transport_attempts
        → is_waiting item'.status ≡ true
        → item'.transport_attempts < max_transport_attempts)
    × ((y : RunQueueItem) → In y db.queue → y.id ≢ item.id → In y db'.queue)
    × (In item db.queue → In item' db'.queue)
    × ((y : RunQueueItem) → In y db'.queue → (y ≡ item') ⊎ (In y db.queue × (y.id ≢ item.id)))
    × (SameRuns db' db ⊎ OneRunMore limits db item now db')

-- Two saves of the same row keep the others.
kept_by_both :
    (a b : RunQueueItem) (xs : List RunQueueItem) (y : RunQueueItem) (i : ℕ)
    → a.id ≡ i
    → b.id ≡ i
    → In y xs
    → y.id ≢ i
    → In y (save_row b (save_row a xs))
kept_by_both a b xs y i ea eb m ne =
    saved_others b (save_row a xs) y (saved_others a xs y m (λ e. ne (e ∙ ea))) (λ e. ne (e ∙ eb))

-- What one save, or two saves of the same row, leave in the table.
saved_cases :
    (a : RunQueueItem) (xs : List RunQueueItem) (i : ℕ)
    → a.id ≡ i
    → (y : RunQueueItem) → In y (save_row a xs)
    → (y ≡ a) ⊎ (In y xs × (y.id ≢ i))
saved_cases a xs i e y m = elim (save_row_cases a xs y m) [
  | inl same ↦ inl same
  | inr (old, ne) ↦ inr (old, λ f. ne (f ∙ sym e))
]

saved_twice_cases :
    (a b : RunQueueItem) (xs : List RunQueueItem) (i : ℕ)
    → a.id ≡ i
    → b.id ≡ i
    → (y : RunQueueItem) → In y (save_row b (save_row a xs))
    → (y ≡ b) ⊎ (In y xs × (y.id ≢ i))
saved_twice_cases a b xs i ea eb y m = elim (saved_cases b (save_row a xs) i eb y m) [
  | inl same ↦ inl same
  | inr (first, ne) ↦ elim (saved_cases a xs i ea y first) [
    | inl same ↦ absurd (ne (ap (λ (x : RunQueueItem). x.id) same ∙ ea))
    | inr old ↦ inr old
  ]
]

settled-Processes :
    (limits : Limits) (db : Db) (item : RunQueueItem) (now : ℕ) (db' : Db) (i : RunQueueItem)
    → Admits limits db item now (settled db' i)
    → Processes limits db item now (db', i)
settled-Processes limits db item now db' i (s, same, q, e, t) = (
  s,
  e,
  (λ few. omega (arith, t)),
  (λ few _. omega (arith, t)),
  (λ y m ne. rw q (saved_others i db.queue y m (λ f. ne (f ∙ e)))),
  (λ m. rw q (saved_self i db.queue item m (sym e))),
  (λ y m. saved_cases i db.queue item.id e y (subst (In y) q m)),
  inl same,
)

settled_no_candidate :
    (now : ℕ) (item : RunQueueItem)
    → IsSettled now item
    → (is_locked : ℕ → Bool) → is_candidate is_locked now item ≡ false
unfolding is_candidate is_waiting
settled_no_candidate now item (inl (out, fin)) l = ground (arith, out)
settled_no_candidate now item (inr (waits, later)) l = ground (arith, waits, later)

settled_not_leased : (now : ℕ) (item : RunQueueItem) → IsSettled now item → item.status ≢ leased
unfolding is_waiting
settled_not_leased now item (inl (out, fin)) e = ground (arith, out, e)
settled_not_leased now item (inr (waits, later)) e = ground (arith, waits, e)

-- At most four counted calls, and fewer where a call may still come.
abbrev pub IsBounded : RunQueueItem → Type 0
IsBounded y =
    (y.transport_attempts ≤ max_transport_attempts)
    × ((is_waiting y.status ≡ true) ⊎ (y.status ≡ leased)
        → y.transport_attempts < max_transport_attempts)

module _ (lower : String → String) (show : ℕ → String) where
  concluded-Processes :
      (limits : Limits) (db : Db) (item : RunQueueItem) (now : ℕ) (db' : Db) (i : RunQueueItem)
      (run : Run) (model : AiModel) (out : Outcome)
      → Admits limits db item now (admitted db' i run model)
      → Processes limits db item now (conclude_item lower show db' i run model now out)
  concluded-Processes limits db item now db' i run model out
        ((er, ei), (rs, ps, cs), q, quota, _, _, _) =
      let ((s, e, (_, most, again)), (run', fin, rs', ps', cs'), q') =
        conclude_item-IsConcluded lower show db' i run model now out in
      let out_item : RunQueueItem = (conclude_item lower show db' i run model now out).1 in
      let same : i.id ≡ item.id = ap (λ (x : RunQueueItem). x.id) ei in
      let tries : i.transport_attempts ≡ item.transport_attempts =
        ap (λ (x : RunQueueItem). x.transport_attempts) ei in
      (
        s,
        e ∙ same,
        (λ few. omega (arith, most, tries)),
        (λ few back. again (omega (arith, few, tries)) back),
        (λ y m ne.
            subst (In y) (sym (q' ∙ ap (save_row out_item) q))
              (kept_by_both i out_item db.queue y item.id same (e ∙ same) m ne)),
        (λ m. subst (In out_item) (sym (q' ∙ ap (save_row out_item) q)) (
            saved_self out_item (save_row i db.queue) i (saved_self i db.queue item m (sym same))
              (sym e))),
        (λ y m.
            saved_twice_cases i out_item db.queue item.id same (e ∙ same) y
              (subst (In y) (q' ∙ ap (save_row out_item) q) m)),
        inr (
          run',
          subst (λ (r : Run). IsFinished r run') er fin,
          rs' ∙ ap (save_run run') (rs ∙ ap (λ (r : Run). db.runs ++ (r ∷ [])) er),
          ps' ∙ ps,
          cs' ∙ cs,
          quota,
        ),
      )

  pub process_claimed_item-Processes :
      (provider : Run → Outcome) (limits : Limits) (db : Db) (item : RunQueueItem) (now : ℕ)
      {p : Db × RunQueueItem}
      → process_claimed_item lower show provider limits db item now ≡ ok p
      → Processes limits db item now p
  unfolding process_claimed_item
  process_claimed_item-Processes provider limits db item now {p} h =
      elim (Result-cases (admit_item limits db item now)) [
        | inl (e, failed) ↦ absurd (ground (arith, rw (process_claimed_item, failed) at h))
        | inr (settled db' i, ends) ↦
            subst (Processes limits db item now)
              (ok_injective (rw (process_claimed_item, ends) at h))
              (settled-Processes limits db item now db' i
                (admit_item-Admits limits db item now ends))
        | inr (admitted db' i run model, starts) ↦
            subst (Processes limits db item now)
              (ok_injective (rw (process_claimed_item, starts) at h))
              (concluded-Processes limits db item now db' i run model (provider run)
                (admit_item-Admits limits db item now starts))
      ]

  -- After a pass that returns over a row of the queue, the item that it returns stands in the table, and
  -- every row of its id there is this item: done, in error or skipped, with `finished_at` set to `now`,
  -- or waiting for a time after `now`; never leased, and never one that a claim at `now` would give
  -- again. Rows of other ids are kept.
  pub process_claimed_item_settles :
      (provider : Run → Outcome) (limits : Limits) (db db' : Db) (item item' : RunQueueItem)
      (now : ℕ)
      → In item db.queue
      → process_claimed_item lower show provider limits db item now ≡ ok (db', item')
      → In item' db'.queue
        × (item'.id ≡ item.id)
        × IsSettled now item'
        × ((y : RunQueueItem)
            → In y db'.queue
            → y.id ≡ item.id
            → (y ≡ item') × ((is_locked : ℕ → Bool) → is_candidate is_locked now y ≡ false))
        × ((y : RunQueueItem) → In y db.queue → y.id ≢ item.id → In y db'.queue)
  process_claimed_item_settles provider limits db db' item item' now m h =
      let (s, e, _, _, others, there, rows, _) =
        process_claimed_item-Processes provider limits db item now h in
      (
        there m,
        e,
        s,
        (λ y my same. elim (rows y my) [
          | inl eq ↦ (
            eq,
            subst (λ z. (l : ℕ → Bool) → is_candidate l now z ≡ false) (sym eq)
                (settled_no_candidate now item' s),
          )
          | inr (old, ne) ↦ absurd (ne same)
        ]),
        others,
      )

  -- Where no row has made more than four counted provider calls, and none that waits or is leased has
  -- made four, the same holds of every row after a pass that returns over a leased row: the pass counts
  -- no fifth call, and puts no item back that has made four.
  pub process_claimed_item_attempts :
      (provider : Run → Outcome) (limits : Limits) (db db' : Db) (item item' : RunQueueItem)
      (now : ℕ)
      → In item db.queue
      → item.status ≡ leased
      → process_claimed_item lower show provider limits db item now ≡ ok (db', item')
      → All IsBounded db.queue
      → All IsBounded db'.queue
  process_claimed_item_attempts provider limits db db' item item' now m l h all =
      let (s, _, most, again, _, _, rows, _) =
        process_claimed_item-Processes provider limits db item now h in
      let few = (All-In IsBounded db.queue item all m).1 (inr l) in
      let after : IsBounded item' = (
        most few,
        λ active. elim active [
          | inl waits ↦ again few waits
          | inr busy ↦ absurd (settled_not_leased now item' s busy)
        ],
      ) in
      All-each IsBounded db'.queue (λ y my. elim (rows y my) [
        | inr (old, ne) ↦ All-In IsBounded db.queue y all old
        | inl eq ↦ subst IsBounded (sym eq) after
      ])
