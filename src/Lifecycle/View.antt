-- ===== src/Lifecycle/View.antt =====
-- The abstract view of the queue: the status of each id.
use mathlib.Core.Path.{subst}
use signal_map.Common.{
  ℕ, ◌≡◌, ◌⊎◌, refl, sym, ap, ◌∙◌, true, false, Option, none, some, List, [], ◌∷◌, ◌++◌, arith,
  ◌==◌, if◌then◌else◌, Bool-cases, Option-cases, inl, inr, In, All,
}
use signal_map.Store.{Status, RunQueueItem, Db, save_row}
use signal_map.Store.Rows.{IsKeyed}
use signal_map.Lifecycle.{Operation, Birth, Evolves, stays, created}

abbrev pub view : List RunQueueItem → ℕ → Option Status
view [] id = none
view (x ∷ xs) id = if x.id == id then some x.status else view xs id

-- Over the operation, each row of `db` stays, moves or is created.
abbrev pub Simulates : Operation → Db → Db → Type 0
Simulates o db db' = (id : ℕ) → Evolves o (view db.queue id) (view db'.queue id)

pub view-In :
    (xs : List RunQueueItem) (x : RunQueueItem)
    → IsKeyed xs
    → In x xs
    → view xs x.id ≡ some x.status
view-In [] x keyed m = absurd m
view-In (y ∷ xs) x keyed (inl e) = ground (arith, e)
view-In (y ∷ xs) x keyed (inr m) = elim (Bool-cases (y.id == x.id)) [
  | inl same ↦
      let e = keyed y x (inl refl) (inr m) (ground (arith, same)) in ground (arith, same, e)
  | inr other ↦
      let rest = view-In xs x (λ a b ma mb e. keyed a b (inr ma) (inr mb) e) m in
      ground (arith, other, rest)
]

-- a save moves the row of its id
view-save :
    (item : RunQueueItem) (xs : List RunQueueItem) (id : ℕ)
    → (view (save_row item xs) id ≡ view xs id)
      ⊎ ((item.id ≡ id) × (view (save_row item xs) id ≡ some item.status))
unfolding save_row
view-save item [] id = inl refl
view-save item (x ∷ xs) id = elim (Bool-cases (x.id == item.id)) [
  | inl same ↦ elim (Bool-cases (item.id == id)) [
    | inl here ↦ inr (ground (arith, here), ground (arith, same, here))
    | inr elsewhere ↦ elim (view-save item xs id) [
      | inl e ↦ inl (ground (arith, same, elsewhere, e))
      | inr (f, e) ↦ absurd (ground (arith, f, elsewhere))
    ]
  ]
  | inr other ↦ elim (Bool-cases (x.id == id)) [
    | inl here ↦ inl (ground (arith, other, here))
    | inr elsewhere ↦ elim (view-save item xs id) [
      | inl e ↦ inl (ground (arith, other, elsewhere, e))
      | inr (f, e) ↦ inr (f, ground (arith, other, elsewhere, e))
    ]
  ]
]

-- a save that keeps the status changes nothing here
pub save-view :
    (item : RunQueueItem) (xs : List RunQueueItem)
    → view xs item.id ≡ some item.status
    → (id : ℕ) → view (save_row item xs) id ≡ view xs id
save-view item xs h id = elim (view-save item xs id) [
  | inl e ↦ e
  | inr (same, e) ↦ e ∙ sym h ∙ ap (view xs) same
]

pub save-Evolves :
    (o : Operation) (item : RunQueueItem) (xs : List RunQueueItem)
    → Evolves o (view xs item.id) (some item.status)
    → (id : ℕ) → Evolves o (view xs id) (view (save_row item xs) id)
save-Evolves o item xs h id = elim (view-save item xs id) [
  | inl e ↦ stays e
  | inr (same, e) ↦ rw e (subst (λ i. Evolves o (view xs i) (some item.status)) same h)
]

view-All :
    (P : Status → Type 0) (xs : List RunQueueItem) (id : ℕ) (s : Status)
    → All (λ x. P x.status) xs
    → view xs id ≡ some s
    → P s
view-All P [] id s all e = absurd (ground (arith, e))
view-All P (x ∷ xs) id s (h, all) e = elim (Bool-cases (x.id == id)) [
  | inl here ↦ subst P {x = x.status} (ground (arith, e, here)) h
  | inr other ↦ view-All P xs id s all (ground (arith, e, other))
]

-- rows that are appended, each with a status that the operation may give
pub view-append :
    (o : Operation) (xs ys : List RunQueueItem) (id : ℕ)
    → All (λ x. Birth o x.status) ys
    → Evolves o (view xs id) (view (xs ++ ys) id)
view-append o [] ys id all = elim (Option-cases (view ys id)) [
  | inl e ↦ stays e
  | inr (s, e) ↦ created s refl (view-All (Birth o) ys id s all e) e
]
view-append o (x ∷ xs) ys id all =
    elim (x.id == id)
      as (λ b.
        Evolves o (if b then some x.status else view xs id)
          (if b then some x.status else view (xs ++ ys) id)) [
            | true ↦ stays refl
            | false ↦ view-append o xs ys id all
          ]

-- two tables, row by row
pub cons-Evolves :
    (o : Operation) (x y : RunQueueItem) (xs ys : List RunQueueItem) (id : ℕ)
    → x.id ≡ y.id
    → Evolves o (some x.status) (some y.status)
    → Evolves o (view xs id) (view ys id)
    → Evolves o (view (x ∷ xs) id) (view (y ∷ ys) id)
cons-Evolves o x y xs ys id e h rest = elim (Bool-cases (x.id == id)) [
  | inl here ↦ let there : (y.id == id) ≡ true = ground (arith, here, e) in rw (here, there) h
  | inr elsewhere ↦
      let there : (y.id == id) ≡ false = ground (arith, elsewhere, e) in rw (elsewhere, there) rest
]
