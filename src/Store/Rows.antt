-- ===== src/Store/Rows.antt =====
-- Saving a row of the queue: which rows the table has afterwards.
use signal_map.Common.{
  ◌≡◌, ◌≢◌, ◌⊎◌, Bool, true, some, List, [], ◌∷◌, arith, ◌==◌, inl, inr, Bool-cases, In, find_first,
}
use signal_map.Store.{RunQueueItem, save_row}

-- `id` is a primary key.
abbrev pub IsKeyed : List RunQueueItem → Type 0
IsKeyed xs = (x y : RunQueueItem) → In x xs → In y xs → x.id ≡ y.id → x ≡ y

pub save_row_cases :
    (item : RunQueueItem) (xs : List RunQueueItem) (y : RunQueueItem)
    → In y (save_row item xs)
    → (y ≡ item) ⊎ (In y xs × (y.id ≢ item.id))
unfolding save_row
save_row_cases item [] y m = absurd m
save_row_cases item (x ∷ xs) y (inr m) = elim (save_row_cases item xs y m) [
  | inl e ↦ inl e
  | inr (old, ne) ↦ inr (inr old, ne)
]
save_row_cases item (x ∷ xs) y (inl e) = elim (Bool-cases (x.id == item.id)) [
  | inl same ↦ inl (ground (arith, e, same))
  | inr other ↦ inr (inl (ground (arith, e, other)), λ f. ground (arith, e, other, f))
]

-- A save keeps every row of another id.
pub saved_others :
    (item : RunQueueItem) (xs : List RunQueueItem) (y : RunQueueItem)
    → In y xs
    → y.id ≢ item.id
    → In y (save_row item xs)
unfolding save_row
saved_others item [] y m h = absurd m
saved_others item (x ∷ xs) y (inl e) h = inl (ground arith)
saved_others item (x ∷ xs) y (inr m) h = inr (saved_others item xs y m h)

pub saved_self :
    (item : RunQueueItem) (xs : List RunQueueItem) (y : RunQueueItem)
    → In y xs
    → y.id ≡ item.id
    → In item (save_row item xs)
unfolding save_row
saved_self item [] y m h = absurd m
saved_self item (x ∷ xs) y (inl e) h = inl (ground arith)
saved_self item (x ∷ xs) y (inr m) h = inr (saved_self item xs y m h)

pub save_row-IsKeyed :
    (item : RunQueueItem) (xs : List RunQueueItem) → IsKeyed xs → IsKeyed (save_row item xs)
save_row-IsKeyed item xs keyed x y mx my e = elim (save_row_cases item xs x mx) [
  | inl ex ↦ elim (save_row_cases item xs y my) [
    | inl ey ↦ cc
    | inr (oy, ney) ↦ absurd (ney (ground (arith, e, ex)))
  ]
  | inr (ox, nex) ↦ elim (save_row_cases item xs y my) [
    | inl ey ↦ absurd (nex (ground (arith, e, ey)))
    | inr (oy, ney) ↦ keyed x y ox oy e
  ]
]

pub find_first_found :
    (p : RunQueueItem → Bool) (xs : List RunQueueItem) (a : RunQueueItem)
    → find_first p xs ≡ some a
    → In a xs × (p a ≡ true)
find_first_found p [] a h = absurd (ground arith)
find_first_found p (x ∷ xs) a h = elim (Bool-cases (p x)) [
  | inl e ↦ (inl (ground (arith, e, h)), ground (arith, e, h))
  | inr e ↦ let (m, pa) = find_first_found p xs a (ground (arith, e, h)) in (inr m, pa)
]
