-- ===== src/Common/Texts.antt =====
-- A Python text as the list of its code points, with the searches that the modelled code makes.
use Prim.Native.Nat.{ℕ, zero, suc, ◌-◌, ◌<◌}
use Prim.Native.Char.{code}
use Prim.Native.String.{String}
use mathlib.Core.Path.{◌≡◌, refl, ap}
use mathlib.Core.Logic.{inl, inr}
use mathlib.Core.Bool.{Bool, true, false, ◌&&◌}
use mathlib.Core.Option.{Option, none, some}
use mathlib.Core.List.{List, [], ◌∷◌, ◌++◌}
use native.Mathlib.Omega.{arith}
use signal_map.Common.Tests.{if◌then◌else◌, ◌==◌, Bool-cases, Option-cases}
use signal_map.Common.Lists.{length}

abbrev pub Text : Type 0
Text = List ℕ

-- the code points of a literal
abbrev pub codes : String → Text
codes String.[] = []
codes (String.◌∷◌ c s) = code c ∷ codes s

module _ {ℓ} {A : Type ℓ} where
  abbrev pub take : ℕ → List A → List A
  take zero xs = []
  take (suc n) [] = []
  take (suc n) (x ∷ xs) = x ∷ take n xs

  abbrev pub drop : ℕ → List A → List A
  drop zero xs = xs
  drop (suc n) [] = []
  drop (suc n) (x ∷ xs) = drop n xs

  abbrev pub get_elem? : List A → ℕ → Option A
  get_elem? [] n = none
  get_elem? (x ∷ xs) zero = some x
  get_elem? (x ∷ xs) (suc n) = get_elem? xs n

  -- `xs[start:end]`, for `start ≤ end`
  abbrev pub slice : List A → ℕ → ℕ → List A
  slice xs start end = take (end - start) (drop start xs)

  -- how many elements at the head pass a test
  abbrev pub run_length : (A → Bool) → List A → ℕ
  run_length p [] = 0
  run_length p (x ∷ xs) = if p x then suc (run_length p xs) else 0

  -- the list without those
  abbrev pub drop_while : (A → Bool) → List A → List A
  drop_while p [] = []
  drop_while p (x ∷ xs) = if p x then drop_while p xs else x ∷ xs

  abbrev pub reverse : List A → List A
  reverse [] = []
  reverse (x ∷ xs) = reverse xs ++ (x ∷ [])

  -- without those at either end
  abbrev pub strip : (A → Bool) → List A → List A
  strip p xs = reverse (drop_while p (reverse (drop_while p xs)))

  pub get_elem?-lt : (xs : List A) (n : ℕ) → n < length xs → (x : A) × (get_elem? xs n ≡ some x)
  get_elem?-lt [] n h = absurd (omega arith)
  get_elem?-lt (x ∷ xs) zero h = (x, refl)
  get_elem?-lt (x ∷ xs) (suc n) h = get_elem?-lt xs n (omega arith)

abbrev pub same_text : Text → Text → Bool
same_text [] [] = true
same_text [] (b ∷ t) = false
same_text (a ∷ s) [] = false
same_text (a ∷ s) (b ∷ t) = (a == b) && same_text s t

abbrev pub starts_with : Text → Text → Bool
starts_with s [] = true
starts_with [] (b ∷ t) = false
starts_with (a ∷ s) (b ∷ t) = (a == b) && starts_with s t

-- `s.find(needle)`, where -1 is `none`
abbrev pub find : Text → Text → Option ℕ
find [] needle = if starts_with [] needle then some 0 else none
find (a ∷ s) needle =
    if starts_with (a ∷ s) needle
    then some 0
    else elim (find s needle) [ none ↦ none | some i ↦ some (suc i) ]

-- The needle stands in the text, with something before it and something after it.
abbrev pub Occurs : Text → Text → Type 0
Occurs needle s = (before : Text) × (after : Text) × (s ≡ before ++ (needle ++ after))

starts_with_sound :
    (s needle : Text) → starts_with s needle ≡ true → (after : Text) × (s ≡ needle ++ after)
starts_with_sound s [] h = (s, refl)
starts_with_sound [] (b ∷ t) h = absurd (ground (arith, h))
starts_with_sound (a ∷ s) (b ∷ t) h =
    let (after, e) = starts_with_sound s t (ground (arith, h)) in (after, ground (arith, h, e))

starts_with_complete : (needle after : Text) → starts_with (needle ++ after) needle ≡ true
starts_with_complete [] after = ground arith
starts_with_complete (b ∷ t) after = ground (arith, starts_with_complete t after)

-- A position that `find` gives is one where the needle stands.
pub find_sound :
    (s needle : Text) (i : ℕ)
    → find s needle ≡ some i
    → (before : Text) × (after : Text) × (s ≡ before ++ (needle ++ after)) × (length before ≡ i)
find_sound [] needle i h = elim (Bool-cases (starts_with [] needle)) [
  | inl e ↦ let (after, eq) = starts_with_sound [] needle e in ([], after, eq, ground (arith, h, e))
  | inr e ↦ absurd (ground (arith, h, e))
]
find_sound (a ∷ s) needle i h = elim (Bool-cases (starts_with (a ∷ s) needle)) [
  | inl e ↦
      let (after, eq) = starts_with_sound (a ∷ s) needle e in ([], after, eq, ground (arith, h, e))
  | inr e ↦ elim (Option-cases (find s needle)) [
    | inl n ↦ absurd (ground (arith, h, e, n))
    | inr (j, f) ↦
        let (before, after, eq, len) = find_sound s needle j f in
        (a ∷ before, after, ap (λ t. a ∷ t) eq, ground (arith, h, e, f, len))
  ]
]

-- Where the needle stands somewhere, `find` gives a position.
pub find_complete :
    (before needle after : Text) → (i : ℕ) × (find (before ++ (needle ++ after)) needle ≡ some i)
find_complete [] needle after =
    at_start (needle ++ after) needle (starts_with_complete needle after)
  where
    at_start : (s n : Text) → starts_with s n ≡ true → (i : ℕ) × (find s n ≡ some i)
    at_start [] n h = (0, ground (arith, h))
    at_start (a ∷ s) n h = (0, ground (arith, h))
find_complete (a ∷ before) needle after =
    elim (Bool-cases (starts_with (a ∷ (before ++ (needle ++ after))) needle)) [
      | inl e ↦ (0, ground (arith, e))
      | inr e ↦ let (i, f) = find_complete before needle after in (suc i, ground (arith, e, f))
    ]
