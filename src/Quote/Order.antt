-- ===== src/Quote/Order.antt =====
-- Lists of characters with the offsets that they come from.

use mathlib.Core.List.{flat_map, append-nil, append_assoc}
use signal_map.Common.{
  ℕ, ◌≤◌, ◌<◌, ◌≡◌, refl, sym, ap, ◌∙◌, Bool, List, [], ◌∷◌, ◌++◌, map, arith, if_both, length,
  length-append, drop_while, reverse, strip, All,
}
use signal_map.Quote.Normal.{Piece}

-- Offsets that do not fall, from `lo` on and below `hi`.
abbrev pub Within {ℓ} : {A : Type ℓ} → ℕ → ℕ → List (A × ℕ) → Type 0
Within lo hi [] = Unit
Within lo hi ((a, i) ∷ ps) = (lo ≤ i) × (i < hi) × Within i hi ps

pub Within-from {ℓ} :
    {A : Type ℓ} (lo lo' hi : ℕ) (ps : List (A × ℕ)) → lo ≤ lo' → Within lo' hi ps → Within lo hi ps
Within-from lo lo' hi [] h w = tt
Within-from lo lo' hi ((a, i) ∷ ps) h (l, u, w) = (omega arith, u, w)

pub Within-to {ℓ} :
    {A : Type ℓ} (lo lo' hi hi' : ℕ) (ps : List (A × ℕ))
    → lo' ≤ lo
    → hi ≤ hi'
    → Within lo hi ps
    → Within lo' hi' ps
Within-to lo lo' hi hi' [] h k w = tt
Within-to lo lo' hi hi' ((a, i) ∷ ps) h k (l, u, w) =
    (omega arith, omega arith, Within-to i i hi hi' ps (omega arith) k w)

-- many characters of one offset
pub Within-same {ℓ κ} :
    {A : Type ℓ} {B : Type κ} (f : B → A) (i hi : ℕ) (bs : List B) (ps : List (A × ℕ))
    → i < hi
    → Within i hi ps
    → Within i hi (map (λ b. (f b, i)) bs ++ ps)
Within-same f i hi [] ps h w = w
Within-same f i hi (b ∷ bs) ps h w = (omega arith, h, Within-same f i hi bs ps h w)

pub Within-left {ℓ} :
    {A : Type ℓ} (lo hi : ℕ) (ps qs : List (A × ℕ)) → Within lo hi (ps ++ qs) → Within lo hi ps
Within-left lo hi [] qs w = tt
Within-left lo hi ((a, i) ∷ ps) qs (l, u, w) = (l, u, Within-left i hi ps qs w)

pub Within-right {ℓ} :
    {A : Type ℓ} (lo hi : ℕ) (ps qs : List (A × ℕ)) → Within lo hi (ps ++ qs) → Within lo hi qs
Within-right lo hi [] qs w = w
Within-right lo hi ((a, i) ∷ ps) qs (l, u, w) = Within-from lo i hi qs l (Within-right i hi ps qs w)

-- What is stripped stands before and after what is left.
pub drop_while-suffix {ℓ} :
    {A : Type ℓ} (p : A → Bool) (xs : List A) → (pre : List A) × (xs ≡ pre ++ drop_while p xs)
drop_while-suffix p [] = ([], refl)
drop_while-suffix p (x ∷ xs) =
    let (pre, e) = drop_while-suffix p xs in
    if_both (λ ys. (pre : List _) × (x ∷ xs ≡ pre ++ ys)) (p x) (x ∷ pre, ap (λ ys. x ∷ ys) e)
      ([], refl)

pub reverse-append {ℓ} :
    {A : Type ℓ} (xs ys : List A) → reverse (xs ++ ys) ≡ reverse ys ++ reverse xs
reverse-append [] ys = sym (append-nil (reverse ys))
reverse-append (x ∷ xs) ys =
    ap (λ zs. zs ++ (x ∷ [])) (reverse-append xs ys)
    ∙ append_assoc (reverse ys) (reverse xs) (x ∷ [])

pub reverse-reverse {ℓ} : {A : Type ℓ} (xs : List A) → reverse (reverse xs) ≡ xs
reverse-reverse [] = refl
reverse-reverse (x ∷ xs) =
    reverse-append (reverse xs) (x ∷ []) ∙ ap (λ ys. x ∷ ys) (reverse-reverse xs)

pub strip-infix {ℓ} :
    {A : Type ℓ} (p : A → Bool) (xs : List A)
    → (pre : List A) × (post : List A) × (xs ≡ pre ++ (strip p xs ++ post))
strip-infix p xs =
    let (pre, e) = drop_while-suffix p xs in
    let (post, f) = drop_while-suffix p (reverse (drop_while p xs)) in
    let back =
      sym (reverse-reverse (drop_while p xs))
      ∙ ap reverse f
      ∙ reverse-append post (drop_while p (reverse (drop_while p xs))) in
    (pre, reverse post, e ∙ ap (λ ys. pre ++ ys) back)

-- One character each.
abbrev pub Singles : List Piece → Type 0
Singles ps = All (λ (p : Piece). length p.0 ≡ 1) ps

pub Singles-left : (ps qs : List Piece) → Singles (ps ++ qs) → Singles ps
Singles-left [] qs h = tt
Singles-left (p ∷ ps) qs (h, t) = (h, Singles-left ps qs t)

pub Singles-right : (ps qs : List Piece) → Singles (ps ++ qs) → Singles qs
Singles-right [] qs h = h
Singles-right (p ∷ ps) qs (h, t) = Singles-right ps qs t

pub length-Singles :
    (ps : List Piece)
    → Singles ps
    → length (flat_map (λ (p : Piece). p.0) ps) ≡ length (map (λ (p : Piece). p.1) ps)
unfolding flat_map
length-Singles [] h = refl
length-Singles ((s, i) ∷ ps) (h, t) =
    omega (arith, length-append s (flat_map (λ (p : Piece). p.0) ps), h, length-Singles ps t)
