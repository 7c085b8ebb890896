-- ===== src/Passages/Bounds.antt =====
-- How much is selected, and that nothing is selected twice or without a score.
use mathlib.Core.Path.{subst}
use signal_map.Common.{
  All-map, ℕ, ◌+◌, ◌≤◌, ◌≡◌, refl, Bool, true, false, ◌||◌, List, [], ◌∷◌, any, leb, ltb, ◌==◌,
  length, Text, same_text, All, In, inl, inr, ◌⊎◌, arith, Bool-cases, if◌then◌else◌,
}
use signal_map.Passages.{
  Scored, zip, insert_scored, sort_scored, take_passages, select_passages, candidates_of,
  split_sentences,
}

abbrev pub total_chars : List Text → ℕ
total_chars [] = 0
total_chars (t ∷ ts) = length t + total_chars ts

-- No text is the same as an earlier one.
abbrev pub HasNoRepeat : List Text → Type 0
HasNoRepeat [] = Unit
HasNoRepeat (t ∷ ts) = All (λ u. same_text u t ≡ false) ts × HasNoRepeat ts

-- A candidate with a score above zero.
abbrev pub HasScore : List Scored → Text → Type 0
HasScore ranked c = (score : ℕ) × (1 ≤ score) × In (c, score) ranked

HasScore-later :
    (x : Scored) (ranked : List Scored) (c : Text) → HasScore ranked c → HasScore (x ∷ ranked) c
HasScore-later x ranked c (s, p, m) = (s, p, inr m)

not_seen :
    (d c : Text) (seen : List Text)
    → any (same_text d) (c ∷ seen) ≡ false
    → any (same_text d) seen ≡ false
not_seen d c seen h = ground (arith, h)

not_first :
    (d c : Text) (seen : List Text) → any (same_text d) (c ∷ seen) ≡ false → same_text d c ≡ false
not_first d c seen h = ground (arith, h)

-- What the loop selects after `seen`: within its bounds, new, and with a score.
abbrev Selects : ℕ → ℕ → List Text → ℕ → List Scored → List Text → Type 0
Selects k max_chars seen total ranked out =
    (length seen + length out ≤ k)
    × (total + total_chars out ≤ max_chars)
    × All (λ c. any (same_text c) seen ≡ false) out
    × HasNoRepeat out
    × All (HasScore ranked) out

take_passages-Selects :
    (k max_chars : ℕ) (seen : List Text) (total : ℕ) (ranked : List Scored)
    → length seen ≤ k
    → total ≤ max_chars
    → Selects k max_chars seen total ranked (take_passages k max_chars seen total ranked)
unfolding take_passages
take_passages-Selects k max_chars seen total [] h l =
    (omega (arith, h), omega (arith, l), tt, tt, tt)
take_passages-Selects k max_chars seen total ((c, score) ∷ rest) h l =
    elim (Bool-cases ((score == 0) || leb k (length seen))) [
      | inl ends ↦
          subst (Selects k max_chars seen total ((c, score) ∷ rest)) {x = []} (ground (arith, ends))
            (omega (arith, h), omega (arith, l), tt, tt, tt)
      | inr goes ↦ elim (Bool-cases (any (same_text c) seen || ltb max_chars (total + length c))) [
        | inl passed ↦
            let (a, b, new, once, scored) = take_passages-Selects k max_chars seen total rest h l in
            subst (Selects k max_chars seen total ((c, score) ∷ rest))
              {x = take_passages k max_chars seen total rest} (ground (arith, goes, passed))
              (
                a,
                b,
                new,
                once,
                All-map (HasScore rest) (HasScore ((c, score) ∷ rest)) _
                    (HasScore-later (c, score) rest) scored,
              )
        | inr taken ↦
            let (a, b, new, once, scored) =
              take_passages-Selects k max_chars (c ∷ seen) (total + length c) rest
                (ground (arith, goes)) (ground (arith, taken)) in
            let out = take_passages k max_chars (c ∷ seen) (total + length c) rest in
            subst (Selects k max_chars seen total ((c, score) ∷ rest)) {x = c ∷ out}
              (ground (arith, goes, taken))
              (
                omega (arith, a),
                omega (arith, b),
                (ground (arith, taken), All-map _ _ out (λ d. not_seen d c seen) new),
                (All-map _ _ out (λ d. not_first d c seen) new, once),
                (
                  (score, ground (arith, goes), inl refl),
                  All-map (HasScore rest) (HasScore ((c, score) ∷ rest)) out
                      (HasScore-later (c, score) rest) scored,
                ),
              )
      ]
    ]

insert_scored-In : (x y : Scored) (ys : List Scored) → In y (insert_scored x ys) → (y ≡ x) ⊎ In y ys
unfolding insert_scored
insert_scored-In x y [] (inl e) = inl e
insert_scored-In x y [] (inr m) = absurd m
insert_scored-In x y (z ∷ zs) m = go (insert_scored-In x y zs) (leb z.1 x.1) m
  where
    go :
        (In y (insert_scored x zs) → (y ≡ x) ⊎ In y zs)
        → (b : Bool) → In y (if b then x ∷ (z ∷ zs) else z ∷ insert_scored x zs)
        → (y ≡ x) ⊎ In y (z ∷ zs)
    go rest true (inl e) = inl e
    go rest true (inr n) = inr n
    go rest false (inl e) = inr (inl e)
    go rest false (inr n) = elim (rest n) [ inl e ↦ inl e | inr o ↦ inr (inr o) ]

sort_scored-In : (xs : List Scored) (y : Scored) → In y (sort_scored xs) → In y xs
unfolding sort_scored
sort_scored-In [] y m = m
sort_scored-In (x ∷ xs) y m = elim (insert_scored-In x y (sort_scored xs) m) [
  | inl e ↦ inl e
  | inr n ↦ inr (sort_scored-In xs y n)
]

-- The passages for the judge: at most `k`, at most `max_chars` characters in all, none twice, and each is
-- a sentence of the page, or two that follow each other, with a score above zero.
pub select_passages-bounds :
    (is_space : ℕ → Bool) (bm25_scores : Text → List Text → List ℕ) (claim source : Text)
    (k max_chars : ℕ)
    → let candidates = candidates_of (split_sentences is_space source) in
      let out = select_passages is_space bm25_scores claim source k max_chars in
      (length out ≤ k)
      × (total_chars out ≤ max_chars)
      × HasNoRepeat out
      × All (HasScore (zip candidates (bm25_scores claim candidates))) out
unfolding select_passages
select_passages-bounds is_space bm25_scores claim source k max_chars =
    let candidates = candidates_of (split_sentences is_space source) in
    let scored = zip candidates (bm25_scores claim candidates) in
    let (a, b, new, once, found) =
      take_passages-Selects k max_chars [] 0 (sort_scored scored) (omega arith) (omega arith) in
    (
      omega (arith, a),
      omega (arith, b),
      once,
      All-map (HasScore (sort_scored scored)) (HasScore scored) _
          (λ c (s, p, m). (s, p, sort_scored-In scored (c, s) m)) found,
    )
