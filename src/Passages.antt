-- ===== src/Passages.antt =====
-- app/services/passages.py: which passages of a page the judge is shown. The BM25 scores, which are
-- floats, are a parameter: numbers in the same order, and 0 for 0.0. A text is the list of its code points.
pub mod Bounds
mod Examples
use signal_map.Common.{
  ℕ, zero, suc, ◌+◌, ◌-◌, Bool, true, false, ◌&&◌, ◌||◌, Option, none, some, List, [], ◌∷◌, ◌++◌,
  any, leb, ltb, ◌==◌, if◌then◌else◌, length, Text, drop, run_length, strip, same_text, map,
}

abbrev pub default_k : ℕ
default_k = 5

abbrev pub default_max_chars : ℕ
default_max_chars = 6000

-- `(?<=[.!?])` and `(?=[A-ZÀ-ÖØ-Þ0-9„"'])`
abbrev is_in : ℕ → ℕ → ℕ → Bool
is_in a b c = leb a c && leb c b

unfoldable pub ends_sentence : ℕ → Bool
ends_sentence c = (c == 46) || ((c == 33) || (c == 63))

unfoldable pub starts_sentence : ℕ → Bool
starts_sentence c =
    is_in 65 90 c
    || (is_in 0xc0 0xd6 c
        || (is_in 0xd8 0xde c || (is_in 48 57 c || ((c == 0x201e) || ((c == 34) || (c == 39))))))

module _ (is_space : ℕ → Bool) where
  -- the length of a separator at the head of a text, after a character that ends a sentence or not
  unfoldable pub separator_length : Bool → Text → ℕ
  unfolding starts_sentence
  separator_length false t = 0
  separator_length true t =
      let n = run_length is_space t in
      elim (drop n t) [ [] ↦ 0 | d ∷ r ↦ if starts_sentence d then n else 0 ]

  -- the split: the current piece, the character before, and what is left of a separator
  unfoldable pub split_pieces : Text → Bool → ℕ → Text → List Text
  unfolding separator_length ends_sentence
  split_pieces piece after_end skip [] = piece ∷ []
  split_pieces piece after_end zero (c ∷ t) = elim (separator_length after_end (c ∷ t)) [
    | zero ↦ split_pieces (piece ++ (c ∷ [])) (ends_sentence c) 0 t
    | suc n ↦ piece ∷ split_pieces [] false n t
  ]
  split_pieces piece after_end (suc k) (c ∷ t) = split_pieces piece false k t

  -- `[s.strip() for s in … if s.strip()]`
  unfoldable pub strip_pieces : List Text → List Text
  strip_pieces [] = []
  strip_pieces (p ∷ ps) = elim (strip is_space p) [
    | [] ↦ strip_pieces ps
    | c ∷ s ↦ (c ∷ s) ∷ strip_pieces ps
  ]

  unfoldable pub split_sentences : Text → List Text
  unfolding split_pieces strip_pieces
  split_sentences t = strip_pieces (split_pieces [] false 0 (strip is_space t))

-- the sentences, and each two that follow each other
unfoldable pub adjacent_pairs : List Text → List Text
adjacent_pairs [] = []
adjacent_pairs (s ∷ []) = []
adjacent_pairs (s ∷ t ∷ ss) = (s ++ (32 ∷ t)) ∷ adjacent_pairs (t ∷ ss)

unfoldable pub candidates_of : List Text → List Text
unfolding adjacent_pairs
candidates_of sentences = sentences ++ adjacent_pairs sentences

-- `zip(candidates, scores)`
abbrev pub Scored : Type 0
Scored = Text × ℕ

unfoldable pub zip : List Text → List ℕ → List Scored
zip [] ss = []
zip (c ∷ cs) [] = []
zip (c ∷ cs) (s ∷ ss) = (c, s) ∷ zip cs ss

-- `sorted(…, key=score, reverse=True)`, which is stable
unfoldable pub insert_scored : Scored → List Scored → List Scored
insert_scored x [] = x ∷ []
insert_scored x (y ∷ ys) = if leb y.1 x.1 then x ∷ (y ∷ ys) else y ∷ insert_scored x ys

unfoldable pub sort_scored : List Scored → List Scored
unfolding insert_scored
sort_scored [] = []
sort_scored (x ∷ xs) = insert_scored x (sort_scored xs)

-- the loop: what is selected from here on, of what has been selected and its characters
unfoldable pub take_passages : ℕ → ℕ → List Text → ℕ → List Scored → List Text
take_passages k max_chars seen total [] = []
take_passages k max_chars seen total ((c, score) ∷ rest) =
    elim ((score == 0) || leb k (length seen)) [
      | true ↦ []
      | false ↦ elim (any (same_text c) seen || ltb max_chars (total + length c)) [
        | true ↦ take_passages k max_chars seen total rest
        | false ↦ c ∷ take_passages k max_chars (c ∷ seen) (total + length c) rest
      ]
    ]

unfoldable pub select_passages :
    (ℕ → Bool) → (Text → List Text → List ℕ) → Text → Text → ℕ → ℕ → List Text
unfolding split_sentences candidates_of zip sort_scored take_passages
select_passages is_space bm25_scores claim_text source_text k max_chars =
    let candidates = candidates_of (split_sentences is_space source_text) in
    take_passages k max_chars [] 0
      (sort_scored (zip candidates (bm25_scores claim_text candidates)))
