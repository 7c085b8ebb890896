-- ===== src/Quote/Chunks.antt =====
-- `split_into_chunks`: a citation's quote, cut where its provider joins pieces.
use signal_map.Common.{
  ℕ, zero, suc, ◌+◌, ◌-◌, Bool, ◌&&◌, ◌||◌, not, Option, none, some, List, [], ◌∷◌, ◌++◌, leb, ltb,
  ◌==◌, if◌then◌else◌, length, Text, drop, run_length, strip, starts_with, min,
}
use signal_map.Quote.Normal.{TextTools}

abbrev pub min_chunk_length : ℕ
min_chunk_length = 20

module _ (tools : TextTools) where
  -- `\s+·\s+`
  abbrev middle_dot_at : Text → Option ℕ
  middle_dot_at t =
      let n = run_length tools.is_space t in
      if n == 0 then none else elim (drop n t) [
        | [] ↦ none
        | c ∷ r ↦
            let m = run_length tools.is_space r in
            if (c == 0xb7) && not (m == 0) then some (n + 1 + m) else none
      ]

  -- `\n+|\|`, of Perplexity only
  abbrev line_end_at : Text → Option ℕ
  line_end_at t =
      let n = run_length (λ c. c == 10) t in
      if ltb 0 n then some n else if starts_with t (124 ∷ []) then some 1 else none

  -- the separator at the head of a text: the length of the match of the provider's pattern
  unfoldable pub separator_at : Bool → Text → Option ℕ
  separator_at is_perplexity t =
      if starts_with t (46 ∷ 46 ∷ 46 ∷ [])
      then some 3
      else if starts_with t (0x2026 ∷ [])
      then some 1
      else elim (middle_dot_at t) [
        | some n ↦ some n
        | none ↦ if is_perplexity then line_end_at t else none
      ]

  -- `pattern.split(text)`: the current piece, what of a separator is left, and the rest
  unfoldable pub split_text : Bool → Text → ℕ → Text → List Text
  split_text is_perplexity piece skip [] = piece ∷ []
  split_text is_perplexity piece zero (c ∷ t) = elim (separator_at is_perplexity (c ∷ t)) [
    | none ↦ split_text is_perplexity (piece ++ (c ∷ [])) 0 t
    | some n ↦ piece ∷ split_text is_perplexity [] (n - 1) t
  ]
  split_text is_perplexity piece (suc k) (c ∷ t) = split_text is_perplexity piece k t

  -- `_MARKDOWN_STRIP_RE` at the start of a piece, which has no newline, and elsewhere
  abbrev emphasis_at : Text → ℕ
  emphasis_at t = if starts_with t (42 ∷ 42 ∷ []) || starts_with t (95 ∷ 95 ∷ []) then 2 else 0

  abbrev marker_at : Text → ℕ
  marker_at [] = 0
  marker_at (c ∷ t) =
      if c == 35
      then (let n = min 6 (run_length (λ d. d == 35) (c ∷ t)) in
          n + run_length tools.is_space (drop n (c ∷ t)))
      else if (c == 45) || ((c == 42) || (c == 43))
      then (let n = run_length tools.is_space t in if n == 0 then 0 else n + 1)
      else 0

  unfoldable pub strip_emphasis : ℕ → Text → Text
  strip_emphasis skip [] = []
  strip_emphasis zero (c ∷ t) = elim (emphasis_at (c ∷ t)) [
    | zero ↦ c ∷ strip_emphasis 0 t
    | suc n ↦ strip_emphasis n t
  ]
  strip_emphasis (suc k) (c ∷ t) = strip_emphasis k t

  unfoldable pub strip_markdown : Text → Text
  unfolding strip_emphasis
  strip_markdown t = elim (emphasis_at t) [
    | zero ↦ strip_emphasis 0 (drop (marker_at t) t)
    | suc n ↦ strip_emphasis 0 t
  ]

  -- the pieces, cleaned, that are long enough
  unfoldable pub keep_long : Bool → List Text → List Text
  unfolding strip_markdown
  keep_long is_perplexity [] = []
  keep_long is_perplexity (p ∷ ps) =
      let cleaned = strip tools.is_space (if is_perplexity then strip_markdown p else p) in
      let rest = keep_long is_perplexity ps in
      if leb min_chunk_length (length cleaned) then cleaned ∷ rest else rest

  unfoldable pub split_into_chunks : Text → Bool → List Text
  unfolding split_text keep_long
  split_into_chunks t is_perplexity = keep_long is_perplexity (split_text is_perplexity [] 0 t)
