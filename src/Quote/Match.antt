-- ===== src/Quote/Match.antt =====
-- `find_chunk` and `match_quote`: exact in the normal form, else a window that is similar and keeps the
-- numbers. `SequenceMatcher.ratio` is 2 M / T, of the blocks that it matches, and is kept as a fraction.
pub mod Ranges
pub mod Found
pub mod Fragments
pub mod Verdict
use signal_map.Common.{
  ℕ, zero, suc, ◌+◌, ◌-◌, ◌*◌, Bool, true, false, ◌&&◌, ◌||◌, not, Option, none, some, List, [],
  ◌∷◌, ◌++◌, map, leb, ltb, ◌==◌, if◌then◌else◌, length, Text, take, drop, slice, run_length,
  same_text, find, select, All, min, Result, ok, raised, ◌>>=◌,
}
use signal_map.Quote.Normal.{TextTools, NormalizedText, normalize, to_original_range}
use signal_map.Quote.Chunks.{split_into_chunks}

-- a Match of difflib
pub record Block : Type 0 where
  pub a : ℕ
  pub b : ℕ
  pub size : ℕ

pub record Similarity : Type 0 where
  pub num : ℕ
  pub den : ℕ

abbrev pub exact_similarity : Similarity
exact_similarity = record { num = 1; den = 1 }

-- `ratio < _SIMILARITY_THRESHOLD`, which is 0.9
unfoldable pub is_below_threshold : Similarity → Bool
is_below_threshold s = ltb (10 * s.num) (9 * s.den)

pub data MatchKind : Type 0 where
  exact fuzzy not_found : MatchKind

pub record ChunkMatch : Type 0 where
  pub chunk : Text
  pub kind : MatchKind
  pub similarity : Option Similarity
  pub matched_text : Option Text
  pub match_start : Option ℕ
  pub match_end : Option ℕ

pub data QuoteVerdict : Type 0 where
  verified_exact verified_normalized partially_found nothing_found : QuoteVerdict

pub record QuoteMatchResult : Type 0 where
  pub verdict : QuoteVerdict
  pub fragments : List ChunkMatch
  pub matched_text : Option Text
  pub match_start : Option ℕ
  pub match_end : Option ℕ
  pub similarity : Option Similarity

-- `max(blocks, key=size, default=None)`: the first of the largest
unfoldable pub longest_of : Block → List Block → Block
longest_of b [] = b
longest_of b (c ∷ cs) = longest_of (if ltb b.size c.size then c else b) cs

abbrev pub longest : List Block → Option Block
longest [] = none
longest (b ∷ bs) = some (longest_of b bs)

abbrev total_size : List Block → ℕ
total_size [] = 0
total_size (b ∷ bs) = b.size + total_size bs

abbrev missing : Text → ChunkMatch
missing chunk = record {
  chunk = chunk;
  kind = not_found;
  similarity = none;
  matched_text = none;
  match_start = none;
  match_end = none;
}

abbrev located : Text → MatchKind → Similarity → Text → ℕ × ℕ → ChunkMatch
located chunk kind ratio source_text (start, end) = record {
  chunk = chunk;
  kind = kind;
  similarity = some ratio;
  matched_text = some (slice source_text start end);
  match_start = some start;
  match_end = some end;
}

unfoldable pub is_found : ChunkMatch → Bool
is_found m = elim m.kind [ not_found ↦ false | _ ↦ true ]

unfoldable pub is_exact : ChunkMatch → Bool
is_exact m = elim m.kind [ exact ↦ true | _ ↦ false ]

abbrev all_exact : List ChunkMatch → Bool
all_exact [] = true
all_exact (m ∷ ms) = is_exact m && all_exact ms

-- the smaller of two fractions
abbrev min_similarity : Similarity → Similarity → Similarity
min_similarity s t = if ltb (t.num * s.den) (s.num * t.den) then t else s

abbrev min_of : Option Similarity → Option Similarity → Option Similarity
min_of none t = t
min_of (some s) none = some s
min_of (some s) (some t) = some (min_similarity s t)

abbrev min_similarities : List ChunkMatch → Option Similarity
min_similarities [] = none
min_similarities (m ∷ ms) = min_of m.similarity (min_similarities ms)

-- the verdict of the fragments, and of those that were found
unfoldable pub verdict_of : List ChunkMatch → List ChunkMatch → QuoteVerdict
verdict_of fragments [] = nothing_found
verdict_of fragments (f ∷ fs) =
    if ltb (length (f ∷ fs)) (length fragments)
    then partially_found
    else if all_exact fragments
    then verified_exact
    else verified_normalized

-- `primary` is the first found
abbrev of_first {ℓ} : {A : Type ℓ} → (ChunkMatch → Option A) → List ChunkMatch → Option A
of_first f [] = none
of_first f (m ∷ ms) = f m

unfoldable pub summarize_fragments : List ChunkMatch → QuoteMatchResult
unfolding verdict_of
summarize_fragments fragments =
    let found = select is_found fragments in
    record {
      verdict = verdict_of fragments found;
      fragments = fragments;
      matched_text = of_first (λ (m : ChunkMatch). m.matched_text) found;
      match_start = of_first (λ (m : ChunkMatch). m.match_start) found;
      match_end = of_first (λ (m : ChunkMatch). m.match_end) found;
      similarity = min_similarities found;
    }

module _ (tools : TextTools) where
  -- `_DIGIT_SEQUENCE_RE.findall`, with the sequence that is being read
  abbrev end_run : Text → List Text → List Text
  end_run [] rest = rest
  end_run (d ∷ ds) rest = (d ∷ ds) ∷ rest

  unfoldable pub digit_runs : Text → Text → List Text
  digit_runs run [] = end_run run []
  digit_runs run (c ∷ t) =
      if tools.is_digit c then digit_runs (run ++ (c ∷ [])) t else end_run run (digit_runs [] t)

  abbrev same_texts : List Text → List Text → Bool
  same_texts [] [] = true
  same_texts [] (t ∷ ts) = false
  same_texts (s ∷ ss) [] = false
  same_texts (s ∷ ss) (t ∷ ts) = same_text s t && same_texts ss ts

  unfoldable pub numbers_preserved : Text → Text → Bool
  numbers_preserved chunk window = same_texts (digit_runs [] chunk) (digit_runs [] window)

  module _ (matching_blocks : Text → Text → List Block) where
    -- `SequenceMatcher(None, candidate, chunk).ratio()`; 1.0 for two empty texts
    unfoldable pub ratio : Text → Text → Similarity
    ratio candidate chunk =
        if length candidate + length chunk == 0 then exact_similarity else record {
          num = 2 * total_size (matching_blocks candidate chunk);
          den = length candidate + length chunk;
        }

    -- the window of the chunk's length around the longest block: where it starts and ends
    unfoldable pub window_around : Text → Text → Block → ℕ × ℕ
    window_around chunk source b =
        let end = min (length source) ((b.a - b.b) + length chunk) in (end - length chunk, end)

    unfoldable pub similar_window : Text → Text → ℕ × ℕ → Option ((ℕ × ℕ) × Similarity)
    similar_window chunk source (start, end) =
        let r = ratio (slice source start end) chunk in
        if is_below_threshold r then none else some ((start, end), r)

    unfoldable pub best_fuzzy_window : Text → Text → Option ((ℕ × ℕ) × Similarity)
    unfolding window_around similar_window
    best_fuzzy_window [] source = none
    best_fuzzy_window (c ∷ chunk) source = elim (longest (matching_blocks source (c ∷ chunk))) [
      | none ↦ none
      | some b ↦
          if b.size == 0
          then none
          else similar_window (c ∷ chunk) source (window_around (c ∷ chunk) source b)
    ]

    -- the fuzzy half of `find_chunk`
    unfoldable pub find_similar : Text → Text → NormalizedText → NormalizedText → Result ChunkMatch
    unfolding best_fuzzy_window
    find_similar chunk source_text c s = elim (best_fuzzy_window c.text s.text) [
      | none ↦ ok (missing chunk)
      | some ((start, end), r) ↦
          if numbers_preserved c.text (slice s.text start end)
          then (to_original_range s start end (length source_text)
              >>= (λ range. ok (located chunk fuzzy r source_text range)))
          else ok (missing chunk)
    ]

    unfoldable pub find_chunk : Text → Text → Result ChunkMatch
    find_chunk chunk source_text =
        let c = normalize tools chunk in
        let s = normalize tools source_text in
        elim (find s.text c.text) [
          | some i ↦
              (to_original_range s i (i + length c.text) (length source_text)
                >>= (λ range. ok (located chunk exact exact_similarity source_text range)))
          | none ↦ find_similar chunk source_text c s
        ]

    unfoldable pub find_chunks : List Text → Text → Result (List ChunkMatch)
    find_chunks [] source_text = ok []
    find_chunks (c ∷ cs) source_text = do
      m ← find_chunk c source_text
      ms ← find_chunks cs source_text
      ok (m ∷ ms)

    -- None where no chunk is long enough to check
    unfoldable pub match_chunks : List Text → Text → Result (Option QuoteMatchResult)
    unfolding summarize_fragments
    match_chunks [] source_text = ok none
    match_chunks (c ∷ cs) source_text = do
      fragments ← find_chunks (c ∷ cs) source_text
      ok (some (summarize_fragments fragments))

    unfoldable pub match_quote : Text → Bool → Text → Result (Option QuoteMatchResult)
    unfolding match_chunks
    match_quote quote is_perplexity source_text =
        match_chunks (split_into_chunks tools quote is_perplexity) source_text
