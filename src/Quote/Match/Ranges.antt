-- ===== src/Quote/Match/Ranges.antt =====
-- Where `find_chunk` says that a chunk stands: in the page, and without an exception.
use mathlib.Core.Path.{subst}
use signal_map.Common.{
  ℕ, ◌+◌, ◌-◌, ◌≡◌, ◌≢◌, refl, Bool, none, some, List, [], ◌∷◌, ◌++◌, arith, Text, slice, find,
  find_sound, get_elem?, get_elem?-lt, Option-cases, Bool-cases, ok, inl, inr, ◌⊎◌, length,
  length-append, ◌≤◌, ◌<◌, ◌==◌, min, ltb, if◌then◌else◌, if_split, All,
}
use signal_map.Quote.Normal.{TextTools, NormalizedText, normalize, to_original_range}
use signal_map.Quote.Offsets.{IsLowered, normalize-length, normalize-offsets, normalize-offset}
use signal_map.Quote.Chunks.{split_into_chunks}
use signal_map.Quote.Match.{
  Block, ChunkMatch, exact, fuzzy, not_found, Similarity, exact_similarity, missing, located,
  numbers_preserved, find_similar, find_chunk, best_fuzzy_window, window_around, similar_window,
  longest, longest_of, find_chunks, match_chunks, match_quote, QuoteMatchResult,
  summarize_fragments, is_below_threshold, ratio,
}

-- A match of a chunk that has a place in the page, which is not before its start or beyond its end;
-- the text of the match is the page's text there.
abbrev pub IsPlaced : Text → ChunkMatch → Type 0
IsPlaced source_text m =
    (start : ℕ) × (end : ℕ) × (start ≤ end)
    × (end ≤ length source_text)
    × (m.match_start ≡ some start)
    × (m.match_end ≡ some end)
    × (m.matched_text ≡ some (slice source_text start end))

abbrev pub IsPlacedOrMissing : Text → ChunkMatch → Type 0
IsPlacedOrMissing source_text m =
    ((m.kind ≡ not_found) × (m.match_start ≡ none) × (m.match_end ≡ none) × (m.matched_text ≡ none))
    ⊎ ((m.kind ≢ not_found) × IsPlaced source_text m)

-- difflib: a block that is not empty lies in the first text
abbrev pub IsInFirst : (Text → Text → List Block) → Type 0
IsInFirst matching_blocks =
    (s t : Text) → All (λ (b : Block). (b.size ≢ 0) → b.a + b.size ≤ length s) (matching_blocks s t)

longest_of-All :
    (n : ℕ) (b : Block) (bs : List Block)
    → (b.size ≢ 0 → b.a + b.size ≤ n)
    → All (λ (c : Block). c.size ≢ 0 → c.a + c.size ≤ n) bs
    → let l = longest_of b bs in l.size ≢ 0 → l.a + l.size ≤ n
unfolding longest_of
longest_of-All n b [] h all = h
longest_of-All n b (c ∷ cs) h (hc, all) =
    longest_of-All n (if ltb b.size c.size then c else b) cs
      (if_split (λ (d : Block). d.size ≢ 0 → d.a + d.size ≤ n) (ltb b.size c.size) (λ _. hc)
        (λ _. h))
      all

length-positive : (t : Text) → t ≢ [] → 0 < length t
length-positive [] h = absurd (h refl)
length-positive (c ∷ t) h = omega arith

-- what is found ends in the text
find-fits : (s needle : Text) (i : ℕ) → find s needle ≡ some i → i + length needle ≤ length s
find-fits s needle i h =
    let (before, after, eq, len) = find_sound s needle i h in
    rw eq (omega (arith, len, length-append before (needle ++ after), length-append needle after))

longest-All :
    (n : ℕ) (bs : List Block) {last : Block}
    → longest bs ≡ some last
    → All (λ (c : Block). c.size ≢ 0 → c.a + c.size ≤ n) bs
    → last.size ≢ 0
    → last.a + last.size ≤ n
longest-All n [] e all = absurd (ground (arith, e))
longest-All n (b ∷ bs) {last} e (h, all) =
    let same : longest_of b bs ≡ last = ground (arith, e) in
    subst (λ (c : Block). c.size ≢ 0 → c.a + c.size ≤ n) same (longest_of-All n b bs h all)

module _ (tools : TextTools) (matching_blocks : Text → Text → List Block)
    (in_first : IsInFirst matching_blocks) where
  -- a range of the normal form that starts in it has a range of the page
  to_original_range-normalize :
      (t : Text) (start end : ℕ)
      → IsLowered tools t
      → start ≤ end
      → start < length (normalize tools t).text
      → (a : ℕ) × (b : ℕ) × (to_original_range (normalize tools t) start end (length t) ≡ ok (a, b))
        × (a ≤ b)
        × (b ≤ length t)
  unfolding to_original_range
  to_original_range-normalize t start end single le lt =
      let (a, e) =
        get_elem?-lt (normalize tools t).offsets start
          (omega (arith, lt, normalize-length tools t single)) in
      let in_page = normalize-offset tools t start a e in
      elim (Option-cases (get_elem? (normalize tools t).offsets end)) [
        | inl f ↦ (a, length t, ground (arith, e, f), omega (arith, in_page), omega arith)
        | inr (b, f) ↦ (
          a,
          b,
          ground (arith, e, f),
          normalize-offsets tools t start end a b le e f,
          omega (arith, normalize-offset tools t end b f),
        )
      ]

  similar_window-eq :
      (chunk source : Text) (start end : ℕ) {w : (ℕ × ℕ) × Similarity}
      → similar_window tools matching_blocks chunk source (start, end) ≡ some w
      → w.0 ≡ (start, end)
  unfolding similar_window
  similar_window-eq chunk source start end h =
      elim (Bool-cases
        (is_below_threshold (ratio tools matching_blocks (slice source start end) chunk))) [
          | inl e ↦ absurd (ground (arith, h, e))
          | inr e ↦ ground (arith, h, e)
        ]

  window_in_source :
      (chunk source : Text) (start end : ℕ) (r : Similarity)
      → best_fuzzy_window tools matching_blocks chunk source ≡ some ((start, end), r)
      → (start ≤ end) × (start < length source)
  unfolding best_fuzzy_window window_around
  window_in_source [] source start end r h = absurd (ground (arith, h))
  window_in_source (c ∷ chunk) source start end r h =
      elim (Option-cases (longest (matching_blocks source (c ∷ chunk)))) [
        | inl e ↦ absurd (ground (arith, h, e))
        | inr (b, e) ↦ elim (Bool-cases (b.size == 0)) [
          | inl z ↦ absurd (ground (arith, h, e, z))
          | inr z ↦
              let fits =
                longest-All (length source) (matching_blocks source (c ∷ chunk)) e
                  (in_first source (c ∷ chunk)) (ground (arith, z)) in
              let w =
                similar_window-eq (c ∷ chunk) source
                  (min (length source) ((b.a - b.b) + length (c ∷ chunk)) - length (c ∷ chunk))
                  (min (length source) ((b.a - b.b) + length (c ∷ chunk))) {w = ((start, end), r)}
                  (ground (arith, h, e, z)) in
              let size : b.size ≢ 0 = ground (arith, z) in ground (arith, w, fits, size)
        ]
      ]

  found_exact :
      (chunk source_text : Text) (i : ℕ)
      → IsLowered tools source_text
      → (normalize tools chunk).text ≢ []
      → find (normalize tools source_text).text (normalize tools chunk).text ≡ some i
      → (m : ChunkMatch) × (find_chunk tools matching_blocks chunk source_text ≡ ok m)
        × IsPlacedOrMissing source_text m
  unfolding find_chunk
  found_exact chunk source_text i single h e =
      let c = normalize tools chunk in
      let s = normalize tools source_text in
      let (a, b, f, up, low) =
        to_original_range-normalize source_text i (i + length c.text) single (omega arith)
          (omega (arith, length-positive c.text h, find-fits s.text c.text i e)) in
      (
        located chunk exact exact_similarity source_text (a, b),
        ground (arith, e, f),
        inr ((λ x. cc), (a, b, up, low, refl, refl, refl)),
      )

  found_similar :
      (chunk source_text : Text) (c : NormalizedText)
      → IsLowered tools source_text
      → (m : ChunkMatch) × (find_similar tools matching_blocks chunk source_text c
            (normalize tools source_text)
          ≡ ok m)
        × IsPlacedOrMissing source_text m
  unfolding find_similar
  found_similar chunk source_text c single =
      let s = normalize tools source_text in
      elim (Option-cases (best_fuzzy_window tools matching_blocks c.text s.text)) [
        | inl e ↦ (missing chunk, ground (arith, e), inl (refl, refl, refl, refl))
        | inr (((start, end), r), e) ↦
            elim (Bool-cases (numbers_preserved tools c.text (slice s.text start end))) [
              | inl kept ↦
                  let (le, lt) = window_in_source c.text s.text start end r e in
                  let (a, b, f, up, low) =
                    to_original_range-normalize source_text start end single le lt in
                  (
                    located chunk fuzzy r source_text (a, b),
                    ground (arith, e, kept, f),
                    inr ((λ x. cc), (a, b, up, low, refl, refl, refl)),
                  )
              | inr lost ↦ (missing chunk, ground (arith, e, lost), inl (refl, refl, refl, refl))
            ]
      ]

  find_chunk-total :
      (chunk source_text : Text)
      → IsLowered tools source_text
      → (normalize tools chunk).text ≢ []
      → (m : ChunkMatch) × (find_chunk tools matching_blocks chunk source_text ≡ ok m)
        × IsPlacedOrMissing source_text m
  unfolding find_chunk
  find_chunk-total chunk source_text single h =
      elim (Option-cases (find (normalize tools source_text).text (normalize tools chunk).text)) [
        | inl e ↦
            let (m, f, g) = found_similar chunk source_text (normalize tools chunk) single in
            (m, ground (arith, e, f), g)
        | inr (i, e) ↦ found_exact chunk source_text i single h e
      ]

  find_chunks-total :
      (cs : List Text) (source_text : Text)
      → IsLowered tools source_text
      → All (λ c. (normalize tools c).text ≢ []) cs
      → (ms : List ChunkMatch) × (find_chunks tools matching_blocks cs source_text ≡ ok ms)
        × (length ms ≡ length cs)
        × All (IsPlacedOrMissing source_text) ms
  unfolding find_chunks
  find_chunks-total [] source_text single h = ([], refl, refl, tt)
  find_chunks-total (c ∷ cs) source_text single (h, hs) =
      let (m, e, p) = find_chunk-total c source_text single h in
      let (ms, f, l, ps) = find_chunks-total cs source_text single hs in
      (m ∷ ms, ground (arith, e, f), omega (arith, l), (p, ps))

-- Where `str.lower` gives one character for each that the page is expanded to, difflib's blocks lie in the first text, and no chunk
-- of the quote has an empty normal form, `match_quote` raises nothing: it returns None exactly when the
-- quote has no chunk, and otherwise one fragment for each chunk, which is either not found, with no
-- place, or has a place in the page, with the page's text there.
pub match_quote-total :
    (tools : TextTools) (matching_blocks : Text → Text → List Block) (quote : Text)
    (is_perplexity : Bool) (source_text : Text)
    → IsLowered tools source_text
    → IsInFirst matching_blocks
    → All (λ c. (normalize tools c).text ≢ []) (split_into_chunks tools quote is_perplexity)
    → ((split_into_chunks tools quote is_perplexity ≡ [])
        × (match_quote tools matching_blocks quote is_perplexity source_text ≡ ok none))
      ⊎ ((r : QuoteMatchResult) × (match_quote tools matching_blocks quote is_perplexity source_text
            ≡ ok (some r))
          × (length r.fragments ≡ length (split_into_chunks tools quote is_perplexity))
          × All (IsPlacedOrMissing source_text) r.fragments)
unfolding match_quote summarize_fragments
match_quote-total tools blocks quote is_perplexity source_text single in_first h =
    go (split_into_chunks tools quote is_perplexity) h
  where
    go :
        (cs : List Text)
        → All (λ c. (normalize tools c).text ≢ []) cs
        → ((cs ≡ []) × (match_chunks tools blocks cs source_text ≡ ok none))
          ⊎ ((r : QuoteMatchResult) × (match_chunks tools blocks cs source_text ≡ ok (some r))
              × (length r.fragments ≡ length cs)
              × All (IsPlacedOrMissing source_text) r.fragments)
    go [] n = inl (refl, refl)
    go (c ∷ cs) n =
        let (ms, e, l, ps) =
          find_chunks-total tools blocks in_first (c ∷ cs) source_text single n in
        inr (summarize_fragments ms, ground (arith, e), l, ps)
