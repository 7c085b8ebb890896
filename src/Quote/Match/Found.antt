-- ===== src/Quote/Match/Found.antt =====
-- What a chunk that `find_chunk` has found says of the page: it stands there in the normal form, or a
-- similar window with the same numbers does.
use signal_map.Common.{
  ℕ, ◌+◌, ◌≡◌, refl, true, false, ◌==◌, none, some, List, [], ◌∷◌, arith, Text, same_text, slice,
  find, find_sound, find_complete, Occurs, Option-cases, Bool-cases, ok, >>=-eq-ok, inl, inr, ◌⊎◌,
  length,
}
use signal_map.Quote.Normal.{TextTools, NormalizedText, normalize, to_original_range}
use signal_map.Quote.Match.{
  Block, ChunkMatch, exact, fuzzy, Similarity, exact_similarity, missing, located,
  is_below_threshold, ratio, longest, window_around, similar_window, best_fuzzy_window, is_exact,
  is_found, digit_runs, same_texts, numbers_preserved, find_similar, find_chunk,
}

same_text_sound : (s t : Text) → same_text s t ≡ true → s ≡ t
same_text_sound [] [] h = refl
same_text_sound [] (b ∷ t) h = absurd (ground (arith, h))
same_text_sound (a ∷ s) [] h = absurd (ground (arith, h))
same_text_sound (a ∷ s) (b ∷ t) h =
    let e = same_text_sound s t (ground (arith, h)) in ground (arith, h, e)

module _ (tools : TextTools) where
  same_texts_sound : (ss ts : List Text) → same_texts tools ss ts ≡ true → ss ≡ ts
  same_texts_sound [] [] h = refl
  same_texts_sound [] (b ∷ t) h = absurd (ground (arith, h))
  same_texts_sound (a ∷ s) [] h = absurd (ground (arith, h))
  same_texts_sound (a ∷ s) (b ∷ t) h =
      let e = same_texts_sound s t (ground (arith, h)) in
      let f = same_text_sound a b (ground (arith, h)) in ground (arith, e, f)

  -- The chunk stands in the page, both in their normal form.
  abbrev pub StandsIn : Text → Text → Type 0
  StandsIn chunk source_text =
      Occurs (normalize tools chunk).text (normalize tools source_text).text

  module _ (matching_blocks : Text → Text → List Block) where
    -- A window of the page that has at least the threshold of 0.9 of similarity with the chunk, and the
    -- chunk's sequences of digits, both in their normal form.
    abbrev pub Resembles : Text → Text → Type 0
    Resembles chunk source_text =
        let c = (normalize tools chunk).text in
        let s = (normalize tools source_text).text in
        (start : ℕ) × (end : ℕ) × (is_below_threshold
            (ratio tools matching_blocks (slice s start end) c)
          ≡ false)
        × (digit_runs tools [] c ≡ digit_runs tools [] (slice s start end))

    similar_window-IsSimilar :
        (chunk source : Text) (p q start end : ℕ) (r : Similarity)
        → similar_window tools matching_blocks chunk source (p, q) ≡ some ((start, end), r)
        → is_below_threshold (ratio tools matching_blocks (slice source start end) chunk) ≡ false
    unfolding similar_window
    similar_window-IsSimilar chunk source p q start end r h =
        elim (Bool-cases
          (is_below_threshold (ratio tools matching_blocks (slice source p q) chunk))) [
            | inl e ↦ absurd (ground (arith, h, e))
            | inr e ↦ ground (arith, h, e)
          ]

    best_fuzzy_window-IsSimilar :
        (chunk source : Text) (start end : ℕ) (r : Similarity)
        → best_fuzzy_window tools matching_blocks chunk source ≡ some ((start, end), r)
        → is_below_threshold (ratio tools matching_blocks (slice source start end) chunk) ≡ false
    unfolding best_fuzzy_window
    best_fuzzy_window-IsSimilar [] source start end r h = absurd (ground (arith, h))
    best_fuzzy_window-IsSimilar (c ∷ chunk) source start end r h =
        elim (Option-cases (longest (matching_blocks source (c ∷ chunk)))) [
          | inl e ↦ absurd (ground (arith, h, e))
          | inr (b, e) ↦ elim (Bool-cases (b.size == 0)) [
            | inl z ↦ absurd (ground (arith, h, e, z))
            | inr z ↦
                let (p, q) = window_around tools matching_blocks (c ∷ chunk) source b in
                similar_window-IsSimilar (c ∷ chunk) source p q start end r
                  (ground (arith, h, e, z))
          ]
        ]

    -- what `find_similar` returns: no match, or a similar window with the chunk's numbers
    find_similar-returns :
        (chunk source_text : Text) (c s : NormalizedText) {m : ChunkMatch}
        → find_similar tools matching_blocks chunk source_text c s ≡ ok m
        → (m ≡ missing chunk)
          ⊎ ((start : ℕ) × (end : ℕ) × (r : Similarity) × (range : ℕ × ℕ) × (is_below_threshold
                  (ratio tools matching_blocks (slice s.text start end) c.text)
                ≡ false)
              × (numbers_preserved tools c.text (slice s.text start end) ≡ true)
              × (m ≡ located chunk fuzzy r source_text range))
    unfolding find_similar
    find_similar-returns chunk source_text c s {m} h =
        elim (Option-cases (best_fuzzy_window tools matching_blocks c.text s.text)) [
          | inl e ↦ inl (ground (arith, h, e))
          | inr (((start, end), r), e) ↦
              elim (Bool-cases (numbers_preserved tools c.text (slice s.text start end))) [
                | inl kept ↦
                    let (range, f, g) =
                      >>=-eq-ok (to_original_range s start end (length source_text))
                        (λ range. ok (located chunk fuzzy r source_text range)) {returned = m}
                        (ground (arith, h, e, kept)) in
                    inr (
                      start,
                      end,
                      r,
                      range,
                      best_fuzzy_window-IsSimilar c.text s.text start end r e,
                      kept,
                      ground (arith, g),
                    )
                | inr lost ↦ inl (ground (arith, h, e, lost))
              ]
        ]

    -- what `find_chunk` returns: the place of the first occurrence, or what `find_similar` returns
    find_chunk-returns :
        (chunk source_text : Text) {m : ChunkMatch}
        → find_chunk tools matching_blocks chunk source_text ≡ ok m
        → ((i : ℕ) × (range : ℕ × ℕ) × (find
                (normalize tools source_text).text
                (normalize tools chunk).text
              ≡ some i)
            × (m ≡ located chunk exact exact_similarity source_text range))
          ⊎ ((find (normalize tools source_text).text (normalize tools chunk).text ≡ none)
              × (find_similar tools matching_blocks chunk source_text
                    (normalize tools chunk)
                    (normalize tools source_text)
                  ≡ ok m))
    unfolding find_chunk
    find_chunk-returns chunk source_text {m} h =
        let c = normalize tools chunk in
        let s = normalize tools source_text in
        elim (Option-cases (find s.text c.text)) [
          | inl e ↦ inr (e, ground (arith, h, e))
          | inr (i, e) ↦
              let (range, f, g) =
                >>=-eq-ok (to_original_range s i (i + length c.text) (length source_text))
                  (λ range. ok (located chunk exact exact_similarity source_text range))
                  {returned = m} (ground (arith, h, e)) in
              inl (i, range, e, ground (arith, g))
        ]

    pub find_chunk-exact :
        (chunk source_text : Text) (m : ChunkMatch)
        → find_chunk tools matching_blocks chunk source_text ≡ ok m
        → is_exact m ≡ true
        → StandsIn chunk source_text
    unfolding is_exact
    find_chunk-exact chunk source_text m h x = elim (find_chunk-returns chunk source_text h) [
      | inl (i, range, e, f) ↦
          let (before, after, eq, len) =
            find_sound (normalize tools source_text).text (normalize tools chunk).text i e in
          (before, after, eq)
      | inr (e, f) ↦ elim (find_similar-returns chunk source_text _ _ f) [
        | inl g ↦ absurd (ground (arith, x, g))
        | inr (start, end, r, range, near, kept, g) ↦ absurd (ground (arith, x, g))
      ]
    ]

    pub find_chunk-StandsIn :
        (chunk source_text : Text) (m : ChunkMatch)
        → find_chunk tools matching_blocks chunk source_text ≡ ok m
        → StandsIn chunk source_text
        → is_exact m ≡ true
    unfolding is_exact
    find_chunk-StandsIn chunk source_text m h (before, after, eq) =
        let (i, found) = find_complete before (normalize tools chunk).text after in
        elim (find_chunk-returns chunk source_text h) [
          | inl (j, range, e, f) ↦ ground (arith, f)
          | inr (e, f) ↦ absurd (ground (arith, e, found, eq))
        ]

    pub find_chunk-is_found :
        (chunk source_text : Text) (m : ChunkMatch)
        → find_chunk tools matching_blocks chunk source_text ≡ ok m
        → is_found m ≡ true
        → StandsIn chunk source_text ⊎ Resembles chunk source_text
    unfolding is_found is_exact numbers_preserved
    find_chunk-is_found chunk source_text m h x = elim (find_chunk-returns chunk source_text h) [
      | inl (i, range, e, f) ↦ inl (find_chunk-exact chunk source_text m h (ground (arith, f)))
      | inr (e, f) ↦ elim (find_similar-returns chunk source_text _ _ f) [
        | inl g ↦ absurd (ground (arith, x, g))
        | inr (start, end, r, range, near, kept, g) ↦
            inr (start, end, near, same_texts_sound _ _ kept)
      ]
    ]
