-- ===== src/Quote/Match/Verdict.antt =====
-- The verdict of `match_quote`, of what each chunk of the quote is found as.
use signal_map.Common.{
  ◌≡◌, refl, sym, ap, ◌∙◌, Bool, true, some, List, [], ◌∷◌, arith, Text, ok, >>=-eq-ok, inr, ◌⊎◌,
  In, length, select, All, ◌<◌,
}
use signal_map.Quote.Normal.{TextTools}
use signal_map.Quote.Chunks.{split_into_chunks}
use signal_map.Quote.Match.{
  Block, ChunkMatch, is_found, all_exact, find_chunks, match_chunks, match_quote, QuoteMatchResult,
  verified_exact, verified_normalized, partially_found, nothing_found, verdict_of,
  summarize_fragments,
}
use signal_map.Quote.Match.Fragments.{
  select-le, select-all_exact, find_chunks-long, find_chunks-all_exact, find_chunks-StandsIn,
  find_chunks-is_found, find_chunks-one_found, find_chunks-one_missing, find_chunks-none_found,
}
use signal_map.Quote.Match.Found.{StandsIn, Resembles}

all_exact-verdict_of :
    (ms : List ChunkMatch)
    → 0 < length ms
    → all_exact ms ≡ true
    → verdict_of ms (select is_found ms) ≡ verified_exact
unfolding verdict_of
all_exact-verdict_of [] l h = absurd (omega (arith, l))
all_exact-verdict_of (m ∷ ms) l h = let e = select-all_exact (m ∷ ms) h in rw e (ground (arith, h))

exact-verdict_of :
    (ms : List ChunkMatch)
    → verdict_of ms (select is_found ms) ≡ verified_exact
    → all_exact ms ≡ true
unfolding verdict_of
exact-verdict_of ms h = ground (arith, h)

-- a verified verdict leaves no fragment out
verified-verdict_of :
    (ms : List ChunkMatch)
    → (verdict_of ms (select is_found ms) ≡ verified_exact)
      ⊎ (verdict_of ms (select is_found ms) ≡ verified_normalized)
    → length (select is_found ms) ≡ length ms
unfolding verdict_of
verified-verdict_of ms h = let l = select-le ms in ground (arith, h, l)

nothing-verdict_of :
    (ms : List ChunkMatch)
    → verdict_of ms (select is_found ms) ≡ nothing_found
    → select is_found ms ≡ []
unfolding verdict_of
nothing-verdict_of ms h = ground (arith, h)

-- some fragments found, and not all
partial-verdict_of :
    (ms : List ChunkMatch)
    → verdict_of ms (select is_found ms) ≡ partially_found
    → (0 < length (select is_found ms)) × (length (select is_found ms) < length ms)
unfolding verdict_of
partial-verdict_of ms h = go (select is_found ms) h
  where
    go :
        (found : List ChunkMatch)
        → verdict_of ms found ≡ partially_found
        → (0 < length found) × (length found < length ms)
    go [] e = absurd (ground (arith, e))
    go (f ∷ fs) e = (ground (arith, e), ground (arith, e))

module _ (tools : TextTools) (matching_blocks : Text → Text → List Block) (source_text : Text) where
  match_chunks-returns :
      (chunks : List Text) {r : QuoteMatchResult}
      → match_chunks tools matching_blocks chunks source_text ≡ ok (some r)
      → (c : Text) × (cs : List Text) × (ms : List ChunkMatch) × (chunks ≡ c ∷ cs)
        × (find_chunks tools matching_blocks (c ∷ cs) source_text ≡ ok ms)
        × (r ≡ summarize_fragments ms)
  unfolding match_chunks
  match_chunks-returns [] h = absurd (ground (arith, h))
  match_chunks-returns (c ∷ cs) h =
      let (ms, f, g) = >>=-eq-ok (find_chunks tools matching_blocks (c ∷ cs) source_text) _ h in
      (c, cs, ms, refl, f, ground (arith, g))

  match_quote-returns :
      (quote : Text) (is_perplexity : Bool) {r : QuoteMatchResult}
      → match_quote tools matching_blocks quote is_perplexity source_text ≡ ok (some r)
      → (c : Text) × (cs : List Text) × (ms : List ChunkMatch) × (split_into_chunks tools quote
            is_perplexity
          ≡ c ∷ cs)
        × (find_chunks tools matching_blocks (c ∷ cs) source_text ≡ ok ms)
        × (r ≡ summarize_fragments ms)
  unfolding match_quote
  match_quote-returns quote is_perplexity h =
      match_chunks-returns (split_into_chunks tools quote is_perplexity) h

-- What the verdict of a quote says of its chunks, in the normal form: verified_exact exactly when each
-- stands in the page; verified_normalized only if each stands there or resembles a window of the
-- page, with a similarity of at least 0.9 and the same sequences of digits; partially_found only if one
-- chunk stands there or resembles a window, and one does not stand there; not_found only if none stands
-- there.
pub match_quote-verdict :
    (tools : TextTools) (matching_blocks : Text → Text → List Block) (quote : Text)
    (is_perplexity : Bool) (source_text : Text) (r : QuoteMatchResult)
    → match_quote tools matching_blocks quote is_perplexity source_text ≡ ok (some r)
    → let chunks = split_into_chunks tools quote is_perplexity in
      (r.verdict ≡ verified_exact → All (λ c. StandsIn tools c source_text) chunks)
      × (All (λ c. StandsIn tools c source_text) chunks → r.verdict ≡ verified_exact)
      × (r.verdict ≡ verified_normalized
          → All
              (λ c. StandsIn tools c source_text ⊎ Resembles tools matching_blocks c source_text)
              chunks)
      × (r.verdict ≡ partially_found
          → ((c : Text) × In c chunks
              × (StandsIn tools c source_text ⊎ Resembles tools matching_blocks c source_text))
            × ((c : Text) × In c chunks × ¬ StandsIn tools c source_text))
      × (r.verdict ≡ nothing_found → All (λ c. ¬ StandsIn tools c source_text) chunks)
unfolding summarize_fragments
match_quote-verdict tools blocks quote is_perplexity source_text r h =
    let (c, cs, ms, e, f, g) = match_quote-returns tools blocks source_text quote is_perplexity h in
    let v : r.verdict ≡ verdict_of ms (select is_found ms) =
      ap (λ (q : QuoteMatchResult). q.verdict) g in
    rw e (
      (λ x.
          find_chunks-all_exact tools blocks source_text (c ∷ cs) ms f
            (exact-verdict_of ms (sym v ∙ x))),
      (λ x.
          v
          ∙ all_exact-verdict_of ms (find_chunks-long tools blocks source_text c cs ms f)
              (find_chunks-StandsIn tools blocks source_text (c ∷ cs) ms f x)),
      (λ x.
          find_chunks-is_found tools blocks source_text (c ∷ cs) ms f
            (verified-verdict_of ms (inr (sym v ∙ x)))),
      (λ x.
          let (some_found, not_all) = partial-verdict_of ms (sym v ∙ x) in
          (
            find_chunks-one_found tools blocks source_text (c ∷ cs) ms f some_found,
            find_chunks-one_missing tools blocks source_text (c ∷ cs) ms f not_all,
          )),
      (λ x.
          find_chunks-none_found tools blocks source_text (c ∷ cs) ms f
            (nothing-verdict_of ms (sym v ∙ x))),
    )
