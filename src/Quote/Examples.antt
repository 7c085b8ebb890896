-- ===== src/Quote/Examples.antt =====
-- Tests and instances for app/services/quote_match.py: a quote of two pieces, on a page that has both in
-- other letters.
use mathlib.Core.List.{flat_map}
use signal_map.Common.{
  In, ◌⊎◌, ℕ, ◌≡◌, ◌≢◌, refl, false, none, some, List, [], ◌∷◌, arith, Text, codes, All, length, ok,
}
use signal_map.Quote.Normal.{normalize, entity_at, expand_char, pieces, to_original_range}
use signal_map.Quote.Chunks.{split_into_chunks, separator_at}
use signal_map.Quote.Match.{
  exact, exact_similarity, find_chunk, find_chunks, is_found, is_exact, match_quote,
  QuoteMatchResult, verified_exact, verified_normalized, partially_found, nothing_found, ChunkMatch,
}
use signal_map.Quote.Samples.{ascii, page, quote, no_blocks}
use signal_map.Quote.Offsets.{IsLowered, single-IsLowered}
use signal_map.Quote.Match.Found.{StandsIn, Resembles}
use signal_map.Quote.Match.Verdict.{match_quote-verdict}
use signal_map.Quote.Match.Ranges.{IsInFirst, IsPlacedOrMissing, match_quote-total}

no_blocks-IsInFirst : IsInFirst no_blocks
no_blocks-IsInFirst s t = tt

single : (c : ℕ) → length (ascii.lower c) ≡ 1
single c = ground arith

page-IsLowered : IsLowered ascii page
page-IsLowered = single-IsLowered ascii single page

abbrev chunks : List Text
chunks = codes "the tower is 50 metres" ∷ codes "it stands in Prague today" ∷ []

abbrev tower : ChunkMatch
tower = record {
  chunk = codes "the tower is 50 metres";
  kind = exact;
  similarity = some exact_similarity;
  matched_text = some (codes "The Tower Is 50 Metres");
  match_start = some 7;
  match_end = some 29;
}

abbrev stands : ChunkMatch
stands = record {
  chunk = codes "it stands in Prague today";
  kind = exact;
  similarity = some exact_similarity;
  matched_text = some (codes "it stands in PRAGUE today");
  match_start = some 40;
  match_end = some 65;
}

abbrev result : QuoteMatchResult
result = record {
  verdict = verified_exact;
  fragments = tower ∷ stands ∷ [];
  matched_text = tower.matched_text;
  match_start = some 7;
  match_end = some 29;
  similarity = some exact_similarity;
}

quote_found : match_quote ascii no_blocks quote false page ≡ ok (some result)
unfolding match_quote split_into_chunks normalize entity_at separator_at find_chunk find_chunks
    expand_char flat_map is_found is_exact to_original_range
quote_found = refl

match_quote-verdict_example :
    let pieces = split_into_chunks ascii quote false in
    (result.verdict ≡ verified_exact → All (λ c. StandsIn ascii c page) pieces)
    × (All (λ c. StandsIn ascii c page) pieces → result.verdict ≡ verified_exact)
    × (result.verdict ≡ verified_normalized
        → All (λ c. StandsIn ascii c page ⊎ Resembles ascii no_blocks c page) pieces)
    × (result.verdict ≡ partially_found
        → ((c : Text) × In c pieces × (StandsIn ascii c page ⊎ Resembles ascii no_blocks c page))
          × ((c : Text) × In c pieces × ¬ StandsIn ascii c page))
    × (result.verdict ≡ nothing_found → All (λ c. ¬ StandsIn ascii c page) pieces)
match_quote-verdict_example =
    match_quote-verdict ascii no_blocks quote false page result quote_found

chunks_lem : split_into_chunks ascii quote false ≡ chunks
unfolding split_into_chunks separator_at
chunks_lem = refl

no_chunk_empty : All (λ c. (normalize ascii c).text ≢ []) (split_into_chunks ascii quote false)
unfolding normalize entity_at expand_char flat_map pieces
no_chunk_empty = rw chunks_lem ((λ e. cc), ((λ e. cc), tt))

match_quote-total_example :
    ((split_into_chunks ascii quote false ≡ [])
      × (match_quote ascii no_blocks quote false page ≡ ok none))
    ⊎ ((r : QuoteMatchResult) × (match_quote ascii no_blocks quote false page ≡ ok (some r))
        × (length r.fragments ≡ length (split_into_chunks ascii quote false))
        × All (IsPlacedOrMissing page) r.fragments)
match_quote-total_example =
    match_quote-total ascii no_blocks quote false page page-IsLowered no_blocks-IsInFirst
      no_chunk_empty
