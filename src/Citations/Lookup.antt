-- ===== src/Citations/Lookup.antt =====
-- What the quote check looks up: the text to check, earlier verdicts, the newest capture, and where a
-- match stands in it.
use text.Mathlib.Text.{◌==◌ as str_eq}
use signal_map.Common.{
  ℕ, ◌+◌, String, Bool, true, false, ◌&&◌, Option, none, some, List, [], ◌∷◌, leb, ltb, ◌==◌,
  if◌then◌else◌, any, Text, find_first, same_text,
}
use signal_map.Citations.Tables.{
  Citation, SearchResult, PayloadItem, SourceText, SourceDocument, CheckType, quote,
  CitationVerification, Location, Place, Evidence,
}

abbrev is_text : Option String → String → Bool
is_text none s = false
is_text (some t) s = str_eq t s

-- the first result of the URL, and its snippet, which may be null
abbrev result_of : String → List (Option SearchResult) → Option SearchResult
result_of url [] = none
result_of url (none ∷ rs) = result_of url rs
result_of url (some r ∷ rs) = if is_text r.url url then some r else result_of url rs

unfoldable pub perplexity_snippet : List (Option PayloadItem) → String → Option Text
perplexity_snippet [] url = none
perplexity_snippet (none ∷ items) url = perplexity_snippet items url
perplexity_snippet (some item ∷ items) url =
    let rest = perplexity_snippet items url in
    if item.is_search_results
    then elim (result_of url item.results) [ some r ↦ r.snippet | none ↦ rest ]
    else rest

abbrev pub is_anthropic : String → Bool
is_anthropic provider_code = str_eq provider_code "anthropic"

abbrev pub is_perplexity : String → Bool
is_perplexity provider_code = str_eq provider_code "perplexity"

-- `if not url` and `if not quote_text`: None and the empty text
abbrev pub non_empty_url : Option String → Option String
non_empty_url none = none
non_empty_url (some url) = if str_eq url "" then none else some url

abbrev pub non_empty_text : Option Text → Option Text
non_empty_text none = none
non_empty_text (some []) = none
non_empty_text (some (c ∷ t)) = some (c ∷ t)

unfoldable pub cited_text : Citation → String → List (Option PayloadItem) → Option Text
unfolding perplexity_snippet
cited_text citation provider_code output =
    if is_anthropic provider_code
    then citation.source_passage
    else if is_perplexity provider_code
    then elim (non_empty_url citation.source_url) [
      | none ↦ none
      | some url ↦ perplexity_snippet output url
    ]
    else none

abbrev pub is_quote : CheckType → Bool
is_quote c = elim c [ quote ↦ true | _ ↦ false ]

-- a quote verdict on the citation, from `since` on
unfoldable pub is_quote_since : ℕ → ℕ → CitationVerification → Bool
is_quote_since citation_id since v =
    (v.citation_id == citation_id) && (is_quote v.check_type && leb since v.created_at)

unfoldable pub has_verification_since : Evidence → ℕ → ℕ → Bool
has_verification_since db citation_id since =
    any (is_quote_since citation_id since) db.verifications

-- ORDER BY fetched_at DESC LIMIT 1
abbrev pub fetched_later : SourceDocument → Option SourceDocument → SourceDocument
fetched_later d none = d
fetched_later d (some e) = if ltb d.fetched_at e.fetched_at then e else d

unfoldable pub latest_source_document : List SourceDocument → String → Option SourceDocument
latest_source_document [] url = none
latest_source_document (d ∷ ds) url =
    let rest = latest_source_document ds url in
    if str_eq d.requested_url url then some (fetched_later d rest) else rest

unfoldable pub find_text : List SourceText → Option Text → Option SourceText
find_text texts none = none
find_text texts (some sha256) = find_first (λ (t : SourceText). same_text t.sha256 sha256) texts

-- `locate`: where the match starts, or nothing
abbrev spans : ℕ → Location → Bool
spans start l = leb l.start start && ltb start l.end

abbrev place_at : ℕ → List Location → Option Place
place_at start [] = none
place_at start (l ∷ ls) = if spans start l then some l.place else place_at start ls

unfoldable pub locate : Option ℕ → Option (List Location) → Option Place
locate none locations = none
locate (some start) none = none
locate (some start) (some locations) = place_at start locations

-- `locate_page`: the last of the pages, counted from 1, before one that starts later
abbrev last_page : ℕ → ℕ → ℕ → List ℕ → ℕ
last_page start i page_index [] = page_index
last_page start i page_index (s ∷ ss) =
    if leb s start then last_page start (i + 1) i ss else page_index

unfoldable pub locate_page : Option ℕ → Option (List ℕ) → Option ℕ
locate_page none page_starts = none
locate_page (some start) none = none
locate_page (some start) (some []) = none
locate_page (some start) (some (s ∷ ss)) = some (last_page start 0 0 (s ∷ ss) + 1)
