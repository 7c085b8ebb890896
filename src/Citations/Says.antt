-- ===== src/Citations/Says.antt =====
-- What a verdict says of the quote: where its chunks stand, and where they do not.
use signal_map.Common.{
  All-map, String, Text, ◌≡◌, ◌≢◌, refl, true, none, some, List, arith, ok, inl, ◌⊎◌, All, In,
}
use signal_map.Quote.Chunks.{split_into_chunks}
use signal_map.Quote.Match.{
  QuoteMatchResult, QuoteVerdict, verified_exact, verified_normalized, partially_found,
  nothing_found,
}
use signal_map.Quote.Match.Found.{StandsIn, Resembles}
use signal_map.Quote.Match.Verdict.{match_quote-verdict}
use signal_map.Citations.Tables.{
  Citation, ArchiveSnapshot, ArchiveClient, reply, SourceText, SourceDocument, Verdict, of_quote,
  page_changed, archive_only, unverifiable, of_other_check, CitationVerification, Evidence,
  ArchivedContent, Library, ResponseToCheck,
}
use signal_map.Citations.Lookup.{is_perplexity, find_text}
use signal_map.Citations.Check.{sanitize_extracted_text, PassOptions, is_page_gone, is_verified}
use signal_map.Citations.Round.{matched}

module _ (lib : Library) (response : ResponseToCheck) where
  abbrev chunks_of : Text → List Text
  chunks_of quote_text =
      split_into_chunks lib.tools quote_text (is_perplexity response.provider_code)

  -- Each chunk stands in the page; none does; each stands there, or resembles a window.
  abbrev pub HasAll : Text → Text → Type 0
  HasAll quote_text page = All (λ c. StandsIn lib.tools c page) (chunks_of quote_text)

  abbrev pub HasNone : Text → Text → Type 0
  HasNone quote_text page = All (λ c. ¬ StandsIn lib.tools c page) (chunks_of quote_text)

  abbrev pub HasAllNearly : Text → Text → Type 0
  HasAllNearly quote_text page =
      All (λ c. StandsIn lib.tools c page ⊎ Resembles lib.tools lib.matching_blocks c page)
        (chunks_of quote_text)

  -- One chunk stands there or resembles a window, and one does not stand there.
  abbrev pub HasPart : Text → Text → Type 0
  HasPart quote_text page =
      ((c : Text) × In c (chunks_of quote_text)
        × (StandsIn lib.tools c page ⊎ Resembles lib.tools lib.matching_blocks c page))
      × ((c : Text) × In c (chunks_of quote_text) × ¬ StandsIn lib.tools c page)

  -- The content is that of the snapshot which the archive gives for the citation, and `after` has a
  -- document under the next id with the hash of its text.
  abbrev pub IsFromArchive : PassOptions → Citation → Evidence → Evidence → ArchivedContent → Type 0
  IsFromArchive options citation db after content =
      (client : ArchiveClient) × (snapshot : ArchiveSnapshot) × (document : SourceDocument)
      × (options.archive ≡ some client)
      × (client.find_closest_snapshot citation response.started_at ≡ reply (some snapshot))
      × (client.fetch_snapshot_content citation snapshot ≡ reply (some content))
      × In document after.source_documents
      × (document.id ≡ db.next_document_id)
      × (document.text_sha256 ≡ some (lib.sha256 (sanitize_extracted_text content.text)))

  -- What each verdict says of the newest capture `d` of the citation's URL, of the document that the row
  -- names, and of the quote. `after` is the state that the check leaves.
  abbrev pub Says :
      PassOptions
      → Citation
      → Evidence
      → Evidence
      → Text
      → SourceDocument
      → CitationVerification
      → Verdict
      → Type 0
  Says options citation db after quote_text d v (of_quote verified_exact) =
      (v.source_document_id ≡ some d.id)
      × (t : SourceText) × (find_text db.source_texts d.text_sha256 ≡ some t)
      × HasAll quote_text t.text
  Says options citation db after quote_text d v (of_quote verified_normalized) =
      (v.source_document_id ≡ some d.id)
      × (t : SourceText) × (find_text db.source_texts d.text_sha256 ≡ some t)
      × HasAllNearly quote_text t.text
  Says options citation db after quote_text d v (of_quote partially_found) =
      (v.source_document_id ≡ some d.id)
      × (t : SourceText) × (find_text db.source_texts d.text_sha256 ≡ some t)
      × HasPart quote_text t.text
  Says options citation db after quote_text d v (of_quote nothing_found) =
      (v.source_document_id ≡ some d.id)
      × (t : SourceText) × (find_text db.source_texts d.text_sha256 ≡ some t)
      × HasNone quote_text t.text
  Says options citation db after quote_text d v page_changed =
      (t : SourceText) × (content : ArchivedContent) × (find_text db.source_texts d.text_sha256
        ≡ some t)
      × HasNone quote_text t.text
      × HasAllNearly quote_text content.text
      × IsFromArchive options citation db after content
      × (v.source_document_id ≡ some db.next_document_id)
  Says options citation db after quote_text d v archive_only =
      (why : String) × (content : ArchivedContent) × (d.error_reason ≡ some why)
      × (is_page_gone why ≡ true)
      × HasAllNearly quote_text content.text
      × IsFromArchive options citation db after content
      × (v.source_document_id ≡ some db.next_document_id)
  Says options citation db after quote_text d v unverifiable =
      (v.source_document_id ≡ some d.id) × (v.reason ≢ none)
  Says options citation db after quote_text d v of_other_check = ⊥

  pub verified_nearly :
      (options : PassOptions) (quote_text page : Text) (r : QuoteMatchResult)
      → matched lib response options quote_text page ≡ ok (some r)
      → is_verified lib response options r.verdict ≡ true
      → HasAllNearly quote_text page
  verified_nearly options quote_text page r m h = go r.verdict refl
    where
      says :
          (r.verdict ≡ verified_exact → HasAll quote_text page)
          × (HasAll quote_text page → r.verdict ≡ verified_exact)
          × (r.verdict ≡ verified_normalized → HasAllNearly quote_text page)
          × (r.verdict ≡ partially_found → HasPart quote_text page)
          × (r.verdict ≡ nothing_found → HasNone quote_text page)
      says =
          match_quote-verdict lib.tools lib.matching_blocks quote_text
            (is_perplexity response.provider_code) page r m

      normal : r.verdict ≡ verified_normalized → HasAllNearly quote_text page
      normal = let (all, back, nearly, part, none_there) = says in nearly

      go : (v : QuoteVerdict) → r.verdict ≡ v → HasAllNearly quote_text page
      go verified_exact e = All-map _ _ (chunks_of quote_text) (λ c s. inl s) (says.0 e)
      go verified_normalized e = normal e
      go partially_found e = absurd (ground (arith, h, e))
      go nothing_found e = absurd (ground (arith, h, e))

  pub Says-of_quote :
      (options : PassOptions) (citation : Citation) (db after : Evidence) (quote_text : Text)
      (d : SourceDocument) (t : SourceText) (r : QuoteMatchResult) (v : CitationVerification)
      → find_text db.source_texts d.text_sha256 ≡ some t
      → matched lib response options quote_text t.text ≡ ok (some r)
      → v.source_document_id ≡ some d.id
      → (q : QuoteVerdict) → r.verdict ≡ q
      → Says options citation db after quote_text d v (of_quote q)
  Says-of_quote options citation db after quote_text d t r v f m i q e =
      let (all, back, nearly, part, none_there) =
        match_quote-verdict lib.tools lib.matching_blocks quote_text
          (is_perplexity response.provider_code) t.text r m in
      go all nearly part none_there q e
    where
      go :
          (r.verdict ≡ verified_exact → HasAll quote_text t.text)
          → (r.verdict ≡ verified_normalized → HasAllNearly quote_text t.text)
          → (r.verdict ≡ partially_found → HasPart quote_text t.text)
          → (r.verdict ≡ nothing_found → HasNone quote_text t.text)
          → (p : QuoteVerdict) → r.verdict ≡ p
          → Says options citation db after quote_text d v (of_quote p)
      go all nearly part none_there verified_exact h = (i, t, f, all h)
      go all nearly part none_there verified_normalized h = (i, t, f, nearly h)
      go all nearly part none_there partially_found h = (i, t, f, part h)
      go all nearly part none_there nothing_found h = (i, t, f, none_there h)
