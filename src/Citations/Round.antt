-- ===== src/Citations/Round.antt =====
-- One round of the loop, in full: no row, one left for the retry, an exception, or one row whose verdict
-- rests on the newest capture of the citation's URL, or on a snapshot of the archive.
pub mod Archived
pub mod Steps
use mathlib.Core.Path.{subst}
use signal_map.Common.{
  ℕ, suc, ◌+◌, List, [], ◌∷◌, ◌≡◌, ◌≢◌, refl, String, Bool, true, false, Option, none, some, Text,
  Result, ok, raised, Exc, Bool-cases, Option-cases, Result-cases, inl, inr, arith, if◌then◌else◌,
  if_split, attribute_error,
}
use signal_map.Quote.Match.{match_quote, QuoteMatchResult, nothing_found}
use signal_map.Citations.Tables.{
  Citation, SourceText, SourceDocument, Verdict, of_quote, page_changed, archive_only, unverifiable,
  Evidence, ArchiveSnapshot, ArchivedContent, Reply, reply, archive_unavailable, failed, Library,
  ResponseToCheck, ArchiveClient,
}
use signal_map.Citations.Lookup.{
  is_perplexity, non_empty_url, non_empty_text, cited_text, latest_source_document, find_text,
}
use signal_map.Citations.Check.{
  PassOptions, is_page_gone, is_verified, store_archive_document, match_archived,
  try_archive_fallback, add_row, leave_for_retry, conclude_failed, conclude_not_found,
}
use signal_map.Citations.Pass.{
  is_nothing_found, is_done_since, ask_archive, check_failed, check_result, check_document,
  check_citation, check_citations, QuoteCheckOutcome,
}

module _ (lib : Library) (response : ResponseToCheck) (options : PassOptions) where
  -- the outcome of matching a quote with a text
  abbrev pub matched : Text → Text → Result (Option QuoteMatchResult)
  matched quote_text source =
      match_quote lib.tools lib.matching_blocks quote_text (is_perplexity response.provider_code)
        source

  -- The archive's snapshot for the citation, with the whole quote in its content, stored as the newest document of the URL.
  pub record IsArchived (db : Evidence) (citation : Citation) (url : String) (quote_text : Text)
      (stored : Evidence) (found : SourceDocument) (result : QuoteMatchResult) : Type 0 where
    pub client : ArchiveClient
    pub snapshot : ArchiveSnapshot
    pub content : ArchivedContent
    pub has_client : options.archive ≡ some client
    pub is_closest :
        client.find_closest_snapshot citation response.started_at ≡ reply (some snapshot)
    pub is_fetched : client.fetch_snapshot_content citation snapshot ≡ reply (some content)
    pub is_stored :
        (stored, found) ≡ store_archive_document lib response options db url snapshot content
    pub is_matched : matched quote_text content.text ≡ ok (some result)
    pub has_quote : is_verified lib response options result.verdict ≡ true

  -- What a row rests on: the state that it is added to, its document, verdict, reason and result. The
  -- document `d` is the newest capture.
  pub data IsBased (db : Evidence) (citation : Citation) (url : String) (quote_text : Text)
      (d : SourceDocument) (stored : Evidence) (document : SourceDocument) (verdict : Verdict)
      (reason : Option String) (result : Option QuoteMatchResult) : Type 0 where
    on_capture :
        (t : SourceText) (r : QuoteMatchResult)
        → d.error_reason ≡ none
        → find_text db.source_texts d.text_sha256 ≡ some t
        → matched quote_text t.text ≡ ok (some r)
        → stored ≡ db
        → document ≡ d
        → verdict ≡ of_quote r.verdict
        → result ≡ some r
        → IsBased db citation url quote_text d stored document verdict reason result
    on_short_quote :
        (t : SourceText)
        → d.error_reason ≡ none
        → find_text db.source_texts d.text_sha256 ≡ some t
        → matched quote_text t.text ≡ ok none
        → stored ≡ db
        → document ≡ d
        → verdict ≡ unverifiable
        → reason ≡ some "no_checkable_text"
        → IsBased db citation url quote_text d stored document verdict reason result
    on_failure :
        stored ≡ db
        → document ≡ d
        → verdict ≡ unverifiable
        → d.error_reason ≡ reason
        → reason ≢ none
        → IsBased db citation url quote_text d stored document verdict reason result
    on_silence :
        stored ≡ db
        → document ≡ d
        → options.final_attempt ≡ true
        → verdict ≡ unverifiable
        → reason ≡ some "archive_unavailable"
        → IsBased db citation url quote_text d stored document verdict reason result
    on_gone_page :
        (why : String) (r : QuoteMatchResult)
        → d.error_reason ≡ some why
        → is_page_gone why ≡ true
        → IsArchived db citation url quote_text stored document r
        → verdict ≡ archive_only
        → result ≡ some r
        → IsBased db citation url quote_text d stored document verdict reason result
    on_changed_page :
        (t : SourceText) (live r : QuoteMatchResult)
        → d.error_reason ≡ none
        → find_text db.source_texts d.text_sha256 ≡ some t
        → matched quote_text t.text ≡ ok (some live)
        → live.verdict ≡ nothing_found
        → IsArchived db citation url quote_text stored document r
        → verdict ≡ page_changed
        → result ≡ some r
        → IsBased db citation url quote_text d stored document verdict reason result

  pub data Round (db : Evidence) (citation : Citation) (r : Evidence × Result ℕ) : Type 0 where
    skipped : r ≡ (db, ok 0) → Round db citation r
    stopped : (e : Exc) → r ≡ (db, raised e) → Round db citation r
    left : options.final_attempt ≡ false → r ≡ (db, ok 1) → Round db citation r
    wrote :
        (url : String) (quote_text : Text) (d document : SourceDocument) (stored : Evidence)
        (verdict : Verdict) (reason : Option String) (result : Option QuoteMatchResult)
        → non_empty_url citation.source_url ≡ some url
        → non_empty_text (cited_text citation response.provider_code response.output)
          ≡ some quote_text
        → is_done_since lib response options db citation ≡ false
        → latest_source_document db.source_documents url ≡ some d
        → IsBased db citation url quote_text d stored document verdict reason result
        → r ≡ (add_row lib response options stored citation document verdict reason result, ok 0)
        → Round db citation r
