-- ===== src/Citations/Check.antt =====
-- `verify_citations_by_quote`: for each citation a verdict, nothing, or one left for the job's retry.
-- Every verdict is committed at once, so an exception keeps those before it.
use text.Mathlib.Text.{◌==◌ as str_eq}
use signal_map.Common.{
  ℕ, ◌+◌, String, Bool, true, false, ◌&&◌, ◌||◌, Option, none, some, List, [], ◌∷◌, ◌++◌, leb, ◌==◌,
  if◌then◌else◌, any, Text, length, same_text, Result, ok, raised,
}
use signal_map.Quote.Match.{
  match_quote, QuoteMatchResult, QuoteVerdict, verified_exact, verified_normalized,
}
use signal_map.Citations.Tables.{
  Citation, SourceText, SourceDocument, archive, quote, Verdict, of_quote, page_changed,
  archive_only, unverifiable, CitationVerification, Evidence, ArchiveSnapshot, ArchivedContent,
  Reply, reply, archive_unavailable, failed, ArchiveClient, Library, ResponseToCheck,
}
use signal_map.Citations.Lookup.{is_perplexity, locate, locate_page}

-- `sanitize_extracted_text`: no NUL, and U+FFFD for a lone surrogate
unfoldable pub sanitize_extracted_text : Text → Text
sanitize_extracted_text [] = []
sanitize_extracted_text (c ∷ t) =
    if c == 0
    then sanitize_extracted_text t
    else (if leb 0xd800 c && leb c 0xdfff then 0xfffd else c) ∷ sanitize_extracted_text t

abbrev pub is_page_gone : String → Bool
is_page_gone reason = str_eq reason "http_404" || str_eq reason "http_410"

-- what a pass is given besides the response: `since`, `final_attempt`, `now`, whether the deadline has
-- passed when the i-th citation is reached, and archive.org where there is a client
pub record PassOptions : Type 0 where
  pub since : Option ℕ
  pub final_attempt : Bool
  pub now : ℕ
  pub is_past_deadline : ℕ → Bool
  pub archive : Option ArchiveClient

module _ (lib : Library) (response : ResponseToCheck) (options : PassOptions) where
  -- INSERT … ON CONFLICT (sha256) DO NOTHING
  abbrev add_text : Text → Text → List SourceText → List SourceText
  add_text sha256 t texts =
      if any (λ (s : SourceText). same_text s.sha256 sha256) texts
      then texts
      else texts ++ (record { sha256 = sha256; text = t; chars = length t } ∷ [])

  abbrev archive_document : Evidence → String → ArchiveSnapshot → ArchivedContent → SourceDocument
  archive_document db requested_url snapshot content = record {
    id = db.next_document_id;
    requested_url = requested_url;
    final_url = some snapshot.view_url;
    method = archive;
    archive_timestamp = some snapshot.archive_timestamp;
    http_status = some 200;
    error_reason = none;
    text_sha256 = some (lib.sha256 (sanitize_extracted_text content.text));
    page_starts = content.page_starts;
    locations = content.locations;
    fetched_at = options.now;
  }

  unfoldable pub store_archive_document :
      Evidence → String → ArchiveSnapshot → ArchivedContent → Evidence × SourceDocument
  unfolding sanitize_extracted_text
  store_archive_document db requested_url snapshot content =
      let document = archive_document db requested_url snapshot content in
      let t = sanitize_extracted_text content.text in
      (
        record db {
          source_texts = add_text (lib.sha256 t) t db.source_texts;
          source_documents = db.source_documents ++ (document ∷ []);
          next_document_id = db.next_document_id + 1;
        },
        document,
      )

  abbrev pub is_verified : QuoteVerdict → Bool
  is_verified v = elim v [ verified_exact ↦ true | verified_normalized ↦ true | _ ↦ false ]

  -- the part after the snapshot's content is there
  unfoldable pub match_archived :
      Evidence
      → String
      → Text
      → ArchiveSnapshot
      → ArchivedContent
      → Evidence × Reply (Option (SourceDocument × QuoteMatchResult))
  unfolding store_archive_document
  match_archived db url quote_text snapshot content =
      elim (match_quote lib.tools lib.matching_blocks quote_text
        (is_perplexity response.provider_code) content.text) [
          | raised e ↦ (db, failed e)
          | ok none ↦ (db, reply none)
          | ok (some result) ↦
              if is_verified result.verdict
              then (let stored = store_archive_document db url snapshot content in
                  (stored.0, reply (some (stored.1, result))))
              else (db, reply none)
        ]

  unfoldable pub try_archive_fallback :
      Evidence
      → ArchiveClient
      → Citation
      → String
      → Text
      → Evidence × Reply (Option (SourceDocument × QuoteMatchResult))
  unfolding match_archived
  try_archive_fallback db client citation url quote_text =
      elim (client.find_closest_snapshot citation response.started_at) [
        | archive_unavailable ↦ (db, archive_unavailable)
        | failed e ↦ (db, failed e)
        | reply none ↦ (db, reply none)
        | reply (some snapshot) ↦ elim (client.fetch_snapshot_content citation snapshot) [
          | archive_unavailable ↦ (db, archive_unavailable)
          | failed e ↦ (db, failed e)
          | reply none ↦ (db, reply none)
          | reply (some content) ↦ match_archived db url quote_text snapshot content
        ]
      ]

  -- `_row`, and its insert
  abbrev pub row :
      Evidence
      → Citation
      → SourceDocument
      → Verdict
      → Option String
      → Option QuoteMatchResult
      → CitationVerification
  row db citation document verdict reason result = record {
    id = db.next_verification_id;
    citation_id = citation.id;
    source_document_id = some document.id;
    claim = lib.derive_claim citation;
    check_type = quote;
    verdict = verdict;
    reason = reason;
    similarity = elim result [
      | none ↦ none
      | some r ↦ elim r.similarity [ none ↦ none | some s ↦ some (lib.to_thousandths s) ]
    ];
    matched_text = elim result [ none ↦ none | some r ↦ r.matched_text ];
    match_start = elim result [ none ↦ none | some r ↦ r.match_start ];
    match_end = elim result [ none ↦ none | some r ↦ r.match_end ];
    page_number = elim result [
      | none ↦ none
      | some r ↦ locate_page r.match_start document.page_starts
    ];
    location = elim result [ none ↦ none | some r ↦ locate r.match_start document.locations ];
    fragments = elim result [ none ↦ none | some r ↦ some r.fragments ];
    created_at = lib.server_time db.next_verification_id;
  }

  unfoldable pub add_row :
      Evidence
      → Citation
      → SourceDocument
      → Verdict
      → Option String
      → Option QuoteMatchResult
      → Evidence
  unfolding locate locate_page
  add_row db citation document verdict reason result = record db {
    verifications = db.verifications ++ (row db citation document verdict reason result ∷ []);
    next_verification_id = db.next_verification_id + 1;
  }

  -- `_archive_unavailable`: what it adds to `archive_deferred`
  unfoldable pub leave_for_retry : Evidence → Citation → SourceDocument → Evidence × Result ℕ
  unfolding add_row
  leave_for_retry db citation document =
      if options.final_attempt
      then (add_row db citation document unverifiable (some "archive_unavailable") none, ok 0)
      else (db, ok 1)

  -- a capture that failed, by what the archive has said
  unfoldable pub conclude_failed :
      Evidence × Reply (Option (SourceDocument × QuoteMatchResult))
      → Citation
      → SourceDocument
      → String
      → Evidence × Result ℕ
  unfolding leave_for_retry
  conclude_failed (db, archive_unavailable) citation document reason =
      leave_for_retry db citation document
  conclude_failed (db, failed e) citation document reason = (db, raised e)
  conclude_failed (db, reply none) citation document reason =
      (add_row db citation document unverifiable (some reason) none, ok 0)
  conclude_failed (db, reply (some (found, result))) citation document reason =
      (add_row db citation found archive_only none (some result), ok 0)

  -- a page that does not have the quote, by what the archive has said
  unfoldable pub conclude_not_found :
      Evidence × Reply (Option (SourceDocument × QuoteMatchResult))
      → Citation
      → SourceDocument
      → QuoteMatchResult
      → Evidence × Result ℕ
  unfolding leave_for_retry
  conclude_not_found (db, archive_unavailable) citation document result =
      leave_for_retry db citation document
  conclude_not_found (db, failed e) citation document result = (db, raised e)
  conclude_not_found (db, reply none) citation document result =
      (add_row db citation document (of_quote result.verdict) none (some result), ok 0)
  conclude_not_found (db, reply (some (found, archive_result))) citation document result =
      (add_row db citation found page_changed none (some archive_result), ok 0)
