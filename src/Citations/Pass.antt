-- ===== src/Citations/Pass.antt =====
-- One citation after the other, in the loop of `verify_citations_by_quote`.
use signal_map.Common.{
  ℕ, suc, ◌+◌, String, Bool, true, false, ◌||◌, Option, none, some, List, [], ◌∷◌, if◌then◌else◌,
  ◌==◌, select, Text, Result, ok, raised, attribute_error,
}
use signal_map.Quote.Match.{match_quote, QuoteMatchResult, QuoteVerdict, nothing_found}
use signal_map.Citations.Tables.{
  Citation, SourceDocument, unverifiable, Evidence, Reply, reply, Library, ResponseToCheck,
}
use signal_map.Citations.Lookup.{
  is_anthropic, is_perplexity, non_empty_url, non_empty_text, cited_text, has_verification_since,
  latest_source_document, find_text,
}
use signal_map.Citations.Check.{
  PassOptions, is_page_gone, try_archive_fallback, add_row, conclude_failed, conclude_not_found,
}

-- QuoteCheckOutcome: complete, archive_deferred
pub record QuoteCheckOutcome : Type 0 where
  pub complete : Bool
  pub archive_deferred : ℕ

module _ (lib : Library) (response : ResponseToCheck) (options : PassOptions) where
  abbrev pub is_nothing_found : QuoteVerdict → Bool
  is_nothing_found v = elim v [ nothing_found ↦ true | _ ↦ false ]

  -- the archive where a client is given, and nothing otherwise
  abbrev pub ask_archive :
      Evidence
      → Citation
      → String
      → Text
      → Evidence × Reply (Option (SourceDocument × QuoteMatchResult))
  ask_archive db citation url quote_text = elim options.archive [
    | none ↦ (db, reply none)
    | some client ↦ try_archive_fallback lib response options db client citation url quote_text
  ]

  -- a capture with an `error_reason`
  unfoldable pub check_failed :
      Evidence → Citation → String → Text → SourceDocument → String → Evidence × Result ℕ
  unfolding try_archive_fallback conclude_failed
  check_failed db citation url quote_text document reason =
      conclude_failed lib response options
        (if is_page_gone reason then ask_archive db citation url quote_text else (db, reply none))
        citation document reason

  -- what `match_quote` says of the captured text
  unfoldable pub check_result :
      Evidence
      → Citation
      → String
      → Text
      → SourceDocument
      → Result (Option QuoteMatchResult)
      → Evidence × Result ℕ
  unfolding try_archive_fallback conclude_not_found add_row
  check_result db citation url quote_text document (raised e) = (db, raised e)
  check_result db citation url quote_text document (ok none) = (
    add_row lib response options db citation document unverifiable (some "no_checkable_text") none,
    ok 0,
  )
  check_result db citation url quote_text document (ok (some result)) =
      conclude_not_found lib response options
        (if is_nothing_found result.verdict
          then ask_archive db citation url quote_text
          else (db, reply none))
        citation document result

  unfoldable pub check_document :
      Evidence → Citation → String → Text → SourceDocument → Evidence × Result ℕ
  unfolding check_failed check_result
  check_document db citation url quote_text document = elim document.error_reason [
    | some reason ↦ check_failed db citation url quote_text document reason
    | none ↦ elim (find_text db.source_texts document.text_sha256) [
      | none ↦ (db, raised attribute_error)
      | some t ↦ check_result db citation url quote_text document (
          match_quote lib.tools lib.matching_blocks quote_text
            (is_perplexity response.provider_code) t.text)
    ]
  ]

  abbrev pub is_done_since : Evidence → Citation → Bool
  is_done_since db citation = elim options.since [
    | none ↦ false
    | some since ↦ has_verification_since db citation.id since
  ]

  -- one round of the loop, after the deadline: what it adds to `archive_deferred`
  unfoldable pub check_citation : Evidence → Citation → Evidence × Result ℕ
  unfolding check_document
  check_citation db citation = elim (non_empty_url citation.source_url) [
    | none ↦ (db, ok 0)
    | some url ↦
        elim (non_empty_text (cited_text citation response.provider_code response.output)) [
          | none ↦ (db, ok 0)
          | some quote_text ↦
              if is_done_since db citation
              then (db, ok 0)
              else elim (latest_source_document db.source_documents url) [
                | none ↦ (db, ok 0)
                | some document ↦ check_document db citation url quote_text document
              ]
        ]
  ]

  unfoldable pub check_citations :
      ℕ → Evidence → ℕ → List Citation → Evidence × Result QuoteCheckOutcome
  check_citations i db deferred [] =
      (db, ok (record { complete = true; archive_deferred = deferred }))
  check_citations i db deferred (c ∷ cs) =
      let checked = check_citation db c in
      elim (options.is_past_deadline i) [
        | true ↦ (db, ok (record { complete = false; archive_deferred = deferred }))
        | false ↦ elim checked.1 [
          | raised e ↦ (checked.0, raised e)
          | ok n ↦ check_citations (suc i) checked.0 (deferred + n) cs
        ]
      ]

  unfoldable pub verify_citations_by_quote : Evidence → Evidence × Result QuoteCheckOutcome
  unfolding check_citations
  verify_citations_by_quote db =
      if is_anthropic response.provider_code || is_perplexity response.provider_code
      then check_citations 0 db 0
          (select (λ (c : Citation). c.raw_response_id == response.id) db.citations)
      else (db, ok (record { complete = true; archive_deferred = 0 }))
