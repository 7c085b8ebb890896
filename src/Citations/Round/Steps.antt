-- ===== src/Citations/Round/Steps.antt =====
-- Each step of a round, and the loop over the rounds.
use mathlib.Core.Path.{subst}
use signal_map.Common.{
  ℕ, suc, ◌+◌, List, ◌∷◌, ◌≡◌, refl, String, true, false, Option, none, some, Text, Result, ok,
  raised, Exc, Bool-cases, Option-cases, Result-cases, inl, inr, arith, if_split, attribute_error,
}
use signal_map.Quote.Match.{QuoteMatchResult}
use signal_map.Citations.Tables.{
  Citation, SourceText, SourceDocument, Verdict, of_quote, page_changed, archive_only, unverifiable,
  Evidence, Reply, Library, ResponseToCheck,
}
use signal_map.Citations.Lookup.{
  non_empty_url, non_empty_text, cited_text, latest_source_document, find_text,
}
use signal_map.Citations.Check.{
  PassOptions, is_page_gone, add_row, leave_for_retry, conclude_failed, conclude_not_found,
}
use signal_map.Citations.Pass.{
  is_nothing_found, is_done_since, check_failed, check_result, check_document, check_citation,
  check_citations, QuoteCheckOutcome,
}
use signal_map.Citations.Round.{
  matched, IsBased, on_capture, on_short_quote, on_failure, on_silence, on_gone_page,
  on_changed_page, Round, skipped, stopped, left, wrote,
}
use signal_map.Citations.Round.Archived.{
  Asked, no_answer, broken, not_there, there, ask_archive-Asked,
}

module _ (lib : Library) (response : ResponseToCheck) (options : PassOptions) where
  -- A citation whose round has come to a document `d`.
  module _ (db : Evidence) (citation : Citation) (url : String) (quote_text : Text)
      (d : SourceDocument) (has_url : non_empty_url citation.source_url ≡ some url)
      (has_text : non_empty_text (cited_text citation response.provider_code response.output)
        ≡ some quote_text)
      (is_new : is_done_since lib response options db citation ≡ false)
      (is_latest : latest_source_document db.source_documents url ≡ some d) where
    -- a row that rests on what `IsBased` says
    based :
        (stored : Evidence) (document : SourceDocument) (verdict : Verdict) (reason : Option String)
        (result : Option QuoteMatchResult)
        → IsBased lib response options db citation url quote_text d stored document verdict reason
            result
        → Round lib response options db citation
            (add_row lib response options stored citation document verdict reason result, ok 0)
    based stored document verdict reason result h =
        wrote url quote_text d document stored verdict reason result has_url has_text is_new
          is_latest h refl

    leave_for_retry-Round :
        Round lib response options db citation (leave_for_retry lib response options db citation d)
    unfolding leave_for_retry
    leave_for_retry-Round =
        if_split (Round lib response options db citation) options.final_attempt
          (λ h.
            based db d unverifiable (some "archive_unavailable") none
              (on_silence refl refl h refl refl))
          (λ h. left h refl)

    failed_answer :
        (reason : String) (r : Evidence × Reply (Option (SourceDocument × QuoteMatchResult)))
        → d.error_reason ≡ some reason
        → is_page_gone reason ≡ true
        → Asked lib response options db citation url quote_text r
        → Round lib response options db citation
            (conclude_failed lib response options r citation d reason)
    unfolding conclude_failed
    failed_answer reason r e gone (no_answer h) = rw h leave_for_retry-Round
    failed_answer reason r e gone (broken x h) = rw h (stopped x refl)
    failed_answer reason r e gone (not_there h) =
        rw h (based db d unverifiable (some reason) none (on_failure refl refl refl e (λ n. cc)))
    failed_answer reason r e gone (there stored found result archived h) = rw h (
        based stored found archive_only none (some result)
          (on_gone_page reason result e gone archived refl refl))

    check_failed-Round :
        (reason : String)
        → d.error_reason ≡ some reason
        → Round lib response options db citation
            (check_failed lib response options db citation url quote_text d reason)
    unfolding check_failed
    check_failed-Round reason e =
        if_split
          (λ r.
            Round lib response options db citation
              (conclude_failed lib response options r citation d reason))
          (is_page_gone reason)
          (λ gone.
            failed_answer reason _ e gone
              (ask_archive-Asked lib response options db citation url quote_text))
          (λ there.
            unfold conclude_failed in
            based db d unverifiable (some reason) none (on_failure refl refl refl e (λ n. cc)))

    not_found_answer :
        (t : SourceText) (live : QuoteMatchResult)
        (r : Evidence × Reply (Option (SourceDocument × QuoteMatchResult)))
        → d.error_reason ≡ none
        → find_text db.source_texts d.text_sha256 ≡ some t
        → matched lib response options quote_text t.text ≡ ok (some live)
        → is_nothing_found lib response options live.verdict ≡ true
        → Asked lib response options db citation url quote_text r
        → Round lib response options db citation
            (conclude_not_found lib response options r citation d live)
    unfolding conclude_not_found
    not_found_answer t live r e f m none_there (no_answer h) = rw h leave_for_retry-Round
    not_found_answer t live r e f m none_there (broken x h) = rw h (stopped x refl)
    not_found_answer t live r e f m none_there (not_there h) = rw h (
        based db d (of_quote live.verdict) none (some live)
          (on_capture t live e f m refl refl refl refl))
    not_found_answer t live r e f m none_there (there stored found result archived h) = rw h (
        based stored found page_changed none (some result)
          (on_changed_page t live result e f m (ground (arith, none_there)) archived refl refl))

    check_result-Round :
        (t : SourceText) (m : Result (Option QuoteMatchResult))
        → d.error_reason ≡ none
        → find_text db.source_texts d.text_sha256 ≡ some t
        → matched lib response options quote_text t.text ≡ m
        → Round lib response options db citation
            (check_result lib response options db citation url quote_text d m)
    unfolding check_result
    check_result-Round t (raised x) e f m = stopped x refl
    check_result-Round t (ok none) e f m =
        based db d unverifiable (some "no_checkable_text") none
          (on_short_quote t e f m refl refl refl refl)
    check_result-Round t (ok (some live)) e f m =
        if_split
          (λ r.
            Round lib response options db citation
              (conclude_not_found lib response options r citation d live))
          (is_nothing_found lib response options live.verdict)
          (λ none_there.
            not_found_answer t live _ e f m none_there
              (ask_archive-Asked lib response options db citation url quote_text))
          (λ some_there.
            unfold conclude_not_found in
            based db d (of_quote live.verdict) none (some live)
              (on_capture t live e f m refl refl refl refl))

    check_document-Round :
        Round lib response options db citation
          (check_document lib response options db citation url quote_text d)
    unfolding check_document
    check_document-Round = elim (Option-cases d.error_reason) [
      | inr (reason, e) ↦
          subst (Round lib response options db citation)
            {x = check_failed lib response options db citation url quote_text d reason}
            (ground (arith, e)) (check_failed-Round reason e)
      | inl e ↦ elim (Option-cases (find_text db.source_texts d.text_sha256)) [
        | inl f ↦
            subst (Round lib response options db citation) {x = (db, raised attribute_error)}
              (ground (arith, e, f)) (stopped attribute_error refl)
        | inr (t, f) ↦
            subst (Round lib response options db citation)
              {x = check_result lib response options db citation url quote_text d
                (matched lib response options quote_text t.text)}
              (ground (arith, e, f))
              (check_result-Round t (matched lib response options quote_text t.text) e f refl)
      ]
    ]

  -- every round of the loop is one of these
  pub check_citation-Round :
      (db : Evidence) (citation : Citation)
      → Round lib response options db citation (check_citation lib response options db citation)
  unfolding check_citation
  check_citation-Round db citation = elim (Option-cases (non_empty_url citation.source_url)) [
    | inl u ↦ skipped (ground (arith, u))
    | inr (url, u) ↦
        elim (Option-cases
          (non_empty_text (cited_text citation response.provider_code response.output))) [
            | inl q ↦ skipped (ground (arith, u, q))
            | inr (quote_text, q) ↦
                elim (Bool-cases (is_done_since lib response options db citation)) [
                  | inl old ↦ skipped (ground (arith, u, q, old))
                  | inr new ↦ elim (Option-cases (latest_source_document db.source_documents url)) [
                    | inl l ↦ skipped (ground (arith, u, q, new, l))
                    | inr (d, l) ↦
                        subst (Round lib response options db citation)
                          {x = check_document lib response options db citation url quote_text d}
                          (ground (arith, u, q, new, l))
                          (check_document-Round db citation url quote_text d u q new l)
                  ]
                ]
          ]
  ]

  -- what holds where the loop stops at a citation, and where it goes on, holds of the loop
  pub check_citations-cons :
      (P : Evidence × Result QuoteCheckOutcome → Type 0) (i : ℕ) (db : Evidence) (deferred : ℕ)
      (c : Citation) (cs : List Citation)
      → P (db, ok (record { complete = false; archive_deferred = deferred }))
      → ((e : Exc) → P ((check_citation lib response options db c).0, raised e))
      → ((n : ℕ)
          → P (
              check_citations lib response options
                (suc i)
                (check_citation lib response options db c).0
                (deferred + n)
                cs))
      → P (check_citations lib response options i db deferred (c ∷ cs))
  unfolding check_citations
  check_citations-cons P i db deferred c cs late breaks goes =
      elim (Bool-cases (options.is_past_deadline i)) [
        | inl h ↦
            subst P {x = (db, ok (record { complete = false; archive_deferred = deferred }))}
              (ground (arith, h)) late
        | inr h ↦ elim (Result-cases (check_citation lib response options db c).1) [
          | inl (e, g) ↦
              subst P {x = ((check_citation lib response options db c).0, raised e)}
                (ground (arith, h, g)) (breaks e)
          | inr (n, g) ↦
              subst P
                {x = check_citations lib response options (suc i)
                  (check_citation lib response options db c).0 (deferred + n) cs}
                (ground (arith, h, g)) (goes n)
        ]
      ]
