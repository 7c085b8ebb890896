-- ===== src/Citations/Meaning.antt =====
-- Each verdict that a round adds says what it should.
use mathlib.Core.Path.{subst}
use signal_map.Common.{
  ℕ, String, Text, ◌≡◌, refl, sym, ap, ◌∙◌, Option, some, List, In, [], ◌∷◌, ◌++◌, arith, Result,
  ok, inl, inr, ◌⊎◌,
}
use signal_map.Quote.Match.{QuoteMatchResult, nothing_found}
use signal_map.Quote.Match.Verdict.{match_quote-verdict}
use signal_map.Citations.Tables.{
  Citation, SourceText, SourceDocument, Verdict, quote, CitationVerification, Evidence, Library,
  ResponseToCheck,
}
use signal_map.Citations.Lookup.{
  is_perplexity, non_empty_url, non_empty_text, cited_text, latest_source_document,
}
use signal_map.Citations.Check.{PassOptions, add_row, row, store_archive_document}
use signal_map.Citations.Pass.{check_citation}
use signal_map.Citations.Round.{
  matched, IsArchived, IsBased, on_capture, on_short_quote, on_failure, on_silence, on_gone_page,
  on_changed_page, Round, skipped, stopped, left, wrote,
}
use signal_map.Citations.Round.Steps.{check_citation-Round}
use signal_map.Citations.Resume.{IsBased-verifications}
use signal_map.Citations.Says.{HasNone, Says, IsFromArchive, verified_nearly, Says-of_quote}

last_In : (x : SourceDocument) (xs : List SourceDocument) → In x (xs ++ (x ∷ []))
last_In x [] = inl refl
last_In x (y ∷ xs) = inr (last_In x xs)

module _ (lib : Library) (response : ResponseToCheck) where
  module _ (options : PassOptions) where
    archived_id :
        (db stored : Evidence) {citation : Citation} {url : String} {quote_text : Text}
        {found : SourceDocument} {r : QuoteMatchResult}
        → IsArchived lib response options db citation url quote_text stored found r
        → found.id ≡ db.next_document_id
    unfolding store_archive_document
    archived_id db stored h = ap (λ (p : Evidence × SourceDocument). p.1.id) h.is_stored

    from_archive :
        (citation : Citation) (db after stored : Evidence) {url : String} {quote_text : Text}
        {found : SourceDocument} {r : QuoteMatchResult}
        → (a : IsArchived lib response options db citation url quote_text stored found r)
        → after.source_documents ≡ stored.source_documents
        → IsFromArchive lib response options citation db after a.content
    unfolding store_archive_document
    from_archive citation db after stored {url} {found = found} a o = (
      a.client,
      a.snapshot,
      found,
      a.has_client,
      a.is_closest,
      a.is_fetched,
      subst (In found) (sym o) (
          subst (In found)
            (sym (ap (λ (p : Evidence × SourceDocument). p.0.source_documents) a.is_stored))
            (subst (λ x. In found (db.source_documents ++ (x ∷ [])))
              (ap (λ (p : Evidence × SourceDocument). p.1) a.is_stored)
              (last_In found db.source_documents))),
      archived_id db stored a,
      ap (λ (p : Evidence × SourceDocument). p.1.text_sha256) a.is_stored,
    )

    Says-row :
        (citation : Citation) (db after : Evidence) (url : String) (quote_text : Text)
        (d document : SourceDocument) (stored : Evidence) (verdict : Verdict)
        (reason : Option String) (result : Option QuoteMatchResult) (v : CitationVerification)
        → v.source_document_id ≡ some document.id
        → v.reason ≡ reason
        → after.source_documents ≡ stored.source_documents
        → IsBased lib response options db citation url quote_text d stored document verdict reason
            result
        → Says lib response options citation db after quote_text d v verdict
    Says-row citation db after url quote_text d document stored verdict reason result v i w o
          (on_capture t r e f m s x y z) =
        rw y (
          Says-of_quote lib response options citation db after quote_text d t r v f m
            (i ∙ ap (λ (k : SourceDocument). some k.id) x) r.verdict refl)
    Says-row citation db after url quote_text d document stored verdict reason result v i w o
          (on_short_quote t e f m s x y z) =
        rw y (i ∙ ap (λ (k : SourceDocument). some k.id) x, (λ n. ground (arith, n, w, z)))
    Says-row citation db after url quote_text d document stored verdict reason result v i w o
          (on_failure s x y z n) =
        rw y (i ∙ ap (λ (k : SourceDocument). some k.id) x, (λ k. n (sym w ∙ k)))
    Says-row citation db after url quote_text d document stored verdict reason result v i w o
          (on_silence s x k y z) =
        rw y (i ∙ ap (λ (k : SourceDocument). some k.id) x, (λ n. ground (arith, n, w, z)))
    Says-row citation db after url quote_text d document stored verdict reason result v i w o
          (on_gone_page why r e g a y z) =
        rw y (
          why,
          a.content,
          e,
          g,
          verified_nearly lib response options quote_text a.content.text r a.is_matched a.has_quote,
          from_archive citation db after stored a o,
          i ∙ ap some (archived_id db stored a),
        )
    Says-row citation db after url quote_text d document stored verdict reason result v i w o
          (on_changed_page t live r e f m n a y z) =
        rw y (
          t,
          a.content,
          f,
          nothing_there t live m n,
          verified_nearly lib response options quote_text a.content.text r a.is_matched a.has_quote,
          from_archive citation db after stored a o,
          i ∙ ap some (archived_id db stored a),
        )
      where
        nothing_there :
            (t : SourceText) (live : QuoteMatchResult)
            → matched lib response options quote_text t.text ≡ ok (some live)
            → live.verdict ≡ nothing_found
            → HasNone lib response quote_text t.text
        nothing_there t live m n =
            let (all, back, nearly, part, none_there) =
              match_quote-verdict lib.tools lib.matching_blocks quote_text
                (is_perplexity response.provider_code) t.text live m in
            none_there n

-- One round of the check adds no verdict, or one quote verdict of the citation, about a non-empty cited
-- text and the newest capture of the citation's URL. verified_exact says that each chunk of the text
-- stands in the captured text, in the normal form; verified_normalized, that each stands there or
-- resembles a window of it; partially_found, that one stands there or resembles a window, and one does
-- not stand there; not_found, that none stands there; page_changed, that none stands there but each
-- stands in, or resembles a window of, the content of the snapshot that the archive gives for the
-- citation; archive_only, that the capture failed with http_404 or http_410 and the same of the
-- snapshot; unverifiable has a reason. The row names the capture, but for page_changed and archive_only,
-- where it names a new document of the table, with the hash of the snapshot's sanitized text. A chunk
-- resembles a window where their similarity is at least 0.9 and their sequences of digits are the same.
pub check_citation-Says :
    (lib : Library) (response : ResponseToCheck) (options : PassOptions) (db : Evidence)
    (c : Citation)
    → let after = (check_citation lib response options db c).0 in
      (after.verifications ≡ db.verifications)
      ⊎ ((v : CitationVerification) × (url : String) × (quote_text : Text) × (d : SourceDocument)
          × (after.verifications ≡ db.verifications ++ (v ∷ []))
          × (v.citation_id ≡ c.id)
          × (v.check_type ≡ quote)
          × (non_empty_url c.source_url ≡ some url)
          × (non_empty_text (cited_text c response.provider_code response.output) ≡ some quote_text)
          × (latest_source_document db.source_documents url ≡ some d)
          × Says lib response options c db after quote_text d v v.verdict)
unfolding add_row
check_citation-Says lib response options db c = go (check_citation-Round lib response options db c)
  where
    after : Evidence
    after = (check_citation lib response options db c).0

    rows :
        (r : Evidence × Result ℕ)
        → check_citation lib response options db c ≡ r
        → after.verifications ≡ r.0.verifications
    rows r e = ap (λ (x : Evidence × Result ℕ). x.0.verifications) e

    documents :
        (r : Evidence × Result ℕ)
        → check_citation lib response options db c ≡ r
        → after.source_documents ≡ r.0.source_documents
    documents r e = ap (λ (x : Evidence × Result ℕ). x.0.source_documents) e

    go :
        Round lib response options db c (check_citation lib response options db c)
        → (after.verifications ≡ db.verifications)
          ⊎ ((v : CitationVerification) × (url : String) × (quote_text : Text)
              × (d : SourceDocument) × (after.verifications ≡ db.verifications ++ (v ∷ []))
              × (v.citation_id ≡ c.id)
              × (v.check_type ≡ quote)
              × (non_empty_url c.source_url ≡ some url)
              × (non_empty_text (cited_text c response.provider_code response.output)
                  ≡ some quote_text)
              × (latest_source_document db.source_documents url ≡ some d)
              × Says lib response options c db after quote_text d v v.verdict)
    go (skipped e) = inl (rows _ e)
    go (stopped x e) = inl (rows _ e)
    go (left f e) = inl (rows _ e)
    go (wrote url q d document stored verdict reason result u t new l b e) =
        let v = row lib response options stored c document verdict reason result in
        inr (
          v,
          url,
          q,
          d,
          rows _ e
              ∙ ap (λ vs. vs ++ (v ∷ [])) (IsBased-verifications lib response options db stored b),
          refl,
          refl,
          u,
          t,
          l,
          Says-row lib response options c db after url q d document stored verdict reason result v
              refl refl (documents _ e) b,
        )
