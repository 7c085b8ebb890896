-- ===== src/Citations/Resume.antt =====
-- A retried job takes up where it stopped: no citation gets a second verdict.
use mathlib.Core.Path.{subst}
use signal_map.Common.{
  ℕ, String, Text, ◌≢◌, suc, ◌+◌, ◌≤◌, ◌≡◌, refl, Bool, false, Option, some, List, [], ◌∷◌, ◌++◌,
  arith, Result, any, count, count-append, ◌||◌, ◌==◌, if_both, select, sym, ap,
}
use signal_map.Quote.Match.{QuoteMatchResult}
use native.Mathlib.Decide.{ℕ_discrete}
use signal_map.Citations.Tables.{
  Verdict, SourceDocument, Citation, CitationVerification, Evidence, Library, ResponseToCheck,
}
use signal_map.Citations.Lookup.{
  is_quote_since, has_verification_since, is_anthropic, is_perplexity,
}
use signal_map.Citations.Check.{PassOptions, add_row, store_archive_document}
use signal_map.Citations.Pass.{
  check_citation, check_citations, verify_citations_by_quote, QuoteCheckOutcome,
}
use signal_map.Citations.Round.{Round, IsBased, IsArchived}
use signal_map.Citations.Round.Steps.{check_citation-Round, check_citations-cons}

-- No citation has two quote verdicts from `since` on.
abbrev pub IsUnrepeated : ℕ → List CitationVerification → Type 0
IsUnrepeated since vs = (citation_id : ℕ) → count (is_quote_since citation_id since) vs ≤ 1

any-count :
    (p : CitationVerification → Bool) (vs : List CitationVerification)
    → any p vs ≡ false
    → count p vs ≡ 0
any-count p [] h = refl
any-count p (v ∷ vs) h = ground (arith, h, any-count p vs (ground (arith, h)))

count_one : (p : CitationVerification → Bool) (v : CitationVerification) → count p (v ∷ []) ≤ 1
count_one p v = ground arith

other_citation :
    (since id : ℕ) (v : CitationVerification)
    → v.citation_id ≢ id
    → count (is_quote_since id since) (v ∷ []) ≡ 0
unfolding is_quote_since
other_citation since id v h = ground (arith, h)

-- one more row, of a citation that has none
IsUnrepeated-append :
    (since : ℕ) (vs : List CitationVerification) (v : CitationVerification)
    → any (is_quote_since v.citation_id since) vs ≡ false
    → IsUnrepeated since vs
    → IsUnrepeated since (vs ++ (v ∷ []))
IsUnrepeated-append since vs v h all id =
    let e = count-append (is_quote_since id since) vs (v ∷ []) in
    elim (ℕ_discrete v.citation_id id) [
      | yes same ↦
          let z : count (is_quote_since id since) vs ≡ 0 =
            subst (λ i. count (is_quote_since i since) vs ≡ 0) same
              (any-count (is_quote_since v.citation_id since) vs h) in
          omega (arith, e, z, count_one (is_quote_since id since) v)
      | no other ↦ omega (arith, e, all id, other_citation since id v other)
    ]

module _ (lib : Library) (response : ResponseToCheck) (options : PassOptions) where
  -- what the archive stores is no verdict
  IsArchived-verifications :
      (db stored : Evidence) {citation : Citation} {url : String} {quote_text : Text}
      {found : SourceDocument} {r : QuoteMatchResult}
      → IsArchived lib response options db citation url quote_text stored found r
      → stored.verifications ≡ db.verifications
  unfolding store_archive_document
  IsArchived-verifications db stored h =
      ap (λ (p : Evidence × SourceDocument). p.0.verifications) h.is_stored

  pub IsBased-verifications :
      (db stored : Evidence) {citation : Citation} {url : String} {quote_text : Text}
      {d document : SourceDocument} {verdict : Verdict} {reason : Option String}
      {result : Option QuoteMatchResult}
      → IsBased lib response options db citation url quote_text d stored document verdict reason
          result
      → stored.verifications ≡ db.verifications
  IsBased-verifications db stored (IsBased.on_capture t r e f m s _ _ _) =
      ap (λ (x : Evidence). x.verifications) s
  IsBased-verifications db stored (IsBased.on_short_quote t e f m s _ _ _) =
      ap (λ (x : Evidence). x.verifications) s
  IsBased-verifications db stored (IsBased.on_failure s _ _ _ _) =
      ap (λ (x : Evidence). x.verifications) s
  IsBased-verifications db stored (IsBased.on_silence s _ _ _ _) =
      ap (λ (x : Evidence). x.verifications) s
  IsBased-verifications db stored (IsBased.on_gone_page why r e g a _ _) =
      IsArchived-verifications db stored a
  IsBased-verifications db stored (IsBased.on_changed_page t live r e f m n a _ _) =
      IsArchived-verifications db stored a

  module _ (since : ℕ) (resumes : options.since ≡ some since) where
    add_row-IsUnrepeated :
        (db stored : Evidence) (c : Citation) (document : SourceDocument) (verdict : Verdict)
        (reason : Option String) (result : Option QuoteMatchResult)
        → stored.verifications ≡ db.verifications
        → has_verification_since db c.id since ≡ false
        → IsUnrepeated since db.verifications
        → IsUnrepeated since
            (add_row lib response options stored c document verdict reason result).verifications
    unfolding add_row has_verification_since
    add_row-IsUnrepeated db stored c document verdict reason result same new h =
        IsUnrepeated-append since stored.verifications _ (rw same new) (rw same h)

    check_citation-IsUnrepeated :
        (db : Evidence) (c : Citation)
        → IsUnrepeated since db.verifications
        → IsUnrepeated since (check_citation lib response options db c).0.verifications
    check_citation-IsUnrepeated db c h = go (check_citation-Round lib response options db c)
      where
        after :
            (r : Evidence × Result ℕ)
            → check_citation lib response options db c ≡ r
            → IsUnrepeated since r.0.verifications
            → IsUnrepeated since (check_citation lib response options db c).0.verifications
        after r e =
            subst (λ (x : Evidence × Result ℕ). IsUnrepeated since x.0.verifications) (sym e)

        go :
            Round lib response options db c (check_citation lib response options db c)
            → IsUnrepeated since (check_citation lib response options db c).0.verifications
        go (Round.skipped e) = after _ e h
        go (Round.stopped x e) = after _ e h
        go (Round.left f e) = after _ e h
        go (Round.wrote url q d document stored verdict reason result u t new l b e) = after _ e (
            add_row-IsUnrepeated db stored c document verdict reason result
              (IsBased-verifications db stored b) (ground (arith, new, resumes)) h)

    check_citations-IsUnrepeated :
        (i : ℕ) (db : Evidence) (deferred : ℕ) (cs : List Citation)
        → IsUnrepeated since db.verifications
        → IsUnrepeated since (check_citations lib response options i db deferred cs).0.verifications
    unfolding check_citations
    check_citations-IsUnrepeated i db deferred [] h = h
    check_citations-IsUnrepeated i db deferred (c ∷ cs) h =
        let here = check_citation-IsUnrepeated db c h in
        check_citations-cons lib response options
          (λ (r : Evidence × Result QuoteCheckOutcome). IsUnrepeated since r.0.verifications) i db
          deferred c cs h (λ e. here)
          (λ n.
            check_citations-IsUnrepeated (suc i) (check_citation lib response options db c).0
              (deferred + n) cs here)

-- A pass of a retried job, which is given the job's creation as `since`, leaves no citation with two
-- quote verdicts from then on, if none has two before; this holds however the pass ends: complete, cut
-- short by its deadline, or by an exception.
pub verify_citations_by_quote-IsUnrepeated :
    (lib : Library) (response : ResponseToCheck) (options : PassOptions) (since : ℕ) (db : Evidence)
    → options.since ≡ some since
    → IsUnrepeated since db.verifications
    → IsUnrepeated since (verify_citations_by_quote lib response options db).0.verifications
unfolding verify_citations_by_quote
verify_citations_by_quote-IsUnrepeated lib response options since db resumes h =
    if_both (λ (r : Evidence × Result QuoteCheckOutcome). IsUnrepeated since r.0.verifications)
      (is_anthropic response.provider_code || is_perplexity response.provider_code)
      (check_citations-IsUnrepeated lib response options since resumes 0 db 0
        (select (λ (c : Citation). c.raw_response_id == response.id) db.citations) h)
      h
