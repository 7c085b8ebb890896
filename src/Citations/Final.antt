-- ===== src/Citations/Final.antt =====
-- The last attempt at a job leaves no citation for the archive, so the job ends.
use signal_map.Common.{
  ℕ, suc, ◌+◌, ◌≤◌, ◌≡◌, ◌≢◌, refl, Bool, true, List, [], ◌∷◌, arith, Result, ok, raised,
  Bool-cases, Result-cases, inl, inr, ◌||◌, select, ◌==◌,
}
use signal_map.Store.{VerificationJob, other_kind}
use signal_map.Jobs.{JobSteps, process_verification_job}
use signal_map.Jobs.Outcome.{IsFinal, IsSettledJob, process_verification_job_settles}
use signal_map.Citations.Tables.{Citation, Evidence, Library, ResponseToCheck}
use signal_map.Citations.Lookup.{is_anthropic, is_perplexity}
use signal_map.Citations.Check.{PassOptions}
use signal_map.Citations.Pass.{
  check_citation, check_citations, verify_citations_by_quote, QuoteCheckOutcome,
}
use signal_map.Citations.Round.{Round}
use signal_map.Citations.Round.Steps.{check_citation-Round}

-- the step of a job's attempt: the pass, by whether the attempt is the last
unfoldable pub quote_step :
    Library → ResponseToCheck → PassOptions → Evidence → Bool → Result (Bool × ℕ)
quote_step lib response options db final =
    elim (verify_citations_by_quote lib response (record options { final_attempt = final }) db).1 [
      | raised e ↦ raised e
      | ok outcome ↦ ok (outcome.complete, outcome.archive_deferred)
    ]

module _ (lib : Library) (response : ResponseToCheck) (options : PassOptions)
    (final : options.final_attempt ≡ true) where
  check_citation-final :
      (db : Evidence) (c : Citation) (n : ℕ)
      → (check_citation lib response options db c).1 ≡ ok n
      → n ≡ 0
  check_citation-final db c n h = go (check_citation-Round lib response options db c)
    where
      go : Round lib response options db c (check_citation lib response options db c) → n ≡ 0
      go (Round.skipped e) = ground (arith, e, h)
      go (Round.stopped x e) = absurd (ground (arith, e, h))
      go (Round.left f e) = absurd (ground (arith, f, final))
      go (Round.wrote url q d document stored verdict reason result u t new l b e) =
          ground (arith, e, h)

  check_citations-final :
      (i : ℕ) (db : Evidence) (deferred : ℕ) (cs : List Citation) (outcome : QuoteCheckOutcome)
      → (check_citations lib response options i db deferred cs).1 ≡ ok outcome
      → outcome.archive_deferred ≡ deferred
  unfolding check_citations
  check_citations-final i db deferred [] outcome h = ground (arith, h)
  check_citations-final i db deferred (c ∷ cs) outcome h =
      elim (Bool-cases (options.is_past_deadline i)) [
        | inl late ↦ ground (arith, h, late)
        | inr early ↦ elim (Result-cases (check_citation lib response options db c).1) [
          | inl (x, e) ↦ absurd (ground (arith, h, early, e))
          | inr (n, e) ↦
              let z = check_citation-final db c n e in
              let rest =
                check_citations-final (suc i) (check_citation lib response options db c).0
                  (deferred + n) cs outcome (ground (arith, h, early, e)) in
              omega (arith, rest, z)
        ]
      ]

  verify-final :
      (db : Evidence) (outcome : QuoteCheckOutcome)
      → (verify_citations_by_quote lib response options db).1 ≡ ok outcome
      → outcome.archive_deferred ≡ 0
  unfolding verify_citations_by_quote
  verify-final db outcome h =
      elim (Bool-cases
        (is_anthropic response.provider_code || is_perplexity response.provider_code)) [
          | inl p ↦
              check_citations-final 0 db 0
                (select (λ (c : Citation). c.raw_response_id == response.id) db.citations) outcome
                (ground (arith, h, p))
          | inr p ↦ ground (arith, h, p)
        ]

quote_step-IsFinal :
    (lib : Library) (response : ResponseToCheck) (options : PassOptions) (db : Evidence)
    (steps : JobSteps)
    → IsFinal (record steps { verify_citations = quote_step lib response options db })
unfolding quote_step
quote_step-IsFinal lib response options db steps complete n h =
    elim (Result-cases
      (verify_citations_by_quote lib response (record options { final_attempt = true }) db).1) [
        | inl (x, e) ↦ absurd (ground (arith, h, e))
        | inr (outcome, e) ↦
            let z =
              verify-final lib response (record options { final_attempt = true }) refl db outcome
                e in
            ground (arith, h, e, z)
      ]

-- A first or later attempt at a capture or judge job whose quote check is `verify_citations_by_quote`
-- returns a job that is done or in error, finished now, or deferred to a later time before its third
-- attempt, whatever archive.org, the captures and the judge do: on the last attempt the check leaves no
-- citation for the archive.
pub process_verification_job-quote_step :
    (lib : Library) (response : ResponseToCheck) (options : PassOptions) (db : Evidence)
    (steps : JobSteps) (job : VerificationJob) (now : ℕ)
    → 1 ≤ job.attempts
    → job.kind ≢ other_kind
    → (job' : VerificationJob) × (process_verification_job
          (record steps { verify_citations = quote_step lib response options db })
          job
          now
        ≡ ok job')
      × IsSettledJob now job job'
process_verification_job-quote_step lib response options db steps job now first known =
    process_verification_job_settles
      (record steps { verify_citations = quote_step lib response options db }) job now
      (quote_step-IsFinal lib response options db steps) first known
