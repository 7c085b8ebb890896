-- ===== src/Jobs/Outcome.antt =====
-- How an attempt at a job ends: never with an exception, and never deferred a third time.
use mathlib.Core.Path.{subst}
use signal_map.Common.{
  ℕ, zero, suc, ◌+◌, ◌≤◌, ◌<◌, ◌≡◌, ◌≢◌, ◌⊎◌, refl, sym, ap, ◌∙◌, Bool, true, false, some, arith,
  if_split, ltb, leb, inl, inr, Bool-cases, Exc, Result, ok, raised, >>=-eq-ok, ok_injective,
}
use signal_map.Store.{
  VerificationJob, JobKind, capture, judge, other_kind, job_deferred, job_done, job_error, minutes,
  job_failed, gave_up,
}
use signal_map.Jobs.{
  JobSteps, max_attempts, run_steps, run_capture, run_judge, job_backoff, defer_job, end_job,
  conclude_job, process_verification_job, capture_urls, maybe_auto_judge, citation_urls,
}

-- The last attempt leaves no citation for the archive.
abbrev pub IsFinal : JobSteps → Type 0
IsFinal steps = (complete : Bool) (n : ℕ) → steps.verify_citations true ≡ ok (complete, n) → n ≡ 0

-- Over at `now`, or deferred to a later time with attempts left.
abbrev pub IsSettledJob : ℕ → VerificationJob → VerificationJob → Type 0
IsSettledJob now before after =
    (((after.status ≡ job_done) ⊎ (after.status ≡ job_error)) × (after.finished_at ≡ some now))
    ⊎ ((after.status ≡ job_deferred)
        × (now < after.scheduled_for)
        × (before.attempts < max_attempts))

abbrev Settles : ℕ → VerificationJob → Result VerificationJob → Type 0
Settles now job r = (job' : VerificationJob) × (r ≡ ok job') × IsSettledJob now job job'

waits : (n : ℕ) → 1 ≤ n → n < max_attempts → (job_backoff n ≡ ok 1) ⊎ (job_backoff n ≡ ok 5)
unfolding job_backoff
waits zero a b = absurd (omega (arith, a))
waits (suc zero) a b = inl refl
waits (suc (suc zero)) a b = inr refl
waits (suc (suc (suc n))) a b = absurd (omega (arith, b))

deferred_early :
    (job : VerificationJob) (now : ℕ)
    → 1 ≤ job.attempts
    → job.attempts < max_attempts
    → Settles now job (defer_job job now)
unfolding defer_job
deferred_early job now first early = elim (waits job.attempts first early) [
  | inl e ↦ (
    record job { status = job_deferred; scheduled_for = now + minutes 1 },
    rw e refl,
    inr (refl, omega arith, early),
  )
  | inr e ↦ (
    record job { status = job_deferred; scheduled_for = now + minutes 5 },
    rw e refl,
    inr (refl, omega arith, early),
  )
]

-- an exception, on any attempt
raised_Settles :
    (job : VerificationJob) (now : ℕ) (e : Exc)
    → 1 ≤ job.attempts
    → Settles now job (conclude_job job now (raised e))
unfolding conclude_job end_job
raised_Settles job now e first =
    if_split (Settles now job) (leb max_attempts job.attempts)
      (λ _. (end_job job (job_failed e) now, refl, inl (inr refl, refl)))
      (λ early. deferred_early job now first (ground (arith, early)))

-- work left over, on any attempt
incomplete_Settles :
    (job : VerificationJob) (now n : ℕ) → Settles now job (conclude_job job now (ok (true, n)))
unfolding conclude_job end_job
incomplete_Settles job now n =
    if_split (Settles now job) (leb max_attempts job.attempts)
      (λ _. (end_job job (gave_up job.attempts) now, refl, inl (inr refl, refl)))
      (λ early. (
        record job { status = job_deferred; scheduled_for = now + minutes 1 },
        refl,
        inr (refl, omega arith, ground (arith, early)),
      ))

-- all done, but for the archive
complete_Settles :
    (job : VerificationJob) (now n : ℕ)
    → 1 ≤ job.attempts
    → (max_attempts ≤ job.attempts → n ≡ 0)
    → Settles now job (conclude_job job now (ok (false, n)))
unfolding conclude_job
complete_Settles job now n first final =
    if_split (Settles now job) (ltb 0 n)
      (λ some_left. elim (Bool-cases (leb max_attempts job.attempts)) [
        | inl late ↦ absurd (ground (arith, some_left, final (ground (arith, late))))
        | inr early ↦ deferred_early job now first (ground (arith, early))
      ])
      (λ _. (record job { status = job_done; finished_at = some now }, refl, inl (inl refl, refl)))

-- On the last attempt the steps leave nothing for the archive.
capture_nothing_left :
    (steps : JobSteps) {incomplete : Bool} {n : ℕ}
    → IsFinal steps
    → run_capture steps true ≡ ok (incomplete, n)
    → n ≡ 0
unfolding run_capture
capture_nothing_left steps {incomplete} {n} final h =
    let (cut, _, h1) = >>=-eq-ok (capture_urls steps 0 (citation_urls steps.source_urls)) _ h in
    let ((complete, m), quoted, h2) = >>=-eq-ok (steps.verify_citations true) _ h1 in
    let (judged, _, h3) = >>=-eq-ok (maybe_auto_judge steps) _ h2 in
    let same : m ≡ n = ap (λ (p : Bool × ℕ). p.1) (ok_injective h3) in
    sym same ∙ final complete m quoted

judge_nothing_left :
    (steps : JobSteps) {incomplete : Bool} {n : ℕ} → run_judge steps ≡ ok (incomplete, n) → n ≡ 0
unfolding run_judge
judge_nothing_left steps {incomplete} {n} h =
    let (complete, _, h1) = >>=-eq-ok steps.judge_citations _ h in
    sym (ap (λ (p : Bool × ℕ). p.1) (ok_injective h1))

le_leb : (n : ℕ) → max_attempts ≤ n → leb max_attempts n ≡ true
le_leb n h = ground (arith, h)

result_Settles :
    (job : VerificationJob) (now : ℕ) (r : Result (Bool × ℕ))
    → 1 ≤ job.attempts
    → ((incomplete : Bool) (n : ℕ) → r ≡ ok (incomplete, n) → max_attempts ≤ job.attempts → n ≡ 0)
    → Settles now job (conclude_job job now r)
result_Settles job now (raised e) first none_left = raised_Settles job now e first
result_Settles job now (ok (true, n)) first none_left = incomplete_Settles job now n
result_Settles job now (ok (false, n)) first none_left =
    complete_Settles job now n first (none_left false n refl)

capture_concludes :
    (steps : JobSteps) (job : VerificationJob) (now : ℕ)
    → job.kind ≡ capture
    → conclude_job job now (run_capture steps (leb max_attempts job.attempts))
      ≡ process_verification_job steps job now
unfolding process_verification_job run_steps
capture_concludes steps job now e = ground (arith, e)

judge_concludes :
    (steps : JobSteps) (job : VerificationJob) (now : ℕ)
    → job.kind ≡ judge
    → conclude_job job now (run_judge steps) ≡ process_verification_job steps job now
unfolding process_verification_job run_steps
judge_concludes steps job now e = ground (arith, e)

-- Where the last attempt of the quote check leaves no citation for the archive, an attempt at a claimed
-- capture or judge job always gives a result, whatever its steps do or raise: the job is done or in
-- error, finished now, or it is deferred to a later time, and deferred only before its third attempt.
pub process_verification_job_settles :
    (steps : JobSteps) (job : VerificationJob) (now : ℕ)
    → IsFinal steps
    → 1 ≤ job.attempts
    → job.kind ≢ other_kind
    → (job' : VerificationJob) × (process_verification_job steps job now ≡ ok job')
      × IsSettledJob now job job'
process_verification_job_settles steps job now final first known = by_kind job.kind refl
  where
    by_kind :
        (k : JobKind) → job.kind ≡ k → Settles now job (process_verification_job steps job now)
    by_kind capture e = subst (Settles now job) (capture_concludes steps job now e) (
        result_Settles job now (run_capture steps (leb max_attempts job.attempts)) first
          (λ incomplete n h late.
            capture_nothing_left steps final
              (ap (run_capture steps) (sym (le_leb job.attempts late)) ∙ h)))
    by_kind judge e = subst (Settles now job) (judge_concludes steps job now e) (
        result_Settles job now (run_judge steps) first
          (λ incomplete n h late. judge_nothing_left steps h))
    by_kind other_kind e = absurd (known e)
